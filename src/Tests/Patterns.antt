-- ===== src/Tests/Patterns.antt =====
-- Patterns of LogFormatter in src/log.cpp.
use ye_cc_server.Prelude.{
  ℕ, ◌≡◌, refl, not, List, [], ◌∷◌, ◌++◌, map, none, some, ok, Outcome, fault, pos, Bytes, codes,
  All, Returns, arith, substr, size_diff,
}
use ye_cc_server.Log.Event.{Event}
use ye_cc_server.Log.Level.{Level}
use ye_cc_server.Log.Formatter.Parse.{Entry, text, code, parse, scan_body, find_close}
use ye_cc_server.Log.Formatter.Positions.{pending}
use ye_cc_server.Log.Formatter.Items.{new_formatter, format}
use ye_cc_server.Log.Formatter.Pieces.{Piece, lit, item, print, entry_of, IsPattern, parse-print}
use ye_cc_server.Log.Formatter.Total.{IsEntry, parse_total}
use ye_cc_server.Log.Formatter.Quirks.{parse_malformed}
use ye_cc_server.Log.Formatter.Nameless.{FaultsIf, uses_name, new_formatter-FaultsIf}
use ye_cc_server.Log.Formatter.Meaning.{all_known, meaning, new_formatter-print}

-- "%d{%H}%T at %m"
abbrev pieces : List Piece
pieces = item b'd' (some (codes "%H")) ∷ item b'T' none ∷ lit (codes " at ") ∷ item b'm' none ∷ []

pieces-IsPattern : IsPattern pieces
pieces-IsPattern = (
  (
    (λ e. absurd (omega (arith, e))),
    ((λ e. absurd (omega (arith, e))), ((λ e. absurd (omega (arith, e))), tt)),
  ),
  (
    ((λ e. absurd (omega (arith, e))), refl),
    (
      (
        (λ e. absurd (ground (arith, e))),
        (
          (λ e. absurd (omega (arith, e))),
          (
            (λ e. absurd (omega (arith, e))),
            ((λ e. absurd (omega (arith, e))), ((λ e. absurd (omega (arith, e))), tt)),
          ),
        ),
        refl,
      ),
      (((λ e. absurd (omega (arith, e))), refl), tt),
    ),
  ),
)

parse-print_example : parse (print pieces) ≡ ok (map entry_of pieces)
parse-print_example = parse-print pieces pieces-IsPattern (omega arith)

new_formatter-print_example :
    Returns
      (λ f.
        (f.pattern ≡ print pieces)
        × (f.is_error ≡ not (all_known pieces))
        × ((strftime : Bytes → ℕ → Bytes) (logger_name : ℕ → Outcome Bytes) (level : Level)
              (event : Event)
            → format strftime logger_name f level event
              ≡ meaning strftime logger_name level event pieces))
      (new_formatter (print pieces))
new_formatter-print_example = new_formatter-print pieces pieces-IsPattern (omega arith)

-- "%d{%H}%T at %m" does not name the logger, and "%c" does.
abbrev naming : List Piece
naming = item b'c' none ∷ pieces

naming-IsPattern : IsPattern naming
naming-IsPattern = (((λ e. absurd (omega (arith, e))), refl), pieces-IsPattern)

abbrev event : Event
event = record {
  logger = 3;
  level = 1;
  file = [];
  line = pos 7;
  elapse = 0;
  thread_id = 1;
  fiber_id = 0;
  time = 5;
  thread_name = [];
  content = codes "hello";
}

new_formatter-FaultsIf_example :
    Returns
      (λ f. FaultsIf (uses_name naming) (format (λ fmt time. fmt) (λ p. fault) f 1 event))
      (new_formatter (print naming))
new_formatter-FaultsIf_example =
    new_formatter-FaultsIf (λ fmt time. fmt) (λ p. fault) 1 event refl naming naming-IsPattern
      (omega arith)

parse_total_example : Returns (All IsEntry) (parse (codes "%d{%Y%%"))
parse_total_example = parse_total (codes "%d{%Y%%")

parse_malformed_example :
    (parse (codes "a" ++ b'%' ∷ [])
      ≡ ok (pending (codes "a") ++ text (codes "a" ++ b'%' ∷ []) ∷ []))
    × ((more : List Entry) × (parse (codes "a" ++ b'%' ∷ b'%' ∷ codes "m")
          ≡ ok (pending (codes "a") ++ (text (codes "%") ∷ text (codes "m") ∷ more))))
    × (parse (codes "a" ++ b'%' ∷ b'd' ∷ b'{' ∷ codes "m")
        ≡ ok (pending (codes "a") ++ text (b'{' ∷ codes "m") ∷ []))
parse_malformed_example =
    parse_malformed (codes "a") b'd' (codes "m") ((λ e. absurd (omega (arith, e))), tt)
      (λ e. absurd (omega (arith, e))) ((λ e. absurd (omega (arith, e))), tt)
      ((λ e. absurd (omega (arith, e))), tt) (omega arith)

-- The pattern that a logger has from the start.
default_pattern_parses :
    parse (codes "%d{%Y}%T[%p]%m%n")
    ≡ ok (
        code b'd' (codes "%Y")
        ∷ code b'T' []
        ∷ text (codes "[")
        ∷ code b'p' []
        ∷ text (codes "]")
        ∷ code b'm' []
        ∷ code b'n' []
        ∷ [])
unfolding parse scan_body find_close substr size_diff
default_pattern_parses = refl
