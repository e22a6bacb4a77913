-- ===== src/Log/Formatter/Meaning.antt =====
-- What a pattern of LogFormatter in src/log.cpp means, told from its pieces.
use ye_cc_server.Prelude.{
  ℕ, Bool, true, false, ◌||◌, ◌&&◌, not, List, [], ◌∷◌, ◌++◌, map, ◌==◌, if◌then◌else◌, Option,
  none, some, ok, throws, fault, out_of_fuel, Outcome, ◌>>=◌, Bytes, codes, bytes_eq, decimal,
  decimal_int, ◌≡◌, refl, sym, ap, ◌∙◌, ◌<◌, arith, append_assoc, append-nil, length, Returns,
}
use ye_cc_server.Log.Event.{Event}
use ye_cc_server.Log.Level.{Level, to_string}
use ye_cc_server.Log.Formatter.Parse.{Entry, code}
use ye_cc_server.Log.Formatter.Positions.{int_max}
use ye_cc_server.Log.Formatter.Pieces.{Piece, lit, item, print, entry_of, IsPattern, parse-print}
use ye_cc_server.Log.Formatter.Total.{parse_total}
use ye_cc_server.Log.Formatter.Items.{
  FormatItem, string_item, Formatter, error_item, format_items, add_item, add_items, new_formatter,
  format_item, format_all, format,
}

-- The codes that the pattern language has.
abbrev pub known : ℕ → Bool
known c =
    c == b'm'
    || c == b'p'
    || c == b'r'
    || c == b'c'
    || c == b't'
    || c == b'N'
    || c == b'n'
    || c == b'd'
    || c == b'f'
    || c == b'l'
    || c == b'T'
    || c == b'F'

abbrev pub is_known : Piece → Bool
is_known (lit s) = true
is_known (item c a) = known c

abbrev pub all_known : List Piece → Bool
all_known [] = true
all_known (x ∷ ps) = is_known x && all_known ps

abbrev in_braces : Option Bytes → Bytes
in_braces none = []
in_braces (some a) = a

-- The item that an entry of the table becomes.
item_for : Entry → FormatItem
item_for e =
    if e.kind == 0
    then string_item e.code_str
    else elim (format_items e.code_str e.detail) [ none ↦ error_item | some i ↦ i ]

is_unknown : Entry → Bool
is_unknown e =
    if e.kind == 0
    then false
    else elim (format_items e.code_str e.detail) [ none ↦ true | some i ↦ false ]

any_unknown : List Entry → Bool
any_unknown [] = false
any_unknown (e ∷ es) = is_unknown e || any_unknown es

add_item_lem :
    (f : Formatter) (e : Entry)
    → add_item f e
      ≡ record f { items = f.items ++ item_for e ∷ []; is_error = f.is_error || is_unknown e }
unfolding add_item item_for is_unknown
add_item_lem f e = ground arith

add_items_lem :
    (es : List Entry) (f : Formatter)
    → add_items f es
      ≡ record f { items = f.items ++ map item_for es; is_error = f.is_error || any_unknown es }
unfolding add_items any_unknown
add_items_lem [] f = rw append-nil (ground arith)
add_items_lem (e ∷ es) f = rw (add_item_lem f e, add_items_lem es) (rw append_assoc (ground arith))

is_unknown-code : (c : ℕ) (fmt : Bytes) → is_unknown (code c fmt) ≡ not (known c)
unfolding is_unknown format_items bytes_eq
is_unknown-code c fmt = ground arith

unknown-print : (ps : List Piece) → any_unknown (map entry_of ps) ≡ not (all_known ps)
unfolding any_unknown is_unknown
unknown-print [] = refl
unknown-print (lit s ∷ ps) = unknown-print ps
unknown-print (item c none ∷ ps) = rw (is_unknown-code c []) (ground (arith, unknown-print ps))
unknown-print (item c (some a) ∷ ps) = rw (is_unknown-code c a) (ground (arith, unknown-print ps))

written_on :
    (r : Outcome Bytes) (os s : Bytes)
    → (r >>= λ t. ok ((os ++ s) ++ t)) ≡ ((r >>= λ t. ok (s ++ t)) >>= λ t. ok (os ++ t))
written_on (ok t) os s = ap ok (append_assoc os s t)
written_on (throws what) os s = refl
written_on fault os s = refl
written_on out_of_fuel os s = refl

-- One item in front of what the others write.
written_first :
    (m r : Outcome Bytes) (os : Bytes) (others : Bytes → Outcome Bytes)
    → ((t : Bytes) → others t ≡ (r >>= λ s. ok (t ++ s)))
    → ((m >>= λ s. ok (os ++ s)) >>= others)
      ≡ ((m >>= λ s. r >>= λ t. ok (s ++ t)) >>= λ t. ok (os ++ t))
written_first (ok s) r os others h = h (os ++ s) ∙ written_on r os s
written_first (throws what) r os others h = refl
written_first fault r os others h = refl
written_first out_of_fuel r os others h = refl

on_nothing : (r : Outcome Bytes) → (r >>= λ t. ok t) ≡ r
on_nothing (ok t) = refl
on_nothing (throws what) = refl
on_nothing fault = refl
on_nothing out_of_fuel = refl

module _ (strftime : Bytes → ℕ → Bytes) (logger_name : ℕ → Outcome Bytes) (level : Level)
    (event : Event) where
  -- What a code stands for in the output.
  abbrev pub code_meaning : ℕ → Bytes → Outcome Bytes
  code_meaning c fmt =
      if c == b'm'
      then ok event.content
      else if c == b'p'
      then ok (to_string level)
      else if c == b'r'
      then ok (decimal event.elapse)
      else if c == b'c'
      then logger_name event.logger
      else if c == b't'
      then ok (decimal event.thread_id)
      else if c == b'N'
      then ok event.thread_name
      else if c == b'n'
      then ok (codes "\n")
      else if c == b'd'
      then ok (strftime fmt event.time)
      else if c == b'f'
      then ok event.file
      else if c == b'l'
      then ok (decimal_int event.line)
      else if c == b'T'
      then ok (codes "\t")
      else if c == b'F'
      then ok (decimal event.fiber_id)
      else ok (codes "<error type>")

  abbrev pub piece_meaning : Piece → Outcome Bytes
  piece_meaning (lit s) = ok s
  piece_meaning (item c a) = code_meaning c (in_braces a)

  -- The meanings one behind the other; the meaning of `%c` faults where the event's logger is not there.
  abbrev pub meaning : List Piece → Outcome Bytes
  meaning [] = ok []
  meaning (x ∷ ps) = piece_meaning x >>= λ s. meaning ps >>= λ rest. ok (s ++ rest)

  item_meaning :
      (c : ℕ) (fmt os : Bytes)
      → format_item strftime logger_name
          (elim (format_items (c ∷ []) fmt) [ none ↦ error_item | some i ↦ i ])
          os
          level
          event
        ≡ (code_meaning c fmt >>= λ s. ok (os ++ s))
  unfolding format_items format_item bytes_eq
  item_meaning c fmt os = ground arith

  format_all-print :
      (ps : List Piece) (os : Bytes)
      → format_all strftime logger_name (map item_for (map entry_of ps)) os level event
        ≡ (meaning ps >>= λ s. ok (os ++ s))
  unfolding format_all item_for
  format_all-print [] os = ap ok (sym (append-nil os))
  format_all-print (lit s ∷ ps) os = format_all-print ps (os ++ s) ∙ written_on (meaning ps) os s
  format_all-print (item c none ∷ ps) os =
      rw (item_meaning c [] os)
        (written_first (code_meaning c []) (meaning ps) os _ (format_all-print ps))
  format_all-print (item c (some a) ∷ ps) os =
      rw (item_meaning c a os)
        (written_first (code_meaning c a) (meaning ps) os _ (format_all-print ps))

-- A formatter that is made from a well formed pattern of fewer than 2^31 bytes returns, keeps the pattern,
-- reports an error exactly if the pattern has an unknown code, and formats every event at every level
-- to the meanings of the pieces, one behind the other; the formatting faults exactly if a meaning does, as that
-- of `%c` does where the event's logger is not there.
pub new_formatter-print :
    (ps : List Piece)
    → IsPattern ps
    → length (print ps) < int_max
    → Returns
        (λ f.
          (f.pattern ≡ print ps)
          × (f.is_error ≡ not (all_known ps))
          × ((strftime : Bytes → ℕ → Bytes) (logger_name : ℕ → Outcome Bytes) (level : Level)
                (event : Event)
              → format strftime logger_name f level event
                ≡ meaning strftime logger_name level event ps))
        (new_formatter (print ps))
unfolding new_formatter format
new_formatter-print ps w fits =
    let f : Formatter = record {
      pattern = print ps;
      items = map item_for (map entry_of ps);
      is_error = any_unknown (map entry_of ps);
    } in
    (
      f,
      rw (parse-print ps w fits) (ap ok (add_items_lem (map entry_of ps) _)),
      (
        refl,
        unknown-print ps,
        λ strftime logger_name level event.
            format_all-print strftime logger_name level event ps []
            ∙ on_nothing (meaning strftime logger_name level event ps),
      ),
    )

-- The constructor of a formatter returns on every pattern, and keeps it.
pub new_formatter_total : (p : Bytes) → Returns (λ f. f.pattern ≡ p) (new_formatter p)
unfolding new_formatter
new_formatter_total p =
    let (tab, e, _) = parse_total p in
    let f : Formatter = record {
      pattern = p;
      items = map item_for tab;
      is_error = any_unknown tab;
    } in
    (f, rw e (ap ok (add_items_lem tab _)), refl)
