-- ===== src/Log/Level.antt =====
-- LogLevel of include/log.hpp and src/log.cpp. A level is the number of its enumerator, since the
-- code also casts the number 100 to the type.
use ye_cc_server.Prelude.{
  ℕ, zero, suc, ◌≤◌, ◌<◌, ◌≡◌, refl, arith, map, ◌==◌, if◌then◌else◌, Bytes, codes, bytes_eq,
  to_upper,
}

abbrev pub Level : Type 0
Level = ℕ

abbrev pub unknow : Level
unknow = 0

abbrev pub debug : Level
debug = 1

abbrev pub info : Level
info = 2

abbrev pub warn : Level
warn = 3

abbrev pub error : Level
error = 4

abbrev pub fatal : Level
fatal = 5

-- The level that the listener gives to a deleted logger.
abbrev pub disabled : Level
disabled = 100

-- LogLevel::ToString.
unfoldable pub to_string : Level → Bytes
to_string level =
    if level == debug
    then codes "DEBUG"
    else if level == info
    then codes "INFO"
    else if level == warn
    then codes "WARN"
    else if level == error
    then codes "ERROR"
    else if level == fatal
    then codes "FATAL"
    else codes "UNKNOW"

-- The comparisons of LogLevel::FromString, on the text in capitals.
of_capitals : Bytes → Level
of_capitals str =
    if bytes_eq str (codes "DEBUG")
    then debug
    else if bytes_eq str (codes "INFO")
    then info
    else if bytes_eq str (codes "WARN")
    then warn
    else if bytes_eq str (codes "ERROR")
    then error
    else if bytes_eq str (codes "FATAL")
    then fatal
    else unknow

-- LogLevel::FromString.
unfoldable pub from_string : Bytes → Level
unfolding of_capitals to_upper bytes_eq
from_string str = of_capitals (map to_upper str)

-- FromString reads in any letter case, and reads back what ToString prints of each of the six levels.
pub from_string-to_string :
    (level : Level) (text : Bytes)
    → level ≤ fatal
    → map to_upper text ≡ map to_upper (to_string level)
    → from_string text ≡ level
unfolding from_string to_string
from_string-to_string level text h e = rw e (by_level level h)
  where
    by_level : (l : Level) → l ≤ fatal → of_capitals (map to_upper (to_string l)) ≡ l
    by_level zero k = refl
    by_level (suc zero) k = refl
    by_level (suc (suc zero)) k = refl
    by_level (suc (suc (suc zero))) k = refl
    by_level (suc (suc (suc (suc zero)))) k = refl
    by_level (suc (suc (suc (suc (suc zero))))) k = refl
    by_level (suc (suc (suc (suc (suc (suc n)))))) k = absurd (omega arith)

-- The level of a deleted logger is printed like an unknown one, and read back as the lowest.
pub disabled_is_lost : (level : Level) → fatal < level → from_string (to_string level) ≡ unknow
unfolding from_string to_string
disabled_is_lost level h = let text : to_string level ≡ codes "UNKNOW" = ground arith in rw text
