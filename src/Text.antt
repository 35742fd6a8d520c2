-- ===== src/Text.antt =====
-- The parts of Rust's text handling that the engine computes with: characters, decimal numbers.
use Prim.Native.Char.{Char, code}
use Prim.Native.String.{◌++◌ as append}
use skvs.Prelude.{
  ℕ, zero, suc, ◌+◌, ◌-◌, ◌*◌, ◌/◌, ◌%◌, ◌^◌, String, Bool, ◌&&◌, Option, none, some, List, [], ◌∷◌,
  ltb, leb, nat_beq, string_eq, if◌then◌else◌,
}
use skvs.Prelude.Int.{ℤ, pos, negsuc}

-- `chars().collect()`, and back
abbrev pub chars : String → List Char
chars String.[] = []
chars (String.◌∷◌ c s) = c ∷ chars s

abbrev pub from_chars : List Char → String
from_chars [] = String.[]
from_chars (c ∷ s) = String.◌∷◌ c (from_chars s)

abbrev pub char_eq : Char → Char → Bool
char_eq a b = nat_beq (code a) (code b)

-- `join`
unfoldable pub join : String → List String → String
join sep [] = ""
join sep (s ∷ []) = s
join sep (s ∷ t ∷ rest) = append s (append sep (join sep (t ∷ rest)))

-- Decimal digits of a `u64` or of the magnitude of an `i64`; 20 digits are enough for 64 bits.
digit : ℕ → String
digit n =
    if nat_beq n 0
    then "0"
    else if nat_beq n 1
    then "1"
    else if nat_beq n 2
    then "2"
    else if nat_beq n 3
    then "3"
    else if nat_beq n 4
    then "4"
    else if nat_beq n 5
    then "5"
    else if nat_beq n 6
    then "6"
    else if nat_beq n 7
    then "7"
    else if nat_beq n 8
    then "8"
    else "9"

digits : ℕ → ℕ → String
digits zero n = ""
digits (suc f) n =
    let rest = digits f (n / 10) in if ltb n 10 then digit n else append rest (digit (n % 10))

unfoldable pub i64_to_string : ℤ → String
unfolding digits digit
i64_to_string (pos n) = digits 20 n
i64_to_string (negsuc n) = append "-" (digits 20 (suc n))

-- `str::parse`: an optional sign, at least one digit, nothing else, and a value in range.
parse_digits : ℕ → String → Option ℕ
parse_digits acc String.[] = some acc
parse_digits acc (String.◌∷◌ c s) =
    let rest = parse_digits (acc * 10 + (code c - 48)) s in
    if leb 48 (code c) && leb (code c) 57 then rest else none

parse_nonempty : String → Option ℕ
unfolding parse_digits
parse_nonempty String.[] = none
parse_nonempty s = parse_digits 0 s

within : ℕ → Option ℕ → Option ℕ
within bound none = none
within bound (some n) = if ltb n bound then some n else none

as_pos : Option ℕ → Option ℤ
as_pos none = none
as_pos (some n) = some (pos n)

as_neg : Option ℕ → Option ℤ
as_neg none = none
as_neg (some zero) = some (pos 0)
as_neg (some (suc n)) = some (negsuc n)

unfoldable pub parse_usize : String → Option ℕ
unfolding parse_nonempty within
parse_usize String.[] = none
parse_usize (String.◌∷◌ c s) =
    if nat_beq (code c) 43
    then within (2 ^ 64) (parse_nonempty s)
    else within (2 ^ 64) (parse_nonempty (String.◌∷◌ c s))

unfoldable pub parse_i64 : String → Option ℤ
unfolding parse_nonempty within as_pos as_neg
parse_i64 String.[] = none
parse_i64 (String.◌∷◌ c s) =
    if nat_beq (code c) 43
    then as_pos (within (2 ^ 63) (parse_nonempty s))
    else if nat_beq (code c) 45
    then as_neg (within (2 ^ 63 + 1) (parse_nonempty s))
    else as_pos (within (2 ^ 63) (parse_nonempty (String.◌∷◌ c s)))
