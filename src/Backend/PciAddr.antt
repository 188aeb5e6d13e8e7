-- ===== src/Backend/PciAddr.antt =====
-- PCI addresses, as they are printed and parsed. The bounds of the machine integers are a predicate.
pub mod RoundTrip
use rotten_apple.Prelude.{
  Bool, List, Option, Result, Text, [], codes, decimal, err, false, if◌then◌else◌, leb, ltb,
  nat_beq, none, ok, some, true, ℕ, ◌%◌, ◌&&◌, ◌*◌, ◌++◌, ◌+◌, ◌-◌, ◌/◌, ◌<◌, ◌>>=◌, ◌>>◌, ◌^◌,
  ◌||◌, ◌∷◌,
}

pub record PciAddr : Type 0 where
  pub domain : ℕ
  pub bus : ℕ
  pub device : ℕ
  pub function : ℕ

pub record IsAddr (a : PciAddr) : Type 0 where
  pub domain : a.domain < 2 ^ 16
  pub bus : a.bus < 2 ^ 8
  pub device : a.device < 2 ^ 8
  pub function : a.function < 2 ^ 8

-- A digit of `{:x}`.
abbrev pub hex_char : ℕ → ℕ
hex_char d = if ltb d 10 then b'0' + d else b'a' + (d - 10)

-- `{:02x}` of a number of 8 bits, and `{:04x}` of one of 16: neither has more digits.
abbrev pub hex2 : ℕ → Text
hex2 n = hex_char (n / 16) ∷ hex_char (n % 16) ∷ []

abbrev pub hex4 : ℕ → Text
hex4 n =
    hex_char (n / 4096) ∷ hex_char (n / 256 % 16) ∷ hex_char (n / 16 % 16) ∷ hex_char (n % 16) ∷ []

-- `Display`. The function is printed in decimal.
unfoldable pub to_string : PciAddr → Text
unfolding decimal
to_string a =
    hex4 a.domain
    ++ (b':' ∷ (hex2 a.bus ++ (b':' ∷ (hex2 a.device ++ (b'.' ∷ decimal a.function)))))

-- The value of a hexadecimal digit, in either case.
abbrev pub hex_value : ℕ → Option ℕ
hex_value c =
    if leb b'0' c && leb c b'9'
    then some (c - b'0')
    else if leb b'a' c && leb c b'f'
    then some (c - b'a' + 10)
    else if leb b'A' c && leb c b'F'
    then some (c - b'A' + 10)
    else none

unfoldable pub radix_loop : (m acc : ℕ) → Text → Result Text ℕ
radix_loop m acc [] = ok acc
radix_loop m acc (c ∷ s) = elim (hex_value c) [
  | none ↦ err (codes "invalid digit found in string")
  | some d ↦ elim (ltb (acc * 16 + d) m) [
    | true ↦ radix_loop m (acc * 16 + d) s
    | false ↦ err (codes "number too large to fit in target type")
  ]
]

-- `from_str_radix(s, 16)` into the unsigned type with values below `m`.
unfoldable pub from_str_radix : ℕ → Text → Result Text ℕ
unfolding radix_loop
from_str_radix m [] = err (codes "cannot parse integer from empty string")
from_str_radix m (c ∷ []) = radix_loop m 0 (c ∷ [])
from_str_radix m (c ∷ d ∷ s) =
    if nat_beq c b'+' then radix_loop m 0 (d ∷ s) else radix_loop m 0 (c ∷ d ∷ s)

abbrev pub is_separator : ℕ → Bool
is_separator c = nat_beq c b':' || nat_beq c b'.'

abbrev onto : ℕ → List Text → List Text
onto c [] = (c ∷ []) ∷ []
onto c (p ∷ ps) = (c ∷ p) ∷ ps

-- `s.split([':', '.'])`.
unfoldable pub split : Text → List Text
split [] = [] ∷ []
split (c ∷ s) = let parts = split s in if is_separator c then [] ∷ parts else onto c parts

unfoldable pub of_parts : (d b dev fun : Text) → Result Text PciAddr
unfolding from_str_radix
of_parts d b dev fun = do
  domain ← from_str_radix (2 ^ 16) d
  bus ← from_str_radix (2 ^ 8) b
  device ← from_str_radix (2 ^ 8) dev
  function ← from_str_radix (2 ^ 8) fun
  ok (record { domain = domain; bus = bus; device = device; function = function })

-- `FromStr`. The short form is of domain 0. `debug_str` is `{:?}` of a text.
unfoldable pub from_parts : (unreadable : Text) → List Text → Result Text PciAddr
unfolding of_parts
from_parts unreadable (d ∷ b ∷ dev ∷ fun ∷ []) = of_parts d b dev fun
from_parts unreadable (b ∷ dev ∷ fun ∷ []) = of_parts (b'0' ∷ []) b dev fun
from_parts unreadable _ = err unreadable

unfoldable pub from_str : (debug_str : Text → Text) → Text → Result Text PciAddr
unfolding from_parts split
from_str debug_str s = from_parts (codes "not a PCI BDF: " ++ debug_str s) (split s)
