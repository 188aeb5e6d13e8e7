-- ===== src/Prelude/Decimals.antt =====
-- A printed number is parsed back.
use Prim.Native.Nat.{ℕ, zero, suc, ◌+◌, ◌-◌, ◌*◌, ◌/◌, ◌%◌, ◌^◌, ◌≤◌, ◌<◌}
use mathlib.Core.Path.{◌≡◌, refl, ap, ◌∙◌}
use mathlib.Core.Logic.{inl, inr}
use mathlib.Core.Bool.{true}
use mathlib.Core.List.{[], ◌∷◌}
use mathlib.Core.Option.{some}
use native.Mathlib.Nat.{pow-suc}
use native.Mathlib.Omega.{arith}
use rotten_apple.Prelude.Tests.{ltb, Bool-cases}
use rotten_apple.Prelude.Strings.{
  Text, digits_of, digits_from, decimal, parse_below, below, is_digit,
}

abbrev Leads : Text → Type 0
Leads [] = ⊥
Leads (c ∷ s) = (48 ≤ c) × (c ≤ 57)

Leads-digits_of : (f n : ℕ) (acc : Text) → Leads acc → Leads (digits_of f n acc)
unfolding digits_of
Leads-digits_of zero n acc h = h
Leads-digits_of (suc f) n acc h = elim (Bool-cases (ltb n 10)) [
  | inl e ↦ rw (e, digits_of) (omega arith, ground arith)
  | inr e ↦
      rw (e, digits_of)
        (Leads-digits_of f (n / 10) ((b'0' + n % 10) ∷ acc) (omega arith, omega arith))
]

smaller : (f n : ℕ) → n < 10 ^ suc f → n / 10 < 10 ^ f
smaller f n h = let p = pow-suc 10 f in omega arith

digits_from-digit :
    (acc d : ℕ) (rest : Text)
    → d < 10
    → digits_from acc ((b'0' + d) ∷ rest) ≡ digits_from (acc * 10 + d) rest
unfolding digits_from
digits_from-digit acc d rest h =
    let e : is_digit (b'0' + d) ≡ true = ground arith in
    let f : b'0' + d - b'0' ≡ d = omega arith in rw (e, f)

digits_from-digits_of :
    (f n : ℕ) (rest : Text) → n < 10 ^ f → digits_from 0 (digits_of f n rest) ≡ digits_from n rest
unfolding digits_of
digits_from-digits_of zero n rest h = let e : n ≡ 0 = omega arith in rw e
digits_from-digits_of (suc f) n rest h = elim (Bool-cases (ltb n 10)) [
  | inl e ↦
      rw (e, digits_of)
        (digits_from-digit 0 n rest (ground arith) ∙ ap (λ k. digits_from k rest) (omega arith))
  | inr e ↦
      rw (e, digits_of)
        (digits_from-digits_of f (n / 10) ((b'0' + n % 10) ∷ rest) (smaller f n h)
          ∙ digits_from-digit (n / 10) (n % 10) rest (omega arith)
          ∙ ap (λ k. digits_from k rest) (omega arith))
]

Leads-twenty : (n : ℕ) → Leads (digits_of 20 n [])
unfolding digits_of
Leads-twenty n = elim (Bool-cases (ltb n 10)) [
  | inl e ↦ rw (e, digits_of) (omega arith, ground arith)
  | inr e ↦
      rw (e, digits_of)
        (Leads-digits_of 19 (n / 10) ((b'0' + n % 10) ∷ []) (omega arith, omega arith))
]

parse-Leads : (m : ℕ) (s : Text) → Leads s → parse_below m s ≡ below m (digits_from 0 s)
unfolding parse_below
parse-Leads m [] h = elim h [ ]
parse-Leads m (c ∷ s) h = ground arith

-- A number of at most twenty digits is parsed back, if it is in range.
pub parse_below-decimal : (m n : ℕ) → n < 10 ^ 20 → parse_below m (decimal n) ≡ below m (some n)
unfolding decimal digits_from
parse_below-decimal m n h =
    parse-Leads m (digits_of 20 n []) (Leads-twenty n)
    ∙ ap (below m) (digits_from-digits_of 20 n [] h ∙ end n)
  where
    end : (n : ℕ) → digits_from n [] ≡ some n
    end n = refl
