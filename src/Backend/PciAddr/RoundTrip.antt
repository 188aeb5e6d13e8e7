-- ===== src/Backend/PciAddr/RoundTrip.antt =====
-- Which printed addresses are parsed back.
use rotten_apple.Prelude.{
  All, Result, Text, [], ap, arith, codes, decimal, err, false, inl, inr, lt→ltb, ok, ok-injective,
  refl, some, sym, true, ℕ, ◌%◌, ◌*◌, ◌++◌, ◌+◌, ◌/◌, ◌<◌, ◌>>=◌, ◌^◌, ◌↔◌, ◌∙◌, ◌∷◌, ◌≡◌, ◌≤◌, ◌⊎◌,
}
use rotten_apple.Backend.PciAddr.{
  hex_char, hex2, hex4, hex_value, radix_loop, from_str_radix, is_separator, split, PciAddr, IsAddr,
  to_string, from_str, from_parts, of_parts,
}

hex_value-hex_char : (d : ℕ) → d < 16 → hex_value (hex_char d) ≡ some d
hex_value-hex_char d h = ground arith

is_separator-hex_char : (d : ℕ) → d < 16 → is_separator (hex_char d) ≡ false
is_separator-hex_char d h = ground arith

-- A piece before a separator is the first part.
split-append :
    (p s : Text) (c : ℕ)
    → All (λ x. is_separator x ≡ false) p
    → is_separator c ≡ true
    → split (p ++ (c ∷ s)) ≡ p ∷ split s
unfolding split
split-append [] s c h k = rw k refl
split-append (x ∷ p) s c h k = rw (split-append p s c h.1 k) (rw h.0 refl)

split-last : (p : Text) → All (λ x. is_separator x ≡ false) p → split p ≡ p ∷ []
unfolding split
split-last [] h = refl
split-last (x ∷ p) h = rw (split-last p h.1) (rw h.0 refl)

step :
    (m acc d : ℕ) (s : Text)
    → d < 16
    → acc * 16 + d < m
    → radix_loop m acc (hex_char d ∷ s) ≡ radix_loop m (acc * 16 + d) s
unfolding radix_loop
step m acc d s h k =
    rw (hex_value-hex_char d h, radix_loop) (rw (lt→ltb (acc * 16 + d) m k, radix_loop) refl)

first :
    (m d e : ℕ) (s : Text)
    → d < 16
    → from_str_radix m (hex_char d ∷ e ∷ s) ≡ radix_loop m 0 (hex_char d ∷ e ∷ s)
unfolding from_str_radix
first m d e s h = ground arith

from_str_radix-two :
    (m a b : ℕ)
    → a < 16
    → b < 16
    → a * 16 + b < m
    → from_str_radix m (hex_char a ∷ hex_char b ∷ []) ≡ ok (a * 16 + b)
unfolding radix_loop
from_str_radix-two m a b h k l =
    first m a (hex_char b) [] h
    ∙ step m 0 a (hex_char b ∷ []) h (omega arith)
    ∙ step m (0 * 16 + a) b [] k (omega arith)
    ∙ ap (λ n. ok n) (omega arith)

from_str_radix-hex2 : (n : ℕ) → n < 2 ^ 8 → from_str_radix (2 ^ 8) (hex2 n) ≡ ok n
from_str_radix-hex2 n h =
    from_str_radix-two (2 ^ 8) (n / 16) (n % 16) (omega arith) (omega arith) (omega arith)
    ∙ ap (λ n. ok n) (omega arith)

from_str_radix-hex4 : (n : ℕ) → n < 2 ^ 16 → from_str_radix (2 ^ 16) (hex4 n) ≡ ok n
unfolding radix_loop
from_str_radix-hex4 n h =
    let a = n / 4096 in
    let b = n / 256 % 16 in
    let c = n / 16 % 16 in
    let d = n % 16 in
    first (2 ^ 16) a (hex_char b) _ (omega arith)
    ∙ step (2 ^ 16) 0 a (hex_char b ∷ hex_char c ∷ hex_char d ∷ []) (omega arith) (omega arith)
    ∙ step (2 ^ 16) (0 * 16 + a) b (hex_char c ∷ hex_char d ∷ []) (omega arith) (omega arith)
    ∙ step (2 ^ 16) ((0 * 16 + a) * 16 + b) c (hex_char d ∷ []) (omega arith) (omega arith)
    ∙ step (2 ^ 16) (((0 * 16 + a) * 16 + b) * 16 + c) d [] (omega arith) (omega arith)
    ∙ ap (λ n. ok n) (omega arith)

-- The digits of the function.
decimal_cases :
    (n : ℕ)
    → n < 2 ^ 8
    → ((n < 10) × (decimal n ≡ hex_char n ∷ []))
      ⊎ ((10 ≤ n) × (n < 100) × (decimal n ≡ hex_char (n / 10) ∷ hex_char (n % 10) ∷ []))
      ⊎ ((100 ≤ n)
          × (decimal n ≡ hex_char (n / 100) ∷ hex_char (n / 10 % 10) ∷ hex_char (n % 10) ∷ []))
unfolding decimal
decimal_cases n h = ground arith

split-hex2 : (n : ℕ) → n < 2 ^ 8 → All (λ x. is_separator x ≡ false) (hex2 n)
split-hex2 n h = (
  is_separator-hex_char (n / 16) (omega arith),
  (is_separator-hex_char (n % 16) (omega arith), tt),
)

split-decimal : (n : ℕ) → n < 2 ^ 8 → All (λ x. is_separator x ≡ false) (decimal n)
split-decimal n h = elim (decimal_cases n h) [
  | inl (l, e) ↦ rw e (is_separator-hex_char n (omega arith), tt)
  | inr (inl (l, k, e)) ↦ rw e (
    is_separator-hex_char (n / 10) (omega arith),
    (is_separator-hex_char (n % 10) (omega arith), tt),
  )
  | inr (inr (l, e)) ↦ rw e (
    is_separator-hex_char (n / 100) (omega arith),
    (
      is_separator-hex_char (n / 10 % 10) (omega arith),
      (is_separator-hex_char (n % 10) (omega arith), tt),
    ),
  )
]

overflow :
    (m acc d : ℕ) (s : Text)
    → d < 16
    → m ≤ acc * 16 + d
    → radix_loop m acc (hex_char d ∷ s) ≡ err (codes "number too large to fit in target type")
unfolding radix_loop
overflow m acc d s h k = rw (hex_value-hex_char d h, radix_loop) (ground arith)

from_str_radix-three :
    (a b c : ℕ)
    → 1 ≤ a
    → a < 3
    → b < 10
    → c < 10
    → from_str_radix (2 ^ 8) (hex_char a ∷ hex_char b ∷ hex_char c ∷ [])
      ≡ err (codes "number too large to fit in target type")
from_str_radix-three a b c h k l o =
    first (2 ^ 8) a (hex_char b) (hex_char c ∷ []) (omega arith)
    ∙ step (2 ^ 8) 0 a (hex_char b ∷ hex_char c ∷ []) (omega arith) (omega arith)
    ∙ step (2 ^ 8) (0 * 16 + a) b (hex_char c ∷ []) (omega arith) (omega arith)
    ∙ overflow (2 ^ 8) ((0 * 16 + a) * 16 + b) c [] (omega arith) (omega arith)

-- The printed function is read as a hexadecimal number.
from_str_radix-decimal :
    (n : ℕ) → n < 2 ^ 8 → (from_str_radix (2 ^ 8) (decimal n) ≡ ok n) ↔ (n < 10)
unfolding from_str_radix radix_loop
from_str_radix-decimal n h = elim (decimal_cases n h) [
  | inl (l, e) ↦ (λ r. l, λ l. rw e (one n l))
  | inr (inl (l, k, e)) ↦ (
    λ r. absurd (
        two r e
          (from_str_radix-two (2 ^ 8) (n / 10) (n % 10) (omega arith) (omega arith) (omega arith))
          l),
    λ lt. absurd (omega arith),
  )
  | inr (inr (l, e)) ↦ (
    λ r. absurd (
        three (
          sym (
            from_str_radix-three (n / 100) (n / 10 % 10) (n % 10) (omega arith) (omega arith)
              (omega arith) (omega arith))
          ∙ ap (λ t. from_str_radix (2 ^ 8) t) (sym e)
          ∙ r)),
    λ lt. absurd (omega arith),
  )
]
  where
    three : {e : Text} → ◌≡◌ {A = Result Text ℕ} (err e) (ok n) → ⊥
    three r = cc

    one : (d : ℕ) → d < 10 → from_str_radix (2 ^ 8) (hex_char d ∷ []) ≡ ok d
    one d l = step (2 ^ 8) 0 d [] (omega arith) (omega arith) ∙ ap (λ n. ok n) (omega arith)

    two :
        {t : Text}
        → from_str_radix (2 ^ 8) (decimal n) ≡ ok n
        → decimal n ≡ t
        → from_str_radix (2 ^ 8) t ≡ ok (n / 10 * 16 + n % 10)
        → 10 ≤ n
        → ⊥
    two r e k l =
        let same : n ≡ n / 10 * 16 + n % 10 =
          ok-injective (sym r ∙ ap (λ t. from_str_radix (2 ^ 8) t) e ∙ k) in
        omega arith

module _ (a : PciAddr) (debug_str : Text → Text) (h : IsAddr a) where
  split-to_string :
      split (to_string a) ≡ hex4 a.domain ∷ hex2 a.bus ∷ hex2 a.device ∷ decimal a.function ∷ []
  unfolding to_string
  split-to_string =
      let rest_device = hex2 a.device ++ (b'.' ∷ decimal a.function) in
      let rest_bus = hex2 a.bus ++ (b':' ∷ rest_device) in
      split-append (hex4 a.domain) rest_bus b':' split-hex4 refl
      ∙ ap (λ l. hex4 a.domain ∷ l)
          (split-append (hex2 a.bus) rest_device b':' (split-hex2 a.bus h.bus) refl)
      ∙ ap (λ l. hex4 a.domain ∷ hex2 a.bus ∷ l)
          (split-append (hex2 a.device) (decimal a.function) b'.' (split-hex2 a.device h.device)
            refl)
      ∙ ap (λ l. hex4 a.domain ∷ hex2 a.bus ∷ hex2 a.device ∷ l)
          (split-last (decimal a.function) (split-decimal a.function h.function))
    where
      split-hex4 : All (λ x. is_separator x ≡ false) (hex4 a.domain)
      split-hex4 = (
        is_separator-hex_char (a.domain / 4096) (omega (arith, h.domain)),
        (
          is_separator-hex_char (a.domain / 256 % 16) (omega arith),
          (
            is_separator-hex_char (a.domain / 16 % 16) (omega arith),
            (is_separator-hex_char (a.domain % 16) (omega arith), tt),
          ),
        ),
      )

  -- A printed address is parsed back to itself exactly when its function is below 10: the function
  -- is printed in decimal and parsed as hexadecimal.
  pub from_str-to_string : (from_str debug_str (to_string a) ≡ ok a) ↔ (a.function < 10)
  unfolding from_str from_parts of_parts
  from_str-to_string =
      let f = from_str_radix (2 ^ 8) (decimal a.function) in
      let (sound, complete) = from_str_radix-decimal a.function h.function in
      rw (split-to_string, from_str)
        (rw (from_str_radix-hex4 a.domain h.domain, of_parts)
          (rw (from_str_radix-hex2 a.bus h.bus) (
            rw (from_str_radix-hex2 a.device h.device)
              (λ r. sound (function_of f r), λ l. rw (complete l) refl))))
    where
      function_of :
          (f : Result Text ℕ)
          → ◌≡◌ {A = Result Text PciAddr}
              (f >>= λ function. ok (record a { function = function }))
              (ok a)
          → f ≡ ok a.function
      function_of (ok n) r = ap (λ n. ok n) (ap (λ b. b.function) (ok-injective r))
      function_of (err e) r = absurd cc
