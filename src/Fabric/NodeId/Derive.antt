-- ===== src/Fabric/NodeId/Derive.antt =====
-- A host keeps the id that it once derived.
use rotten_apple.Prelude.{
  All, All-append, Bool, Bool-cases, List, Option, Option-cases, Text, [], arith, false, inl, inr,
  is_whitespace, map, nat_eq, none, refl, some, take, text_eq, trim, trim_matches,
  trim_start_matches, true, utf8, ℕ, ◌++◌, ◌==◌, ◌∷◌, ◌≡◌, ◌⊎◌,
}
use mathlib.Core.List.{reverse, reverse_aux, reverse-reverse}
use rotten_apple.Fabric.NodeId.{
  NodeId, new, kebab_char, kebab, Entropy, domain_prefix, derive_hex_suffix_from_machine_id,
  random_hex_suffix, authoritative, fresh_suffix, with_role, derive_from_paths,
}

-- What the library calls of a derivation return.
pub record IsEntropy (x : Entropy) : Type 0 where
  -- The digest and the random bytes are not empty.
  pub digest : (m : List ℕ) → (b : ℕ) × (rest : List ℕ) × (x.sha256 m ≡ b ∷ rest)
  pub bytes : (b : ℕ) × (rest : List ℕ) × (x.random ≡ b ∷ rest)
  -- A byte is written as two characters, of which none is white space.
  pub hex : (b : ℕ) (rest : List ℕ) → (c : ℕ) × (s : Text) × (x.hex_encode (b ∷ rest) ≡ c ∷ s)
  pub hex_visible : (m : List ℕ) → All (λ c. is_whitespace c ≡ false) (x.hex_encode m)

abbrev Visible : Text → Type 0
Visible = All (λ c. is_whitespace c ≡ false)

Visible-reverse_aux : (s r : Text) → Visible s → Visible r → Visible (reverse_aux s r)
Visible-reverse_aux [] r h k = k
Visible-reverse_aux (c ∷ s) r h k = Visible-reverse_aux s (c ∷ r) h.1 (h.0, k)

trim_start-Visible : (s : Text) → Visible s → trim_start_matches is_whitespace s ≡ s
unfolding trim_start_matches
trim_start-Visible [] h = refl
trim_start-Visible (c ∷ s) h = rw h.0

trim-Visible : (s : Text) → Visible s → trim s ≡ s
unfolding trim trim_matches
trim-Visible s h = rw (
  trim_start-Visible s h,
  trim_start-Visible (reverse s) (Visible-reverse_aux s [] h tt),
  reverse-reverse,
)

Visible-trim_start : (p : ℕ → Bool) (s : Text) → Visible s → Visible (trim_start_matches p s)
unfolding trim_start_matches
Visible-trim_start p [] h = tt
Visible-trim_start p (c ∷ s) h = elim (Bool-cases (p c)) [
  | inl e ↦ rw e (Visible-trim_start p s h.1)
  | inr e ↦ rw e h
]

Visible-kebab_char : (c : ℕ) → is_whitespace (kebab_char c) ≡ false
unfolding kebab_char is_whitespace
Visible-kebab_char c = ground arith

Visible-map : (s : Text) → Visible (map kebab_char s)
Visible-map [] = tt
Visible-map (c ∷ s) = (Visible-kebab_char c, Visible-map s)

Visible-kebab : (s : Text) → Visible (kebab s)
unfolding kebab trim_matches
Visible-kebab s =
    let p : ℕ → Bool = λ c. c == b'-' in
    let a = Visible-trim_start p (map kebab_char s) (Visible-map s) in
    let b = Visible-trim_start p _ (Visible-reverse_aux _ [] a tt) in Visible-reverse_aux _ [] b tt

-- A file that holds an id decides.
kept_file :
    (x : Entropy) (writable : Bool) (s : Text) (machine_id role : Option Text) (n : NodeId)
    → new s ≡ some n
    → derive_from_paths x writable (some s) machine_id role ≡ (n, some s)
unfolding derive_from_paths
kept_file x writable s machine_id role n e = rw (e, derive_from_paths)

module _ (x : Entropy) (law : IsEntropy x) where
  -- What a derivation without an id file makes: visible, and not empty.
  abbrev IsName : Text → Type 0
  IsName s = Visible s × ((c : ℕ) × (r : Text) × (s ≡ c ∷ r))

  hex-IsName : (b : ℕ) (rest : List ℕ) → IsName (x.hex_encode (b ∷ rest))
  hex-IsName b rest = (law.hex_visible (b ∷ rest), law.hex b rest)

  fresh_suffix-IsName : (machine : Option Text) → IsName (fresh_suffix x machine)
  unfolding fresh_suffix derive_hex_suffix_from_machine_id random_hex_suffix
  fresh_suffix-IsName none = let (b, rest, e) = law.bytes in rw e (hex-IsName b rest)
  fresh_suffix-IsName (some m) =
      let (b, rest, e) = law.digest (domain_prefix ++ utf8 (trim m)) in
      rw (e, fresh_suffix, derive_hex_suffix_from_machine_id) (hex-IsName b (take 7 rest))

  cons-append :
      (s t : Text) → ((c : ℕ) × (r : Text) × (t ≡ c ∷ r)) → (c : ℕ) × (r : Text) × (s ++ t ≡ c ∷ r)
  cons-append [] t h = h
  cons-append (c ∷ s) t h = (c, s ++ t, refl)

  dash-Visible : is_whitespace b'-' ≡ false
  unfolding is_whitespace
  dash-Visible = refl

  with_role-IsName : (role : Option Text) (s : Text) → IsName s → IsName (with_role role s)
  unfolding with_role
  with_role-IsName none s h = h
  with_role-IsName (some []) s h = h
  with_role-IsName (some (c ∷ role)) s h =
      let tail : Visible (b'-' ∷ s) = (dash-Visible, h.0) in
      (
        All-append _ (kebab (c ∷ role)) (b'-' ∷ s) (Visible-kebab (c ∷ role)) tail,
        cons-append (kebab (c ∷ role)) (b'-' ∷ s) (b'-', s, refl),
      )

  new-IsName : (s : Text) → IsName s → new s ≡ some (record { text = s })
  unfolding new
  new-IsName s (v, (c, r, e)) = rw (trim-Visible s v, e, new)

  fresh_again :
      (id_file machine_id role : Option Text) (x' : Entropy) (writable' : Bool)
      (machine_id' role' : Option Text)
      → authoritative id_file ≡ none
      → (writable : Bool) → writable ≡ true
      → let (id, file) = derive_from_paths x writable id_file machine_id role in
        derive_from_paths x' writable' file machine_id' role' ≡ (id, file)
  unfolding derive_from_paths
  fresh_again id_file machine_id role x' writable' machine_id' role' e writable w =
      let id = with_role role (fresh_suffix x machine_id) in
      let read : new id ≡ some (record { text = id }) =
        new-IsName id
          (with_role-IsName role (fresh_suffix x machine_id) (fresh_suffix-IsName machine_id)) in
      let first : derive_from_paths x writable id_file machine_id role
          ≡ (record { text = id }, some id) =
        rw (e, w, derive_from_paths) in
      rw first (kept_file x' writable' id machine_id' role' (record { text = id }) read)

  -- When the id file can be written, or holds an id, the host keeps its id: a later derivation
  -- returns the same one and leaves the file alone, whatever has become of the machine id, the role
  -- hint, the random source and the permission to write.
  pub derive_from_paths-again :
      (writable : Bool) (id_file machine_id role : Option Text) (x' : Entropy) (writable' : Bool)
      (machine_id' role' : Option Text)
      → (writable ≡ true) ⊎ ((s : Text) × (n : NodeId) × (id_file ≡ some s) × (new s ≡ some n))
      → let (id, file) = derive_from_paths x writable id_file machine_id role in
        derive_from_paths x' writable' file machine_id' role' ≡ (id, file)
  unfolding derive_from_paths
  derive_from_paths-again writable none machine_id role x' writable' machine_id' role' (inl w) =
      fresh_again none machine_id role x' writable' machine_id' role' refl writable w
  derive_from_paths-again writable none machine_id role x' writable' machine_id' role'
        (inr (s, n, e, k)) =
      cc e
  derive_from_paths-again writable (some s) machine_id role x' writable' machine_id' role' h =
      elim (Option-cases (new s)) [
        | inr (n, e) ↦
            rw (kept_file x writable s machine_id role n e)
              (kept_file x' writable' s machine_id' role' n e)
        | inl e ↦
            let w : writable ≡ true = elim h [ inl w ↦ w | inr (t, n, p, k) ↦ cc (p, k, e) ] in
            fresh_again (some s) machine_id role x' writable' machine_id' role' e writable w
      ]
