-- ===== src/HashMap.antt =====
-- `std::collections::HashMap<K, V>`. The keys of the program compare by a test that need not be
-- equality (a node id compares by its suffix), so the test is a parameter. The program never shows
-- the order of a hash map: an association list stands for it.
use rotten_apple.Prelude.{
  Bool, List, Option, [], arith, false, if◌then◌else◌, is_some, nat_eq, none, refl, some, text_eq,
  true, ◌∷◌, ◌≡◌,
}

-- What `Eq` and `Hash` ask of a key.
pub record IsEquivalence {ℓ} {K : Type ℓ} (same : K → K → Bool) : Type ℓ where
  pub same_refl : (a : K) → same a a ≡ true
  pub same_symm : (a b : K) → same a b ≡ true → same b a ≡ true
  pub same_trans : (a b c : K) → same a b ≡ true → same b c ≡ true → same a c ≡ true

module _ {ℓ κ} {K : Type ℓ} {V : Type κ} (same : K → K → Bool) where
  unfoldable pub get : K → List (K × V) → Option V
  get k [] = none
  get k ((j, v) ∷ m) = if same j k then some v else get k m

  -- On a key that is present the value is replaced and the old key kept.
  unfoldable pub insert : K → V → List (K × V) → List (K × V)
  insert k v [] = (k, v) ∷ []
  insert k v ((j, w) ∷ m) = if same j k then (j, v) ∷ m else (j, w) ∷ insert k v m

  unfoldable pub contains_key : K → List (K × V) → Bool
  contains_key k [] = false
  contains_key k ((j, v) ∷ m) = if same j k then true else contains_key k m

  pub contains_key-get : (k : K) (m : List (K × V)) → contains_key k m ≡ is_some (get k m)
  unfolding contains_key get
  contains_key-get k [] = refl
  contains_key-get k ((j, v) ∷ m) = ground (arith, contains_key-get k m)

  pub get-insert :
      IsEquivalence same
      → (k j : K) (v : V) (m : List (K × V))
      → get j (insert k v m) ≡ (if same k j then some v else get j m)
  unfolding get insert
  get-insert q k j v [] = refl
  get-insert q k j v ((i, w) ∷ m) = ground (
    arith,
    get-insert q k j v m,
    q.same_symm k j,
    q.same_symm i k,
    q.same_trans i j k,
    q.same_trans k i j,
    q.same_trans i k j,
  )
