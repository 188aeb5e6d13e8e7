-- ===== src/BTreeMap.antt =====
-- `std::collections::BTreeMap<String, V>`: entries in the order of their keys, which is the order
-- of iteration.
use rotten_apple.Prelude.{
  Bool, Bool-cases, In, List, Option, Ordering, Text, [], arith, cmp, cmp_gt, cmp_refl, cmp_trans,
  eq_of_cmp, false, if◌then◌else◌, inl, inr, is_some, nat_eq, none, refl, some, text_beq_iff,
  text_eq, true, ◌==◌, ◌∷◌, ◌≡◌,
}

abbrev pub BTreeMap {ℓ} : Type ℓ → Type ℓ
BTreeMap V = List (Text × V)

module _ {ℓ} {V : Type ℓ} where
  unfoldable pub get : Text → BTreeMap V → Option V
  get k [] = none
  get k ((j, v) ∷ m) = if j == k then some v else get k m

  unfoldable pub insert : Text → V → BTreeMap V → BTreeMap V
  insert k v [] = (k, v) ∷ []
  insert k v ((j, w) ∷ m) =
      let rest = insert k v m in
      elim (cmp k j) [
        | Ordering.lt ↦ (k, v) ∷ (j, w) ∷ m
        | Ordering.eq ↦ (k, v) ∷ m
        | Ordering.gt ↦ (j, w) ∷ rest
      ]

  unfoldable pub remove : Text → BTreeMap V → BTreeMap V
  remove k [] = []
  remove k ((j, w) ∷ m) = let rest = remove k m in if j == k then rest else (j, w) ∷ rest

  unfoldable pub contains_key : Text → BTreeMap V → Bool
  contains_key k [] = false
  contains_key k ((j, v) ∷ m) = if j == k then true else contains_key k m

  pub get-insert :
      (k j : Text) (v : V) (m : BTreeMap V)
      → get j (insert k v m) ≡ (if k == j then some v else get j m)
  unfolding get insert
  get-insert k j v [] = refl
  get-insert k j v ((i, w) ∷ m) =
      ground
        (arith, get-insert k j v m, text_beq_iff k j, text_beq_iff i j, eq_of_cmp k i, cmp_refl k)

  pub get-remove :
      (k j : Text) (m : BTreeMap V) → get j (remove k m) ≡ (if k == j then none else get j m)
  unfolding get remove
  get-remove k j [] = ground arith
  get-remove k j ((i, w) ∷ m) =
      ground (arith, get-remove k j m, text_beq_iff k j, text_beq_iff i j, text_beq_iff i k)

-- Every key is above `k`.
abbrev pub Above {ℓ} : {V : Type ℓ} → Text → BTreeMap V → Type 0
Above k [] = Unit
Above k ((j, v) ∷ m) = (cmp k j ≡ Ordering.lt) × Above k m

-- The keys strictly increase: the shape that a map always has.
abbrev pub IsSorted {ℓ} : {V : Type ℓ} → BTreeMap V → Type 0
IsSorted [] = Unit
IsSorted ((k, v) ∷ m) = Above k m × IsSorted m

module _ {ℓ} {V : Type ℓ} where
  pub Above-trans : (i k : Text) (m : BTreeMap V) → cmp i k ≡ Ordering.lt → Above k m → Above i m
  Above-trans i k [] h a = tt
  Above-trans i k ((j, v) ∷ m) h a = (cmp_trans i k j h a.0, Above-trans i k m h a.1)

  insert-Above :
      (i k : Text) (v : V) (m : BTreeMap V)
      → cmp i k ≡ Ordering.lt
      → Above i m
      → Above i (insert k v m)
  unfolding insert
  insert-Above i k v [] h a = (h, tt)
  insert-Above i k v ((j, w) ∷ m) h a = ground (arith, insert-Above i k v m h a.1)

  pub insert-IsSorted : (k : Text) (v : V) (m : BTreeMap V) → IsSorted m → IsSorted (insert k v m)
  unfolding insert
  insert-IsSorted k v [] s = (tt, tt)
  insert-IsSorted k v ((j, w) ∷ m) s = ground (
    arith,
    λ (e : cmp k j ≡ Ordering.lt). Above-trans k j m e s.0,
    eq_of_cmp k j,
    λ (e : cmp k j ≡ Ordering.gt). insert-Above j k v m (cmp_gt k j e) s.0,
    insert-IsSorted k v m s.1,
  )

  remove-Above : (i k : Text) (m : BTreeMap V) → Above i m → Above i (remove k m)
  unfolding remove
  remove-Above i k [] a = tt
  remove-Above i k ((j, w) ∷ m) a = ground (arith, remove-Above i k m a.1)

  pub remove-IsSorted : (k : Text) (m : BTreeMap V) → IsSorted m → IsSorted (remove k m)
  unfolding remove
  remove-IsSorted k [] s = tt
  remove-IsSorted k ((j, w) ∷ m) s = ground (arith, remove-Above j k m s.0, remove-IsSorted k m s.1)

  pub contains_key-get : (k : Text) (m : BTreeMap V) → contains_key k m ≡ is_some (get k m)
  unfolding contains_key get
  contains_key-get k [] = refl
  contains_key-get k ((j, v) ∷ m) = ground (arith, contains_key-get k m)

module _ {V : Type 0} where
  pub In-get : (k : Text) (v : V) (m : BTreeMap V) → get k m ≡ some v → In (k, v) m
  unfolding get
  In-get k v [] h = cc
  In-get k v ((j, w) ∷ m) h = elim (Bool-cases (j == k)) [
    | inl e ↦ inl (ground (arith, text_beq_iff j k))
    | inr e ↦ inr (In-get k v m (rw e at h))
  ]

  Above-In : (i k : Text) (v : V) (m : BTreeMap V) → Above i m → In (k, v) m → cmp i k ≡ Ordering.lt
  Above-In i k v [] a h = elim h [ ]
  Above-In i k v ((j, w) ∷ m) a (inl e) = ground arith
  Above-In i k v ((j, w) ∷ m) a (inr h) = Above-In i k v m a.1 h

  pub get-In : (k : Text) (v : V) (m : BTreeMap V) → IsSorted m → In (k, v) m → get k m ≡ some v
  unfolding get
  get-In k v [] s h = elim h [ ]
  get-In k v ((j, w) ∷ m) s (inl e) = ground (arith, text_beq_iff j k)
  get-In k v ((j, w) ∷ m) s (inr h) =
      ground (arith, text_beq_iff j k, Above-In j k v m s.0 h, cmp_refl k, get-In k v m s.1 h)
