-- ===== src/Cockpit/Choices/Sorted.antt =====
-- `sorted_unique_u64` keeps exactly the positive values, each once, in ascending order.
use rotten_apple.Prelude.{
  Bool, Bool-cases, In, List, [], ap, arith, false, if_elim, inl, inr, leb, leb→le, ltb, ltb→lt,
  lt→ltb, nat_beq, nat_beq_iff, refl, subst, sym, true, ℕ, ◌<◌, ◌↔◌, ◌∙◌, ◌∷◌, ◌≡◌, ◌≤◌, ◌⊎◌,
}
use rotten_apple.Cockpit.Choices.{
  retain, insert_sorted, sort_unstable, dedup_after, dedup, sorted_unique_u64,
}

pub In-retain : (p : ℕ → Bool) (v : ℕ) (l : List ℕ) → In v (retain p l) ↔ (In v l × (p v ≡ true))
unfolding retain
In-retain p v [] = (λ m. elim m [ ], λ m. elim m.0 [ ])
In-retain p v (w ∷ l) =
    let ih = In-retain p v l in
    elim (Bool-cases (p w)) [
      | inl e ↦ rw e (
        λ m. elim m [ inl q ↦ (inl q, rw q e) | inr n ↦ (inr ((ih.0 n).0), (ih.0 n).1) ],
        λ m. elim m.0 [ inl q ↦ inl q | inr n ↦ inr (ih.1 (n, m.1)) ],
      )
      | inr e ↦ rw e (
        λ m. (inr ((ih.0 m).0), (ih.0 m).1),
        λ m. elim m.0 [ inl q ↦ cc (sym e ∙ ap p (sym q) ∙ m.1) | inr n ↦ ih.1 (n, m.1) ],
      )
    ]

-- Each value is below all that follow it.
abbrev pub IsAscending : List ℕ → Type 0
IsAscending [] = Unit
IsAscending (v ∷ vs) = ((w : ℕ) → In w vs → v < w) × IsAscending vs

abbrev IsSorted : List ℕ → Type 0
IsSorted [] = Unit
IsSorted (v ∷ vs) = ((w : ℕ) → In w vs → v ≤ w) × IsSorted vs

In-insert : (v w : ℕ) (l : List ℕ) → In v (insert_sorted w l) ↔ ((v ≡ w) ⊎ In v l)
unfolding insert_sorted
In-insert v w [] = (λ m. m, λ m. m)
In-insert v w (x ∷ l) =
    let ih = In-insert v w l in
    if_elim (λ r. In v r ↔ ((v ≡ w) ⊎ In v (x ∷ l))) (leb w x) (λ _. (λ m. m, λ m. m))
      (λ _. (
        λ m. elim m [
          | inl q ↦ inr (inl q)
          | inr n ↦ elim (ih.0 n) [ inl q ↦ inl q | inr k ↦ inr (inr k) ]
        ],
        λ m. elim m [
          | inl q ↦ inr (ih.1 (inl q))
          | inr n ↦ elim n [ inl q ↦ inl q | inr k ↦ inr (ih.1 (inr k)) ]
        ],
      ))

insert-IsSorted : (w : ℕ) (l : List ℕ) → IsSorted l → IsSorted (insert_sorted w l)
unfolding insert_sorted
insert-IsSorted w [] h = (λ x m. elim m [ ], tt)
insert-IsSorted w (x ∷ l) h =
    if_elim IsSorted (leb w x)
      (λ e. (
        λ y m. elim m [
          | inl q ↦ rw q (leb→le w x e)
          | inr n ↦ let p = h.0 y n in let q = leb→le w x e in omega arith
        ],
        h,
      ))
      (λ e. (
        λ y m. elim ((In-insert y w l).0 m) [
          | inl q ↦ let f : x ≤ w = ground arith in rw q f
          | inr n ↦ h.0 y n
        ],
        insert-IsSorted w l h.1,
      ))

sort-IsSorted : (l : List ℕ) → IsSorted (sort_unstable l)
unfolding sort_unstable
sort-IsSorted [] = tt
sort-IsSorted (v ∷ l) = insert-IsSorted v (sort_unstable l) (sort-IsSorted l)

In-sort : (v : ℕ) (l : List ℕ) → In v (sort_unstable l) ↔ In v l
unfolding sort_unstable
In-sort v [] = (λ m. m, λ m. m)
In-sort v (w ∷ l) =
    let i = In-insert v w (sort_unstable l) in
    let ih = In-sort v l in
    (
      λ m. elim (i.0 m) [ inl q ↦ inl q | inr n ↦ inr (ih.0 n) ],
      λ m. i.1 (elim m [ inl q ↦ inl q | inr n ↦ inr (ih.1 n) ]),
    )

In-dedup_after : (v x : ℕ) (l : List ℕ) → In v (x ∷ dedup_after x l) ↔ In v (x ∷ l)
unfolding dedup_after
In-dedup_after v x [] = (λ m. m, λ m. m)
In-dedup_after v x (w ∷ l) = elim (Bool-cases (nat_beq x w)) [
  | inl e ↦
      let ih = In-dedup_after v x l in
      rw e (
        λ m. elim (ih.0 m) [ inl q ↦ inl q | inr n ↦ inr (inr n) ],
        λ m. ih.1 (elim m [
          | inl q ↦ inl q
          | inr n ↦ elim n [ inl q ↦ inl (q ∙ sym ((nat_beq_iff x w).0 e)) | inr k ↦ inr k ]
        ]),
      )
  | inr e ↦
      let ih = In-dedup_after v w l in
      rw e (
        λ m. elim m [ inl q ↦ inl q | inr n ↦ inr (ih.0 n) ],
        λ m. elim m [ inl q ↦ inl q | inr n ↦ inr (ih.1 n) ],
      )
]

dedup_skip : (x w : ℕ) (l : List ℕ) → nat_beq x w ≡ true → dedup_after x (w ∷ l) ≡ dedup_after x l
unfolding dedup_after
dedup_skip x w l e = rw (e, dedup_after)

dedup_keep :
    (x w : ℕ) (l : List ℕ) → nat_beq x w ≡ false → dedup_after x (w ∷ l) ≡ w ∷ dedup_after w l
unfolding dedup_after
dedup_keep x w l e = rw (e, dedup_after)

dedup_after-IsAscending :
    (x : ℕ) (l : List ℕ) → IsSorted (x ∷ l) → IsAscending (x ∷ dedup_after x l)
unfolding dedup_after
dedup_after-IsAscending x [] h = (λ w m. elim m [ ], tt)
dedup_after-IsAscending x (w ∷ l) h = elim (Bool-cases (nat_beq x w)) [
  | inl e ↦
      subst (λ r. IsAscending (x ∷ r)) (sym (dedup_skip x w l e))
        (dedup_after-IsAscending x l (λ y m. h.0 y (inr m), h.1.1))
  | inr e ↦
      let ih = dedup_after-IsAscending w l h.1 in
      let lt : x < w = let f = h.0 w (inl refl) in ground arith in
      subst (λ r. IsAscending (x ∷ r)) (sym (dedup_keep x w l e))
        (λ y m. elim m [ inl q ↦ rw q lt | inr n ↦ let g = ih.0 y n in omega arith ], ih)
]

dedup-IsAscending : (l : List ℕ) → IsSorted l → IsAscending (dedup l)
unfolding dedup
dedup-IsAscending [] h = tt
dedup-IsAscending (v ∷ l) h = dedup_after-IsAscending v l h

In-dedup : (v : ℕ) (l : List ℕ) → In v (dedup l) ↔ In v l
unfolding dedup
In-dedup v [] = (λ m. m, λ m. m)
In-dedup v (x ∷ l) = In-dedup_after v x l

pub sorted_unique_u64-IsAscending : (l : List ℕ) → IsAscending (sorted_unique_u64 l)
unfolding sorted_unique_u64
sorted_unique_u64-IsAscending l = dedup-IsAscending _ (sort-IsSorted (retain (λ v. ltb 0 v) l))

pub In-sorted_unique_u64 : (v : ℕ) (l : List ℕ) → In v (sorted_unique_u64 l) ↔ (In v l × (0 < v))
unfolding sorted_unique_u64
In-sorted_unique_u64 v l =
    let positive = retain (λ v. ltb 0 v) l in
    let kept = In-retain (λ v. ltb 0 v) v l in
    let d = In-dedup v (sort_unstable positive) in
    let s = In-sort v positive in
    (
      λ m. let k = kept.0 (s.0 (d.0 m)) in (k.0, ltb→lt 0 v k.1),
      λ m. d.1 (s.1 (kept.1 (m.0, lt→ltb 0 v m.1))),
    )
