-- ===== src/Cockpit/Choices/Offered.antt =====
-- What the balloon prompt offers passes the check that follows.
use rotten_apple.Prelude.{
  Bool, Bool-cases, In, List, [], arith, false, inl, inr, leb, leb→le, max, ok, refl, suc, true,
  zero, ℕ, ◌<◌, ◌↔◌, ◌∷◌, ◌≡◌, ◌≢◌, ◌≤◌, ◌⊎◌,
}
use rotten_apple.Cockpit.Choices.{
  retain, sorted_unique_u64, balloon_values, balloon_options_mb, in_range, or_default, cap_of,
  floor_of, validate_balloon_target,
}
use rotten_apple.Cockpit.Choices.Sorted.{
  In-retain, IsAscending, sorted_unique_u64-IsAscending, In-sorted_unique_u64,
}

-- The values in range, before a default.
abbrev kept : (current_mb floor cap : ℕ) → List ℕ
kept current_mb floor cap =
    sorted_unique_u64 (retain (in_range floor cap) (balloon_values current_mb cap floor))

kept_range :
    (current_mb floor cap v : ℕ)
    → In v (kept current_mb floor cap)
    → (floor ≤ v) × (v ≤ cap) × (0 < v)
kept_range current_mb floor cap v m =
    let p =
      (In-retain (in_range floor cap) v (balloon_values current_mb cap floor)).0
        ((In-sorted_unique_u64 v _).0 m).0 in
    let q = p.1 in (ground arith, ground arith, ground arith)

floor_kept :
    (current_mb floor cap : ℕ) → 0 < floor → floor ≤ cap → In floor (kept current_mb floor cap)
unfolding balloon_values
floor_kept current_mb floor cap h k = (In-sorted_unique_u64 floor _).1 (
  (In-retain (in_range floor cap) floor (balloon_values current_mb cap floor)).1
      (inl refl, ground arith),
  h,
)

validates :
    (v current_mb max_mb : ℕ) (d : Bool)
    → 0 < v
    → (max_mb ≡ 0) ⊎ (v ≤ max_mb)
    → floor_of d ≤ v
    → validate_balloon_target v current_mb max_mb d ≡ ok v
unfolding validate_balloon_target
validates v current_mb max_mb true p (inl e) h = ground arith
validates v current_mb max_mb true p (inr e) h = ground arith
validates v current_mb max_mb false p (inl e) h = ground arith
validates v current_mb max_mb false p (inr e) h = ground arith

-- Where the floor is above the cap the only choice is refused.
default_refused :
    (current_mb max_mb : ℕ) (d : Bool)
    → cap_of current_mb max_mb < floor_of d
    → validate_balloon_target (max current_mb 1) current_mb max_mb d ≢ ok (max current_mb 1)
unfolding validate_balloon_target
default_refused current_mb max_mb true h e = ground arith
default_refused current_mb max_mb false h e = ground arith

below_cap : (v current_mb max_mb : ℕ) → v ≤ cap_of current_mb max_mb → (max_mb ≡ 0) ⊎ (v ≤ max_mb)
below_cap v current_mb zero h = inl refl
below_cap v current_mb (suc n) h = inr (ground arith)

cap_pos : (current_mb max_mb : ℕ) → 0 < cap_of current_mb max_mb
cap_pos current_mb max_mb = ground arith

-- The choices of a prompt: the kept ones, or the default where none is kept.
or_default-validate :
    (current_mb max_mb : ℕ) (d : Bool) (l : List ℕ)
    → ((v : ℕ) → In v l → (floor_of d ≤ v) × (v ≤ cap_of current_mb max_mb) × (0 < v))
    → (floor_of d ≤ cap_of current_mb max_mb → In (floor_of d) l)
    → (v : ℕ) → In v (or_default current_mb l)
    → (validate_balloon_target v current_mb max_mb d ≡ ok v)
      ↔ (floor_of d ≤ cap_of current_mb max_mb)
unfolding or_default
or_default-validate current_mb max_mb d [] range has v (inl q) = (
  λ e. elim (Bool-cases (leb (floor_of d) (cap_of current_mb max_mb))) [
    | inl f ↦ leb→le (floor_of d) (cap_of current_mb max_mb) f
    | inr f ↦ absurd (default_refused current_mb max_mb d (ground arith) (rw (← q) e))
  ],
  λ h. elim (has h) [ ],
)
or_default-validate current_mb max_mb d [] range has v (inr n) = elim n [ ]
or_default-validate current_mb max_mb d (w ∷ ws) range has v m =
    let r = range v m in
    (
      λ _. let q = r.0 in let k = r.1 in omega arith,
      λ _. validates v current_mb max_mb d r.2 (below_cap v current_mb max_mb r.1) r.0,
    )

floor_pos : (d : Bool) → 0 < floor_of d
floor_pos true = omega arith
floor_pos false = omega arith

or_default-IsAscending :
    (current_mb : ℕ) (l : List ℕ) → IsAscending l → IsAscending (or_default current_mb l)
unfolding or_default
or_default-IsAscending current_mb [] h = (λ w m. elim m [ ], tt)
or_default-IsAscending current_mb (v ∷ vs) h = h

-- The balloon prompt offers its values in ascending order, none twice, and each of them passes the
-- check that follows, unchanged, exactly when the range has room: only for dom0 with a cap below 512
-- MB is what it offers refused.
pub balloon_options_mb-validate :
    (current_mb max_mb : ℕ) (is_dom0 : Bool)
    → IsAscending (balloon_options_mb current_mb max_mb is_dom0)
      × ((v : ℕ)
          → In v (balloon_options_mb current_mb max_mb is_dom0)
          → (validate_balloon_target v current_mb max_mb is_dom0 ≡ ok v)
            ↔ (floor_of is_dom0 ≤ cap_of current_mb max_mb))
unfolding balloon_options_mb
balloon_options_mb-validate current_mb max_mb is_dom0 =
    let floor = floor_of is_dom0 in
    let cap = cap_of current_mb max_mb in
    (
      or_default-IsAscending current_mb (kept current_mb floor cap) (
          sorted_unique_u64-IsAscending
            (retain (in_range floor cap) (balloon_values current_mb cap floor))),
      or_default-validate current_mb max_mb is_dom0 (kept current_mb floor cap)
          (kept_range current_mb floor cap)
          (λ h. floor_kept current_mb floor cap (floor_pos is_dom0) h),
    )
