-- ===== src/Agent/Truth.antt =====
-- crates/agent/src/truth.rs: what the backend reports.
use rotten_apple.Prelude.{
  Bool, Bool-cases, In, Option, Text, [], ap, arith, false, if◌then◌else◌, inl, inr, nat_eq, none,
  some, text_beq_iff, text_eq, true, ℕ, ◌==◌, ◌∷◌, ◌≡◌,
}
use rotten_apple.BTreeMap
use rotten_apple.BTreeMap.{BTreeMap}

pub data DomainState : Type 0 where
  running transient absent : DomainState

pub record TruthEntry : Type 0 where
  pub domain_id : Text
  pub manifest_id : Option Text
  pub state : DomainState
  pub memory_mb : ℕ
  pub vcpus : ℕ

pub record Truth : Type 0 where
  pub domains : BTreeMap TruthEntry

unfoldable pub new : Truth
new = record { domains = [] }

unfoldable pub insert : TruthEntry → Truth → Truth
insert e t = record { domains = BTreeMap.insert e.domain_id e t.domains }

-- `d.manifest_id.as_deref() == Some(manifest_id)`.
abbrev pub reports : Text → TruthEntry → Bool
reports manifest_id d = elim d.manifest_id [ none ↦ false | some m ↦ m == manifest_id ]

unfoldable pub find_in : Text → BTreeMap TruthEntry → Option TruthEntry
find_in manifest_id [] = none
find_in manifest_id ((k, d) ∷ rest) =
    if reports manifest_id d then some d else find_in manifest_id rest

unfoldable pub find_by_manifest : Truth → Text → Option TruthEntry
find_by_manifest t manifest_id = find_in manifest_id t.domains

pub reports-true : (m : Text) (d : TruthEntry) → reports m d ≡ true → d.manifest_id ≡ some m
reports-true m d h = go d.manifest_id h
  where
    go : (o : Option Text) → (elim o [ none ↦ false | some n ↦ n == m ]) ≡ true → o ≡ some m
    go none h = cc
    go (some n) h = ap some ((text_beq_iff n m).0 h)

-- What is found is a domain that reports the manifest.
pub find_in-some :
    (m : Text) (ds : BTreeMap TruthEntry) (d : TruthEntry)
    → find_in m ds ≡ some d
    → (d.manifest_id ≡ some m) × ((k : Text) × In (k, d) ds)
unfolding find_in
find_in-some m [] d h = cc
find_in-some m ((k, e) ∷ ds) d h = elim (Bool-cases (reports m e)) [
  | inl r ↦ let p : e ≡ d = ground (arith, r) in (cc (p, reports-true m e r), (k, inl (cc p)))
  | inr r ↦ let (p, (j, q)) = find_in-some m ds d (ground (arith, r)) in (p, (j, inr q))
]
