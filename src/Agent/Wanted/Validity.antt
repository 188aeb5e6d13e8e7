-- ===== src/Agent/Wanted/Validity.antt =====
-- What the wanted state holds after any events.
use rotten_apple.Prelude.{
  Bool-cases, List, Option, Option-cases, Result-cases, Text, [], arith, inl, inr, nat_eq, none, ok,
  some, subst, text_beq_iff, text_eq, ℕ, ◌==◌, ◌∷◌, ◌≡◌,
}
use rotten_apple.BTreeMap
use rotten_apple.BTreeMap.{BTreeMap, IsSorted}
use rotten_apple.Fabric.NodeId.{NodeId}
use rotten_apple.Fabric.Event.{
  EventBody, claim_lease, release_lease, assign, unassign, balloon, heartbeat,
}
use rotten_apple.Manifest.{Profile}
use rotten_apple.Agent.Wanted.{WantedEntry, WantedState, new, applied, apply_event, run}

module _ (parse : Text → Option Profile) where
  -- The entry of a key bears its name, and its profile is what its TOML parses to.
  pub record IsEntry (k : Text) (e : WantedEntry) : Type 0 where
    pub named : e.manifest_id ≡ k
    pub profile : Profile
    pub parses : parse e.profile_toml ≡ some profile
    pub cached : e.parsed ≡ some profile

  pub record IsValid (s : WantedState) : Type 0 where
    pub sorted : IsSorted s.manifests
    pub entries : (k : Text) (e : WantedEntry) → BTreeMap.get k s.manifests ≡ some e → IsEntry k e

  new-IsValid : IsValid new
  unfolding new BTreeMap.get
  new-IsValid = record { sorted = tt; entries = λ k e h. cc }

  insert-IsValid :
      (s : WantedState) (m toml : Text) (p : Profile) (epoch : ℕ)
      → parse toml ≡ some p
      → IsValid s
      → IsValid (record s {
        manifests =
            BTreeMap.insert m
              (record {
                manifest_id = m;
                profile_toml = toml;
                parsed = some p;
                assigned_at_epoch = epoch;
              })
              s.manifests;
      })
  insert-IsValid s m toml p epoch ok_toml v = record {
    sorted = BTreeMap.insert-IsSorted m _ s.manifests v.sorted;
    entries = λ k e h. elim (Bool-cases (m == k)) [
      | inl same_key ↦
          let stored : some _ ≡ some e = rw (BTreeMap.get-insert, same_key) at h in
          record {
            named = cc (stored, (text_beq_iff m k).0 same_key);
            profile = p;
            parses = cc (stored, ok_toml);
            cached = cc stored;
          }
      | inr other ↦ v.entries k e (rw (BTreeMap.get-insert, other) at h)
    ];
  }

  remove-IsValid :
      (s : WantedState) (m : Text)
      → IsValid s
      → IsValid (record s { manifests = BTreeMap.remove m s.manifests })
  remove-IsValid s m v = record {
    sorted = BTreeMap.remove-IsSorted m s.manifests v.sorted;
    entries = λ k e h. elim (Bool-cases (m == k)) [
      | inl same_key ↦ cc (rw (BTreeMap.get-remove, same_key) at h)
      | inr other ↦ v.entries k e (rw (BTreeMap.get-remove, other) at h)
    ];
  }

  lease-IsValid :
      (s : WantedState) (h : Option NodeId) (n : ℕ)
      → IsValid s
      → IsValid (record s { lease_holder = h; lease_epoch = n })
  lease-IsValid s h n v = record { sorted = v.sorted; entries = v.entries }

  applied-IsValid :
      (s s' : WantedState) (issuer : NodeId) (epoch : ℕ) (body : EventBody)
      → IsValid s
      → applied parse s issuer epoch body ≡ ok s'
      → IsValid s'
  unfolding applied
  applied-IsValid s s' issuer epoch (claim_lease t) v e =
      let p : record s { lease_holder = some issuer; lease_epoch = epoch } ≡ s' = ground arith in
      subst IsValid p (lease-IsValid s (some issuer) epoch v)
  applied-IsValid s s' issuer epoch (release_lease t) v e =
      let p : record s { lease_holder = none; lease_epoch = s.lease_epoch } ≡ s' = ground arith in
      subst IsValid p (lease-IsValid s none s.lease_epoch v)
  applied-IsValid s s' issuer epoch (assign m toml) v e = elim (Option-cases (parse toml)) [
    | inl bad ↦ ground arith
    | inr (p, good) ↦ subst IsValid (ground arith) (insert-IsValid s m toml p epoch good v)
  ]
  applied-IsValid s s' issuer epoch (unassign m) v e =
      let p : record s { manifests = BTreeMap.remove m s.manifests } ≡ s' = ground arith in
      subst IsValid p (remove-IsValid s m v)
  applied-IsValid s s' issuer epoch (balloon m mb) v e =
      let p : s ≡ s' = ground arith in subst IsValid p v
  applied-IsValid s s' issuer epoch (heartbeat mem cpus running hash) v e = cc

  pub apply_event-IsValid :
      (s : WantedState) (issuer : NodeId) (epoch : ℕ) (body : EventBody)
      → IsValid s
      → IsValid (apply_event parse s issuer epoch body).1
  unfolding apply_event
  apply_event-IsValid s issuer epoch body v =
      elim (Result-cases (applied parse s issuer epoch body)) [
        | inl (s', e) ↦ rw (e, apply_event) (applied-IsValid s s' issuer epoch body v e)
        | inr (x, e) ↦ rw (e, apply_event) v
      ]

  run_from-IsValid :
      (s : WantedState) (events : List (NodeId × ℕ × EventBody))
      → IsValid s
      → IsValid (run parse s events)
  unfolding run
  run_from-IsValid s [] v = v
  run_from-IsValid s ((issuer, epoch, body) ∷ rest) v =
      run_from-IsValid (apply_event parse s issuer epoch body).1 rest
        (apply_event-IsValid s issuer epoch body v)

  -- Whatever events arrive, in any order and from anyone, the wanted state is a map whose entries
  -- bear their keys and hold the profile that their own TOML parses to.
  pub run-IsValid : (events : List (NodeId × ℕ × EventBody)) → IsValid (run parse new events)
  run-IsValid events = run_from-IsValid new events new-IsValid
