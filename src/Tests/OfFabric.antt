-- ===== src/Tests/OfFabric.antt =====
-- The fabric's theorems at sample logs.
use rotten_apple.Prelude.{
  All, In, List, Text, [], ap, arith, codes, err, false, inl, is_whitespace, length, none, ok, refl,
  rsplit_once, some, sym, text_beq, true, ℕ, ◌<◌, ◌↔◌, ◌∙◌, ◌∷◌, ◌≡◌, ◌≢◌, ◌⊎◌,
}
use rotten_apple.HashMap
use rotten_apple.Fabric.NodeId.{Entropy, derive_from_paths, hex_suffix, same}
use rotten_apple.Fabric.NodeId.Derive.{IsEntropy, derive_from_paths-again}
use rotten_apple.Fabric.NodeId.Suffix.{NoDash}
use rotten_apple.Fabric.Event.{Envelope, claim_lease, sign, verify-sign, verify, hash, signed_bytes}
use rotten_apple.Fabric.Chain.{
  TrustStore, checks, continuity, trust_get, ChainError, panicked, new, zero_hash, append, commit,
  replay, u64_mod,
}
use rotten_apple.Fabric.Chain.Links.{Follows, IsSigned, IsWellFormed, last_core}
use rotten_apple.Fabric.Chain.Admission.{append_exact}
use rotten_apple.Fabric.Chain.Order.{SameLease, Ordered}
use rotten_apple.Fabric.Chain.History.{IsSound, replay-IsSound, replay-one_issuer}
use rotten_apple.Fabric.Chain.Tamper.{NoCollision, cores, head_hash_iff}
use rotten_apple.Tests.Samples.{
  fabric, trust, alice, bob, first_event, one_event, second_event, stray_event,
}

-- The first event of another peer, which knows alice by another key.
abbrev resigned : Envelope
resigned = sign fabric 8 alice 0 1 zero_hash 1000 (claim_lease bob)

abbrev other_trust : TrustStore fabric
other_trust = (alice, 8) ∷ []

one_event-IsWellFormed : IsWellFormed fabric one_event
unfolding commit new sign
one_event-IsWellFormed = record {
  chain = ((refl, refl), tt);
  cached = (refl, refl, refl, refl, refl);
}

first_event-IsSigned : IsSigned fabric trust first_event
unfolding sign trust_get HashMap.get same hex_suffix rsplit_once text_beq
first_event-IsSigned = record {
  key = 7;
  trusted = refl;
  verified = verify-sign fabric 7 alice 0 1 zero_hash 1000 (claim_lease bob);
}

one_event-IsSound : IsSound fabric trust one_event
unfolding commit new
one_event-IsSound = record {
  well_formed = one_event-IsWellFormed;
  signed = (first_event-IsSigned, tt);
}

one_event-short : length one_event.events < u64_mod
unfolding commit new
one_event-short = omega arith

one_event-In : In first_event one_event.events
unfolding commit new
one_event-In = inl refl

accepted : (replay fabric new (first_event ∷ []) trust).events ≡ first_event ∷ []
unfolding replay append checks continuity commit new verify sign hash signed_bytes trust_get
    HashMap.get same hex_suffix rsplit_once text_beq
accepted = refl

accepted_resigned : (replay fabric new (resigned ∷ []) other_trust).events ≡ resigned ∷ []
unfolding replay append checks continuity commit new verify sign hash signed_bytes trust_get
    HashMap.get same hex_suffix rsplit_once text_beq
accepted_resigned = refl

same_core : first_event.core ≡ resigned.core
unfolding sign
same_core = refl

resigned-NoCollision :
    NoCollision fabric
      (replay fabric new (first_event ∷ []) trust).events
      (replay fabric new (resigned ∷ []) other_trust).events
resigned-NoCollision = rw (accepted, accepted_resigned) ((λ h. same_core, tt), tt)

aa-NoDash : NoDash (codes "aa")
aa-NoDash = ((λ h. ground arith), ((λ h. ground arith), tt))

append_exact_example :
    (append fabric one_event second_event trust ≡ (ok tt, commit fabric one_event second_event))
      × IsSigned fabric trust second_event
      × Follows fabric (last_core none one_event.events) second_event.core
    ⊎ (e : ChainError) × (append fabric one_event second_event trust ≡ (err e, one_event))
      × (e ≢ panicked)
      × ¬ (
          IsSigned fabric trust second_event
          × Follows fabric (last_core none one_event.events) second_event.core)
append_exact_example = append_exact fabric one_event second_event trust one_event-IsWellFormed

replay-IsSound_example :
    IsSound fabric trust (replay fabric one_event (stray_event ∷ second_event ∷ []) trust)
replay-IsSound_example =
    replay-IsSound fabric trust one_event (stray_event ∷ second_event ∷ []) one_event-IsSound

replay-one_issuer_example :
    Ordered SameLease
      (replay fabric new (first_event ∷ stray_event ∷ second_event ∷ []) trust).events
replay-one_issuer_example =
    replay-one_issuer fabric trust (first_event ∷ stray_event ∷ second_event ∷ [])

head_hash_iff_example :
    let log = replay fabric new (first_event ∷ []) trust in
    let log' = replay fabric new (resigned ∷ []) other_trust in
    (log.head_hash ≡ log'.head_hash) ↔ (cores log.events ≡ cores log'.events)
head_hash_iff_example =
    head_hash_iff fabric (first_event ∷ []) (resigned ∷ []) trust other_trust
      (ap length accepted ∙ sym (ap length accepted_resigned)) resigned-NoCollision

abbrev byte_names : List ℕ → Text
byte_names [] = []
byte_names (b ∷ m) = b'a' ∷ b'0' ∷ byte_names m

byte_names-visible : (m : List ℕ) → All (λ c. is_whitespace c ≡ false) (byte_names m)
unfolding is_whitespace
byte_names-visible [] = tt
byte_names-visible (b ∷ m) = (refl, (refl, byte_names-visible m))

abbrev entropy : Entropy
entropy = record { sha256 = λ m. 171 ∷ m; hex_encode = byte_names; random = 1 ∷ 2 ∷ [] }

entropy-IsEntropy : IsEntropy entropy
entropy-IsEntropy = record {
  digest = λ m. (171, m, refl);
  bytes = (1, 2 ∷ [], refl);
  hex = λ b rest. (b'a', b'0' ∷ byte_names rest, refl);
  hex_visible = byte_names-visible;
}

derive_from_paths-again_example :
    let (id, file) =
      derive_from_paths entropy true none (some (codes "4c4c")) (some (codes "My Desk")) in
    derive_from_paths entropy false file none (some (codes "rack")) ≡ (id, file)
derive_from_paths-again_example =
    derive_from_paths-again entropy entropy-IsEntropy true none (some (codes "4c4c"))
      (some (codes "My Desk")) entropy false none (some (codes "rack")) (inl refl)
