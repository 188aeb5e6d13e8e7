-- ===== src/Fabric/Chain/Order.antt =====
-- The order of the events of a log: lease epochs, one issuer in each epoch, and sequence numbers.
use rotten_apple.Prelude.{
  All, List, [], arith, length, none, some, true, ◌+◌, ◌<◌, ◌∷◌, ◌≡◌, ◌≤◌, ◌⊎◌,
}
use native.Mathlib.Nat.{mod-eq_of_lt}
use rotten_apple.Fabric.NodeId.{same}
use rotten_apple.Fabric.NodeId.Suffix.{same-IsEquivalence}
use rotten_apple.Fabric.Event.{EnvelopeCore, Envelope, Fabric}
use rotten_apple.Fabric.Chain.{u64_mod}
use rotten_apple.Fabric.Chain.Links.{Follows, IsChain}

-- `a` may stand before `b`: in an earlier epoch, or in the same one with the same issuer.
abbrev pub SameLease : EnvelopeCore → EnvelopeCore → Type 0
SameLease a b =
    (a.lease_epoch < b.lease_epoch)
    ⊎ (a.lease_epoch ≡ b.lease_epoch) × (same a.issuer b.issuer ≡ true)

-- And within an epoch the sequence numbers grow.
abbrev pub Precedes : EnvelopeCore → EnvelopeCore → Type 0
Precedes a b =
    (a.lease_epoch < b.lease_epoch)
    ⊎ (a.lease_epoch ≡ b.lease_epoch) × (same a.issuer b.issuer ≡ true) × (a.seq < b.seq)

-- Every event is related to every later one.
abbrev pub Ordered : (EnvelopeCore → EnvelopeCore → Type 0) → List Envelope → Type 0
Ordered R [] = Unit
Ordered R (e ∷ es) = All (λ d. R e.core d.core) es × Ordered R es

SameLease-trans : (a b c : EnvelopeCore) → SameLease a b → SameLease b c → SameLease a c
SameLease-trans a b c h k = ground (arith, same-IsEquivalence.same_trans a.issuer b.issuer c.issuer)

Precedes-trans : (a b c : EnvelopeCore) → Precedes a b → Precedes b c → Precedes a c
Precedes-trans a b c h k = ground (arith, same-IsEquivalence.same_trans a.issuer b.issuer c.issuer)

module _ (R : EnvelopeCore → EnvelopeCore → Type 0)
    (trans : (a b c : EnvelopeCore) → R a b → R b c → R a c) where
  All-trans :
      (a b : EnvelopeCore) (es : List Envelope)
      → R a b
      → All (λ d. R b d.core) es
      → All (λ d. R a d.core) es
  All-trans a b [] h k = tt
  All-trans a b (d ∷ es) h k = (trans a b d.core h k.0, All-trans a b es h k.1)

module _ (f : Fabric) where
  Follows-SameLease : (a b : EnvelopeCore) → Follows f (some a) b → SameLease a b
  Follows-SameLease a b h = ground (arith, same-IsEquivalence.same_symm b.issuer a.issuer)

  Follows-Precedes :
      (a b : EnvelopeCore) → a.seq + 1 < u64_mod → Follows f (some a) b → Precedes a b
  Follows-Precedes a b room h =
      ground (arith, same-IsEquivalence.same_symm b.issuer a.issuer, mod-eq_of_lt room)

  Follows-seq-le : (a b : EnvelopeCore) → Follows f (some a) b → b.seq ≤ a.seq + 1
  Follows-seq-le a b h = ground arith

  SameLease-IsChain :
      (a : EnvelopeCore) (es : List Envelope)
      → IsChain f (some a) es
      → All (λ d. SameLease a d.core) es × Ordered SameLease es
  SameLease-IsChain a [] c = (tt, tt)
  SameLease-IsChain a (e ∷ es) c =
      let (h, o) = SameLease-IsChain e.core es c.1 in
      let s : SameLease a e.core = Follows-SameLease a e.core c.0 in
      ((s, All-trans SameLease SameLease-trans a e.core es s h), (h, o))

  Precedes-IsChain :
      (a : EnvelopeCore) (es : List Envelope)
      → a.seq + length es < u64_mod
      → IsChain f (some a) es
      → All (λ d. Precedes a d.core) es × Ordered Precedes es
  Precedes-IsChain a [] room c = (tt, tt)
  Precedes-IsChain a (e ∷ es) room c =
      let (h, o) = Precedes-IsChain e.core es (omega (arith, Follows-seq-le a e.core c.0)) c.1 in
      let s : Precedes a e.core = Follows-Precedes a e.core (omega arith) c.0 in
      ((s, All-trans Precedes Precedes-trans a e.core es s h), (h, o))

  pub Ordered-SameLease : (es : List Envelope) → IsChain f none es → Ordered SameLease es
  Ordered-SameLease [] c = tt
  Ordered-SameLease (e ∷ es) c = SameLease-IsChain e.core es c.1

  pub Ordered-Precedes :
      (es : List Envelope) → length es ≤ u64_mod → IsChain f none es → Ordered Precedes es
  Ordered-Precedes [] room c = tt
  Ordered-Precedes (e ∷ es) room c = Precedes-IsChain e.core es (omega arith) c.1
