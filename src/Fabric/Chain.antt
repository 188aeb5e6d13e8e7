-- ===== src/Fabric/Chain.antt =====
-- crates/fabric/src/chain.rs: the trust store and the append-only log of signed events. The proofs
-- are in the modules below.
pub mod Links
pub mod Admission
pub mod Order
pub mod History
pub mod Tamper
use rotten_apple.Prelude.{
  Bool, List, Option, Result, [], err, fail_if, false, if◌then◌else◌, ltb, nat_eq, none, not, ok,
  ok_or, replicate, some, text_eq, true, ℕ, ◌%◌, ◌++◌, ◌+◌, ◌==◌, ◌>>=◌, ◌>>◌, ◌^◌, ◌∷◌,
}
use rotten_apple.HashMap
use rotten_apple.Fabric.NodeId.{NodeId, same}
use rotten_apple.Fabric.Event.{Bytes, EnvelopeCore, Envelope, Fabric, VerifyError, hash, verify}

abbrev pub u64_mod : ℕ
u64_mod = 2 ^ 64

pub data ChainError : Type 0 where
  unknown_issuer : NodeId → ChainError
  verify_failed : VerifyError → ChainError
  prev_hash_mismatch : (expected got : Bytes) → ChainError
  epoch_regression : (head got : ℕ) → ChainError
  bad_genesis_seq : ℕ → ChainError
  epoch_reset_seq_not_zero : (new_epoch got_seq : ℕ) → ChainError
  issuer_switch_in_epoch : (epoch : ℕ) → (expected got : NodeId) → ChainError
  seq_gap : (issuer : NodeId) → (expected got : ℕ) → ChainError
  -- The two calls of `expect`.
  panicked : ChainError

pub record EventLog : Type 0 where
  pub events : List Envelope
  pub head_hash : Option Bytes
  pub head_epoch : ℕ
  pub head_issuer : Option NodeId
  pub head_seq : Option ℕ

unfoldable pub new : EventLog
new = record { events = []; head_hash = none; head_epoch = 0; head_issuer = none; head_seq = none }

abbrev pub zero_hash : Bytes
zero_hash = replicate 32 0

-- `EventLog::head_hash`.
abbrev pub unwrap_hash : Option Bytes → Bytes
unwrap_hash none = zero_hash
unwrap_hash (some h) = h

abbrev pub is_empty {ℓ} : {A : Type ℓ} → List A → Bool
is_empty [] = true
is_empty (x ∷ xs) = false

module _ (f : Fabric) where
  -- `TrustStore`.
  abbrev pub TrustStore : Type 0
  TrustStore = List (NodeId × f.PublicKey)

  unfoldable pub trust_insert : NodeId → f.PublicKey → TrustStore → TrustStore
  trust_insert = HashMap.insert same

  unfoldable pub trust_get : NodeId → TrustStore → Option f.PublicKey
  trust_get = HashMap.get same

-- Within an epoch: the issuer of the head goes on, with the next sequence number.
same_epoch : EventLog → EnvelopeCore → Option NodeId → Option ℕ → Result ChainError (Unit {0})
same_epoch log core (some head_issuer) (some head_seq) = do
  fail_if (not (same core.issuer head_issuer))
      (issuer_switch_in_epoch log.head_epoch head_issuer core.issuer)
  let want = (head_seq + 1) % u64_mod
  fail_if (not (core.seq == want)) (seq_gap core.issuer want core.seq)
  ok tt
same_epoch log core (some head_issuer) none = do
  fail_if (not (same core.issuer head_issuer))
      (issuer_switch_in_epoch log.head_epoch head_issuer core.issuer)
  err panicked
same_epoch log core none head_seq = err panicked

-- Rules 5 and 6: sequence and issuer continuity.
unfoldable pub continuity : EventLog → EnvelopeCore → Result ChainError (Unit {0})
unfolding same_epoch
continuity log core =
    if is_empty log.events
    then fail_if (not (core.seq == 0)) (bad_genesis_seq core.seq)
    else if ltb log.head_epoch core.lease_epoch
    then fail_if (not (core.seq == 0)) (epoch_reset_seq_not_zero core.lease_epoch core.seq)
    else same_epoch log core log.head_issuer log.head_seq

abbrev pub map_verify : Result VerifyError (Unit {0}) → Result ChainError (Unit {0})
map_verify (ok u) = ok u
map_verify (err e) = err (verify_failed e)

module _ (f : Fabric) where
  -- The checks of `append`, in its order.
  unfoldable pub checks : EventLog → Envelope → TrustStore f → Result ChainError (Unit {0})
  checks log env trust = do
    pubkey ← ok_or (trust_get f env.core.issuer trust) (unknown_issuer env.core.issuer)
    map_verify (verify f env pubkey)
    fail_if (not (env.core.prev_hash == unwrap_hash log.head_hash))
        (prev_hash_mismatch (unwrap_hash log.head_hash) env.core.prev_hash)
    fail_if (ltb env.core.lease_epoch log.head_epoch)
        (epoch_regression log.head_epoch env.core.lease_epoch)
    continuity log env.core

  unfoldable pub commit : EventLog → Envelope → EventLog
  commit log env = record {
    events = log.events ++ env ∷ [];
    head_hash = some (hash f env.core);
    head_epoch = env.core.lease_epoch;
    head_issuer = some env.core.issuer;
    head_seq = some env.core.seq;
  }

  -- `EventLog::append`: the result and the log afterwards.
  unfoldable pub append :
      EventLog → Envelope → TrustStore f → Result ChainError (Unit {0}) × EventLog
  append log env trust = elim (checks log env trust) [
    | ok u ↦ (ok u, commit log env)
    | err e ↦ (err e, log)
  ]

  -- A peer that offers envelopes one after another; a refused one ends only its own offer.
  unfoldable pub replay : EventLog → List Envelope → TrustStore f → EventLog
  replay log [] trust = log
  replay log (env ∷ rest) trust = replay (append log env trust).1 rest trust
