-- ===== src/Fabric/Event.antt =====
-- crates/fabric/src/event.rs: signed envelopes. The Ed25519 keys (keypair.rs wraps the crate
-- ed25519-dalek), SHA-256 and the JSON encoder are other crates: the record `Fabric` holds what the
-- code uses of them. A u32 or u64 field is a natural number.
use rotten_apple.Prelude.{
  Bool, List, Option, Result, Text, fail_if, nat_eq, not, ok, text_eq, true, ℕ, ◌==◌, ◌>>◌, ◌≡◌,
}
use rotten_apple.Fabric.NodeId.{NodeId}

abbrev pub Bytes : Type 0
Bytes = List ℕ

pub data EventBody : Type 0 where
  claim_lease : (target_node : NodeId) → EventBody
  release_lease : (target_node : NodeId) → EventBody
  assign : (manifest_id manifest_toml : Text) → EventBody
  unassign : (manifest_id : Text) → EventBody
  balloon : (manifest_id : Text) → (target_mb : ℕ) → EventBody
  heartbeat :
      (free_memory_mb free_vcpus : ℕ)
      → (running : List Text) → (last_applied_hash : Option Text) → EventBody

pub record EnvelopeCore : Type 0 where
  pub schema : ℕ
  pub issuer : NodeId
  pub seq : ℕ
  pub lease_epoch : ℕ
  pub prev_hash : Bytes
  pub timestamp : ℕ
  pub body : EventBody

pub record Envelope : Type 0 where
  pub core : EnvelopeCore
  pub signature : Bytes

-- What the code uses of other crates.
pub record Fabric : Type 1 where
  pub KeyPair : Type 0
  pub PublicKey : Type 0
  pub public : KeyPair → PublicKey
  pub sign_bytes : KeyPair → Bytes → Bytes
  pub verify_bytes : PublicKey → Bytes → Bytes → Bool
  -- A signature made with a key verifies under its public half.
  pub verify_sign : (k : KeyPair) (m : Bytes) → verify_bytes (public k) m (sign_bytes k m) ≡ true
  -- `serde_json::to_vec` of an envelope's core.
  pub to_vec : EnvelopeCore → Bytes
  pub sha256 : Bytes → Bytes

abbrev pub envelope_schema_version : ℕ
envelope_schema_version = 1

pub data VerifyError : Type 0 where
  bad_signature : VerifyError
  schema_mismatch : (got expected : ℕ) → VerifyError

module _ (f : Fabric) where
  open f use {KeyPair, PublicKey, sign_bytes, verify_bytes, to_vec, sha256}

  unfoldable pub signed_bytes : EnvelopeCore → Bytes
  signed_bytes core = to_vec core

  unfoldable pub hash : EnvelopeCore → Bytes
  hash core = sha256 (signed_bytes core)

  unfoldable pub sign :
      KeyPair
      → NodeId
      → (seq lease_epoch : ℕ) → (prev_hash : Bytes) → (timestamp : ℕ) → EventBody
      → Envelope
  unfolding signed_bytes
  sign kp issuer seq lease_epoch prev_hash timestamp body =
      let core : EnvelopeCore = record {
        schema = envelope_schema_version;
        issuer = issuer;
        seq = seq;
        lease_epoch = lease_epoch;
        prev_hash = prev_hash;
        timestamp = timestamp;
        body = body;
      } in
      record { core = core; signature = sign_bytes kp (signed_bytes core) }

  unfoldable pub verify : Envelope → PublicKey → Result VerifyError (Unit {0})
  unfolding signed_bytes
  verify env issuer_pubkey = do
    fail_if (not (env.core.schema == envelope_schema_version))
        (schema_mismatch env.core.schema envelope_schema_version)
    fail_if (not (verify_bytes issuer_pubkey (signed_bytes env.core) env.signature)) bad_signature
    ok tt

  -- An envelope that is signed with a key verifies under the key's public half.
  pub verify-sign :
      (kp : KeyPair) (issuer : NodeId) (seq lease_epoch : ℕ) (prev_hash : Bytes) (timestamp : ℕ)
      (body : EventBody)
      → verify (sign kp issuer seq lease_epoch prev_hash timestamp body) (f.public kp) ≡ ok tt
  unfolding verify sign
  verify-sign kp issuer seq lease_epoch prev_hash timestamp body = rw f.verify_sign
