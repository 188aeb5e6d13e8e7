-- ===== src/Orchestratord/Auth.antt =====
-- crates/orchestratord/src/auth.rs: who may call a method that changes something. Keys, signatures,
-- hexadecimal and the JSON encoder are other crates. The proofs are in the module below.
pub mod Gate
pub mod Payload
use rotten_apple.Prelude.{
  Bool, List, Option, Result, Text, [], codes, contains, err, fail_if, false, if◌then◌else◌, leb,
  length, nat_eq, none, not, ok, ok_or, some, suc, text_eq, true, utf8, zero, ℕ, ◌%◌, ◌++◌, ◌/◌,
  ◌==◌, ◌>>=◌, ◌>>◌, ◌^◌, ◌↔◌, ◌∷◌, ◌≡◌,
}
use rotten_apple.Fabric.NodeId.{NodeId}
use rotten_apple.Fabric.NodeId
use rotten_apple.Fabric.Event.{Bytes, Fabric}
use rotten_apple.Fabric.Chain.{TrustStore, trust_get}

abbrev pub nonce_bytes : ℕ
nonce_bytes = 32

abbrev pub rpc_sig_domain : Bytes
rpc_sig_domain = codes "rotten-apple:orchestratord:rpc:v1"

-- The methods that only read.
abbrev pub read_only : List Text
read_only =
    codes "ping"
    ∷ codes "host.info"
    ∷ codes "host.resources"
    ∷ codes "domain.list"
    ∷ codes "domain.get"
    ∷ codes "engine.status"
    ∷ codes "events.tail"
    ∷ []

unfoldable pub method_is_privileged : Text → Bool
method_is_privileged method = not (contains read_only method)

pub record AuthRequest : Type 0 where
  pub node_id : Text
  pub pubkey : Text
  pub seq : ℕ
  pub signature : Text

pub data DenyReason : Type 0 where
  missing_auth malformed_node malformed_pubkey malformed_signature : DenyReason
  unknown_node key_mismatch stale_seq bad_signature : DenyReason

pub record AuthSession : Type 0 where
  pub nonce : Bytes
  pub last_seq : Option ℕ

abbrev pub new : Bytes → AuthSession
new nonce = record { nonce = nonce; last_seq = none }

-- What the file uses of other crates, beyond what the fabric uses.
pub record Wire (f : Fabric) : Type 1 where
  -- `serde_json::Value`, and its encoding.
  pub Value : Type 0
  pub to_vec : Value → Bytes
  -- `PublicKey` compares by its bytes.
  pub same_key : f.PublicKey → f.PublicKey → Bool
  pub same_key_iff : (a b : f.PublicKey) → (same_key a b ≡ true) ↔ (a ≡ b)
  pub to_bytes : f.PublicKey → Bytes
  pub from_bytes : Bytes → Option f.PublicKey
  pub from_to_bytes : (k : f.PublicKey) → from_bytes (to_bytes k) ≡ some k
  pub length_to_bytes : (k : f.PublicKey) → length (to_bytes k) ≡ 32
  pub length_sign : (k : f.KeyPair) (m : Bytes) → length (f.sign_bytes k m) ≡ 64
  pub hex_encode : Bytes → Text
  pub hex_decode : Text → Option Bytes
  pub decode_encode : (b : Bytes) → hex_decode (hex_encode b) ≡ some b

-- `to_le_bytes` of a number of that many bytes.
unfoldable pub le_bytes : ℕ → ℕ → Bytes
le_bytes zero n = []
le_bytes (suc w) n = n % 256 ∷ le_bytes w (n / 256)

abbrev of_length : ℕ → Option Bytes → Option Bytes
of_length n none = none
of_length n (some b) = if length b == n then some b else none

module _ (f : Fabric) (x : Wire f) where
  unfoldable pub decode_hex_fixed : ℕ → Text → Option Bytes
  decode_hex_fixed n s = of_length n (x.hex_decode s)

  abbrev decode_key : Option Bytes → Option f.PublicKey
  decode_key none = none
  decode_key (some b) = x.from_bytes b

  unfoldable pub signing_payload : (nonce : Bytes) → (seq : ℕ) → (method : Text) → x.Value → Bytes
  signing_payload nonce seq method params =
      let name = utf8 method in
      let body = name ++ x.to_vec params in
      let counted = le_bytes 4 (length name % 2 ^ 32) ++ body in
      rpc_sig_domain ++ (0 ∷ (nonce ++ (le_bytes 8 seq ++ counted)))

  unfoldable pub sign_request :
      f.KeyPair → NodeId → (nonce : Bytes) → (seq : ℕ) → (method : Text) → x.Value → AuthRequest
  sign_request kp node_id nonce seq method params = record {
    node_id = node_id.text;
    pubkey = x.hex_encode (x.to_bytes (f.public kp));
    seq = seq;
    signature = x.hex_encode (f.sign_bytes kp (signing_payload nonce seq method params));
  }

  -- The replay guard.
  abbrev pub is_stale : Option ℕ → ℕ → Bool
  is_stale none seq = false
  is_stale (some last) seq = leb seq last

  -- The checks of a privileged call that carries `auth`.
  unfoldable pub authenticate :
      AuthSession
      → (method : Text) → x.Value
      → AuthRequest
      → TrustStore f
      → Result DenyReason NodeId
  authenticate s method params auth trust = do
    node ← ok_or (NodeId.new auth.node_id) malformed_node
    presented ← ok_or (decode_key (decode_hex_fixed 32 auth.pubkey)) malformed_pubkey
    sig ← ok_or (decode_hex_fixed 64 auth.signature) malformed_signature
    trusted ← ok_or (trust_get f node trust) unknown_node
    fail_if (not (x.same_key trusted presented)) key_mismatch
    fail_if (is_stale s.last_seq auth.seq) stale_seq
    let payload = signing_payload s.nonce auth.seq method params
    fail_if (not (f.verify_bytes presented payload sig)) bad_signature
    ok node

  abbrev pub admitted :
      AuthSession → ℕ → Result DenyReason NodeId → Result DenyReason (Option NodeId) × AuthSession
  admitted s seq (ok node) = (ok (some node), record s { last_seq = some seq })
  admitted s seq (err e) = (err e, s)

  -- `authorize`: the answer, and the session afterwards.
  unfoldable pub authorize :
      AuthSession
      → (method : Text) → x.Value
      → Option AuthRequest
      → TrustStore f
      → Result DenyReason (Option NodeId) × AuthSession
  authorize s method params none trust =
      if not (method_is_privileged method) then (ok none, s) else (err missing_auth, s)
  authorize s method params (some auth) trust =
      if not (method_is_privileged method)
      then (ok none, s)
      else admitted s auth.seq (authenticate s method params auth trust)
