-- ===== src/Orchestratord/Auth/Gate.antt =====
-- Which calls the gate lets through.
use rotten_apple.Prelude.{
  Option, Option-cases, Result-cases, Text, arith, err, false, inl, inr, length, none, ok, refl,
  some, true, ℕ, ◌<◌, ◌↔◌, ◌≡◌, ◌≤◌, ◌⊎◌,
}
use rotten_apple.Fabric.NodeId.{NodeId}
use rotten_apple.Fabric.NodeId
use rotten_apple.Fabric.Event.{Bytes, Fabric}
use rotten_apple.Fabric.Chain.{TrustStore, trust_get}
use rotten_apple.Orchestratord.Auth.{
  method_is_privileged, AuthRequest, DenyReason, AuthSession, Wire, decode_hex_fixed, decode_key,
  signing_payload, sign_request, is_stale, authenticate, authorize,
}

module _ (f : Fabric) (x : Wire f) where
  -- The sequence number is above the last one that was accepted.
  abbrev pub IsFresh : Option ℕ → ℕ → Type 0
  IsFresh none seq = Unit
  IsFresh (some last) seq = last < seq

  -- The request comes from a trusted node: it presents the node's own key, its number is fresh, and
  -- its signature verifies over the session's nonce, the number, the method and the parameters.
  pub record IsAuthentic (trust : TrustStore f) (s : AuthSession) (method : Text) (params : x.Value)
      (auth : AuthRequest) (node : NodeId) : Type 0 where
    pub named : NodeId.new auth.node_id ≡ some node
    pub key : f.PublicKey
    pub presented : decode_key f x (decode_hex_fixed f x 32 auth.pubkey) ≡ some key
    pub trusted : trust_get f node trust ≡ some key
    pub fresh : IsFresh s.last_seq auth.seq
    pub signature : Bytes
    pub decoded : decode_hex_fixed f x 64 auth.signature ≡ some signature
    pub verified :
        f.verify_bytes key (signing_payload f x s.nonce auth.seq method params) signature ≡ true

  is_stale_iff : (o : Option ℕ) (n : ℕ) → (is_stale f x o n ≡ false) ↔ IsFresh o n
  is_stale_iff none n = (λ _. tt, λ _. refl)
  is_stale_iff (some last) n = (λ h. ground arith, λ h. ground arith)

  module _ (trust : TrustStore f) (s : AuthSession) (method : Text) (params : x.Value)
      (auth : AuthRequest) where
    authenticate_complete :
        (node : NodeId)
        → IsAuthentic trust s method params auth node
        → authenticate f x s method params auth trust ≡ ok node
    unfolding authenticate
    authenticate_complete node h = ground (
      arith,
      h.named,
      h.presented,
      h.decoded,
      h.trusted,
      h.verified,
      x.same_key_iff h.key h.key,
      is_stale_iff s.last_seq auth.seq,
      h.fresh,
    )

    authenticate_sound :
        (node : NodeId)
        → authenticate f x s method params auth trust ≡ ok node
        → IsAuthentic trust s method params auth node
    unfolding authenticate
    authenticate_sound node h = elim (Option-cases (NodeId.new auth.node_id)) [
      | inl e ↦ absurd (ground arith)
      | inr (n, named) ↦
          elim (Option-cases (decode_key f x (decode_hex_fixed f x 32 auth.pubkey))) [
            | inl e ↦ absurd (ground arith)
            | inr (key, presented) ↦ elim (Option-cases (decode_hex_fixed f x 64 auth.signature)) [
              | inl e ↦ absurd (ground arith)
              | inr (sig, decoded) ↦ elim (Option-cases (trust_get f n trust)) [
                | inl e ↦ absurd (ground arith)
                | inr (trusted, found) ↦ record {
                  named = ground arith;
                  key = key;
                  presented = presented;
                  trusted = ground (arith, x.same_key_iff trusted key);
                  fresh = (is_stale_iff s.last_seq auth.seq).0 (ground arith);
                  signature = sig;
                  decoded = decoded;
                  verified = ground arith;
                }
              ]
            ]
          ]
    ]

    -- A call of a privileged method with a request is accepted exactly when the request is authentic
    -- for some node: then that node is the answer and the session keeps the number of the request.
    -- Otherwise the call is refused and the session stays as it was.
    pub authorize_exact :
        method_is_privileged method ≡ true
        → ((node : NodeId) × IsAuthentic trust s method params auth node
            × (authorize f x s method params (some auth) trust
                ≡ (ok (some node), record s { last_seq = some auth.seq })))
          ⊎ ((e : DenyReason) × (authorize f x s method params (some auth) trust ≡ (err e, s))
              × ((node : NodeId) → ¬ IsAuthentic trust s method params auth node))
    unfolding authorize
    authorize_exact p = elim (Result-cases (authenticate f x s method params auth trust)) [
      | inl (node, h) ↦ inl (node, authenticate_sound node h, rw (p, h, authorize))
      | inr (e, h) ↦ inr (e, rw (p, h, authorize), λ node a. cc (h, authenticate_complete node a))
    ]

  decode-encode :
      (n : ℕ) (b : Bytes) → length b ≡ n → decode_hex_fixed f x n (x.hex_encode b) ≡ some b
  unfolding decode_hex_fixed
  decode-encode n b h = rw x.decode_encode (ground arith)

  signed-IsAuthentic :
      (trust : TrustStore f) (s : AuthSession) (kp : f.KeyPair) (node : NodeId) (seq : ℕ)
      (method : Text) (params : x.Value)
      → NodeId.new node.text ≡ some node
      → trust_get f node trust ≡ some (f.public kp)
      → IsFresh s.last_seq seq
      → IsAuthentic trust s method params (sign_request f x kp node s.nonce seq method params) node
  unfolding sign_request
  signed-IsAuthentic trust s kp node seq method params named trusted fresh =
      let key_bytes = x.to_bytes (f.public kp) in
      let payload = signing_payload f x s.nonce seq method params in
      let sig = f.sign_bytes kp payload in
      record {
        named = named;
        key = f.public kp;
        presented =
            rw (decode-encode 32 key_bytes (x.length_to_bytes (f.public kp)))
              (x.from_to_bytes (f.public kp));
        trusted = trusted;
        fresh = fresh;
        signature = sig;
        decoded = decode-encode 64 sig (x.length_sign kp payload);
        verified = f.verify_sign kp payload;
      }

  -- Replay: once a request was accepted, no call that carries it, or one with a number that is not
  -- higher, is accepted for a privileged method, whatever its method and parameters.
  pub replay_refused :
      (trust : TrustStore f) (s s' : AuthSession) (method method' : Text) (params params' : x.Value)
      (auth auth' : AuthRequest) (node : NodeId)
      → authorize f x s method params (some auth) trust ≡ (ok (some node), s')
      → method_is_privileged method' ≡ true
      → auth'.seq ≤ auth.seq
      → (e : DenyReason) × (authorize f x s' method' params' (some auth') trust ≡ (err e, s'))
  unfolding authorize
  replay_refused trust s s' method method' params params' auth auth' node h p old =
      elim (authorize_exact trust s' method' params' auth' p) [
        | inl (node', a, k) ↦
            let q : s'.last_seq ≡ some auth.seq = ground arith in
            absurd (omega (arith, (rw q at a.fresh), old))
        | inr (e, k, n) ↦ (e, k)
      ]

  -- A call that a trusted node signs for the session's nonce, with a fresh number, is accepted as
  -- that node. Its id is one that the constructor accepts unchanged.
  pub authorize-sign_request :
      (trust : TrustStore f) (s : AuthSession) (kp : f.KeyPair) (node : NodeId) (seq : ℕ)
      (method : Text) (params : x.Value)
      → NodeId.new node.text ≡ some node
      → trust_get f node trust ≡ some (f.public kp)
      → IsFresh s.last_seq seq
      → method_is_privileged method ≡ true
      → authorize f x s method params
          (some (sign_request f x kp node s.nonce seq method params))
          trust
        ≡ (ok (some node), record s { last_seq = some seq })
  unfolding authorize sign_request
  authorize-sign_request trust s kp node seq method params named trusted fresh p =
      let auth = sign_request f x kp node s.nonce seq method params in
      let authentic : IsAuthentic trust s method params auth node =
        signed-IsAuthentic trust s kp node seq method params named trusted fresh in
      rw (p, authenticate_complete trust s method params auth node authentic, authorize)
