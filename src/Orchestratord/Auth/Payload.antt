-- ===== src/Orchestratord/Auth/Payload.antt =====
-- The signed bytes of a request determine its fields.
use rotten_apple.Prelude.{
  Text, [], arith, length, refl, suc, sym, utf8, zero, ℕ, ◌%◌, ◌*◌, ◌++◌, ◌/◌, ◌<◌, ◌^◌, ◌∙◌, ◌∷◌,
  ◌≡◌,
}
use rotten_apple.Fabric.Event.{Bytes, Fabric}
use rotten_apple.Orchestratord.Auth.{Wire, rpc_sig_domain, le_bytes, signing_payload}

append-split : (a b c d : Bytes) → length a ≡ length b → a ++ c ≡ b ++ d → (a ≡ b) × (c ≡ d)
append-split [] [] c d l h = (refl, h)
append-split [] (y ∷ b) c d l h = absurd (omega arith)
append-split (x ∷ a) [] c d l h = absurd (omega arith)
append-split (x ∷ a) (y ∷ b) c d l h =
    let tails : a ++ c ≡ b ++ d = cc h in
    let (p, q) = append-split a b c d (omega arith) tails in (cc (h, p), q)

length-le_bytes : (w n : ℕ) → length (le_bytes w n) ≡ w
unfolding le_bytes
length-le_bytes zero n = refl
length-le_bytes (suc w) n = rw (length-le_bytes w (n / 256))

-- How many numbers that many bytes hold.
abbrev pub range : ℕ → ℕ
range zero = 1
range (suc w) = 256 * range w

le_bytes_injective : (w n m : ℕ) → n < range w → m < range w → le_bytes w n ≡ le_bytes w m → n ≡ m
unfolding le_bytes
le_bytes_injective zero n m hn hm h = omega arith
le_bytes_injective (suc w) n m hn hm h =
    let low : n % 256 ≡ m % 256 = cc h in
    let rest : le_bytes w (n / 256) ≡ le_bytes w (m / 256) = cc h in
    let high = le_bytes_injective w (n / 256) (m / 256) (omega arith) (omega arith) rest in
    omega (arith, low, high)

module _ (f : Fabric) (x : Wire f) where
  -- No two requests are signed alike: two payloads are equal only if the nonces (of one length), the
  -- numbers (below 2^64), the method's bytes (fewer than 2^32) and the encoded parameters are equal.
  pub signing_payload_injective :
      (nonce nonce' : Bytes) (seq seq' : ℕ) (method method' : Text) (params params' : x.Value)
      → length nonce ≡ length nonce'
      → seq < 2 ^ 64
      → seq' < 2 ^ 64
      → length (utf8 method) < 2 ^ 32
      → length (utf8 method') < 2 ^ 32
      → signing_payload f x nonce seq method params
        ≡ signing_payload f x nonce' seq' method' params'
      → (nonce ≡ nonce')
        × (seq ≡ seq')
        × (utf8 method ≡ utf8 method')
        × (x.to_vec params ≡ x.to_vec params')
  unfolding signing_payload
  signing_payload_injective nonce nonce' seq seq' method method' params params' l b b' m m' h =
      let n = length (utf8 method) in
      let n' = length (utf8 method') in
      let v4 = x.to_vec params in
      let v4' = x.to_vec params' in
      let v3 = utf8 method ++ v4 in
      let v3' = utf8 method' ++ v4' in
      let v2 = le_bytes 4 (n % 2 ^ 32) ++ v3 in
      let v2' = le_bytes 4 (n' % 2 ^ 32) ++ v3' in
      let v1 = le_bytes 8 seq ++ v2 in
      let v1' = le_bytes 8 seq' ++ v2' in
      let v0 = nonce ++ v1 in
      let v0' = nonce' ++ v1' in
      let (d, e0) = append-split rpc_sig_domain rpc_sig_domain (0 ∷ v0) (0 ∷ v0') refl h in
      let e00 : v0 ≡ v0' = cc e0 in
      let (e, e1) = append-split nonce nonce' v1 v1' l e00 in
      let (s, e2) =
        append-split (le_bytes 8 seq) (le_bytes 8 seq') v2 v2'
          (length-le_bytes 8 seq ∙ sym (length-le_bytes 8 seq')) e1 in
      let (k, e3) =
        append-split (le_bytes 4 (n % 2 ^ 32)) (le_bytes 4 (n' % 2 ^ 32)) v3 v3'
          (length-le_bytes 4 (n % 2 ^ 32) ∙ sym (length-le_bytes 4 (n' % 2 ^ 32))) e2 in
      let lengths : n % 2 ^ 32 ≡ n' % 2 ^ 32 =
        le_bytes_injective 4 (n % 2 ^ 32) (n' % 2 ^ 32) (omega arith) (omega arith) k in
      let (t, v) = append-split (utf8 method) (utf8 method') v4 v4' (omega (arith, lengths)) e3 in
      (e, le_bytes_injective 8 seq seq' (omega arith) (omega arith) s, t, v)
