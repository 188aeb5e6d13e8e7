-- ===== src/Fabric/NodeId.antt =====
-- crates/fabric/src/node_id.rs: the stable identifier of a host. The proofs are in `NodeId/Suffix`
-- and `NodeId/Derive`.
pub mod Suffix
pub mod Derive
use rotten_apple.Prelude.{
  Bool, List, Option, Text, [], codes, if◌then◌else◌, leb, map, nat_eq, none, rsplit_once, some,
  take, text_eq, trim, trim_matches, utf8, ℕ, ◌&&◌, ◌++◌, ◌+◌, ◌==◌, ◌||◌, ◌∷◌,
}

pub record NodeId : Type 0 where
  pub text : Text

-- `none` is the panic on an empty id.
unfoldable pub new : Text → Option NodeId
new s = elim (trim s) [ [] ↦ none | c ∷ r ↦ some (record { text = c ∷ r }) ]

-- What stands behind the last '-', or the whole id.
unfoldable pub hex_suffix : NodeId → Text
hex_suffix n = elim (rsplit_once b'-' n.text) [ none ↦ n.text | some (role, h) ↦ h ]

-- `PartialEq for NodeId`: only the suffix counts.
unfoldable pub same : NodeId → NodeId → Bool
same a b = hex_suffix a == hex_suffix b

abbrev is_ascii_alphanumeric : ℕ → Bool
is_ascii_alphanumeric c =
    (leb b'0' c && leb c b'9') || (leb b'A' c && leb c b'Z') || (leb b'a' c && leb c b'z')

abbrev to_ascii_lowercase : ℕ → ℕ
to_ascii_lowercase c = if leb b'A' c && leb c b'Z' then c + 32 else c

unfoldable pub kebab_char : ℕ → ℕ
kebab_char c = if is_ascii_alphanumeric c then to_ascii_lowercase c else b'-'

unfoldable pub kebab : Text → Text
unfolding kebab_char
kebab s = trim_matches (λ c. c == b'-') (map kebab_char s)

-- The code of other crates that an id is derived with.
pub record Entropy : Type 0 where
  -- `Sha256::digest` of some bytes.
  pub sha256 : List ℕ → List ℕ
  -- `hex::encode`.
  pub hex_encode : List ℕ → Text
  -- Eight bytes of the system's random source.
  pub random : List ℕ

abbrev domain_prefix : List ℕ
domain_prefix = codes "rotten-apple-node-id-v1" ++ 0 ∷ []

unfoldable pub derive_hex_suffix_from_machine_id : Entropy → Text → Text
derive_hex_suffix_from_machine_id x machine_id =
    x.hex_encode (take 8 (x.sha256 (domain_prefix ++ utf8 machine_id)))

unfoldable pub random_hex_suffix : Entropy → Text
random_hex_suffix x = x.hex_encode x.random

unfoldable pub fresh_suffix : Entropy → Option Text → Text
unfolding derive_hex_suffix_from_machine_id random_hex_suffix
fresh_suffix x (some machine_id) = derive_hex_suffix_from_machine_id x (trim machine_id)
fresh_suffix x none = random_hex_suffix x

unfoldable pub with_role : Option Text → Text → Text
with_role (some []) derived = derived
with_role (some (c ∷ role)) derived = kebab (c ∷ role) ++ (b'-' ∷ derived)
with_role none derived = derived

-- The id file: `none` cannot be read.
abbrev authoritative : Option Text → Option NodeId
authoritative none = none
authoritative (some s) = new s

-- The id, and the id file afterwards. A write that fails leaves the file as it was.
unfoldable pub derive_from_paths :
    Entropy
    → (writable : Bool) → (node_id_file machine_id_file role_hint : Option Text)
    → NodeId × Option Text
unfolding fresh_suffix with_role
derive_from_paths x writable node_id_file machine_id_file role_hint =
    let id = with_role role_hint (fresh_suffix x machine_id_file) in
    elim (authoritative node_id_file) [
      | some n ↦ (n, node_id_file)
      | none ↦ (record { text = id }, if writable then some id else node_id_file)
    ]
