-- ===== src/Orchestratord/Params.antt =====
-- crates/orchestratord/src/dispatch.rs: the parameters of the methods, out of the JSON of a request.
pub mod Confined
use rotten_apple.Prelude.{
  Bool, Option, Result, Text, [], codes, err, fail_if, false, leb, nat_beq, nat_eq, none, not, ok,
  ok_or, some, text_eq, true, ℕ, ◌++◌, ◌==◌, ◌>>=◌, ◌>>◌, ◌^◌, ◌||◌, ◌∷◌,
}
use rotten_apple.Governor.{strip_prefix}
use rotten_apple.Manifest.{Profile, PolicyMemory}
use rotten_apple.Orchestratord.Protocol.{Json}

abbrev pub manifest_root : Text
manifest_root = codes "/etc/rotten-apple"

-- `Path::starts_with` between canonical paths: whole components.
unfoldable pub starts_with : (path root : Text) → Bool
unfolding strip_prefix
starts_with path root = elim (strip_prefix root path) [
  | none ↦ false
  | some rest ↦ elim rest [ [] ↦ true | c ∷ s ↦ nat_beq c b'/' || root == codes "/" ]
]

-- The files that the daemon sees, and the parsers of manifests.
pub record Host : Type 0 where
  pub canonicalize : Text → Option Text
  pub load : Text → Option Profile
  pub from_str : Text → Result Text Profile

abbrev pub Fallible : Type 0 → Type 0
Fallible A = Result Text A

module _ (x : Json) where
  unfoldable pub parse_domid : x.Value → Fallible ℕ
  parse_domid params = do
    v ← ok_or (x.get params (codes "domid")) (codes "missing 'domid' parameter")
    n ← ok_or (x.as_u64 v) (codes "'domid' must be a non-negative integer")
    fail_if (leb (2 ^ 32) n) (codes "'domid' out of u32 range")
    ok n

  abbrev pub str_member : x.Value → Text → Option Text
  str_member params name = elim (x.get params name) [ none ↦ none | some v ↦ x.as_str v ]

  unfoldable pub load_inline : Host → x.Value → Fallible Profile
  load_inline host params = elim (str_member params (codes "profile_inline")) [
    | none ↦ err (codes "missing 'manifest_path' or 'profile_inline'")
    | some s ↦ elim (host.from_str s) [
      | ok p ↦ ok p
      | err e ↦ err (codes "failed to parse inline profile: " ++ e)
    ]
  ]

  unfoldable pub load_file : Host → Text → Fallible Profile
  unfolding starts_with
  load_file host path = do
    real ← ok_or (host.canonicalize path) (codes "manifest not found under /etc/rotten-apple")
    root ←
        ok_or (host.canonicalize manifest_root)
          (codes "manifest root /etc/rotten-apple unavailable")
    fail_if (not (starts_with real root)) (codes "manifest path must be under /etc/rotten-apple")
    ok_or (host.load real) (codes "manifest failed to load or parse")

  unfoldable pub load_profile : Host → x.Value → Fallible Profile
  unfolding load_inline load_file
  load_profile host params = elim (str_member params (codes "manifest_path")) [
    | some path ↦ load_file host path
    | none ↦ load_inline host params
  ]

  unfoldable pub parse_set_policy : x.Value → Fallible (ℕ × PolicyMemory)
  unfolding parse_domid
  parse_set_policy params = do
    domid ← parse_domid params
    v ← ok_or (x.get params (codes "policy")) (codes "missing 'policy' parameter")
    elim (x.policy_of v) [
      | ok policy ↦ ok (domid, policy)
      | err e ↦ err (codes "invalid 'policy': " ++ e)
    ]

  -- A `u64` is a `usize` here, so the conversion cannot fail.
  unfoldable pub parse_tail : x.Value → Fallible (ℕ × ℕ)
  parse_tail params = do
    v ← ok_or (x.get params (codes "since")) (codes "missing 'since' parameter")
    since ← ok_or (x.as_u64 v) (codes "'since' must be a non-negative integer")
    elim (x.get params (codes "limit")) [
      | none ↦ ok (since, 256)
      | some l ↦ elim (x.as_u64 l) [
        | some n ↦ ok (since, n)
        | none ↦ err (codes "'limit' must be a non-negative integer")
      ]
    ]
