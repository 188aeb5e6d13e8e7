-- ===== src/Mcp/Create.antt =====
-- crates/mcp-server/src/lib.rs: the arguments of the tool that makes an instance, and the making of
-- it, with a download of the base image when that is missing.
use rotten_apple.Prelude.{
  Bool, Result, Text, codes, err, false, if◌then◌else◌, ltb, none, ok, ok_or, some, ℕ, ◌++◌, ◌>>=◌,
  ◌^◌, ◌∷◌,
}
use rotten_apple.Instances.{
  InstanceError, base_image_not_found, InstanceEntry, NewInstanceParams, default_paths,
}
use rotten_apple.Instances.Disk.{Files, Toml}
use rotten_apple.Instances.Disk as Disk
use rotten_apple.Instances.Operations.{create_instance_in}
use rotten_apple.Mcp.Protocol.{Value, get, as_u64, as_str, as_bool}
use rotten_apple.Mcp.Tools.{default_memory_mb, default_vcpus}

-- The crate images: whether the catalog lists a name, the download of an image, and its entry into
-- the catalog.
pub record Images : Type 1 where
  pub ImageEntry : Type 0
  pub is_listed : Files → Text → Bool
  pub pull : Text → Files → Result Text ImageEntry × Files
  pub enter : ImageEntry → Files → Result Text (Unit {0}) × Files

-- The texts of serde_json, of the errors of instances, and the JSON of an entry.
pub record Encoding : Type 0 where
  pub to_string : Value → Text
  pub to_string_pretty : Value → Text
  pub instance_error_text : InstanceError → Text
  pub entry_value : InstanceEntry → Value

-- What the host does during one request: the two attempts at an instance, and what the query for the
-- identity of the node gives.
pub record Local : Type 0 where
  pub attempt : Disk.Host
  pub second_attempt : Disk.Host
  pub node_info : Result Text Value

unfoldable pub require_string_arg : Value → Text → Result Text Text
require_string_arg args key = elim (get args key) [
  | none ↦ err (codes "missing or non-string '" ++ (key ++ codes "'"))
  | some v ↦ ok_or (as_str v) (codes "missing or non-string '" ++ (key ++ codes "'"))
]

unfoldable pub optional_u64_arg : Value → Text → ℕ → Result Text ℕ
optional_u64_arg args key default = elim (get args key) [
  | none ↦ ok default
  | some v ↦ ok_or (as_u64 v) (codes "missing or non-integer '" ++ (key ++ codes "'"))
]

unfoldable pub optional_u32_arg : Value → Text → ℕ → Result Text ℕ
unfolding optional_u64_arg
optional_u32_arg args key default = do
  n ← optional_u64_arg args key default
  if ltb n (2 ^ 32) then ok n else err (b'\'' ∷ key ++ codes "' out of u32 range")

unfoldable pub optional_bool_arg : Value → Text → Bool → Result Text Bool
optional_bool_arg args key default = elim (get args key) [
  | none ↦ ok default
  | some v ↦ ok_or (as_bool v) (codes "missing or non-boolean '" ++ (key ++ codes "'"))
]

-- The arguments of `instance_create`, checked in this order.
unfoldable pub instance_params : Value → Result Text NewInstanceParams
unfolding require_string_arg optional_u64_arg optional_u32_arg optional_bool_arg
instance_params args = do
  id ← require_string_arg args (codes "id")
  base_image ← require_string_arg args (codes "base_image")
  memory_mb ← optional_u64_arg args (codes "memory_mb") default_memory_mb
  vcpus ← optional_u32_arg args (codes "vcpus") default_vcpus
  ephemeral ← optional_bool_arg args (codes "ephemeral") false
  ok (record {
    id = id;
    base_image = base_image;
    memory_mb = memory_mb;
    vcpus = vcpus;
    ephemeral = ephemeral;
  })

module _ (images : Images) (name : Text) where
  saved : Result Text (Unit {0}) × Files → Result Text (Unit {0}) × Files
  saved (ok u, files) = (ok u, files)
  saved (err e, files) = (
    err (codes "save image catalog " ++ (default_paths.images_index ++ (codes ": " ++ e))),
    files,
  )

  entered : Result Text images.ImageEntry × Files → Result Text (Unit {0}) × Files
  unfolding saved
  entered (err e, files) = (err (codes "pull " ++ (name ++ (codes ": " ++ e))), files)
  entered (ok entry, files) = saved (images.enter entry files)

  unfoldable pub ensure_base_image_present : Files → Result Text (Unit {0}) × Files
  unfolding entered
  ensure_base_image_present files =
      if images.is_listed files name then (ok tt, files) else entered (images.pull name files)

module _ (toml : Toml) (images : Images) (enc : Encoding) where
  abbrev error_of_instance : NewInstanceParams → InstanceError → Text
  error_of_instance p e =
      codes "instance create " ++ (p.id ++ (codes ": " ++ enc.instance_error_text e))

  created :
      NewInstanceParams
      → Result InstanceError InstanceEntry × Files
      → Result Text InstanceEntry × Files
  created p (ok entry, files) = (ok entry, files)
  created p (err e, files) = (err (error_of_instance p e), files)

  retried :
      Disk.Host
      → NewInstanceParams
      → Result Text (Unit {0}) × Files
      → Result Text InstanceEntry × Files
  unfolding created create_instance_in
  retried host p (ok u, files) =
      created p (create_instance_in toml host default_paths p false files)
  retried host p (err e, files) = (
    err (
        codes "instance create "
        ++ (p.id ++ (codes ": auto-pull " ++ (p.base_image ++ (codes ": " ++ e))))),
    files,
  )

  first_attempt :
      Disk.Host
      → NewInstanceParams
      → Result InstanceError InstanceEntry × Files
      → Result Text InstanceEntry × Files
  unfolding created retried ensure_base_image_present
  first_attempt host p (err (base_image_not_found d), files) =
      retried host p (ensure_base_image_present images p.base_image files)
  first_attempt host p r = created p r

  -- An instance whose base image is not there is tried again once the image has been pulled.
  unfoldable pub create_with_pull :
      Local → NewInstanceParams → Files → Result Text InstanceEntry × Files
  unfolding first_attempt create_instance_in
  create_with_pull l p files =
      first_attempt l.second_attempt p
        (create_instance_in toml l.attempt default_paths p false files)
