-- ===== src/Instances.antt =====
-- crates/instances/src/lib.rs: the registry of instances (a base image with a copy-on-write overlay)
-- and the catalog of base images. The files that both are read from are in Instances/Disk.
pub mod Disk
pub mod Clock
pub mod Calendar
pub mod Rendered
pub mod Operations
pub mod Registry
pub mod Refinement
pub mod Contract
pub mod Steps
use rotten_apple.Prelude.{
  Bool, List, Option, Text, [], codes, false, if◌then◌else◌, is_some, length, nat_eq, none, not,
  some, text_eq, ℕ, ◌++◌, ◌==◌, ◌∷◌,
}

pub data InstanceError : Type 0 where
  base_image_not_found parent_not_found already_exists not_found : Text → InstanceError
  qemu_img io toml : Text → InstanceError

pub record InstanceEntry : Type 0 where
  pub id : Text
  pub base_image : Text
  pub overlay : Text
  pub memory_mb : ℕ
  pub vcpus : ℕ
  pub created_at : Text
  pub ephemeral : Bool
  pub parent : Option Text

pub record InstanceRegistry : Type 0 where
  pub instances : List InstanceEntry

-- `Default for InstanceRegistry`.
abbrev pub empty_registry : InstanceRegistry
empty_registry = record { instances = [] }

unfoldable pub find_entry : Text → List InstanceEntry → Option InstanceEntry
find_entry id [] = none
find_entry id (e ∷ es) = if e.id == id then some e else find_entry id es

-- `InstanceRegistry::find`.
unfoldable pub find : InstanceRegistry → Text → Option InstanceEntry
unfolding find_entry
find reg id = find_entry id reg.instances

-- The first entry of that id is overwritten where it stands.
unfoldable pub replace_entry : InstanceEntry → List InstanceEntry → List InstanceEntry
replace_entry entry [] = []
replace_entry entry (e ∷ es) =
    let later = replace_entry entry es in if e.id == entry.id then entry ∷ es else e ∷ later

-- `InstanceRegistry::upsert`.
unfoldable pub upsert : InstanceEntry → InstanceRegistry → InstanceRegistry
unfolding find replace_entry
upsert entry reg =
    if is_some (find reg entry.id)
    then record { instances = replace_entry entry reg.instances }
    else record { instances = reg.instances ++ (entry ∷ []) }

-- `retain(|e| e.id != id)`.
unfoldable pub retain_others : Text → List InstanceEntry → List InstanceEntry
retain_others id [] = []
retain_others id (e ∷ es) =
    let later = retain_others id es in if e.id == id then later else e ∷ later

-- `InstanceRegistry::remove`, with whether anything was removed.
unfoldable pub remove : Text → InstanceRegistry → InstanceRegistry × Bool
unfolding retain_others
remove id reg =
    let kept = retain_others id reg.instances in
    (record { instances = kept }, not (length reg.instances == length kept))

pub record ImageEntry : Type 0 where
  pub name : Option Text
  pub id : Option Text
  pub backing : Option Text
  pub path : Option Text

pub record ImageCatalog : Type 0 where
  pub images : List ImageEntry

-- `Option::or`.
abbrev or_else : Option Text → Option Text → Option Text
or_else none b = b
or_else (some a) b = some a

unfoldable pub ident : ImageEntry → Option Text
ident i = or_else i.name i.id

unfoldable pub location : ImageEntry → Option Text
location i = or_else i.backing i.path

is_named : Text → Option Text → Bool
is_named id none = false
is_named id (some name) = name == id

-- The location of the first image of that name; an image without one is as good as none.
unfoldable pub find_location : Text → List ImageEntry → Option Text
unfolding is_named ident location
find_location id [] = none
find_location id (i ∷ is) =
    let later = find_location id is in if is_named id (ident i) then location i else later

unfoldable pub idents : List ImageEntry → List Text
unfolding ident
idents [] = []
idents (i ∷ is) = elim (ident i) [ none ↦ idents is | some name ↦ name ∷ idents is ]

pub record NewInstanceParams : Type 0 where
  pub id : Text
  pub base_image : Text
  pub memory_mb : ℕ
  pub vcpus : ℕ
  pub ephemeral : Bool

-- `NewInstanceParams::new`.
abbrev pub new_params : Text → Text → NewInstanceParams
new_params id base_image = record {
  id = id;
  base_image = base_image;
  memory_mb = 4096;
  vcpus = 2;
  ephemeral = false;
}

pub record InstancePaths : Type 0 where
  pub registry : Text
  pub instances_dir : Text
  pub images_index : Text
  pub manifests_dir : Text

-- `Default for InstancePaths`.
abbrev pub default_paths : InstancePaths
default_paths = record {
  registry = codes "/var/lib/rotten-apple/instances/index.toml";
  instances_dir = codes "/var/lib/rotten-apple/instances";
  images_index = codes "/var/lib/rotten-apple/images/index.toml";
  manifests_dir = codes "/etc/rotten-apple/manifests.d";
}
