-- ===== src/Instances/Disk.antt =====
-- The files that the operations on instances read and write, and what may go wrong with them. A
-- failed write may leave any content behind, since `fs::write` truncates the file first.
use rotten_apple.Prelude.{
  Bool, Option, Result, Text, codes, err, if◌then◌else◌, nat_eq, none, ok, some, text_eq, trim, ℕ,
  ◌++◌, ◌==◌, ◌≡◌,
}
use rotten_apple.Instances.{
  InstanceError, io, qemu_img, InstanceRegistry, empty_registry, ImageCatalog,
}

-- The text of each file that can be read as UTF-8.
abbrev pub Files : Type 0
Files = Text → Option Text

abbrev pub put : Text → Option Text → Files → Files
put path content files q = if q == path then content else files q

-- Code that changes files and may stop with an error.
abbrev pub Run : Type 0 → Type 0
Run A = Files → Result InstanceError A × Files

infixl 5 ◌>>=◌ ◌>>◌
abbrev pub ◌>>=◌ : {A B : Type 0} → Run A → (A → Run B) → Run B
◌>>=◌ first next files =
    let (result, after) = first files in
    elim result [ ok a ↦ next a after | err e ↦ (err e, after) ]

abbrev pub ◌>>◌ : {B : Type 0} → Run Unit → Run B → Run B
◌>>◌ first next files =
    let (result, after) = first files in elim result [ ok a ↦ next after | err e ↦ (err e, after) ]

abbrev pub lift : {A : Type 0} → Result InstanceError A → Run A
lift r files = (r, files)

-- What `fs::write` did.
pub data Write : Type 0 where
  done : Write
  failed : (error : Text) → (left : Option Text) → Write

-- What the run of `qemu-img` did to the destination.
pub data Qemu : Type 0 where
  created : (overlay : Option Text) → Qemu
  spawn_failed : (error : Text) → Qemu
  exited : (status stderr : Text) → (left : Option Text) → Qemu

-- What the host does while one operation runs. A directory that cannot be made has its error.
pub record Host : Type 0 where
  pub secs : ℕ
  pub qemu_override : Option Text
  pub make_instances_dir : Option Text
  pub make_manifests_dir : Option Text
  pub make_registry_dir : Option Text
  pub qemu : Qemu
  pub write_manifest : Write
  pub write_registry : Write
  pub overlay_removed : Bool
  pub manifest_removed : Bool

-- The crate toml, as far as the registry and the catalog go.
pub record Toml : Type 0 where
  pub registry_of : Text → Option InstanceRegistry
  pub registry_text : InstanceRegistry → Result Text Text
  pub catalog_of : Text → Result Text ImageCatalog
  pub registry_of-text :
      (reg : InstanceRegistry) (text : Text)
      → registry_text reg ≡ ok text
      → registry_of text ≡ some reg

abbrev pub create_dir_all : Option Text → Run Unit
create_dir_all none files = (ok tt, files)
create_dir_all (some e) files = (err (io e), files)

abbrev pub write : Write → Text → Text → Run Unit
write done path text files = (ok tt, put path (some text) files)
write (failed e left) path text files = (err (io e), put path left files)

-- `let _ = fs::remove_file(path)`.
abbrev pub remove_file : Bool → Text → Files → Files
remove_file removed path files = if removed then put path none files else files

abbrev pub prog : Host → Text
prog host = elim host.qemu_override [ none ↦ codes "qemu-img" | some p ↦ p ]

abbrev pub run_qemu : Qemu → Text → Text → Run Unit
run_qemu (created overlay) prog dest files = (ok tt, put dest overlay files)
run_qemu (spawn_failed e) prog dest files =
    (err (qemu_img (codes "spawn " ++ prog ++ codes ": " ++ e)), files)
run_qemu (exited status stderr left) prog dest files = (
  err (qemu_img (prog ++ codes " exit " ++ status ++ codes ": " ++ trim stderr)),
  put dest left files,
)

-- The base is read by the program alone.
unfoldable pub qemu_img_create : Host → (base dest : Text) → Run Unit
qemu_img_create host base dest = run_qemu host.qemu (prog host) dest

module _ (toml : Toml) where
  parsed : Option Text → InstanceRegistry
  parsed none = empty_registry
  parsed (some text) = elim (toml.registry_of text) [ none ↦ empty_registry | some reg ↦ reg ]

  -- `InstanceRegistry::load_or_empty`: a text that does not parse is read as no instance at all.
  unfoldable pub load_or_empty : Text → Files → InstanceRegistry
  unfolding parsed
  load_or_empty path files = parsed (files path)

  -- `InstanceRegistry::save`.
  unfoldable pub save : Host → Text → InstanceRegistry → Run Unit
  save host path reg = do
    create_dir_all host.make_registry_dir
    elim (toml.registry_text reg) [
      | ok text ↦ write host.write_registry path text
      | err e ↦ lift (err (io e))
    ]
