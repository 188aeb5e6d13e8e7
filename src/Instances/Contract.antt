-- ===== src/Instances/Contract.antt =====
-- What the operations promise, as steps of a map from ids to entries.
use rotten_apple.Prelude.{Result, Text, err, false, none, ok, some, ◌≡◌, ◌≢◌}
use rotten_apple.Instances.{
  InstanceError, parent_not_found, already_exists, not_found, InstanceEntry, NewInstanceParams,
  InstancePaths,
}
use rotten_apple.Instances.Disk.{Files, Run, Host, Toml}
use rotten_apple.Instances.Operations.{
  manifest_path, resolve_base_image, new_entry, forked_entry, create_instance_in, fork_instance_in,
  destroy_instance_in,
}
use rotten_apple.Instances.Registry.{Entries, with_entry, without}
use rotten_apple.Instances.Refinement.{Cause, entries, IsApart}

pub data Op : Type 0 where
  create : NewInstanceParams → Op
  fork : (parent_id new_id : Text) → Op
  destroy : (id : Text) → Op

abbrev pub forget :
    {A : Type 0} → Result InstanceError A × Files → Result InstanceError (Unit {0}) × Files
forget (ok a, files) = (ok tt, files)
forget (err e, files) = (err e, files)

module _ (toml : Toml) (host : Host) (paths : InstancePaths) where
  unfoldable pub perform : Op → Run (Unit {0})
  perform (create p) files = forget (create_instance_in toml host paths p false files)
  perform (fork parent_id new_id) files =
      forget (fork_instance_in toml host paths parent_id new_id false files)
  perform (destroy id) files = destroy_instance_in toml host paths id false files

  -- The contract: an id is taken once, a new instance has a base image that `catalog` knows, a fork has
  -- a parent and its size, and an operation that fails does so for a fault of the host and changes no
  -- entry.
  pub data Step (catalog : Text → Result InstanceError Text) (m : Entries)
      : Op → Result InstanceError (Unit {0}) → Entries → Type 0 where
    created :
        (p : NewInstanceParams) (base : Text)
        → m p.id ≡ none
        → catalog p.base_image ≡ ok base
        → Step catalog m (create p) (ok tt) (with_entry (new_entry toml host paths p) m)
    create_baseless :
        (p : NewInstanceParams) (e : InstanceError)
        → m p.id ≡ none
        → catalog p.base_image ≡ err e
        → Step catalog m (create p) (err e) m
    create_failed :
        (p : NewInstanceParams) (e : InstanceError)
        → m p.id ≡ none
        → Cause toml host paths e
        → Step catalog m (create p) (err e) m
    create_taken :
        (p : NewInstanceParams) (old : InstanceEntry)
        → m p.id ≡ some old
        → Step catalog m (create p) (err (already_exists p.id)) m
    forked :
        (parent : InstanceEntry) (parent_id new_id : Text)
        → m new_id ≡ none
        → m parent_id ≡ some parent
        → Step catalog m
            (fork parent_id new_id)
            (ok tt)
            (with_entry (forked_entry toml host paths parent parent_id new_id) m)
    fork_failed :
        (parent : InstanceEntry) (parent_id new_id : Text) (e : InstanceError)
        → m new_id ≡ none
        → m parent_id ≡ some parent
        → Cause toml host paths e
        → Step catalog m (fork parent_id new_id) (err e) m
    fork_taken :
        (old : InstanceEntry) (parent_id new_id : Text)
        → m new_id ≡ some old
        → Step catalog m (fork parent_id new_id) (err (already_exists new_id)) m
    fork_parentless :
        (parent_id new_id : Text)
        → m new_id ≡ none
        → m parent_id ≡ none
        → Step catalog m (fork parent_id new_id) (err (parent_not_found parent_id)) m
    destroyed :
        (id : Text) (old : InstanceEntry)
        → m id ≡ some old
        → Step catalog m (destroy id) (ok tt) (without id m)
    destroy_failed :
        (id : Text) (old : InstanceEntry) (e : InstanceError)
        → m id ≡ some old
        → Cause toml host paths e
        → Step catalog m (destroy id) (err e) m
    destroy_missing : (id : Text) → m id ≡ none → Step catalog m (destroy id) (err (not_found id)) m

  -- The base images as the catalog in the files has them.
  abbrev pub catalog_in : Files → Text → Result InstanceError Text
  catalog_in files id = (resolve_base_image toml paths.images_index id files).0

  -- The files that an operation touches are not the registry: those of the new instance, or those
  -- of the entry that goes.
  abbrev pub IsApartFor : Op → Files → Type 0
  IsApartFor (create p) files = IsApart toml host paths p.id
  IsApartFor (fork parent_id new_id) files = IsApart toml host paths new_id
  IsApartFor (destroy id) files =
      (manifest_path paths id ≢ paths.registry)
      × ((old : InstanceEntry)
          → entries toml host paths files id ≡ some old
          → old.overlay ≢ paths.registry)
