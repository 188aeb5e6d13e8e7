-- ===== src/Instances/Operations.antt =====
-- The three operations on instances, each a run over the files.
use mathlib.Core.List.{reverse}
use rotten_apple.Prelude.{
  Bool, List, Text, [], codes, err, fail_if, false, if◌then◌else◌, is_some, nat_beq, none, ok,
  ok_or, some, true, ◌++◌, ◌∷◌,
}
use rotten_apple.Instances.{
  InstanceError, base_image_not_found, parent_not_found, already_exists, not_found, InstanceEntry,
  InstanceRegistry, NewInstanceParams, InstancePaths, find, upsert, remove, find_location, idents,
}
use rotten_apple.Instances.{toml as toml_error}
use rotten_apple.Instances.Disk.{
  Files, Run, ◌>>=◌, ◌>>◌, lift, Host, Toml, create_dir_all, write, remove_file, qemu_img_create,
  load_or_empty, save,
}
use rotten_apple.Instances.Clock.{format_unix_utc}
use rotten_apple.Instances.Rendered.{profile_for_instance}

abbrev ends_with_slash : Text → Bool
ends_with_slash s = elim (reverse s) [ [] ↦ true | c ∷ rest ↦ nat_beq c b'/' ]

-- `Path::join`: an absolute path replaces the one that it is joined to.
unfoldable pub join : Text → Text → Text
join base [] = if ends_with_slash base then base else base ++ (b'/' ∷ [])
join base (c ∷ s) =
    if nat_beq c b'/'
    then c ∷ s
    else if ends_with_slash base
    then base ++ (c ∷ s)
    else base ++ (b'/' ∷ c ∷ s)

unfoldable pub overlay_path : InstancePaths → Text → Text
unfolding join
overlay_path paths id = join paths.instances_dir (id ++ codes ".qcow2")

unfoldable pub manifest_path : InstancePaths → Text → Text
unfolding join
manifest_path paths id = join paths.manifests_dir (id ++ codes ".toml")

-- `if tests { return Err(e) }`.
abbrev refuse_if : Bool → InstanceError → Run Unit
refuse_if fails e = lift (fail_if fails e)

module _ (toml : Toml) where
  unfoldable pub resolve_base_image : Text → Text → Run Text
  resolve_base_image catalog_path id files = elim (files catalog_path) [
    | none ↦ (
      err (base_image_not_found (id ++ codes " (catalog " ++ catalog_path ++ codes " unreadable)")),
      files,
    )
    | some text ↦ elim (toml.catalog_of text) [
      | err e ↦ (err (toml_error e), files)
      | ok catalog ↦ (ok_or (find_location id catalog.images) (base_image_not_found id), files)
    ]
  ]

  unfoldable pub list_known_images : Text → Files → List Text
  list_known_images catalog_path files = elim (files catalog_path) [
    | none ↦ []
    | some text ↦ elim (toml.catalog_of text) [ err e ↦ [] | ok catalog ↦ idents catalog.images ]
  ]

  module _ (host : Host) (paths : InstancePaths) where
    -- The end of both `create_instance_in` and `fork_instance_in`: the overlay is made over its base,
    -- the manifest is written, and the entry goes into the registry.
    unfoldable pub install :
        InstanceRegistry → (base : Text) → InstanceEntry → (dry_run : Bool) → Run InstanceEntry
    install reg base entry true = lift (ok entry)
    install reg base entry false = do
      create_dir_all host.make_instances_dir
      create_dir_all host.make_manifests_dir
      qemu_img_create host base (overlay_path paths entry.id)
      write host.write_manifest (manifest_path paths entry.id) (profile_for_instance entry)
      save toml host paths.registry (upsert entry reg)
      lift (ok entry)

    unfoldable pub new_entry : NewInstanceParams → InstanceEntry
    new_entry p = record {
      id = p.id;
      base_image = p.base_image;
      overlay = overlay_path paths p.id;
      memory_mb = p.memory_mb;
      vcpus = p.vcpus;
      created_at = format_unix_utc host.secs;
      ephemeral = p.ephemeral;
      parent = none;
    }

    unfoldable pub forked_entry : InstanceEntry → (parent_id new_id : Text) → InstanceEntry
    forked_entry parent parent_id new_id = record {
      id = new_id;
      base_image = parent.overlay;
      overlay = overlay_path paths new_id;
      memory_mb = parent.memory_mb;
      vcpus = parent.vcpus;
      created_at = format_unix_utc host.secs;
      ephemeral = false;
      parent = some parent_id;
    }

    unfoldable pub create_instance_in : NewInstanceParams → (dry_run : Bool) → Run InstanceEntry
    unfolding resolve_base_image install new_entry
    create_instance_in p dry_run files =
        let reg = load_or_empty toml paths.registry files in
        (do
          refuse_if (is_some (find reg p.id)) (already_exists p.id)
          base ← resolve_base_image paths.images_index p.base_image
          install reg base (new_entry p) dry_run)
          files

    unfoldable pub fork_instance_in :
        (parent_id new_id : Text) → (dry_run : Bool) → Run InstanceEntry
    unfolding install forked_entry
    fork_instance_in parent_id new_id dry_run files =
        let reg = load_or_empty toml paths.registry files in
        (do
          refuse_if (is_some (find reg new_id)) (already_exists new_id)
          parent ← lift (ok_or (find reg parent_id) (parent_not_found parent_id))
          install reg parent.overlay (forked_entry parent parent_id new_id) dry_run)
          files

    -- The files of an entry are unlinked as far as that goes.
    unfoldable pub unlink : InstanceEntry → Text → Files → Files
    unlink entry id files =
        remove_file host.manifest_removed (manifest_path paths id)
          (remove_file host.overlay_removed entry.overlay files)

    unfoldable pub destroy_instance_in : Text → (dry_run : Bool) → Run Unit
    unfolding unlink
    destroy_instance_in id dry_run files =
        let reg = load_or_empty toml paths.registry files in
        elim (find reg id) [
          | none ↦ (err (not_found id), files)
          | some entry ↦ elim dry_run [
            | true ↦ (ok tt, files)
            | false ↦ save toml host paths.registry (remove id reg).0 (unlink entry id files)
          ]
        ]
