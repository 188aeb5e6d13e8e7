-- ===== src/Instances/Steps.antt =====
-- Every operation keeps its promise.
use rotten_apple.Prelude.{
  Option-cases, Result, Result-cases, Text, ap, err, false, inl, inr, none, ok, refl, some, subst,
  sym, ◌∙◌, ◌≡◌, ◌⊎◌,
}
use rotten_apple.Instances.{
  InstanceError, InstanceEntry, NewInstanceParams, InstancePaths, find, remove,
}
use rotten_apple.Instances.Disk.{Files, Host, done, Toml, load_or_empty, save}
use rotten_apple.Instances.Operations.{
  manifest_path, resolve_base_image, install, new_entry, forked_entry, create_instance_in,
  fork_instance_in, unlink, destroy_instance_in,
}
use rotten_apple.Instances.Registry.{with_entry, find-remove}
use rotten_apple.Instances.Refinement.{
  Cause, entries, IsApart, Adds, Ends, save-Ends, install-Ends, Adds-of_Ends, remove_file-keeps,
  load_or_empty-of_same,
}
use rotten_apple.Instances.Contract.{
  Op, create, fork, destroy, forget, perform, Step, created, create_baseless, create_failed,
  create_taken, forked, fork_failed, fork_taken, fork_parentless, destroyed, destroy_failed,
  destroy_missing, catalog_in, IsApartFor,
}

module _ (toml : Toml) (host : Host) (paths : InstancePaths) where
  module _ (w : host.write_registry ≡ done) (files : Files) where
    resolve_base_image-keeps : (path id : Text) → (resolve_base_image toml path id files).1 ≡ files
    unfolding resolve_base_image
    resolve_base_image-keeps path id = elim (Option-cases (files path)) [
      | inl e ↦ rw (e, resolve_base_image) refl
      | inr (text, e) ↦ elim (Result-cases (toml.catalog_of text)) [
        | inl (c, t) ↦ rw (e, resolve_base_image) (rw t refl)
        | inr (x, t) ↦ rw (e, resolve_base_image) (rw t refl)
      ]
    ]

    -- How the creation of an instance may fail.
    abbrev CreateFails : NewInstanceParams → InstanceError → Type 0
    CreateFails p e =
        Cause toml host paths e ⊎ (catalog_in toml host paths files p.base_image ≡ err e)

    create_instance_in-Adds :
        (p : NewInstanceParams)
        → IsApart toml host paths p.id
        → entries toml host paths files p.id ≡ none
        → Adds toml host paths
            (CreateFails p)
            files
            (new_entry toml host paths p)
            (create_instance_in toml host paths p false files)
          × (((e : InstanceError) → ¬ (catalog_in toml host paths files p.base_image ≡ err e))
              ⊎ ((e : InstanceError) × ((create_instance_in toml host paths p false files).0
                    ≡ err e)))
    unfolding create_instance_in entries Adds
    create_instance_in-Adds p apart free =
        rw (free, find)
          (split (resolve_base_image toml paths.images_index p.base_image files).0
            (resolve_base_image toml paths.images_index p.base_image files).1
            (resolve_base_image-keeps paths.images_index p.base_image) refl)
      where
        entry : InstanceEntry
        entry = new_entry toml host paths p

        split :
            (r : Result InstanceError Text) (after : Files)
            → after ≡ files
            → catalog_in toml host paths files p.base_image ≡ r
            → let out : Result InstanceError InstanceEntry × Files = elim r [
              | ok base ↦
                  install toml host paths
                    (load_or_empty toml paths.registry files)
                    base
                    entry
                    false
                    after
              | err e ↦ (err e, after)
            ] in
              Adds toml host paths (CreateFails p) files entry out
              × (((e : InstanceError) → ¬ (catalog_in toml host paths files p.base_image ≡ err e))
                  ⊎ ((e : InstanceError) × (out.0 ≡ err e)))
        split (ok base) after k c = (
          Adds-of_Ends toml host paths (CreateFails p) (λ e cause. inl cause) files entry _
              (install-Ends toml host paths (files paths.registry)
                (load_or_empty toml paths.registry files) base entry w apart after
                (ap (λ f. f paths.registry) k)),
          inl (λ e h. cc (c, h)),
        )
        split (err e) after k c = (inr (e, refl, inr c, λ q. rw k refl), inr (e, refl))

    fork_instance_in-Adds :
        (parent : InstanceEntry) (parent_id new_id : Text)
        → IsApart toml host paths new_id
        → entries toml host paths files new_id ≡ none
        → entries toml host paths files parent_id ≡ some parent
        → Adds toml host paths
            (Cause toml host paths)
            files
            (forked_entry toml host paths parent parent_id new_id)
            (fork_instance_in toml host paths parent_id new_id false files)
    unfolding fork_instance_in entries
    fork_instance_in-Adds parent parent_id new_id apart free found =
        rw (free, find)
          (rw (found, find)
            (Adds-of_Ends toml host paths (Cause toml host paths) (λ e cause. cause) files
              (forked_entry toml host paths parent parent_id new_id) _
              (install-Ends toml host paths (files paths.registry)
                (load_or_empty toml paths.registry files) parent.overlay
                (forked_entry toml host paths parent parent_id new_id) w apart files refl)))

    Step-of_Adds :
        (MayFail : InstanceError → Type 0) (op : Op) (entry : InstanceEntry)
        (out : Result InstanceError InstanceEntry × Files)
        → (out.0 ≡ ok entry
            → Step toml host paths
                (catalog_in toml host paths files)
                (entries toml host paths files)
                op
                (ok tt)
                (with_entry entry (entries toml host paths files)))
        → ((e : InstanceError)
            → MayFail e
            → Step toml host paths
                (catalog_in toml host paths files)
                (entries toml host paths files)
                op
                (err e)
                (entries toml host paths files))
        → Adds toml host paths MayFail files entry out
        → Step toml host paths
            (catalog_in toml host paths files)
            (entries toml host paths files)
            op
            (forget out).0
            (entries toml host paths (forget out).1)
    unfolding Adds
    Step-of_Adds MayFail op entry (ok a, after) good bad (inl (r, k)) =
        subst
          (λ m.
            Step toml host paths (catalog_in toml host paths files) (entries toml host paths files)
              op (ok tt) m)
          (λ i q. sym (k q) i) (good r)
    Step-of_Adds MayFail op entry (ok a, after) good bad (inr (e, r, may, k)) = absurd cc
    Step-of_Adds MayFail op entry (err x, after) good bad (inl (r, k)) = absurd cc
    Step-of_Adds MayFail op entry (err x, after) good bad (inr (e, r, may, k)) =
        let same : e ≡ x = cc r in
        subst
          (λ m.
            Step toml host paths (catalog_in toml host paths files) (entries toml host paths files)
              op (err x) m)
          (λ i q. sym (k q) i) (bad x (subst MayFail same may))

    destroy_instance_in-Step :
        (id : Text) (old : InstanceEntry)
        → IsApartFor toml host paths (destroy id) files
        → entries toml host paths files id ≡ some old
        → Step toml host paths
            (catalog_in toml host paths files)
            (entries toml host paths files)
            (destroy id)
            (destroy_instance_in toml host paths id false files).0
            (entries toml host paths (destroy_instance_in toml host paths id false files).1)
    unfolding destroy_instance_in entries Ends unlink
    destroy_instance_in-Step id old apart found =
        let reg = load_or_empty toml paths.registry files in
        let unlinked = unlink toml host paths old id files in
        let kept : unlinked paths.registry ≡ files paths.registry =
          remove_file-keeps toml host paths host.manifest_removed (manifest_path paths id) _ apart.0
          ∙ remove_file-keeps toml host paths host.overlay_removed old.overlay files
              (apart.1 old found) in
        rw (found, find, destroy_instance_in)
          (split (save toml host paths.registry (remove id reg).0 unlinked).0
            (save toml host paths.registry (remove id reg).0 unlinked).1
            (save-Ends toml host paths (files paths.registry) (remove id reg).0 w unlinked kept))
      where
        split :
            (r : Result InstanceError (Unit {0})) (after : Files)
            → Ends toml host paths
                (files paths.registry)
                tt
                (remove id (load_or_empty toml paths.registry files)).0
                (r, after)
            → Step toml host paths
                (catalog_in toml host paths files)
                (entries toml host paths files)
                (destroy id)
                r
                (entries toml host paths after)
        split (ok u) after (inl (r, l)) =
            subst
              (λ m.
                Step toml host paths (catalog_in toml host paths files)
                  (entries toml host paths files) (destroy id) (ok tt) m)
              (λ i q.
                sym
                  (ap (λ g. find g q) l
                    ∙ (find-remove id q (load_or_empty toml paths.registry files)).0)
                  i)
              (destroyed id old found)
        split (ok u) after (inr (e, r, cause, k)) = absurd cc
        split (err x) after (inl (r, l)) = absurd cc
        split (err x) after (inr (e, r, cause, k)) =
            subst
              (λ m.
                Step toml host paths (catalog_in toml host paths files)
                  (entries toml host paths files) (destroy id) (err x) m)
              (λ i q.
                sym (ap (λ g. find g q) (load_or_empty-of_same toml host paths files after k)) i)
              (destroy_failed id old x found (subst (Cause toml host paths) (cc r) cause))

    created_from :
        (p : NewInstanceParams)
        → entries toml host paths files p.id ≡ none
        → ((e : InstanceError) → ¬ (catalog_in toml host paths files p.base_image ≡ err e))
          ⊎ ((e : InstanceError) × ((create_instance_in toml host paths p false files).0 ≡ err e))
        → (create_instance_in toml host paths p false files).0 ≡ ok (new_entry toml host paths p)
        → Step toml host paths
            (catalog_in toml host paths files)
            (entries toml host paths files)
            (create p)
            (ok tt)
            (with_entry (new_entry toml host paths p) (entries toml host paths files))
    created_from p free (inr (e, failed)) made = cc (failed, made)
    created_from p free (inl known) made =
        elim (Result-cases (catalog_in toml host paths files p.base_image)) [
          | inl (base, c) ↦ created p base free c
          | inr (e, c) ↦ absurd (known e c)
        ]

    -- Every operation is a step of the map of the entries that the registry file holds, provided that a
    -- write of the registry file does not fail (one that does may truncate the file), and that the
    -- other files that the operation writes or removes are not the registry file. One that succeeds
    -- adds or removes its entry. One that fails changes no entry, and returns `already_exists`,
    -- `parent_not_found` or `not_found` as the map says, the catalog's error for the base image, or
    -- the error that the host met with a directory, the manifest, qemu-img or the registry's text.
    pub perform-Step :
        (op : Op)
        → IsApartFor toml host paths op files
        → Step toml host paths
            (catalog_in toml host paths files)
            (entries toml host paths files)
            op
            (perform toml host paths op files).0
            (entries toml host paths (perform toml host paths op files).1)
    unfolding perform entries create_instance_in fork_instance_in destroy_instance_in load_or_empty
    perform-Step (create p) apart = elim (Option-cases (entries toml host paths files p.id)) [
      | inl free ↦
          let (adds, based) = create_instance_in-Adds p apart free in
          Step-of_Adds (CreateFails p) (create p) _ _ (created_from p free based)
            (λ e may. elim may [
              | inl cause ↦ create_failed p e free cause
              | inr c ↦ create_baseless p e free c
            ])
            adds
      | inr (old, e) ↦ rw (e, find, create_instance_in) (create_taken p old e)
    ]
    perform-Step (fork parent_id new_id) apart =
        elim (Option-cases (entries toml host paths files new_id)) [
          | inr (old, e) ↦ rw (e, find, fork_instance_in) (fork_taken old parent_id new_id e)
          | inl free ↦ elim (Option-cases (entries toml host paths files parent_id)) [
            | inl e ↦
                rw (free, find, fork_instance_in)
                  (rw (e, find) (fork_parentless parent_id new_id free e))
            | inr (parent, e) ↦
                Step-of_Adds (Cause toml host paths) (fork parent_id new_id) _ _
                  (λ _. forked parent parent_id new_id free e)
                  (λ x cause. fork_failed parent parent_id new_id x free e cause)
                  (fork_instance_in-Adds parent parent_id new_id apart free e)
          ]
        ]
    perform-Step (destroy id) apart = elim (Option-cases (entries toml host paths files id)) [
      | inl e ↦ rw (e, find, destroy_instance_in) (destroy_missing id e)
      | inr (old, e) ↦ destroy_instance_in-Step id old apart e
    ]
