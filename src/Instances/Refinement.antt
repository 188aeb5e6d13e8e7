-- ===== src/Instances/Refinement.antt =====
-- The operations as steps of a map from ids to entries. The map is what the registry file is read
-- as, so the theorems are about what is on the disk after the operation.
use rotten_apple.Prelude.{
  Bool, Option, Option-cases, Result, Result-cases, Text, arith, codes, err, false, inl, inr, none,
  ok, refl, some, text_beq_iff, text_beq_refl, trim, true, ◌++◌, ◌∙◌, ◌≡◌, ◌≢◌, ◌⊎◌,
}
use rotten_apple.Instances.{
  InstanceError, io, qemu_img, InstanceEntry, InstanceRegistry, InstancePaths, find, upsert,
}
use rotten_apple.Instances.Disk.{
  Files, Run, ◌>>◌, lift, put, Host, Write, done, Qemu, Toml, create_dir_all, write, remove_file,
  qemu_img_create, load_or_empty, save, run_qemu, prog,
}
use rotten_apple.Instances.Rendered.{profile_for_instance}
use rotten_apple.Instances.Operations.{overlay_path, manifest_path, install}
use rotten_apple.Instances.Registry.{Entries, with_entry, find-upsert}

module _ (toml : Toml) (host : Host) (paths : InstancePaths) where
  -- The entries that the registry file holds.
  unfoldable pub entries : Files → Entries
  unfolding find
  entries files = find (load_or_empty toml paths.registry files)

  -- The files of an instance of that id are not the registry.
  pub record IsApart (id : Text) : Type 0 where
    pub overlay : overlay_path paths id ≢ paths.registry
    pub manifest : manifest_path paths id ≢ paths.registry

  -- What the host did to make an operation fail with an error.
  pub data Cause : InstanceError → Type 0 where
    instances_dir : (e : Text) → host.make_instances_dir ≡ some e → Cause (io e)
    manifests_dir : (e : Text) → host.make_manifests_dir ≡ some e → Cause (io e)
    registry_dir : (e : Text) → host.make_registry_dir ≡ some e → Cause (io e)
    manifest_write :
        (e : Text) (left : Option Text) → host.write_manifest ≡ Write.failed e left → Cause (io e)
    registry_text :
        (reg : InstanceRegistry) (e : Text) → toml.registry_text reg ≡ err e → Cause (io e)
    no_qemu :
        (e : Text)
        → host.qemu ≡ Qemu.spawn_failed e
        → Cause (qemu_img (codes "spawn " ++ prog host ++ codes ": " ++ e))
    qemu_exit :
        (status stderr : Text) (left : Option Text)
        → host.qemu ≡ Qemu.exited status stderr left
        → Cause (qemu_img (prog host ++ codes " exit " ++ status ++ codes ": " ++ trim stderr))

  -- A run that leaves the content `c` in the registry file, and fails for a cause alone.
  Keeps : Option Text → Run (Unit {0}) → Type 0
  Keeps c run =
      (files : Files)
      → files paths.registry ≡ c
      → (((run files).0 ≡ ok tt) ⊎ ((e : InstanceError) × ((run files).0 ≡ err e) × Cause e))
        × ((run files).1 paths.registry ≡ c)

  put_other :
      (path : Text) (content : Option Text) (files : Files)
      → path ≢ paths.registry
      → put path content files paths.registry ≡ files paths.registry
  put_other path content files n = ground (arith, text_beq_iff paths.registry path)

  create_dir_all-Keeps :
      (c : Option Text) (error : Option Text)
      → ((e : Text) → error ≡ some e → Cause (io e))
      → Keeps c (create_dir_all error)
  unfolding Keeps
  create_dir_all-Keeps c none cause files e = (inl refl, e)
  create_dir_all-Keeps c (some x) cause files e = (inr (io x, refl, cause x refl), e)

  write-Keeps :
      (c : Option Text) (w : Write) (path text : Text)
      → host.write_manifest ≡ w
      → path ≢ paths.registry
      → Keeps c (write w path text)
  unfolding Keeps
  write-Keeps c done path text h n files e = (inl refl, put_other path (some text) files n ∙ e)
  write-Keeps c (Write.failed x left) path text h n files e =
      (inr (io x, refl, manifest_write x left h), put_other path left files n ∙ e)

  run_qemu-Keeps :
      (c : Option Text) (q : Qemu) (dest : Text)
      → host.qemu ≡ q
      → dest ≢ paths.registry
      → Keeps c (run_qemu q (prog host) dest)
  unfolding Keeps
  run_qemu-Keeps c (Qemu.created overlay) dest h n files e =
      (inl refl, put_other dest overlay files n ∙ e)
  run_qemu-Keeps c (Qemu.spawn_failed x) dest h n files e = (inr (_, refl, no_qemu x h), e)
  run_qemu-Keeps c (Qemu.exited status stderr left) dest h n files e =
      (inr (_, refl, qemu_exit status stderr left h), put_other dest left files n ∙ e)

  qemu_img_create-Keeps :
      (c : Option Text) (base dest : Text)
      → dest ≢ paths.registry
      → Keeps c (qemu_img_create host base dest)
  unfolding qemu_img_create
  qemu_img_create-Keeps c base dest = run_qemu-Keeps c host.qemu dest refl

  pub remove_file-keeps :
      (removed : Bool) (path : Text) (files : Files)
      → path ≢ paths.registry
      → remove_file removed path files paths.registry ≡ files paths.registry
  remove_file-keeps true path files n = put_other path none files n
  remove_file-keeps false path files n = refl

  -- What a run that is to end with `reg` in the registry file comes to, when it starts with `c` there.
  unfoldable pub Ends :
      {A : Type 0} → Option Text → A → InstanceRegistry → Result InstanceError A × Files → Type 0
  Ends c a reg out =
      ((out.0 ≡ ok a) × (load_or_empty toml paths.registry out.1 ≡ reg))
      ⊎ ((e : InstanceError) × (out.0 ≡ err e) × Cause e × (out.1 paths.registry ≡ c))

  module _ {A : Type 0} (c : Option Text) (a : A) (reg : InstanceRegistry) where
    Ends-then :
        (first : Run Unit) (next : Run A)
        → Keeps c first
        → ((files : Files) → files paths.registry ≡ c → Ends c a reg (next files))
        → (files : Files) → files paths.registry ≡ c
        → Ends c a reg ((first >> next) files)
    unfolding Ends Keeps
    Ends-then first next k h files e =
        split (first files).0 (first files).1 (k files e).0 (k files e).1
      where
        split :
            (r : Result InstanceError (Unit {0})) (after : Files)
            → (r ≡ ok tt) ⊎ ((x : InstanceError) × (r ≡ err x) × Cause x)
            → after paths.registry ≡ c
            → Ends c a reg (elim r [ ok u ↦ next after | err x ↦ (err x, after) ])
        split (ok u) after o k = h after k
        split (err x) after (inl o) k = absurd cc
        split (err x) after (inr (y, o, cause)) k = inr (y, cc o, cause, k)

    Ends-return :
        (first : Run Unit) (files : Files)
        → Ends c tt reg (first files)
        → Ends c a reg ((first >> lift (ok a)) files)
    unfolding Ends
    Ends-return first files h = split (first files).0 (first files).1 h
      where
        split :
            (r : Result InstanceError (Unit {0})) (after : Files)
            → Ends c tt reg (r, after)
            → Ends c a reg (elim r [ ok u ↦ lift (ok a) after | err x ↦ (err x, after) ])
        split (ok u) after (inl h) = inl (refl, h.1)
        split (ok u) after (inr (x, h, cause, k)) = absurd cc
        split (err x) after (inl h) = absurd cc
        split (err x) after (inr (y, h, cause, k)) = inr (y, cc h, cause, k)

  -- A write of the registry is all or nothing unless it fails halfway.
  pub save-Ends :
      (c : Option Text) (reg : InstanceRegistry)
      → host.write_registry ≡ done
      → (files : Files) → files paths.registry ≡ c
      → Ends c tt reg (save toml host paths.registry reg files)
  unfolding Ends save load_or_empty
  save-Ends c reg w files e = elim (Option-cases host.make_registry_dir) [
    | inr (x, d) ↦ rw d (inr (InstanceError.io x, refl, registry_dir x refl, e))
    | inl d ↦ elim (Result-cases (toml.registry_text reg)) [
      | inr (x, t) ↦ rw (d, t) (inr (InstanceError.io x, refl, registry_text reg x t, e))
      | inl (text, t) ↦
          rw (d, t, w, text_beq_refl paths.registry, toml.registry_of-text reg text t)
            (inl (refl, refl))
    ]
  ]

  pub install-Ends :
      (c : Option Text) (reg : InstanceRegistry) (base : Text) (entry : InstanceEntry)
      → host.write_registry ≡ done
      → IsApart entry.id
      → (files : Files) → files paths.registry ≡ c
      → Ends c entry (upsert entry reg) (install toml host paths reg base entry false files)
  unfolding install
  install-Ends c reg base entry w apart =
      let after = upsert entry reg in
      let saved = save toml host paths.registry after in
      Ends-then c entry after _ _ (create_dir_all-Keeps c host.make_instances_dir instances_dir) (
        Ends-then c entry after _ _ (create_dir_all-Keeps c host.make_manifests_dir manifests_dir) (
          Ends-then c entry after _ _
            (qemu_img_create-Keeps c base (overlay_path paths entry.id) apart.overlay)
            (Ends-then c entry after _ (saved >> lift (ok entry))
              (write-Keeps c host.write_manifest (manifest_path paths entry.id)
                (profile_for_instance entry) refl apart.manifest)
              (λ files e. Ends-return c entry after saved files (save-Ends c after w files e)))))

  pub load_or_empty-of_same :
      (files after : Files)
      → after paths.registry ≡ files paths.registry
      → load_or_empty toml paths.registry after ≡ load_or_empty toml paths.registry files
  unfolding load_or_empty
  load_or_empty-of_same files after e = rw e refl

  -- A step of the map that a run took, when it was to add one entry: it added it and returned it, or
  -- it returned an error, for one of the causes, and changed nothing.
  unfoldable pub Adds :
      (InstanceError → Type 0)
      → Files
      → InstanceEntry
      → Result InstanceError InstanceEntry × Files
      → Type 0
  Adds MayFail files entry out =
      ((out.0 ≡ ok entry) × ((q : Text) → entries out.1 q ≡ with_entry entry (entries files) q))
      ⊎ ((e : InstanceError) × (out.0 ≡ err e)
          × MayFail e
          × ((q : Text) → entries out.1 q ≡ entries files q))

  pub Adds-of_Ends :
      (MayFail : InstanceError → Type 0)
      → ((e : InstanceError) → Cause e → MayFail e)
      → (files : Files) (entry : InstanceEntry) (out : Result InstanceError InstanceEntry × Files)
      → Ends
          (files paths.registry)
          entry
          (upsert entry (load_or_empty toml paths.registry files))
          out
      → Adds MayFail files entry out
  unfolding Ends Adds entries
  Adds-of_Ends MayFail may files entry out (inl (r, l)) =
      inl (r, λ q. rw l (find-upsert entry q (load_or_empty toml paths.registry files)))
  Adds-of_Ends MayFail may files entry out (inr (e, r, cause, k)) =
      inr (e, r, may e cause, λ q. rw (load_or_empty-of_same files out.1 k) refl)
