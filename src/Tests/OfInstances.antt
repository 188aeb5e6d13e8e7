-- ===== src/Tests/OfInstances.antt =====
-- The theorems on instances at a sample host. The registry is written as lengths and codes.
use rotten_apple.Prelude.{
  Bool, List, Option, Result, Text, [], ap, arith, codes, drop, false, if◌then◌else◌, length,
  nat_beq, nat_eq, none, ok, ok-injective, refl, some, subst, suc, take, text_beq, text_beq_iff,
  text_eq, true, zero, ℕ, ◌*◌, ◌++◌, ◌+◌, ◌==◌, ◌^◌, ◌∙◌, ◌∷◌, ◌≡◌, ◌≢◌,
}
use rotten_apple.Manifest.{Resources}
use rotten_apple.Instances.{
  find, find_location, InstanceEntry, InstanceRegistry, ImageCatalog, default_paths, new_params,
}
use rotten_apple.Instances.Disk.{
  load_or_empty, qemu_img_create, save, Files, Host, Toml, done, created,
}
use rotten_apple.Instances.Clock.{civil_from_days}
use rotten_apple.Instances.Calendar.{tomorrow, civil_from_days-tomorrow}
use rotten_apple.Instances.Rendered.{IsReadFrom, figures}
use rotten_apple.Instances.Operations.{create_instance_in, overlay_path, manifest_path, join}
use rotten_apple.Instances.Refinement.{entries, IsApart}
use rotten_apple.Instances.Contract.{catalog_in, Op, create, perform, Step}
use rotten_apple.Instances.Steps.{perform-Step}
use rotten_apple.Tests.Samples.{web}

abbrev enc : Text → Text → Text
enc t rest = length t ∷ (t ++ rest)

abbrev dec : Text → Text × Text
dec [] = ([], [])
dec (n ∷ s) = (take n s, drop n s)

take-length : (t rest : Text) → take (length t) (t ++ rest) ≡ t
take-length [] rest = refl
take-length (c ∷ t) rest = ap (λ s. c ∷ s) (take-length t rest)

drop-length : (t rest : Text) → drop (length t) (t ++ rest) ≡ rest
drop-length [] rest = refl
drop-length (c ∷ t) rest = drop-length t rest

dec-enc : (t rest : Text) → dec (enc t rest) ≡ (t, rest)
dec-enc t rest = λ i. (take-length t rest i, drop-length t rest i)

abbrev enc_parent : Option Text → Text → Text
enc_parent none rest = 0 ∷ rest
enc_parent (some t) rest = 1 ∷ enc t rest

abbrev dec_parent : Text → Option Text × Text
dec_parent [] = (none, [])
dec_parent (n ∷ s) = if nat_beq n 0 then (none, s) else (some (dec s).0, (dec s).1)

dec_parent-enc_parent : (p : Option Text) (rest : Text) → dec_parent (enc_parent p rest) ≡ (p, rest)
dec_parent-enc_parent none rest = refl
dec_parent-enc_parent (some t) rest = ap (λ d. (some d.0, d.1)) (dec-enc t rest)

abbrev enc_entry : InstanceEntry → Text → Text
enc_entry e rest =
    e.memory_mb
    ∷ e.vcpus
    ∷ (if e.ephemeral then 1 else 0)
    ∷ enc e.id (enc e.base_image (enc e.overlay (enc e.created_at (enc_parent e.parent rest))))

abbrev of_fields : ℕ → ℕ → ℕ → Text → InstanceEntry × Text
of_fields mem vcpus flag s0 =
    let (id, s1) = dec s0 in
    let (base, s2) = dec s1 in
    let (overlay, s3) = dec s2 in
    let (stamp, s4) = dec s3 in
    let (parent, s5) = dec_parent s4 in
    (
      record {
        id = id;
        base_image = base;
        overlay = overlay;
        memory_mb = mem;
        vcpus = vcpus;
        created_at = stamp;
        ephemeral = nat_beq flag 1;
        parent = parent;
      },
      s5,
    )

abbrev blank : InstanceEntry
blank = record {
  id = [];
  base_image = [];
  overlay = [];
  memory_mb = 0;
  vcpus = 0;
  created_at = [];
  ephemeral = false;
  parent = none;
}

abbrev dec_entry : Text → InstanceEntry × Text
dec_entry (mem ∷ vcpus ∷ flag ∷ s) = of_fields mem vcpus flag s
dec_entry _ = (blank, [])

flag_back : (b : Bool) → nat_beq (if b then 1 else 0) 1 ≡ b
flag_back true = refl
flag_back false = refl

dec_entry-enc_entry : (e : InstanceEntry) (rest : Text) → dec_entry (enc_entry e rest) ≡ (e, rest)
dec_entry-enc_entry e rest = simp (take-length, drop-length, dec_parent-enc_parent, flag_back) refl

abbrev enc_entries : List InstanceEntry → Text
enc_entries [] = []
enc_entries (e ∷ es) = enc_entry e (enc_entries es)

abbrev dec_entries : ℕ → Text → List InstanceEntry
dec_entries zero s = []
dec_entries (suc n) s = (dec_entry s).0 ∷ dec_entries n (dec_entry s).1

dec_entries-enc_entries : (es : List InstanceEntry) → dec_entries (length es) (enc_entries es) ≡ es
dec_entries-enc_entries [] = refl
dec_entries-enc_entries (e ∷ es) =
    ap (λ d. d.0 ∷ dec_entries (length es) d.1) (dec_entry-enc_entry e (enc_entries es))
    ∙ ap (λ l. e ∷ l) (dec_entries-enc_entries es)

abbrev parse_registry : Text → Option InstanceRegistry
parse_registry [] = none
parse_registry (n ∷ s) = some (record { instances = dec_entries n s })

abbrev print_registry : InstanceRegistry → Text
print_registry reg = length reg.instances ∷ enc_entries reg.instances

pub parse_registry-print_registry :
    (reg : InstanceRegistry) (text : Text)
    → ◌≡◌ {A = Result Text Text} (ok (print_registry reg)) (ok text)
    → parse_registry text ≡ some reg
parse_registry-print_registry reg text h =
    subst (λ t. parse_registry t ≡ some reg) (ok-injective h)
      (ap (λ l. some (record { instances = l })) (dec_entries-enc_entries reg.instances))

abbrev catalog : ImageCatalog
catalog = record {
  images =
      record {
        name = some (codes "debian");
        id = none;
        backing = some (codes "/images/debian.qcow2");
        path = none;
      }
      ∷ [];
}

abbrev pub toml : Toml
toml = record {
  registry_of = parse_registry;
  registry_text = λ reg. ok (print_registry reg);
  catalog_of = λ t. ok catalog;
  registry_of-text = parse_registry-print_registry;
}

abbrev pub host : Host
host = record {
  secs = 1700000000;
  qemu_override = none;
  make_instances_dir = none;
  make_manifests_dir = none;
  make_registry_dir = none;
  qemu = created (some []);
  write_manifest = done;
  write_registry = done;
  overlay_removed = true;
  manifest_removed = true;
}

-- A disk with the catalog alone.
abbrev pub disk : Files
disk path = if path == default_paths.images_index then some [] else none

differ : (a b : Text) → text_beq a b ≡ false → a ≢ b
differ a b h = ground (arith, text_beq_iff a b)

abbrev op : Op
op = create (new_params (codes "dev") (codes "debian"))

-- The operation does create the instance.
created_test : (perform toml host default_paths op disk).0 ≡ ok tt
unfolding perform create_instance_in find load_or_empty text_beq find_location qemu_img_create save
created_test = refl

apart : IsApart toml host default_paths (codes "dev")
unfolding overlay_path manifest_path join text_beq
apart = record {
  overlay = differ (overlay_path default_paths (codes "dev")) default_paths.registry refl;
  manifest = differ (manifest_path default_paths (codes "dev")) default_paths.registry refl;
}

perform-Step_example :
    Step toml host default_paths
      (catalog_in toml host default_paths disk)
      (entries toml host default_paths disk)
      op
      (perform toml host default_paths op disk).0
      (entries toml host default_paths (perform toml host default_paths op disk).1)
perform-Step_example = perform-Step toml host default_paths refl disk op apart

civil_from_days-tomorrow_example :
    (civil_from_days 0 ≡ record { year = 1970; month = 1; day = 1 })
    × (civil_from_days (11016 + 1) ≡ tomorrow (civil_from_days 11016))
civil_from_days-tomorrow_example = civil_from_days-tomorrow 11016 (omega arith)

abbrev small : InstanceEntry
small = record blank { memory_mb = 200; vcpus = 1 }

abbrev small_resources : Resources
small_resources = record (web.resources) {
  memory_active_bytes = 200 * 2 ^ 20;
  memory_idle_bytes = 256 * 2 ^ 20;
  memory_minimum_bytes = 256 * 2 ^ 20;
  vcpus_active = 1;
  vcpus_idle = 1;
  vcpus_minimum = 1;
}

small_read : IsReadFrom small small_resources
unfolding figures
small_read = record {
  active = refl;
  idle = refl;
  minimum = refl;
  vcpus = refl;
  vcpus_idle = refl;
  vcpus_minimum = refl;
}
