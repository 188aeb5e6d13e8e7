-- ===== src/Instances/Rendered.antt =====
-- `profile_for_instance`: the manifest that is written for an instance, and what the validator of
-- manifests makes of its figures.
use rotten_apple.Prelude.{
  Text, [], arith, codes, decimal, max, ℕ, ◌*◌, ◌++◌, ◌/◌, ◌^◌, ◌↔◌, ◌≡◌, ◌≤◌,
}
use rotten_apple.Instances.{InstanceEntry}
use rotten_apple.Manifest.{Resources}
use rotten_apple.Manifest.Validate.{resource_tests, gather}

-- The figures of the text, in megabytes.
pub record Figures : Type 0 where
  pub active : ℕ
  pub idle : ℕ
  pub minimum : ℕ
  pub vcpus : ℕ
  pub vcpus_idle : ℕ

unfoldable pub figures : InstanceEntry → Figures
figures entry = record {
  active = entry.memory_mb;
  idle = max (entry.memory_mb / 2) 256;
  minimum = max (entry.memory_mb / 8) 256;
  vcpus = entry.vcpus;
  vcpus_idle = max entry.vcpus 1;
}

unfoldable pub profile_for_instance : InstanceEntry → Text
unfolding figures decimal
profile_for_instance entry =
    let x = figures entry in
    codes "# Generated by rotten-apple-instances for instance \""
    ++ entry.id
    ++ codes "\".\n# Do not edit by hand — `rotten-apple instance rm "
    ++ entry.id
    ++ codes "` removes it.\n\n[profile]\nname           = \""
    ++ entry.id
    ++ codes "\"\nschema_version = \"1\"\ndescription    = \"rotten-apple instance: "
    ++ entry.id
    ++ codes " (base "
    ++ entry.base_image
    ++ codes ")\"\ntype           = \"appliance\"\n\n[resources]\nmemory_active  = \""
    ++ decimal x.active
    ++ codes "M\"\nmemory_idle    = \""
    ++ decimal x.idle
    ++ codes "M\"\nmemory_minimum = \""
    ++ decimal x.minimum
    ++ codes "M\"\nvcpus_active   = "
    ++ decimal x.vcpus
    ++ codes "\nvcpus_idle     = "
    ++ decimal x.vcpus_idle
    ++ codes "\nvcpus_minimum  = 1\n\n[storage]\nroot = { kind = \"qcow2\", path = \""
    ++ entry.overlay
    ++ codes
        "\", mode = \"rw-exclusive\" }\n\n[network]\nmode = \"bridge\"\n\n[[network.interfaces]]\n"
    ++ codes "name = \"primary\"\nmac  = \"auto\"\n\n[tpm]\nmode = \"none\"\n"

-- The resources that a parser reads from the text: the figures in bytes, and one virtual processor
-- at least.
pub record IsReadFrom (entry : InstanceEntry) (r : Resources) : Type 0 where
  pub active : r.memory_active_bytes ≡ (figures entry).active * 2 ^ 20
  pub idle : r.memory_idle_bytes ≡ (figures entry).idle * 2 ^ 20
  pub minimum : r.memory_minimum_bytes ≡ (figures entry).minimum * 2 ^ 20
  pub vcpus : r.vcpus_active ≡ (figures entry).vcpus
  pub vcpus_idle : r.vcpus_idle ≡ (figures entry).vcpus_idle
  pub vcpus_minimum : r.vcpus_minimum ≡ 1

module _ (entry : InstanceEntry) (r : Resources) (h : IsReadFrom entry r) where
  -- The validator has nothing against the figures of the manifest that is written for an instance
  -- exactly when the instance has at least 256 megabytes and one virtual processor.
  pub profile_for_instance_iff :
      (gather (resource_tests r) ≡ []) ↔ ((256 ≤ entry.memory_mb) × (1 ≤ entry.vcpus))
  unfolding gather resource_tests figures
  profile_for_instance_iff =
      ground (arith, h.active, h.idle, h.minimum, h.vcpus, h.vcpus_idle, h.vcpus_minimum)
