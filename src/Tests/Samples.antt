-- ===== src/Tests/Samples.antt =====
-- Sample keys, envelopes and profiles.
use rotten_apple.Prelude.{
  Option, Text, [], codes, false, length, nat_beq, nat_beq_iff, none, refl, replicate, some,
  text_beq, text_beq_refl, true, ℕ, ◌*◌, ◌++◌, ◌∷◌, ◌≡◌,
}
use rotten_apple.Fabric.NodeId.{NodeId}
use rotten_apple.Fabric.Event.{
  Bytes, claim_lease, assign, EnvelopeCore, Envelope, Fabric, sign, hash,
}
use rotten_apple.Fabric.Chain.{EventLog, new, zero_hash, TrustStore, commit}
use rotten_apple.Manifest.{Profile, appliance, swtpm}
use rotten_apple.Orchestratord.Auth.{Wire}

abbrev sample_sign : ℕ → Bytes → Bytes
sample_sign key [] = key ∷ replicate 63 0
sample_sign key (b ∷ m) = key ∷ b ∷ replicate 62 0

abbrev sample_to_vec : EnvelopeCore → Bytes
sample_to_vec core = core.seq ∷ core.lease_epoch ∷ core.prev_hash ++ core.issuer.text

abbrev pub fabric : Fabric
fabric = record {
  KeyPair = ℕ;
  PublicKey = ℕ;
  public = λ k. k;
  sign_bytes = sample_sign;
  verify_bytes = λ k m s. text_beq s (sample_sign k m);
  verify_sign = λ k m. text_beq_refl (sample_sign k m);
  to_vec = sample_to_vec;
  sha256 = λ m. m;
}

pub length-sample_sign : (k : ℕ) (m : Bytes) → length (sample_sign k m) ≡ 64
length-sample_sign k [] = refl
length-sample_sign k (b ∷ m) = refl

abbrev head : Bytes → Option ℕ
head [] = none
head (b ∷ m) = some b

abbrev pub wire : Wire fabric
wire = record {
  Value = ℕ;
  to_vec = λ n. n ∷ [];
  same_key = nat_beq;
  same_key_iff = nat_beq_iff;
  to_bytes = λ k. k ∷ replicate 31 0;
  from_bytes = head;
  from_to_bytes = λ k. refl;
  length_to_bytes = λ k. refl;
  length_sign = length-sample_sign;
  hex_encode = λ b. b;
  hex_decode = some;
  decode_encode = λ b. refl;
}

abbrev pub alice : NodeId
alice = record { text = codes "desk-aa" }

abbrev pub bob : NodeId
bob = record { text = codes "rack-bb" }

abbrev pub trust : TrustStore fabric
trust = (alice, 7) ∷ (bob, 8) ∷ []

abbrev pub first_event : Envelope
first_event = sign fabric 7 alice 0 1 zero_hash 1000 (claim_lease bob)

abbrev pub one_event : EventLog
one_event = commit fabric new first_event

abbrev pub second_event : Envelope
second_event =
    sign fabric 7 alice 1 1 (hash fabric first_event.core) 1001
      (assign (codes "web") (codes "toml"))

-- An envelope of another issuer in the same epoch.
abbrev pub stray_event : Envelope
stray_event = sign fabric 8 bob 1 1 (hash fabric first_event.core) 1002 (claim_lease bob)

abbrev pub web : Profile
web = record {
  profile = record {
    name = codes "web";
    schema_version = codes "1";
    description = [];
    kind = appliance;
  };
  meta = record { license = codes "personal"; attestation_required = false };
  resources = record {
    memory_active_bytes = 512 * 1024 * 1024;
    memory_idle_bytes = 256 * 1024 * 1024;
    memory_minimum_bytes = 128 * 1024 * 1024;
    vcpus_active = 2;
    vcpus_idle = 1;
    vcpus_minimum = 1;
    prefer_p_cores = false;
    idle_on_e_cores = false;
  };
  storage = record {
    root = record { kind = codes "image"; source = none; path = none; mode = codes "rw" };
    extra_disks = [];
  };
  network = record { mode = codes "bridge"; interfaces = [] };
  gpu = record { mode = codes "none"; device = none; fallback = none };
  audio = record { mode = codes "none"; default_sink = none };
  input = record { keyboard = codes "follow_focus"; mouse = codes "follow_focus" };
  usb = record { mode = codes "policy"; default_route = codes "none"; explicit_routes = [] };
  tpm = record { mode = swtpm };
  autostart = record { enabled = true; delay_after_boot = none; suspend_after_idle = some 600 };
  trigger = none;
  integration = record { sockets = []; files = []; clipboard = false };
  orchestration = record { priority = codes "background"; exclusive_resources = [] };
  trust = record { documented_capabilities = []; documented_limitations = [] };
  policy = record {
    memory = record {
      min_mb = some 256;
      max_mb = some 1024;
      target_headroom_pct = none;
      cooldown_s = some 30;
    };
  };
  anchor = record { node = none; migratable = false };
  capabilities_required = record {
    need_iommu = false;
    need_gpu_class = none;
    need_pcpu_min = none;
    need_memory_mb_min = none;
  };
  lease_policy = record { controllers_allowed = []; operations_allowed = [] };
}

-- The same guest, for one controller alone.
abbrev pub guarded : Profile
guarded = record web {
  lease_policy = record { controllers_allowed = codes "desk-aa" ∷ []; operations_allowed = [] };
}

abbrev pub parse : Text → Option Profile
parse [] = none
parse (c ∷ s) = some web

abbrev pub stored : Text → Option Profile
stored m = some guarded
