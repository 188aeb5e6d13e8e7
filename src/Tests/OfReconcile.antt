-- ===== src/Tests/OfReconcile.antt =====
-- The theorems on the plan at a sample node.
use rotten_apple.Prelude.{In, Text, [], codes, some, ◌↔◌, ◌∷◌}
use rotten_apple.Agent.Truth.{Truth, TruthEntry, running}
use rotten_apple.Agent.Wanted.{WantedState}
use rotten_apple.Agent.Reconcile.{destroy_unknown, reconcile}
use rotten_apple.Agent.Reconcile.Exact.{Justified, reconcile_exact}
use rotten_apple.Tests.Samples.{alice, bob, web}

-- `web` is wanted and runs with half of its memory; nobody wants `old` any more.
abbrev wanted : WantedState
wanted = record {
  manifests =
      (
        codes "web",
        record {
          manifest_id = codes "web";
          profile_toml = codes "toml";
          parsed = some web;
          assigned_at_epoch = 1;
        },
      )
      ∷ [];
  lease_holder = some alice;
  lease_epoch = 1;
}

abbrev seen : Text → Text → TruthEntry
seen id m = record {
  domain_id = id;
  manifest_id = some m;
  state = running;
  memory_mb = 256;
  vcpus = 1;
}

abbrev truth : Truth
truth = record {
  domains =
      (codes "1", seen (codes "1") (codes "web"))
      ∷ (codes "2", seen (codes "2") (codes "old"))
      ∷ [];
}

reconcile_exact_example :
    In (destroy_unknown (codes "2")) (reconcile wanted truth bob).actions
    ↔ Justified wanted truth bob (destroy_unknown (codes "2"))
reconcile_exact_example = reconcile_exact wanted truth bob (destroy_unknown (codes "2"))
