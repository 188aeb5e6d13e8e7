-- ===== src/Orchestratord/Params/Confined.antt =====
-- Which files `domain.create` reads, and what its errors tell.
use rotten_apple.Prelude.{
  Bool-cases, In, List, Option-cases, Text, [], ap, arith, codes, err, inl, inr, nat_beq,
  nat_beq_iff, ok, refl, some, text_beq_iff, true, ◌++◌, ◌∷◌, ◌≡◌, ◌⊎◌,
}
use rotten_apple.Governor.{strip_prefix}
use rotten_apple.Manifest.{Profile}
use rotten_apple.Orchestratord.Protocol.{Json}
use rotten_apple.Orchestratord.Params.{
  Host, manifest_root, starts_with, str_member, load_file, load_profile,
}

-- A canonical path is a directory or stands below it.
pub IsUnder : (root path : Text) → Type 0
IsUnder root path =
    (rest : Text) × (path ≡ root ++ rest)
    × ((rest ≡ []) ⊎ ((s : Text) × (rest ≡ b'/' ∷ s)) ⊎ (root ≡ codes "/"))

strip_prefix-some : (p s rest : Text) → strip_prefix p s ≡ some rest → s ≡ p ++ rest
unfolding strip_prefix
strip_prefix-some [] s rest h = cc
strip_prefix-some (p ∷ ps) [] rest h = absurd cc
strip_prefix-some (p ∷ ps) (c ∷ s) rest h =
    ground (arith, strip_prefix-some ps s rest, nat_beq_iff p c)

starts_with-IsUnder : (path root : Text) → starts_with path root ≡ true → IsUnder root path
unfolding starts_with IsUnder
starts_with-IsUnder path root h = elim (Option-cases (strip_prefix root path)) [
  | inl e ↦ absurd (ground arith)
  | inr (rest, e) ↦ (rest, strip_prefix-some root path rest e, split rest e)
]
  where
    split :
        (rest : Text)
        → strip_prefix root path ≡ some rest
        → (rest ≡ []) ⊎ ((s : Text) × (rest ≡ b'/' ∷ s)) ⊎ (root ≡ codes "/")
    split [] e = inl refl
    split (c ∷ s) e = elim (Bool-cases (nat_beq c b'/')) [
      | inl k ↦ inr (inl (s, ap (λ c. c ∷ s) ((nat_beq_iff c b'/').0 k)))
      | inr k ↦ inr (inr (ground (arith, text_beq_iff root (codes "/"))))
    ]

module _ (x : Json) (host : Host) where
  -- The manifest that a path stands for, when it may be read: the file that it resolves to lies
  -- under the directory of the manifests, and parses.
  pub record IsLoaded (path : Text) (profile : Profile) : Type 0 where
    pub real : Text
    pub resolves : host.canonicalize path ≡ some real
    pub root : Text
    pub root_resolves : host.canonicalize manifest_root ≡ some root
    pub under : IsUnder root real
    pub loads : host.load real ≡ some profile

  -- The messages of a refused path, whatever the files hold.
  pub fixed_messages : List Text
  fixed_messages =
      codes "manifest not found under /etc/rotten-apple"
      ∷ codes "manifest root /etc/rotten-apple unavailable"
      ∷ codes "manifest path must be under /etc/rotten-apple"
      ∷ codes "manifest failed to load or parse"
      ∷ []

  -- With a path in its parameters, `domain.create` takes its profile from a file under the directory
  -- of the manifests, symbolic links resolved, or refuses with one of four fixed messages.
  pub load_profile_confined :
      (params : x.Value) (path : Text)
      → str_member x params (codes "manifest_path") ≡ some path
      → ((p : Profile) × (load_profile x host params ≡ ok p) × IsLoaded path p)
        ⊎ ((e : Text) × (load_profile x host params ≡ err e) × In e fixed_messages)
  unfolding load_profile load_file fixed_messages
  load_profile_confined params path h =
      rw (h, load_profile)
        (elim (Option-cases (host.canonicalize path)) [
          | inl e ↦ rw (e, load_file) (inr (_, refl, inl refl))
          | inr (real, e) ↦ elim (Option-cases (host.canonicalize manifest_root)) [
            | inl r ↦ rw (e, load_file) (rw r (inr (_, refl, inr (inl refl))))
            | inr (root, r) ↦ elim (Bool-cases (starts_with real root)) [
              | inr w ↦ rw (e, load_file) (rw (r, w) (inr (_, refl, inr (inr (inl refl)))))
              | inl w ↦ elim (Option-cases (host.load real)) [
                | inl l ↦
                    rw (e, load_file) (rw (r, w, l) (inr (_, refl, inr (inr (inr (inl refl))))))
                | inr (p, l) ↦
                    rw (e, load_file)
                      (rw (r, w, l)
                        (inl (
                          p,
                          refl,
                          record {
                            real = real;
                            resolves = e;
                            root = root;
                            root_resolves = r;
                            under = starts_with-IsUnder real root w;
                            loads = l;
                          },
                        )))
              ]
            ]
          ]
        ])
