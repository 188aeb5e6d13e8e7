-- ===== src/Instances/Registry.antt =====
-- The registry as a map from ids to entries.
use rotten_apple.Prelude.{
  List, Option, Option-cases, Text, [], arith, if◌then◌else◌, inl, inr, is_some, length, nat_eq,
  none, refl, some, text_beq_iff, text_eq, true, ◌++◌, ◌<◌, ◌==◌, ◌∷◌, ◌≡◌, ◌≤◌,
}
use rotten_apple.Instances.{
  InstanceEntry, InstanceRegistry, find_entry, find, replace_entry, upsert, retain_others, remove,
}

-- The map with an entry under its own id, and without an id.
abbrev pub Entries : Type 0
Entries = Text → Option InstanceEntry

abbrev pub with_entry : InstanceEntry → Entries → Entries
with_entry entry m q = if entry.id == q then some entry else m q

abbrev pub without : Text → Entries → Entries
without id m q = if id == q then none else m q

module _ (entry : InstanceEntry) (q : Text) where
  find_entry-replace_entry :
      (es : List InstanceEntry)
      → is_some (find_entry entry.id es) ≡ true
      → find_entry q (replace_entry entry es)
        ≡ (if entry.id == q then some entry else find_entry q es)
  unfolding find_entry replace_entry
  find_entry-replace_entry [] h = ground arith
  find_entry-replace_entry (e ∷ es) h = ground (
    arith,
    find_entry-replace_entry es,
    text_beq_iff e.id entry.id,
    text_beq_iff entry.id q,
    text_beq_iff e.id q,
  )

  find_entry-append :
      (es : List InstanceEntry)
      → find_entry entry.id es ≡ none
      → find_entry q (es ++ (entry ∷ [])) ≡ (if entry.id == q then some entry else find_entry q es)
  unfolding find_entry
  find_entry-append [] h = refl
  find_entry-append (e ∷ es) h = ground (
    arith,
    find_entry-append es,
    text_beq_iff e.id entry.id,
    text_beq_iff entry.id q,
    text_beq_iff e.id q,
  )

  -- After an upsert the registry finds the new entry under its id, and what it found before under
  -- every other id.
  pub find-upsert :
      (reg : InstanceRegistry) → find (upsert entry reg) q ≡ with_entry entry (find reg) q
  unfolding find upsert
  find-upsert reg = elim (Option-cases (find_entry entry.id reg.instances)) [
    | inl e ↦ rw e (find_entry-append reg.instances e)
    | inr (old, e) ↦ rw e (find_entry-replace_entry reg.instances (rw e refl))
  ]

find_entry-retain_others :
    (id q : Text) (es : List InstanceEntry)
    → find_entry q (retain_others id es) ≡ (if id == q then none else find_entry q es)
unfolding find_entry retain_others
find_entry-retain_others id q [] = ground arith
find_entry-retain_others id q (e ∷ es) = ground (
  arith,
  find_entry-retain_others id q es,
  text_beq_iff e.id id,
  text_beq_iff e.id q,
  text_beq_iff id q,
)

retain_others_shrinks :
    (id : Text) (es : List InstanceEntry)
    → (find_entry id es ≡ none → retain_others id es ≡ es)
      × (length (retain_others id es) ≤ length es)
      × (is_some (find_entry id es) ≡ true → length (retain_others id es) < length es)
unfolding find_entry retain_others
retain_others_shrinks id [] = ground arith
retain_others_shrinks id (e ∷ es) = ground (arith, retain_others_shrinks id es)

-- After a removal the registry finds nothing under the id, and what it found before under every
-- other id; the answer says whether there was an entry.
pub find-remove :
    (id q : Text) (reg : InstanceRegistry)
    → (find (remove id reg).0 q ≡ without id (find reg) q)
      × ((remove id reg).1 ≡ is_some (find reg id))
unfolding find remove
find-remove id q reg =
    let (same, le, less) = retain_others_shrinks id reg.instances in
    (find_entry-retain_others id q reg.instances, ground (arith, same, le, less))
