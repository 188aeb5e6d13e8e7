-- ===== src/Fabric/NodeId/Suffix.antt =====
-- Which ids are the same node.
use rotten_apple.Prelude.{
  All, Text, [], arith, none, refl, rsplit_once, some, sym, text_beq_iff, true, ◌++◌, ◌∙◌, ◌∷◌, ◌≡◌,
  ◌≢◌,
}
use rotten_apple.HashMap.{IsEquivalence}
use rotten_apple.Fabric.NodeId.{NodeId, hex_suffix, same}

pub same-hex_suffix : (a b : NodeId) → same a b ≡ true → hex_suffix a ≡ hex_suffix b
unfolding same
same-hex_suffix a b h = (text_beq_iff (hex_suffix a) (hex_suffix b)).0 h

pub same-of_hex_suffix : (a b : NodeId) → hex_suffix a ≡ hex_suffix b → same a b ≡ true
unfolding same
same-of_hex_suffix a b h = (text_beq_iff (hex_suffix a) (hex_suffix b)).1 h

pub same-IsEquivalence : IsEquivalence same
same-IsEquivalence = record {
  same_refl = λ a. same-of_hex_suffix a a refl;
  same_symm = λ a b h. same-of_hex_suffix b a (sym (same-hex_suffix a b h));
  same_trans = λ a b c h k. same-of_hex_suffix a c (same-hex_suffix a b h ∙ same-hex_suffix b c k);
}

abbrev pub NoDash : Text → Type 0
NoDash = All (λ c. c ≢ b'-')

rsplit_once-NoDash : (s : Text) → NoDash s → rsplit_once b'-' s ≡ none
unfolding rsplit_once
rsplit_once-NoDash [] h = refl
rsplit_once-NoDash (c ∷ s) h = ground (arith, rsplit_once-NoDash s h.1)

rsplit_once-append : (r s : Text) → NoDash s → rsplit_once b'-' (r ++ (b'-' ∷ s)) ≡ some (r, s)
unfolding rsplit_once
rsplit_once-append [] s h = rw (rsplit_once-NoDash s h)
rsplit_once-append (c ∷ r) s h = rw (rsplit_once-append r s h)

pub hex_suffix-NoDash : (s : Text) → NoDash s → hex_suffix (record { text = s }) ≡ s
unfolding hex_suffix
hex_suffix-NoDash s h = rw (rsplit_once-NoDash s h, hex_suffix)

pub hex_suffix-role :
    (role hex : Text) → NoDash hex → hex_suffix (record { text = role ++ (b'-' ∷ hex) }) ≡ hex
unfolding hex_suffix
hex_suffix-role role hex h = rw (rsplit_once-append role hex h, hex_suffix)

-- Whatever stands before the last dash, two ids that end in the same dash-free suffix are the same
-- node, and both are the node of the bare suffix.
pub same-role :
    (role role' hex : Text)
    → NoDash hex
    → (same (record { text = role ++ (b'-' ∷ hex) }) (record { text = role' ++ (b'-' ∷ hex) })
        ≡ true)
      × (same (record { text = role ++ (b'-' ∷ hex) }) (record { text = hex }) ≡ true)
same-role role role' hex h = (
  same-of_hex_suffix _ _ (hex_suffix-role role hex h ∙ sym (hex_suffix-role role' hex h)),
  same-of_hex_suffix _ _ (hex_suffix-role role hex h ∙ sym (hex_suffix-NoDash hex h)),
)
