-- ===== src/Topology/Slugs.antt =====
-- `slugify` of src/topology/labels.rs and of src/topology/lldp.rs. The source runs over characters:
-- every byte of a character beyond ASCII is squashed to a dash as the character is.
use accelrd.Prelude.{
  ℕ, ◌≡◌, refl, ◌&&◌, ◌||◌, Bool, true, false, [], ◌∷◌, Text, codes, ◌==◌, leb, if◌then◌else◌, All,
  is_empty, arith,
}
use accelrd.Prelude.Strings.{reverse}
use accelrd.Topology.{lowercase}

abbrev is_ascii_alphanumeric : ℕ → Bool
is_ascii_alphanumeric c =
    (leb b'0' c && leb c b'9') || (leb b'A' c && leb c b'Z') || (leb b'a' c && leb c b'z')

abbrev kept : ℕ → Bool
kept c = is_ascii_alphanumeric c || c == b'.' || c == b'_'

-- The loop, with `last_dash`.
unfoldable pub squash : (last_dash : Bool) → Text → Text
squash last_dash [] = []
squash last_dash (c ∷ s) =
    let after_kept = squash false s in
    let after_dash = squash true s in
    if kept (lowercase c)
    then lowercase c ∷ after_kept
    else if last_dash
    then after_dash
    else b'-' ∷ after_dash

-- `trim_matches('-')`
unfoldable pub drop_dashes : Text → Text
drop_dashes [] = []
drop_dashes (c ∷ s) = let rest = drop_dashes s in if c == b'-' then rest else c ∷ s

unfoldable pub trim_dashes : Text → Text
unfolding drop_dashes reverse
trim_dashes s = reverse (drop_dashes (reverse (drop_dashes s) [])) []

-- `slugify` of src/topology/lldp.rs
unfoldable pub slugify : Text → Text
unfolding squash trim_dashes
slugify s = trim_dashes (squash false s)

abbrev or_unknown : Text → Text
or_unknown [] = codes "unknown"
or_unknown (c ∷ s) = c ∷ s

-- `slugify` of src/topology/labels.rs
unfoldable pub slugify_model : Text → Text
unfolding slugify
slugify_model s = or_unknown (slugify s)

-- The characters of a slug: lower-case letters, digits, dots, underscores and dashes.
abbrev pub IsSlugByte : ℕ → Type 0
IsSlugByte c =
    ((leb b'0' c && leb c b'9')
      || (leb b'a' c && leb c b'z')
      || c == b'.'
      || c == b'_'
      || c == b'-')
    ≡ true

lowercase-kept : (c : ℕ) → kept (lowercase c) ≡ true → IsSlugByte (lowercase c)
lowercase-kept c h = ground arith

squash-All : (last_dash : Bool) (s : Text) → All IsSlugByte (squash last_dash s)
unfolding squash
squash-All last_dash [] = tt
squash-All last_dash (c ∷ s) =
    ground (arith, lowercase-kept c, squash-All false s, squash-All true s)

reverse-All :
    (s acc : Text) → All IsSlugByte s → All IsSlugByte acc → All IsSlugByte (reverse s acc)
unfolding reverse
reverse-All [] acc h k = k
reverse-All (c ∷ s) acc h k = reverse-All s (c ∷ acc) h.1 (h.0, k)

drop_dashes-All : (s : Text) → All IsSlugByte s → All IsSlugByte (drop_dashes s)
unfolding drop_dashes
drop_dashes-All [] h = tt
drop_dashes-All (c ∷ s) h = ground (arith, drop_dashes-All s h.1)

slugify-All : (s : Text) → All IsSlugByte (slugify s)
unfolding slugify
slugify-All s =
    let front = drop_dashes-All (squash false s) (squash-All false s) in
    let back = drop_dashes-All _ (reverse-All (drop_dashes (squash false s)) [] front tt) in
    reverse-All (drop_dashes (reverse (drop_dashes (squash false s)) [])) [] back tt

or_unknown-All :
    (s : Text)
    → All IsSlugByte s
    → All IsSlugByte (or_unknown s) × (is_empty (or_unknown s) ≡ false)
or_unknown-All [] h = ((refl, (refl, (refl, (refl, (refl, (refl, (refl, tt))))))), refl)
or_unknown-All (c ∷ s) h = (h, refl)

-- A model's slug is not empty, and each of its characters is a lower-case letter, a digit, a dot, an
-- underscore or a dash, whatever the model's name.
pub slugify_model_lem :
    (s : Text) → All IsSlugByte (slugify_model s) × (is_empty (slugify_model s) ≡ false)
unfolding slugify_model
slugify_model_lem s = or_unknown-All (slugify s) (slugify-All s)
