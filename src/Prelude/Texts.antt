-- ===== src/Prelude/Texts.antt =====
-- Rust's `String` and `&str` as the list of their UTF-8 bytes, which is what their order compares.
use Prim.Native.Nat.{ℕ, compare, Ordering}
use Prim.Native.Nat.Ordering.{lt, eq, gt}
use Prim.Native.Char.{code}
use Prim.Native.String.{String}
use mathlib.Core.Path.{◌≡◌, refl}
use mathlib.Core.Logic.{◌↔◌}
use mathlib.Core.Bool.{Bool, true, false, ◌&&◌}
use mathlib.Core.List.{List, [], ◌∷◌}
use native.Mathlib.Omega.{arith}
use accelrd.Prelude.Tests.{◌==◌}
use accelrd.Prelude.Order.{Ord, flip, then_cmp, is_eq}

abbrev pub Text : Type 0
Text = List ℕ

-- A literal of ASCII characters.
abbrev pub codes : String → Text
codes String.[] = []
codes (String.◌∷◌ c s) = code c ∷ codes s

unfoldable pub cmp_text : Text → Text → Ordering
cmp_text [] [] = eq
cmp_text [] (_ ∷ _) = lt
cmp_text (_ ∷ _) [] = gt
cmp_text (a ∷ s) (b ∷ t) = then_cmp (compare a b) (cmp_text s t)

pub cmp_text_refl : (s : Text) → cmp_text s s ≡ eq
unfolding cmp_text
cmp_text_refl [] = refl
cmp_text_refl (a ∷ s) = ground (arith, cmp_text_refl s)

pub eq_of_cmp_text : (s t : Text) → cmp_text s t ≡ eq → s ≡ t
unfolding cmp_text
eq_of_cmp_text [] [] h = refl
eq_of_cmp_text [] (b ∷ t) h = cc
eq_of_cmp_text (a ∷ s) [] h = cc
eq_of_cmp_text (a ∷ s) (b ∷ t) h = ground (arith, eq_of_cmp_text s t)

pub cmp_text-flip : (s t : Text) → cmp_text t s ≡ flip (cmp_text s t)
unfolding cmp_text
cmp_text-flip [] [] = refl
cmp_text-flip [] (b ∷ t) = refl
cmp_text-flip (a ∷ s) [] = refl
cmp_text-flip (a ∷ s) (b ∷ t) = ground (arith, cmp_text-flip s t)

pub cmp_text_trans : (s t u : Text) → cmp_text s t ≡ lt → cmp_text t u ≡ lt → cmp_text s u ≡ lt
unfolding cmp_text
cmp_text_trans s [] [] h k = cc
cmp_text_trans [] [] (c ∷ u) h k = cc
cmp_text_trans (a ∷ s) [] (c ∷ u) h k = cc
cmp_text_trans s (b ∷ t) [] h k = cc
cmp_text_trans [] (b ∷ t) (c ∷ u) h k = refl
cmp_text_trans (a ∷ s) (b ∷ t) (c ∷ u) h k = ground (arith, cmp_text_trans s t u)

instance abbrev pub text_ord : Ord Text
text_ord = record {
  cmp = cmp_text;
  cmp_refl = cmp_text_refl;
  eq_of_cmp = eq_of_cmp_text;
  cmp_flip = cmp_text-flip;
  lt_trans = cmp_text_trans;
}

infix 50 ◌=t◌
unfoldable pub ◌=t◌ : Text → Text → Bool
unfolding cmp_text
s =t t = is_eq (cmp_text s t)

pub =t_iff : (s t : Text) → ((s =t t) ≡ true) ↔ (s ≡ t)
unfolding ◌=t◌
=t_iff s t = (λ h. ground (arith, eq_of_cmp_text s t), λ e. ground (arith, cmp_text_refl s))

pub =t_refl : (s : Text) → (s =t s) ≡ true
unfolding ◌=t◌
=t_refl s = rw (cmp_text_refl s)

-- `str::is_empty`, `starts_with`.
abbrev pub is_empty : Text → Bool
is_empty [] = true
is_empty (_ ∷ _) = false

unfoldable pub starts_with : Text → Text → Bool
starts_with s [] = true
starts_with [] (_ ∷ _) = false
starts_with (a ∷ s) (b ∷ p) = a == b && starts_with s p
