-- ===== src/Prelude/Text/Trim.antt =====
-- `strings.TrimSpace`: trimming twice is trimming once, and it passes through maps of characters
-- that keep the spaces.
use mathlib.Core.List.{[], ◌∷◌, map}
use mathlib.Core.Path.{◌≡◌, refl, ap, ◌∙◌}
use mathlib.Core.Bool.{Bool, true, false}
use native.Mathlib.Omega.{arith}
use Prim.Native.Nat.{ℕ}
use nexguard.Prelude.Tests.{if◌then◌else◌}
use nexguard.Prelude.Text.{Text, is_space, is_empty, trim_left, trim_right, trim_space}

-- A text that does not begin with a space.
abbrev starts : Text → Bool
starts [] = true
starts (c ∷ s) = if is_space c then false else true

trim_left-starts : (s : Text) → starts (trim_left s) ≡ true
unfolding trim_left
trim_left-starts [] = refl
trim_left-starts (c ∷ s) = ground (arith, trim_left-starts s)

trim_right-starts : (s : Text) → starts s ≡ true → starts (trim_right s) ≡ true
unfolding trim_right
trim_right-starts [] h = refl
trim_right-starts (c ∷ s) h = ground arith

trim_left_id : (s : Text) → starts s ≡ true → trim_left s ≡ s
unfolding trim_left
trim_left_id [] h = refl
trim_left_id (c ∷ s) h = ground arith

trim_right-trim_right : (s : Text) → trim_right (trim_right s) ≡ trim_right s
unfolding trim_right
trim_right-trim_right [] = refl
trim_right-trim_right (c ∷ s) = ground (arith, trim_right-trim_right s)

pub trim_space-trim_space : (s : Text) → trim_space (trim_space s) ≡ trim_space s
unfolding trim_space
trim_space-trim_space s =
    ap trim_right (
      trim_left_id (trim_right (trim_left s))
        (trim_right-starts (trim_left s) (trim_left-starts s)))
    ∙ trim_right-trim_right (trim_left s)

module _ (f : ℕ → ℕ) (keeps : (c : ℕ) → is_space (f c) ≡ is_space c) where
  trim_left-map : (s : Text) → trim_left (map f s) ≡ map f (trim_left s)
  unfolding trim_left
  trim_left-map [] = refl
  trim_left-map (c ∷ s) = ground (arith, trim_left-map s, keeps c)

  is_empty-map : (s : Text) → is_empty (map f s) ≡ is_empty s
  is_empty-map [] = refl
  is_empty-map (c ∷ s) = refl

  trim_right-map : (s : Text) → trim_right (map f s) ≡ map f (trim_right s)
  unfolding trim_right
  trim_right-map [] = refl
  trim_right-map (c ∷ s) = ground (arith, trim_right-map s, keeps c, is_empty-map (trim_right s))

  pub trim_space-map : (s : Text) → trim_space (map f s) ≡ map f (trim_space s)
  unfolding trim_space
  trim_space-map s = ap trim_right (trim_left-map s) ∙ trim_right-map (trim_left s)
