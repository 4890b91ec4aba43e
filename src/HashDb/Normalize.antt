-- ===== src/HashDb/Normalize.antt =====
-- `normalizeHash` of internal/hashdb/hashdb.go is stable.
use nexguard.Prelude.{ℕ, ◌≡◌, refl, ap, ap₂, ◌∙◌, [], ◌∷◌, map}
use nexguard.Prelude.Text.{Text, is_space, trim_space}
use nexguard.Prelude.Text.Trim.{trim_space-trim_space, trim_space-map}
use nexguard.World.{Platform}
use nexguard.HashDb.Defs.{normalize_hash}

-- What the standard library says of `unicode.ToLower`: it is stable, and a letter is no space
-- before or after it.
pub record LowerLaws (p : Platform) : Type 0 where
  pub lower_lower : (c : ℕ) → p.lower (p.lower c) ≡ p.lower c
  pub lower_space : (c : ℕ) → is_space (p.lower c) ≡ is_space c

map_twice : (f : ℕ → ℕ) → ((c : ℕ) → f (f c) ≡ f c) → (s : Text) → map f (map f s) ≡ map f s
map_twice f h [] = refl
map_twice f h (c ∷ s) = ap₂ ◌∷◌ (h c) (map_twice f h s)

-- A normalized hash is its own normal form, if lowering a character twice is lowering it once and
-- spaces are kept.
pub normalize_hash-normalize_hash :
    (p : Platform) (laws : LowerLaws p) (hash : Text)
    → normalize_hash p (normalize_hash p hash) ≡ normalize_hash p hash
unfolding normalize_hash
normalize_hash-normalize_hash p laws hash =
    ap (map p.lower) (trim_space-map p.lower laws.lower_space (trim_space hash))
    ∙ map_twice p.lower laws.lower_lower _
    ∙ ap (map p.lower) (trim_space-trim_space hash)
