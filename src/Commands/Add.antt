-- ===== src/Commands/Add.antt =====
-- `hashes add` of cmd/avtool/hashes.go.
use nexguard.Prelude.{map, ℕ, ◌≡◌, ◌≢◌, refl, sym, ap, ◌∙◌, true, false, [], some, arith}
use nexguard.Prelude.Text.{Text, trim_space}
use nexguard.Prelude.Text.Trim.{trim_space-trim_space}
use nexguard.Exec.{ok}
use nexguard.World.{World, Platform}
use nexguard.HashDb.{normalize_hash, manual, lookup}
use nexguard.HashDb.Lookup.{lookup-upsert-manual}
use nexguard.Commands.Defs.{is_sha256, add_entry, hashes_add}

module _ (p : Platform) where
  -- An argument that is not 64 hexadecimal digits between spaces is refused, and nothing changes.
  pub hashes_add_refused :
      (arg name : Text) (w : World)
      → is_sha256 (trim_space arg) ≡ false
      → ((hashes_add p arg name w).0 ≢ ok tt) × ((hashes_add p arg name w).1 ≡ w)
  unfolding hashes_add
  hashes_add_refused arg name w bad = ground arith

  normalize_hash-trim_space : (t : Text) → normalize_hash p (trim_space t) ≡ normalize_hash p t
  unfolding normalize_hash
  normalize_hash-trim_space t = ap (map p.lower) (trim_space-trim_space t)

  -- A hash that is accepted is found afterwards under each of its spellings, if the database
  -- refuses nothing and the time can be read back.
  pub lookup-hashes_add :
      (arg name hash : Text) (w : World) (t : ℕ)
      → is_sha256 (trim_space arg) ≡ true
      → w.outcomes ≡ []
      → normalize_hash p hash ≡ normalize_hash p arg
      → p.parse_time (p.format_time w.now) ≡ some t
      → (lookup p hash (hashes_add p arg name w).1).0
        ≡ ok (
            some
              (record { hash = normalize_hash p arg; name = name; source = manual; added_at = t }))
  unfolding hashes_add add_entry
  lookup-hashes_add arg name hash w t good quiet same time = ground (
    arith,
    normalize_hash-trim_space arg,
    lookup-upsert-manual p
        (record { hash = trim_space arg; name = name; source = manual; added_at = w.now }) w hash t
        quiet refl (same ∙ sym (normalize_hash-trim_space arg)) time,
  )
