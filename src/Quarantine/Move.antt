-- ===== src/Quarantine/Move.antt =====
-- `moveFile` of internal/quarantine/quarantine.go, under every failure of the system.
use nexguard.Prelude.{◌≡◌, ◌≢◌, none, some, arith}
use nexguard.Prelude.Text.{Text, text_eq_iff, text_eq_refl}
use nexguard.Exec.{Error, Result, ok, err}
use nexguard.World.{World, File, regular}
use nexguard.Files.{content_at, rename, open_file, create_file, copy_file, remove_file}
use nexguard.Exec.Fixes.{Fixes, fixes_rules}
use nexguard.Files.Frame.{beside_files, file_frames}
use nexguard.Quarantine.Defs.{move_file, after_rename}

module _ (src dst : Text) (w : World) (f : File) (apart : src ≢ dst)
    (there : w.files src ≡ some (regular f)) where
  pub move_file-ok :
      (move_file src dst w).0 ≡ ok tt
      → ((move_file src dst w).1.files src ≡ none)
        × (content_at (move_file src dst w).1 dst ≡ some f.content)
  unfolding move_file rename open_file create_file copy_file remove_file
  move_file-ok h =
      ground (arith, text_eq_iff src dst, text_eq_iff dst src, text_eq_refl src, text_eq_refl dst)

  pub move_file-err :
      (e : Error)
      → (move_file src dst w).0 ≡ err e
      → ((move_file src dst w).1.files src ≡ some (regular f))
  unfolding move_file rename open_file create_file copy_file remove_file
  move_file-err e h =
      ground (arith, text_eq_iff src dst, text_eq_iff dst src, text_eq_refl src, text_eq_refl dst)

  pub move_file-elsewhere :
      (path : Text) → path ≢ src → path ≢ dst → (move_file src dst w).1.files path ≡ w.files path
  unfolding move_file rename open_file create_file copy_file remove_file
  move_file-elsewhere path a b = ground (arith, text_eq_iff src path, text_eq_iff dst path)

after_rename-Fixes :
    (src dst : Text) (r : Result (Unit {0})) → Fixes beside_files (after_rename src dst r)
unfolding after_rename
after_rename-Fixes src dst (ok a) = search (fixes_rules, file_frames)
after_rename-Fixes src dst (err e) = search (fixes_rules, file_frames)

-- `moveFile` leaves everything but files alone.
pub move_file-Fixes : (src dst : Text) → Fixes beside_files (move_file src dst)
unfolding move_file
move_file-Fixes src dst = search (fixes_rules, file_frames, after_rename-Fixes)
