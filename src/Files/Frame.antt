-- ===== src/Files/Frame.antt =====
-- What the calls on files leave alone.
use mathlib.Core.List.{append-nil, append_assoc}
use nexguard.Exec.{ok}
use nexguard.Prelude.{
  ap, sym, ◌∙◌, ◌++◌, if◌then◌else◌, ◌==◌, ℕ, List, [], ◌∷◌, refl, some, All, ◌≡◌, ◌≢◌, arith,
}
use nexguard.Prelude.Text.{Text, text_eq_iff}
use nexguard.Exec.Fixes.{Fixes}
use nexguard.Store.{Db}
use nexguard.World.{World, Node, directory, next_outcome, later_outcomes}
use nexguard.Files.{
  rename, open_file, create_file, copy_file, remove_file, chmod, with_parent, parents_from,
  with_parents, mkdir, mkdir_above, mkdir_all, open_append, append_text,
}

-- The parts of the world that no call on files touches.
abbrev pub beside_files : World → Db × ℕ × Text × List Text
beside_files w = (w.db, w.now, w.stdin, w.out)

-- The making of directories puts directories where nothing was, and leaves the rest of the world as
-- it is.
mkdir-there :
    (dir path : Text) (n : Node) (w : World)
    → w.files path ≡ some n
    → (mkdir dir w).1.files path ≡ some n
unfolding mkdir
mkdir-there dir path n w there = ground (arith, there, text_eq_iff dir path)

mkdir_above-there :
    (dirs : List Text) (path : Text) (n : Node) (w : World)
    → w.files path ≡ some n
    → (mkdir_above dirs w).1.files path ≡ some n
unfolding mkdir_above
mkdir_above-there [] path n w there = there
mkdir_above-there (dir ∷ above) path n w there =
    let w' : World = record w { outcomes = later_outcomes w.outcomes } in
    let made = mkdir_above-there above path n w' there in
    ground (arith, there, made, mkdir-there dir path n (mkdir_above above w').1 made)

pub mkdir_all-there :
    (dir path : Text) (n : Node) (w : World)
    → w.files path ≡ some n
    → (mkdir_all dir w).1.files path ≡ some n
unfolding mkdir_all
mkdir_all-there dir path n w there = mkdir_above-there (with_parents dir) path n w there

mkdir-elsewhere : (dir path : Text) → dir ≢ path → Fixes (λ (w : World). w.files path) (mkdir dir)
unfolding mkdir
mkdir-elsewhere dir path ne = record { at = λ w. ground (arith, text_eq_iff dir path) }

mkdir_above-elsewhere :
    (dirs : List Text) (path : Text)
    → All (λ dir. dir ≢ path) dirs
    → Fixes (λ (w : World). w.files path) (mkdir_above dirs)
unfolding mkdir_above
mkdir_above-elsewhere [] path apart = record { at = λ w. refl }
mkdir_above-elsewhere (dir ∷ above) path apart = record {
  at = λ w.
      let w' : World = record w { outcomes = later_outcomes w.outcomes } in
      ground (
        arith,
        (mkdir_above-elsewhere above path apart.1).at w',
        (mkdir-elsewhere dir path apart.0).at (mkdir_above above w').1,
      );
}

pub mkdir_all-elsewhere :
    (dir path : Text)
    → All (λ d. d ≢ path) (with_parents dir)
    → Fixes (λ (w : World). w.files path) (mkdir_all dir)
unfolding mkdir_all
mkdir_all-elsewhere dir path apart = mkdir_above-elsewhere (with_parents dir) path apart

pub chmod-elsewhere :
    (file path : Text) (m : ℕ) (w : World)
    → file ≢ path
    → (chmod file m w).1.files path ≡ w.files path
unfolding chmod
chmod-elsewhere file path m w ne = ground (arith, text_eq_iff file path)

pub rename-Fixes : (src dst : Text) → Fixes beside_files (rename src dst)
unfolding rename
rename-Fixes src dst = record { at = λ w. ground arith }

pub open_file-Fixes : (path : Text) → Fixes beside_files (open_file path)
unfolding open_file
open_file-Fixes path = record { at = λ w. ground arith }

pub create_file-Fixes : (path : Text) → Fixes beside_files (create_file path)
unfolding create_file
create_file-Fixes path = record { at = λ w. ground arith }

pub copy_file-Fixes : (src dst : Text) → Fixes beside_files (copy_file src dst)
unfolding copy_file
copy_file-Fixes src dst = record { at = λ w. ground arith }

pub remove_file-Fixes : (path : Text) → Fixes beside_files (remove_file path)
unfolding remove_file
remove_file-Fixes path = record { at = λ w. ground arith }

pub chmod-Fixes : (path : Text) (m : ℕ) → Fixes beside_files (chmod path m)
unfolding chmod
chmod-Fixes path m = record { at = λ w. ground arith }

mkdir-Fixes : (path : Text) → Fixes beside_files (mkdir path)
unfolding mkdir
mkdir-Fixes path = record { at = λ w. ground arith }

mkdir_above-Fixes : (dirs : List Text) → Fixes beside_files (mkdir_above dirs)
unfolding mkdir_above
mkdir_above-Fixes [] = record { at = λ w. refl }
mkdir_above-Fixes (dir ∷ above) = record {
  at = λ w.
      let w' : World = record w { outcomes = later_outcomes w.outcomes } in
      ground
        (arith, (mkdir_above-Fixes above).at w', (mkdir-Fixes dir).at (mkdir_above above w').1);
}

pub mkdir_all-Fixes : (path : Text) → Fixes beside_files (mkdir_all path)
unfolding mkdir_all
mkdir_all-Fixes path = mkdir_above-Fixes (with_parents path)

pub open_append-Fixes : (path : Text) → Fixes beside_files (open_append path)
unfolding open_append
open_append-Fixes path = record { at = λ w. ground arith }

pub append_text-Fixes : (path t : Text) → Fixes beside_files (append_text path t)
unfolding append_text
append_text-Fixes path t = record { at = λ w. ground arith }

pub ruleset file_frames = (
  rename-Fixes, open_file-Fixes, create_file-Fixes, copy_file-Fixes, remove_file-Fixes, chmod-Fixes,
  mkdir_all-Fixes, open_append-Fixes, append_text-Fixes,
)

parents_from-first :
    (read path : Text) (above : List Text)
    → (rest : List Text) × (parents_from read path above ≡ with_parent (read ++ path) rest)
unfolding parents_from
parents_from-first read [] above = (above, ap (λ t. with_parent t above) (sym (append-nil read)))
parents_from-first read (c ∷ path) above =
    let (rest, e) =
      parents_from-first (read ++ c ∷ []) path
        (if c == b'/' then with_parent read above else above) in
    (rest, e ∙ ap (λ t. with_parent t rest) (append_assoc read (c ∷ []) path))

-- Nothing is made of a directory that is there.
pub mkdir_all-present :
    (dir : Text) (w : World)
    → w.outcomes ≡ []
    → w.files dir ≡ some directory
    → ((mkdir_all dir w).0 ≡ ok tt)
      × ((mkdir_all dir w).1.outcomes ≡ [])
      × ((mkdir_all dir w).1.files ≡ w.files)
unfolding mkdir_all mkdir_above with_parents with_parent next_outcome later_outcomes parents_from
mkdir_all-present [] w quiet there = ground (arith, quiet)
mkdir_all-present (c ∷ dir) w quiet there =
    let (rest, e) = parents_from-first [] (c ∷ dir) [] in ground (arith, quiet, there, e)
