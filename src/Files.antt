-- ===== src/Files.antt =====
-- The calls of Go's `os` and `io` that the scanner makes on files. Each may be refused without an
-- effect; a copy that is refused has moved a part. Links and special files are never read or
-- written, and the parents of a directory are not kept.
pub mod Frame
use nexguard.Prelude.{[], ◌++◌, Option, none, some, ◌≡◌, if◌then◌else◌, ℕ, take, List, ◌∷◌, ◌==◌}
use nexguard.Prelude.Text.{Text, text_eq}
use nexguard.Exec.{Exec, pure, raise, refused, not_exist, Result, ok, err, ◌>>=◌, ◌>>◌}
use nexguard.World.{
  World, File, Node, regular, directory, symlink, special, Outcome, works, fails, outcome, call,
}

-- Permission bits, in decimal: 0o600 and 0o644.
abbrev pub owner_only : ℕ
owner_only = 0o600

abbrev pub new_file_mode : ℕ
new_file_mode = 0o644

abbrev pub put_node : Text → Option Node → World → World
put_node path n w = record w { files = λ q. if text_eq path q then n else w.files q }

rename_to : Text → Text → Option Node → Option Node → Exec World Unit
rename_to src dst none d w = (err not_exist, w)
rename_to src dst (some n) (some directory) w = (err refused, w)
rename_to src dst (some n) _ w = (ok tt, put_node dst (some n) (put_node src none w))

-- `os.Rename`, which replaces a file at `dst`.
unfoldable pub rename : Text → Text → Exec World Unit
unfolding rename_to
rename src dst = do call; λ w. rename_to src dst (w.files src) (w.files dst) w

open_node : Option Node → Exec World Unit
open_node none = raise not_exist
open_node (some symlink) = raise refused
open_node (some n) = pure tt

-- `os.Open`
unfoldable pub open_file : Text → Exec World Unit
unfolding open_node
open_file path = do call; λ w. open_node (w.files path) w

truncate_node : Text → Option Node → Exec World Unit
truncate_node path none w =
    (ok tt, put_node path (some (regular (record { content = []; mode = new_file_mode }))) w)
truncate_node path (some (regular f)) w =
    (ok tt, put_node path (some (regular (record f { content = [] }))) w)
truncate_node path _ w = (err refused, w)

-- `os.OpenFile(path, os.O_CREATE|os.O_WRONLY|os.O_TRUNC, 0o644)`
unfoldable pub create_file : Text → Exec World Unit
unfolding truncate_node
create_file path = do call; λ w. truncate_node path (w.files path) w

abbrev pub content_of : Option Node → Option Text
content_of (some (regular f)) = some f.content
content_of _ = none

write_node : Text → Text → Option Node → World → World
write_node path c (some (regular f)) w = put_node path (some (regular (record f { content = c }))) w
write_node path c _ w = w

copy_content : Text → Option Text → Outcome → Exec World Unit
unfolding write_node
copy_content dst none o w = (err refused, w)
copy_content dst (some c) works w = (ok tt, write_node dst c (w.files dst) w)
copy_content dst (some c) (fails n) w = (err refused, write_node dst (take n c) (w.files dst) w)

-- `io.Copy` from the file open at `src` to the empty file open at `dst`
unfoldable pub copy_file : Text → Text → Exec World Unit
unfolding copy_content
copy_file src dst = do o ← outcome; λ w. copy_content dst (content_of (w.files src)) o w

remove_node : Text → Option Node → Exec World Unit
remove_node path none w = (err not_exist, w)
remove_node path (some n) w = (ok tt, put_node path none w)

-- `os.Remove`
unfoldable pub remove_file : Text → Exec World Unit
unfolding remove_node
remove_file path = do call; λ w. remove_node path (w.files path) w

chmod_node : Text → ℕ → Option Node → Exec World Unit
chmod_node path m none w = (err not_exist, w)
chmod_node path m (some (regular f)) w =
    (ok tt, put_node path (some (regular (record f { mode = m }))) w)
chmod_node path m (some n) w = (ok tt, w)

-- `os.Chmod`
unfoldable pub chmod : Text → ℕ → Exec World Unit
unfolding chmod_node
chmod path m = do call; λ w. chmod_node path m (w.files path) w

unfoldable pub with_parent : Text → List Text → List Text
with_parent [] parents = parents
with_parent dir parents = dir ∷ parents

-- A path behind what was read of it, and the directories above it, the nearest first: what stands
-- before each separator.
unfoldable pub parents_from : Text → Text → List Text → List Text
unfolding with_parent
parents_from read [] above = with_parent read above
parents_from read (c ∷ path) above =
    parents_from (read ++ c ∷ []) path (if c == b'/' then with_parent read above else above)

unfoldable pub with_parents : Text → List Text
unfolding parents_from
with_parents path = parents_from [] path []

make_node : Text → Option Node → Exec World Unit
make_node path none w = (ok tt, put_node path (some directory) w)
make_node path (some directory) w = (ok tt, w)
make_node path (some n) w = (err refused, w)

-- `os.Mkdir` of a directory that was missing
unfoldable pub mkdir : Text → Exec World Unit
unfolding make_node
mkdir path = do call; λ w. make_node path (w.files path) w

present : Option Node → Exec World Unit → Exec World Unit
present none make = make
present (some directory) make = pure tt
present (some n) make = raise refused

-- The first directory, after those above it, the rest of the list. One that is there ends the
-- way up.
unfoldable pub mkdir_above : List Text → Exec World Unit
unfolding present
mkdir_above [] = pure tt
mkdir_above (dir ∷ above) =
    let make_above = mkdir_above above in
    do call; λ w. present (w.files dir) (do make_above; mkdir dir) w

-- `os.MkdirAll` of a clean path, which makes every directory above it that is missing. What was made
-- before a refusal stays.
unfoldable pub mkdir_all : Text → Exec World Unit
mkdir_all path = mkdir_above (with_parents path)

unfoldable pub append_node : Text → Option Node → Exec World Unit
append_node path none w =
    (ok tt, put_node path (some (regular (record { content = []; mode = new_file_mode }))) w)
append_node path (some (regular f)) w = (ok tt, w)
append_node path (some n) w = (err refused, w)

-- `os.OpenFile(path, os.O_CREATE|os.O_WRONLY|os.O_APPEND, 0o644)`
unfoldable pub open_append : Text → Exec World Unit
unfolding append_node
open_append path = do call; λ w. append_node path (w.files path) w

unfoldable pub extended : Text → Outcome → Text → Text
extended c works t = c ++ t
extended c (fails n) t = c ++ take n t

unfoldable pub extend_node : Text → Outcome → Text → Option Node → World → World
unfolding extended
extend_node path o t (some (regular f)) w =
    put_node path (some (regular (record f { content = extended f.content o t }))) w
extend_node path o t n w = w

unfoldable pub write_result : Outcome → Result (Unit {0})
write_result works = ok tt
write_result (fails n) = err refused

-- `f.Write` at the end of the file
unfoldable pub append_text : Text → Text → Exec World Unit
unfolding extend_node write_result
append_text path t = do o ← outcome; λ w. (write_result o, extend_node path o t (w.files path) w)

-- What a regular file at the path holds.
abbrev pub content_at : World → Text → Option Text
content_at w path = content_of (w.files path)
