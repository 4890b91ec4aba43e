-- ===== src/Prompt/Choices.antt =====
-- What the answers to internal/prompt/prompt.go's questions do, under every failure of the system.
use nexguard.Prelude.{◌≡◌, ◌≢◌, Bool, true, ◌||◌, arith, if◌then◌else◌, none}
use nexguard.Prelude.Lists.{take}
use nexguard.Prelude.Text.{Text, codes, text_eq, is_empty, trim_space, text_eq_iff, text_eq_refl}
use nexguard.Exec.{ok}
use nexguard.World.{World, Platform, Outcome, works, fails, next_outcome, later_outcomes}
use nexguard.Files.{remove_file}
use nexguard.Scanner.{Match}
use nexguard.Prompt.Defs.{
  Action, to_quarantine, to_delete, to_ignore, to_report, Deps, line_of, rest_of, ends_line, at_eof,
  choice_of, resolve,
}

abbrev pub is_word : Text → Text → Text → Bool
is_word choice short long = text_eq choice short || text_eq choice long

-- The action that two answers ask for.
abbrev pub decide : Text → Text → Action
decide first second =
    if is_word first (codes "q") (codes "quarantine")
    then to_quarantine
    else if is_word first (codes "d") (codes "delete")
    then if is_word second (codes "y") (codes "yes") then to_delete else to_ignore
    else if is_word first (codes "i") (codes "ignore")
    then to_ignore
    else to_report

-- What one read returns of the input that is left.
abbrev text_read : Outcome → Text → Text
text_read works s = line_of s
text_read (fails n) s = take n (line_of s)

module _ (p : Platform) (d : Deps) (m : Match) (w : World) where
  abbrev pub first : Text
  first = choice_of p (line_of w.stdin)

  abbrev pub second : Text
  second = choice_of p (text_read (next_outcome (later_outcomes w.outcomes)) (rest_of w.stdin))

  -- If an action is reported, it is the one that the first answer, and after "delete" the
  -- second, asks for.
  resolve-decide : (a : Action) → (resolve p d m w).0 ≡ ok a → a ≡ decide first second
  unfolding resolve
  resolve-decide a h = ground arith

  -- A deletion that is reported was asked for and confirmed; the file is gone, and no other file
  -- and no table has changed.
  pub resolve_deleted :
      (resolve p d m w).0 ≡ ok to_delete
      → (is_word first (codes "d") (codes "delete") ≡ true)
        × (is_word second (codes "y") (codes "yes") ≡ true)
        × ((resolve p d m w).1.files m.path ≡ none)
        × ((resolve p d m w).1.db ≡ w.db)
        × ((path : Text) → path ≢ m.path → (resolve p d m w).1.files path ≡ w.files path)
  unfolding resolve remove_file
  resolve_deleted h = (
    ground arith,
    ground arith,
    ground (arith, text_eq_refl m.path),
    ground arith,
    λ path ne. ground (arith, text_eq_iff m.path path),
  )

  -- When what is left of the input has no line feed and is only spaces, an error is returned,
  -- and no table and no file changes.
  resolve_no_input :
      ends_line w.stdin ≡ at_eof
      → is_empty (trim_space (line_of w.stdin)) ≡ true
      → ((a : Action) → (resolve p d m w).0 ≢ ok a)
        × ((resolve p d m w).1.db ≡ w.db)
        × ((resolve p d m w).1.files ≡ w.files)
  unfolding resolve
  resolve_no_input ended blank = (λ a h. ground arith, ground arith, ground arith)
