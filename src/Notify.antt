-- ===== src/Notify.antt =====
-- internal/notify/notify_darwin.go: the script that `Notify` hands to osascript, and how a string of
-- such a script is read.
use nexguard.Prelude.{
  ℕ, ◌≡◌, refl, Bool, true, false, [], ◌∷◌, ◌++◌, Option, none, some, arith, if◌then◌else◌, ◌==◌,
  ◌||◌, ltb,
}
use nexguard.Prelude.Text.{Text, codes}

abbrev is_special : ℕ → Bool
is_special c = c == b'"' || c == b'\\'

unfoldable escape : Text → Text
escape [] = []
escape (c ∷ s) =
    let rest = escape s in
    if is_special c
    then b'\\' ∷ c ∷ rest
    else if c == 10
    then b'\\' ∷ b'n' ∷ rest
    else if c == 13
    then b'\\' ∷ b'r' ∷ rest
    else if c == 9
    then b'\\' ∷ b't' ∷ rest
    else if ltb c 0x20
    then rest
    else c ∷ rest

-- The first parameter of osascript.
unfoldable pub script : Text → Text → Text
unfolding escape
script title message =
    codes "display notification \""
    ++ (escape message ++ (codes "\" with title \"" ++ (escape title ++ codes "\"")))

-- What stands in a string of a script after a backslash.
abbrev meant : ℕ → ℕ
meant c = if c == b'n' then 10 else if c == b'r' then 13 else if c == b't' then 9 else c

abbrev prepend : ℕ → Option (Text × Text) → Option (Text × Text)
prepend c none = none
prepend c (some (s, rest)) = some (c ∷ s, rest)

-- A string of a script up to the quote that ends it, and what follows; the flag says whether a
-- backslash was just read.
unfoldable pub literal : Bool → Text → Option (Text × Text)
literal escaped [] = none
literal true (c ∷ s) = prepend (meant c) (literal false s)
literal false (c ∷ s) =
    let next = literal true s in
    let plain = literal false s in
    if c == b'"' then some ([], s) else if c == b'\\' then next else prepend c plain

-- A text without its control characters but the line ends and tabs.
unfoldable pub shown : Text → Text
shown [] = []
shown (c ∷ s) =
    let rest = shown s in
    if c == 10 || c == 13 || c == 9 then c ∷ rest else if ltb c 0x20 then rest else c ∷ rest

literal-escape : (s rest : Text) → literal false (escape s ++ b'"' ∷ rest) ≡ some (shown s, rest)
unfolding literal escape shown
literal-escape [] rest = refl
literal-escape (c ∷ s) rest = ground (arith, literal-escape s rest)

-- The script of a notification is `display notification`, a string that stands for the message
-- without its control characters, `with title`, and a string that stands for the title in the same
-- way, with nothing after it: no text of a message or a title ends its string, and so none is read
-- as a command.
pub script-literals :
    (title message : Text)
    → (body : Text) × (tail : Text) × (script title message
        ≡ codes "display notification \"" ++ body)
      × (literal false body ≡ some (shown message, codes " with title \"" ++ tail))
      × (literal false tail ≡ some (shown title, []))
unfolding script
script-literals title message = (
  escape message ++ (codes "\" with title \"" ++ (escape title ++ codes "\"")),
  escape title ++ codes "\"",
  refl,
  literal-escape message (codes " with title \"" ++ (escape title ++ codes "\"")),
  literal-escape title [],
)
