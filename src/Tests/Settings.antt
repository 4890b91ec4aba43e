-- ===== src/Tests/Settings.antt =====
-- Witnesses for the configuration of the service and for notifications.
use nexguard.Prelude.{◌≡◌, [], ◌++◌, some, false}
use nexguard.Prelude.Text.{Text, codes}
use nexguard.Notify.{script, literal, shown, script-literals}

-- A name of a file that would end the string.
abbrev hostile : Text
hostile = codes "a\" & (do shell script \"rm\") & \"\\"

script-literals_example :
    (body : Text) × (tail : Text) × (script (codes "match") hostile
      ≡ codes "display notification \"" ++ body)
    × (literal false body ≡ some (shown hostile, codes " with title \"" ++ tail))
    × (literal false tail ≡ some (shown (codes "match"), []))
script-literals_example = script-literals (codes "match") hostile
