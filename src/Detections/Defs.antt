-- ===== src/Detections/Defs.antt =====
-- internal/detections/detections.go: `Enqueue`, `ListPending` and `Resolve`.
use mathlib.Core.Option
use nexguard.Prelude.{
  ℕ, suc, Bool, not, List, [], ◌∷◌, ◌++◌, Option, none, some, if◌then◌else◌, ◌==◌, order_by, select,
}
use nexguard.Prelude.Text.{Text, codes, text_le}
use nexguard.Exec.{errorf, Exec, pure, raise, gets, wrapping, ◌>>=◌, ◌>>◌}
use nexguard.Store.{DetectionRow, Db}
use nexguard.World.{World, Platform, call, query, exec}
use nexguard.Scanner.{Match}

pub record Detection : Type 0 where
  pub id : ℕ
  pub path : Text
  pub hash : Text
  pub matched_name : Text
  pub detected_at : ℕ
  pub resolved : Bool
  pub resolution : Text

-- `INSERT INTO detections ... VALUES (?, ?, ?, ?, 0)`
unfoldable pub insert_detection : Match → Text → Db → Db
insert_detection m at db = record db {
  detections =
      db.detections
      ++ record {
        id = suc db.last_detection;
        path = m.path;
        hash = m.hash;
        matched_name = m.entry.name;
        detected_at = at;
        resolved = 0;
        resolution = none;
      }
        ∷ [];
  last_detection = suc db.last_detection;
}

-- `UPDATE detections SET resolved = 1, resolution = ? WHERE id = ?`
unfoldable pub resolve_rows : ℕ → Text → List DetectionRow → List DetectionRow
resolve_rows id resolution [] = []
resolve_rows id resolution (r ∷ rows) =
    (if r.id == id then record r { resolved = 1; resolution = some resolution } else r)
    ∷ resolve_rows id resolution rows

-- `COALESCE(resolution, '')`
unfoldable pub or_empty : Option Text → Text
or_empty none = []
or_empty (some t) = t

-- `WHERE resolved = 0 ORDER BY detected_at`
abbrev pub pending_rows : Db → List DetectionRow
pending_rows db =
    order_by (λ a b. text_le a.detected_at b.detected_at)
      (select (λ r. r.resolved == 0) db.detections)

module _ (p : Platform) where
  unfoldable pub enqueue : Match → Exec World ℕ
  enqueue m = do
    now ← gets (λ w. w.now)
    wrapping (codes "enqueueing detection") (exec (insert_detection m (p.format_time now)))
    call
    gets (λ w. w.db.last_detection)

  -- `Scan` and `time.Parse` of one row.
  unfoldable pub detection_of : DetectionRow → Option Detection
  unfolding or_empty
  detection_of r =
      Option.map
        (λ t. record {
          id = r.id;
          path = r.path;
          hash = r.hash;
          matched_name = r.matched_name;
          detected_at = t;
          resolved = not (r.resolved == 0);
          resolution = or_empty r.resolution;
        })
        (p.parse_time r.detected_at)

  unfoldable pub detections_of : List DetectionRow → Exec World (List Detection)
  detections_of [] = pure []
  detections_of (r ∷ rows) =
      let rest = detections_of rows in
      elim (detection_of r) [
        | none ↦ raise (errorf (codes "parsing detected_at"))
        | some d ↦ rest >>= λ ds. pure (d ∷ ds)
      ]

  unfoldable pub list_pending : Exec World (List Detection)
  list_pending = do
    rows ← wrapping (codes "listing pending detections") (query pending_rows)
    detections_of rows

unfoldable pub resolve : ℕ → Text → Exec World Unit
resolve id resolution =
    wrapping (codes "resolving detection")
      (exec (λ db. record db { detections = resolve_rows id resolution db.detections }))
