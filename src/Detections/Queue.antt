-- ===== src/Detections/Queue.antt =====
-- The queue of internal/detections/detections.go: what waits for a review after each operation.
use mathlib.Core.List.Perm
use nexguard.Prelude.{
  ℕ, suc, ◌≡◌, refl, not, List, [], ◌∷◌, ◌++◌, map, Perm, none, inl, inr, arith, ◌==◌, select,
  order_by-perm,
}
use nexguard.Prelude.Text.{Text}
use nexguard.Exec.{ok, Result-cases}
use nexguard.Store.{DetectionRow}
use nexguard.World.{World, Platform, later_outcomes}
use nexguard.Scanner.{Match}
use nexguard.Detections.Defs.{
  Detection, insert_detection, resolve_rows, enqueue, detection_of, detections_of, pending_rows,
  list_pending, resolve,
}

-- The rows that are not resolved, in the order of their ids.
abbrev pub waiting : World → List DetectionRow
waiting w = select (λ r. r.resolved == 0) w.db.detections

select-snoc :
    (rows : List DetectionRow) (x : DetectionRow)
    → x.resolved ≡ 0
    → select (λ r. r.resolved == 0) (rows ++ x ∷ []) ≡ select (λ r. r.resolved == 0) rows ++ x ∷ []
select-snoc [] x h = ground arith
select-snoc (r ∷ rows) x h = ground (arith, select-snoc rows x h)

select-resolve_rows :
    (id : ℕ) (t : Text) (rows : List DetectionRow)
    → select (λ r. r.resolved == 0) (resolve_rows id t rows)
      ≡ select (λ r. not (r.id == id)) (select (λ r. r.resolved == 0) rows)
unfolding resolve_rows
select-resolve_rows id t [] = refl
select-resolve_rows id t (r ∷ rows) = ground (arith, select-resolve_rows id t rows)

module _ (p : Platform) where
  -- An enqueued match waits at the end of the queue under a new id, and nothing else changes there.
  pub enqueue_ok :
      (m : Match) (w : World) (id : ℕ)
      → (enqueue p m w).0 ≡ ok id
      → let w' = (enqueue p m w).1 in
        (id ≡ suc w.db.last_detection)
        × (waiting w'
            ≡ waiting w
              ++ record {
                id = suc w.db.last_detection;
                path = m.path;
                hash = m.hash;
                matched_name = m.entry.name;
                detected_at = p.format_time w.now;
                resolved = 0;
                resolution = none;
              }
                ∷ [])
  unfolding enqueue insert_detection
  enqueue_ok m w id h = ground (
    arith,
    select-snoc w.db.detections
        (record {
          id = suc w.db.last_detection;
          path = m.path;
          hash = m.hash;
          matched_name = m.entry.name;
          detected_at = p.format_time w.now;
          resolved = 0;
          resolution = none;
        })
        refl,
  )

  detections_of-ids :
      (rows : List DetectionRow) (w : World) (ds : List Detection)
      → (detections_of p rows w).0 ≡ ok ds
      → map (λ d. d.id) ds ≡ map (λ r. r.id) rows
  unfolding detections_of detection_of
  detections_of-ids [] w ds h = ground arith
  detections_of-ids (r ∷ rows) w ds h = elim (Result-cases (detections_of p rows w).0) [
    | inl (rest, e) ↦ ground (arith, detections_of-ids rows w rest e)
    | inr (x, e) ↦ ground arith
  ]

  list_detections :
      (w : World) (ds : List Detection)
      → (list_pending p w).0 ≡ ok ds
      → (detections_of p (pending_rows w.db) (record w { outcomes = later_outcomes w.outcomes })).0
        ≡ ok ds
  unfolding list_pending
  list_detections w ds h = ground arith

  -- A listing that returns shows each waiting detection, as often as it waits, and no other.
  list_pending-perm :
      (w : World) (ds : List Detection)
      → (list_pending p w).0 ≡ ok ds
      → Perm (map (λ d. d.id) ds) (map (λ r. r.id) (waiting w))
  list_pending-perm w ds h =
      rw (detections_of-ids (pending_rows w.db) _ ds (list_detections w ds h))
        (Perm.map _ (order_by-perm _ (waiting w)))

-- After a detection is resolved, just the others wait.
pub resolve_ok :
    (id : ℕ) (t : Text) (w : World)
    → (resolve id t w).0 ≡ ok tt
    → waiting (resolve id t w).1 ≡ select (λ r. not (r.id == id)) (waiting w)
unfolding resolve
resolve_ok id t w h = ground (arith, select-resolve_rows id t w.db.detections)
