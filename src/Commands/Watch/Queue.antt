-- ===== src/Commands/Watch/Queue.antt =====
-- What the handler of cmd/avtool/watch.go queues for a review.
use mathlib.Core.List.{append-nil, append_assoc, map-append}
use nexguard.Prelude.{
  suc, ◌+◌, ◌≡◌, refl, ap, ◌∙◌, sym, List, [], ◌∷◌, ◌++◌, map, Option, none, some, arith, length,
}
use nexguard.Prelude.Lists.{length-append}
use nexguard.Prelude.Text.{Text}
use nexguard.Exec.{Result, ok, err}
use nexguard.Store.{Db, HashRow}
use nexguard.World.{World, Platform, Node, Settled, next_outcome, later_outcomes}
use nexguard.Scanner.{Match, scan_file, or_skip}
use nexguard.Scanner.Matches.{expected, scan_file_works, scan_file_quiet, scan_file-Fixes}
use nexguard.Detections.{enqueue, insert_detection}
use nexguard.Detections.Queue.{waiting, enqueue_ok}
use nexguard.Commands.Watch.Defs.{
  WatchStats, record_scan, record_match, on_match, on_scanned, handle_file, handle_files,
}

-- What a queued detection says of its file.
abbrev pub Label : Type 0
Label = Text × Text × Text

abbrev pub labels : World → List Label
labels w = map (λ r. (r.path, r.hash, r.matched_name)) (waiting w)

abbrev pub label : Match → Label
label m = (m.path, m.hash, m.entry.name)

-- The parts of the world that the handler leaves as they are.
abbrev pub Kept : World → World → Type 0
Kept w' w = (w'.outcomes ≡ []) × (w'.files ≡ w.files) × (w'.db.hash_entries ≡ w.db.hash_entries)

pub hashes_files :
    (w' w : World)
    → w'.files ≡ w.files
    → w'.db.hash_entries ≡ w.db.hash_entries
    → Path
        (List HashRow × (Text → Option Node))
        (w'.db.hash_entries, w'.files)
        (w.db.hash_entries, w.files)
hashes_files w' w files hashes = ground (arith, files, hashes)

module _ (p : Platform) where
  -- The matches that the files at these paths ought to give.
  abbrev pub expected_files : Db → (Text → Option Node) → List Text → List Match
  expected_files db files [] = []
  expected_files db files (path ∷ paths) =
      or_skip (ok (expected p db files path)) ++ expected_files db files paths

  expected_files_same :
      (paths : List Text) (w' w : World)
      → w'.files ≡ w.files
      → w'.db.hash_entries ≡ w.db.hash_entries
      → expected_files w'.db w'.files paths ≡ expected_files w.db w.files paths
  expected_files_same [] w' w files hashes = refl
  expected_files_same (path ∷ paths) w' w files hashes =
      rw (expected_files_same paths w' w files hashes) (
        ap
          (λ (t : List HashRow × (Text → Option Node)).
            or_skip (ok (expected p (record w.db { hash_entries = t.0 }) t.1 path))
            ++ expected_files w.db w.files paths)
          (hashes_files w' w files hashes))

  enqueue_quiet :
      (m : Match) (w : World)
      → w.outcomes ≡ []
      → ((enqueue p m w).0 ≡ ok (suc w.db.last_detection)) × Kept (enqueue p m w).1 w
  unfolding enqueue insert_detection next_outcome later_outcomes
  enqueue_quiet m w quiet = ground arith

  labels-enqueue :
      (m : Match) (w : World)
      → w.outcomes ≡ []
      → labels (enqueue p m w).1 ≡ labels w ++ label m ∷ []
  labels-enqueue m w quiet =
      let (done, _) = enqueue_quiet m w quiet in
      ap (map _) (enqueue_ok p m w _ done).1 ∙ map-append _ (waiting w) _

module _ (p : Platform) (notify : Text → Text → Result (Unit {0})) where
  enqueued :
      (m : Match) (w : World)
      → w.outcomes ≡ []
      → ((on_match p notify m w).0 ≡ ok tt)
        × (labels (on_match p notify m w).1 ≡ labels w ++ label m ∷ [])
        × Kept (on_match p notify m w).1 w
  unfolding on_match
  enqueued m w quiet = ground (arith, enqueue_quiet p m w quiet, labels-enqueue p m w quiet)

  reacted :
      (stats : WatchStats) (r : Result (Option Match)) (w : World)
      → w.outcomes ≡ []
      → let (r', w') = on_scanned p notify stats r w in
        (r' ≡ ok (record { scanned = stats.scanned; matches = stats.matches + length (or_skip r) }))
        × (labels w' ≡ labels w ++ map label (or_skip r))
        × Kept w' w
  unfolding on_scanned or_skip record_match
  reacted stats (err e) w quiet = (ground arith, sym (append-nil (labels w)), (quiet, refl, refl))
  reacted stats (ok none) w quiet = (ground arith, sym (append-nil (labels w)), (quiet, refl, refl))
  reacted stats (ok (some m)) w quiet = ground (arith, enqueued m w quiet)

  -- One call of the handler, when the system refuses nothing.
  pub handled :
      (stats : WatchStats) (path : Text) (w : World)
      → w.outcomes ≡ []
      → let ms = or_skip (ok (expected p w.db w.files path)) in
        ((handle_file p notify stats path w).0
          ≡ ok (record { scanned = stats.scanned + 1; matches = stats.matches + length ms }))
        × (labels (handle_file p notify stats path w).1 ≡ labels w ++ map label ms)
        × Kept (handle_file p notify stats path w).1 w
  unfolding handle_file record_scan
  handled stats path w quiet =
      let same = (scan_file-Fixes p path).at w in
      ground (
        arith,
        reacted (record_scan stats) (scan_file p path w).0 (scan_file p path w).1
            (scan_file_quiet p path w quiet),
        scan_file_works p path w quiet,
        ap (λ (t : Settled). t.0) same,
        ap (λ (t : Settled). t.1) same,
      )

  -- When the system refuses nothing, the watcher's handler, called for a sequence of files, queues
  -- a detection of just those that match, in their order and behind what waited, and counts every
  -- file and every match.
  pub handle_files_queues :
      (stats : WatchStats) (paths : List Text) (w : World)
      → w.outcomes ≡ []
      → let ms = expected_files p w.db w.files paths in
        ((handle_files p notify stats paths w).0
          ≡ ok (record {
            scanned = stats.scanned + length paths;
            matches = stats.matches + length ms;
          }))
        × (labels (handle_files p notify stats paths w).1 ≡ labels w ++ map label ms)
  unfolding handle_files
  handle_files_queues stats [] w quiet = (ground arith, sym (append-nil (labels w)))
  handle_files_queues stats (path ∷ paths) w quiet =
      let w' = (handle_file p notify stats path w).1 in
      let ms = or_skip (ok (expected p w.db w.files path)) in
      let (done, queue, (quiet', files, hashes)) = handled stats path w quiet in
      let next : WatchStats = record {
        scanned = stats.scanned + 1;
        matches = stats.matches + length ms;
      } in
      ground (
        arith,
        done,
        queue,
        handle_files_queues next paths w' quiet',
        expected_files_same p paths w' w files hashes,
        length-append ms (expected_files p w.db w.files paths),
        map-append label ms (expected_files p w.db w.files paths),
        append_assoc (labels w) (map label ms) (map label (expected_files p w.db w.files paths)),
      )
