-- ===== src/Review/Stale.antt =====
-- cmd/avtool/review.go acts only on files that still match.
use nexguard.Prelude.{◌≡◌, ◌≢◌, refl, ap, Option, none, some, arith}
use nexguard.Prelude.Text.{codes, text_eq_iff}
use nexguard.Exec.{Result, ok, err}
use nexguard.World.{World, Platform, Settled}
use nexguard.Scanner.{Match, scan_file}
use nexguard.Scanner.Matches.{expected, scan_file-some, scan_file-Fixes}
use nexguard.Detections.{Detection}
use nexguard.Detections
use nexguard.Prompt.{Deps}
use nexguard.Review.Defs.{skip, review_fresh, review_one}

module _ (p : Platform) (deps : Deps) (d : Detection) (w : World) where
  -- The live file is not the one that was queued.
  abbrev pub IsStale : Type 0
  IsStale = (m : Match) → expected p w.db w.files d.path ≡ some m → m.hash ≢ d.hash

  abbrev scanned : World
  scanned = (scan_file p d.path w).1

  fresh_skipped :
      IsStale
      → (r : Result (Option Match)) → (scan_file p d.path w).0 ≡ r
      → review_fresh p deps d r scanned ≡ skip d scanned
  unfolding review_fresh
  fresh_skipped stale (err e) h = refl
  fresh_skipped stale (ok none) h = refl
  fresh_skipped stale (ok (some m)) h =
      let other = stale m (scan_file-some p d.path w m h) in
      ground (arith, text_eq_iff m.hash d.hash)

  -- If the file at a detection's path no longer matches with the hash that was queued, a review
  -- only closes the detection as stale: no file changes and no other table, whatever the
  -- input says.
  pub review_one_stale :
      IsStale
      → let w' = (review_one p deps d w).1 in
        (w'.files ≡ w.files)
        × (w'.db.quarantine_records ≡ w.db.quarantine_records)
        × (w'.db.hash_entries ≡ w.db.hash_entries)
        × (w'.stdin ≡ w.stdin)
        × ((review_one p deps d w).0 ≡ ok tt
            → w'.db.detections
              ≡ Detections.resolve_rows d.id (codes "skipped-stale") w.db.detections)
  unfolding review_one skip Detections.resolve
  review_one_stale stale = ground (
    arith,
    fresh_skipped stale (scan_file p d.path w).0 refl,
    ap (λ (t : Settled). t.0) ((scan_file-Fixes p d.path).at w),
    ap (λ (t : Settled). t.1) ((scan_file-Fixes p d.path).at w),
    ap (λ (t : Settled). t.2) ((scan_file-Fixes p d.path).at w),
  )
