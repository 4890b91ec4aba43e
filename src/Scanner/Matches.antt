-- ===== src/Scanner/Matches.antt =====
-- What a scan of internal/scanner/scanner.go reports, against a description with no effects.
use nexguard.Prelude.{
  ◌≡◌, refl, ap, ◌||◌, List, [], ◌∷◌, ◌++◌, Option, none, some, inl, inr, arith, if◌then◌else◌, ltb,
  length, All, All-append, Bool-cases, subst,
}
use nexguard.Prelude.Text.{Text}
use nexguard.Exec.{Result, ok, err}
use nexguard.Exec.Fixes.{Fixes, fixes_rules}
use nexguard.Store.{Db}
use nexguard.World.{World, Platform, Node, Settled, settled, next_outcome, later_outcomes}
use nexguard.Files.{content_of}
use nexguard.HashDb.{Entry, find_hash, normalize_hash, entry_of, lookup}
use nexguard.Scanner.Defs.{Match, Visit, max_scan_size, match_of, scan_file, or_skip, visit, scan}

module _ (p : Platform) where
  -- The entry of a stored hash, if its time can be read.
  abbrev pub known : Db → Text → Option Entry
  known db hash = elim (find_hash (normalize_hash p hash) db.hash_entries) [
    | none ↦ none
    | some r ↦ entry_of p r
  ]

  -- A regular file that is not too large matches by the hash of its content.
  abbrev pub expected : Db → (Text → Option Node) → Text → Option Match
  expected db files path = elim (content_of (files path)) [
    | none ↦ none
    | some c ↦
        if ltb max_scan_size (length c)
        then none
        else match_of path (p.sha256_hex c) (known db (p.sha256_hex c))
  ]

  -- A file is reported only if it stands at its path with a size in bounds and a hash in the
  -- table, whatever else fails.
  pub scan_file-some :
      (path : Text) (w : World) (m : Match)
      → (scan_file p path w).0 ≡ ok (some m)
      → expected w.db w.files path ≡ some m
  unfolding scan_file lookup match_of
  scan_file-some path w m h = ground arith

  -- When the system refuses nothing, a scan of a path where there is a file or a directory says
  -- just what is expected, or fails since the time of the stored hash cannot be read.
  pub scan_file_works :
      (path : Text) (w : World)
      → w.outcomes ≡ []
      → or_skip (scan_file p path w).0 ≡ or_skip (ok (expected w.db w.files path))
  unfolding scan_file lookup match_of next_outcome later_outcomes or_skip
  scan_file_works path w quiet = ground arith

  pub scan_file_quiet :
      (path : Text) (w : World) → w.outcomes ≡ [] → (scan_file p path w).1.outcomes ≡ []
  unfolding scan_file lookup match_of next_outcome later_outcomes
  scan_file_quiet path w quiet = ground arith

  -- A scan of a file writes nothing.
  pub scan_file-Fixes : (path : Text) → Fixes settled (scan_file p path)
  unfolding scan_file lookup match_of
  scan_file-Fixes path = record { at = λ w. ground arith }

  visit-Fixes : (v : Visit) → Fixes settled (visit p v)
  unfolding visit
  visit-Fixes v = search (fixes_rules, scan_file-Fixes)

  pub scan-Fixes : (vs : List Visit) → Fixes settled (scan p vs)
  unfolding scan
  scan-Fixes [] = search fixes_rules
  scan-Fixes (v ∷ vs) = search (fixes_rules, visit-Fixes v, scan-Fixes vs)

  -- What the walk ought to report.
  abbrev pub expected_all : Db → (Text → Option Node) → List Visit → List Match
  expected_all db files [] = []
  expected_all db files (v ∷ vs) =
      (if v.failed || v.is_dir then [] else or_skip (ok (expected db files v.path)))
      ++ expected_all db files vs

  abbrev reported : Visit → World → List Match
  reported v w = if v.failed || v.is_dir then [] else or_skip (ok (expected w.db w.files v.path))

  -- What one visit reports, as a list of at most one match.
  abbrev found : Visit → World → List Match
  found v w = if v.failed || v.is_dir then [] else or_skip (scan_file p v.path w).0

  visit_result : (v : Visit) (w : World) → (visit p v w).0 ≡ ok (found v w)
  unfolding visit
  visit_result v w = ground arith

  abbrev pub IsExpected : Db → (Text → Option Node) → Match → Type 0
  IsExpected db files m = expected db files m.path ≡ some m

  or_skip-IsExpected :
      (path : Text) (w : World) (r : Result (Option Match))
      → (scan_file p path w).0 ≡ r
      → All (IsExpected w.db w.files) (or_skip r)
  unfolding or_skip match_of
  or_skip-IsExpected path w (ok none) h = tt
  or_skip-IsExpected path w (ok (some m)) h =
      let e = scan_file-some path w m h in (ground arith, tt)
  or_skip-IsExpected path w (err x) h = tt

  found-IsExpected : (v : Visit) (w : World) → All (IsExpected w.db w.files) (found v w)
  found-IsExpected v w = elim (Bool-cases (v.failed || v.is_dir)) [
    | inl skipped ↦ rw skipped tt
    | inr scanned ↦ rw scanned (or_skip-IsExpected v.path w (scan_file p v.path w).0 refl)
  ]

  -- A scan never fails, and whatever the system refuses, each match that it reports is a regular
  -- file in bounds whose content hashes to an entry of the table.
  pub scan_sound :
      (vs : List Visit) (w : World)
      → (ms : List Match) × ((scan p vs w).0 ≡ ok ms) × All (IsExpected w.db w.files) ms
  unfolding scan
  scan_sound [] w = ([], refl, tt)
  scan_sound (v ∷ vs) w =
      let w' = (visit p v w).1 in
      let (ms, done, good) = scan_sound vs w' in
      let good' : All (IsExpected w.db w.files) ms =
        subst (λ (t : Settled). All (IsExpected t.0 t.1) ms) ((visit-Fixes v).at w) good in
      rw visit_result
        (rw done (found v w ++ ms, refl, All-append _ (found v w) ms (found-IsExpected v w) good'))

  found-expected : (v : Visit) (w : World) → w.outcomes ≡ [] → found v w ≡ reported v w
  found-expected v w quiet = ground (arith, scan_file_works v.path w quiet)

  visit_quiet : (v : Visit) (w : World) → w.outcomes ≡ [] → (visit p v w).1.outcomes ≡ []
  unfolding visit
  visit_quiet v w quiet = ground (arith, scan_file_quiet v.path w quiet)

  -- When the system refuses nothing, a scan reports every such file of the walk, in its order.
  pub scan_complete :
      (vs : List Visit) (w : World)
      → w.outcomes ≡ []
      → (scan p vs w).0 ≡ ok (expected_all w.db w.files vs)
  unfolding scan
  scan_complete [] w quiet = refl
  scan_complete (v ∷ vs) w quiet =
      let w' = (visit p v w).1 in
      let rest = scan_complete vs w' (visit_quiet v w quiet) in
      let same : expected_all w'.db w'.files vs ≡ expected_all w.db w.files vs =
        ap (λ (t : Settled). expected_all t.0 t.1 vs) ((visit-Fixes v).at w) in
      rw (visit_result, rest, found-expected v w quiet) (ap (λ ms. ok (reported v w ++ ms)) same)
