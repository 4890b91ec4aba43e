-- ===== src/HashDb/Merge.antt =====
-- `Upsert` against its specification: a map from hashes to rows, in which each entry in turn
-- replaces what stands under its normalized hash, unless a feed entry meets a manual row.
use mathlib.Core.Path.{fun_ext}
use nexguard.Prelude.{
  ℕ, suc, ◌≤◌, ◌≡◌, refl, ap, ◌∙◌, inl, inr, Option, some, true, ◌&&◌, List, [], ◌∷◌, arith,
  if◌then◌else◌, length, take, All,
}
use nexguard.Prelude.Text.{Text, text_eq, text_eq_iff}
use nexguard.Exec.{Error, ok, err, Result-cases}
use nexguard.Store.{HashRow, Db}
use nexguard.World.{World, Platform, next_outcome, later_outcomes}
use nexguard.HashDb.Defs.{
  Entry, feed, find_hash, is_manual, source_allowed, row_of, normalize_hash, upsert_entry, upsert,
}
use nexguard.HashDb.Rows.{find_hash-put_row}

-- The table seen as a map.
abbrev pub HashMap : Type 0
HashMap = Text → Option HashRow

abbrev pub hash_map : World → HashMap
hash_map w k = find_hash k w.db.hash_entries

module _ (p : Platform) where
  abbrev pub merge : Entry → HashMap → HashMap
  merge e m k =
      if text_eq (normalize_hash p e.hash) k
      then if text_eq e.source feed && is_manual (m k) then m k else some (row_of p e)
      else m k

  abbrev pub merge_all : List Entry → HashMap → HashMap
  merge_all [] m = m
  merge_all (e ∷ es) m = merge_all es (merge e m)

  upsert_entry-merge :
      (e : Entry) (w : World) (k : Text)
      → (upsert_entry p e w).0 ≡ ok tt
      → hash_map (upsert_entry p e w).1 k ≡ merge e (hash_map w) k
  unfolding upsert_entry
  upsert_entry-merge e w k h = ground (
    arith,
    find_hash-put_row k (row_of p e) w.db.hash_entries,
    text_eq_iff (normalize_hash p e.hash) k,
  )

  upsert_entry-err :
      (e : Entry) (w : World) (x : Error)
      → (upsert_entry p e w).0 ≡ err x
      → (upsert_entry p e w).1.db ≡ w.db
  unfolding upsert_entry
  upsert_entry-err e w x h = ground arith

  -- What `Upsert` leaves is what its specification makes of a first part of the entries, and of
  -- all of them if it returns no error.
  pub upsert-merge_all :
      (es : List Entry) (w : World)
      → (n : ℕ) × (n ≤ length es)
        × (hash_map (upsert p es w).1 ≡ merge_all (take n es) (hash_map w))
        × ((upsert p es w).0 ≡ ok tt → n ≡ length es)
  unfolding upsert
  upsert-merge_all [] w = (0, omega arith, refl, λ h. refl)
  upsert-merge_all (e ∷ es) w = elim (Result-cases (upsert_entry p e w).0) [
    | inl (tt, done) ↦ rw done (
        let (n, le, view, total) = upsert-merge_all es (upsert_entry p e w).1 in
        (
          suc n,
          omega arith,
          view ∙ ap (merge_all (take n es)) (fun_ext λ k. upsert_entry-merge e w k done),
          λ h. ap suc (total h),
        ))
    | inr (x, failed) ↦ rw failed (
      0,
      omega arith,
      fun_ext λ k. ap (λ (d : Db). find_hash k d.hash_entries) (upsert_entry-err e w x failed),
      λ h. cc,
    )
  ]

  upsert_entry_works :
      (e : Entry) (w : World)
      → w.outcomes ≡ []
      → source_allowed e.source ≡ true
      → ((upsert_entry p e w).0 ≡ ok tt) × ((upsert_entry p e w).1.outcomes ≡ [])
  unfolding upsert_entry next_outcome later_outcomes
  upsert_entry_works e w quiet allowed = ground arith

  -- If the database refuses nothing and every source is one that the schema allows, `Upsert`
  -- returns no error, the table is what its specification makes of all the entries, and the database
  -- still refuses nothing.
  pub upsert_works :
      (es : List Entry) (w : World)
      → w.outcomes ≡ []
      → All (λ e. source_allowed e.source ≡ true) es
      → ((upsert p es w).0 ≡ ok tt)
        × (hash_map (upsert p es w).1 ≡ merge_all es (hash_map w))
        × ((upsert p es w).1.outcomes ≡ [])
  unfolding upsert
  upsert_works [] w quiet allowed = (refl, refl, quiet)
  upsert_works (e ∷ es) w quiet allowed =
      let (done, quiet') = upsert_entry_works e w quiet allowed.0 in
      let (all_done, view, quiet'') = upsert_works es (upsert_entry p e w).1 quiet' allowed.1 in
      rw done
        (all_done, view ∙ ap (merge_all es) (fun_ext λ k. upsert_entry-merge e w k done), quiet'')
