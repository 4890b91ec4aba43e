-- ===== src/HashDb/Lookup.antt =====
-- `Lookup` and `List` of internal/hashdb/hashdb.go after the operations that write.
use mathlib.Core.List.Perm
use nexguard.Prelude.{
  true, ◌∙◌, ℕ, ◌≡◌, ap, none, some, List, [], ◌∷◌, map, Perm, arith, order_by, order_by-perm, inl,
  inr,
}
use nexguard.Prelude.Text.{Text, text_eq, text_le, text_eq_iff}
use nexguard.Exec.{ok, Result-cases}
use nexguard.Store.{HashRow}
use nexguard.World.{World, Platform, next_outcome, later_outcomes}
use nexguard.HashDb.Defs.{
  Entry, manual, row_of, source_allowed, normalize_hash, upsert, remove, lookup, entries_of,
  entry_of, list,
}
use nexguard.HashDb.Merge.{HashMap, hash_map, merge, upsert_works}
use nexguard.HashDb.Rows.{find_hash-delete_hash}

module _ (p : Platform) where
  lookup_row :
      (hash : Text) (w : World) (r : HashRow) (t : ℕ)
      → w.outcomes ≡ []
      → hash_map w (normalize_hash p hash) ≡ some r
      → p.parse_time r.added_at ≡ some t
      → (lookup p hash w).0
        ≡ ok (some (record { hash = r.hash; name = r.name; source = r.source; added_at = t }))
  unfolding lookup next_outcome entry_of
  lookup_row hash w r t quiet there time = ground arith

  manual_allowed : (e : Entry) → e.source ≡ manual → source_allowed e.source ≡ true
  unfolding source_allowed
  manual_allowed e by_hand = ground (arith, text_eq_iff e.source manual)

  merged :
      (e : Entry) (w : World) (hash : Text)
      → e.source ≡ manual
      → normalize_hash p hash ≡ normalize_hash p e.hash
      → hash_map (upsert p (e ∷ []) w).1 ≡ merge p e (hash_map w)
      → hash_map (upsert p (e ∷ []) w).1 (normalize_hash p hash) ≡ some (row_of p e)
  unfolding text_eq
  merged e w hash by_hand same view =
      ap (λ (m : HashMap). m (normalize_hash p hash)) view
      ∙ ground (arith, text_eq_iff (normalize_hash p e.hash) (normalize_hash p hash))

  -- After a manual entry is stored, every spelling of its hash finds it, with the time that its
  -- text stands for, if the database refuses nothing.
  pub lookup-upsert-manual :
      (e : Entry) (w : World) (hash : Text) (t : ℕ)
      → w.outcomes ≡ []
      → e.source ≡ manual
      → normalize_hash p hash ≡ normalize_hash p e.hash
      → p.parse_time (p.format_time e.added_at) ≡ some t
      → (lookup p hash (upsert p (e ∷ []) w).1).0
        ≡ ok (
            some (record {
              hash = normalize_hash p e.hash;
              name = e.name;
              source = manual;
              added_at = t;
            }))
  lookup-upsert-manual e w hash t quiet by_hand same time =
      let (done, view, quiet') = upsert_works p (e ∷ []) w quiet (manual_allowed e by_hand, tt) in
      lookup_row hash (upsert p (e ∷ []) w).1 (row_of p e) t quiet'
        (merged e w hash by_hand same view) time
      ∙ ap
          (λ s. ok (
            some
              (record { hash = normalize_hash p e.hash; name = e.name; source = s; added_at = t })))
          by_hand

  -- After `Remove`, no spelling of the hash is found, if the database refuses nothing.
  lookup-remove :
      (hash other : Text) (w : World)
      → w.outcomes ≡ []
      → normalize_hash p other ≡ normalize_hash p hash
      → (lookup p other (remove p hash w).1).0 ≡ ok none
  unfolding lookup remove next_outcome later_outcomes
  lookup-remove hash other w quiet same = ground (
    arith,
    find_hash-delete_hash (normalize_hash p hash) (normalize_hash p other) w.db.hash_entries,
    text_eq_iff (normalize_hash p hash) (normalize_hash p other),
  )

  entries_of-hashes :
      (rows : List HashRow) (w : World) (es : List Entry)
      → (entries_of p rows w).0 ≡ ok es
      → map (λ e. e.hash) es ≡ map (λ r. r.hash) rows
  unfolding entries_of entry_of
  entries_of-hashes [] w es h = ground arith
  entries_of-hashes (r ∷ rows) w es h = elim (Result-cases (entries_of p rows w).0) [
    | inl (rest, e) ↦ ground (arith, entries_of-hashes rows w rest e)
    | inr (x, e) ↦ ground arith
  ]

  abbrev by_time : List HashRow → List HashRow
  by_time = order_by (λ a b. text_le a.added_at b.added_at)

  list_entries :
      (w : World) (es : List Entry)
      → (list p w).0 ≡ ok es
      → (entries_of p
          (by_time w.db.hash_entries)
          (record w { outcomes = later_outcomes w.outcomes })).0
        ≡ ok es
  unfolding list
  list_entries w es h = ground arith

  -- A listing that returns shows every stored hash, as often as it is stored, and no other.
  list-perm :
      (w : World) (es : List Entry)
      → (list p w).0 ≡ ok es
      → Perm (map (λ e. e.hash) es) (map (λ r. r.hash) w.db.hash_entries)
  list-perm w es h =
      rw (entries_of-hashes (by_time w.db.hash_entries) _ es (list_entries w es h))
        (Perm.map _ (order_by-perm _ w.db.hash_entries))
