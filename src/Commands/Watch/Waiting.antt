-- ===== src/Commands/Watch/Waiting.antt =====
-- Detections that wait for a review, while cmd/avtool/watch.go's handler is called for other files.
use nexguard.Prelude.{
  ◌≡◌, refl, sym, ap, ◌∙◌, inl, inr, Bool, Bool-cases, true, false, ◌&&◌, ◌||◌, List, [], ◌∷◌, ◌++◌,
  map, Option, none, some, arith,
}
use nexguard.Prelude.Text.{Text, text_eq, text_eq_iff, text_eq_refl}
use nexguard.Exec.{Result, ok}
use nexguard.World.{World, Platform, Node}
use nexguard.Files.{put_node}
use nexguard.Store.{HashRow}
use nexguard.Scanner.{Match, or_skip}
use nexguard.Scanner.Matches.{expected}
use nexguard.Commands.Watch.Defs.{handle_file}
use nexguard.Commands.Watch.Queue.{Label, labels, label, handled, hashes_files}
use nexguard.Commands.Watch.Live.{Live, listed, without}

pub listed-append :
    (q : Text) (xs ys : List Text) → listed q (xs ++ ys) ≡ listed q xs || listed q ys
listed-append q [] ys = refl
listed-append q (x ∷ xs) ys = ground (arith, listed-append q xs ys)

pub listed-without :
    (q path : Text) (xs : List Text)
    → text_eq path q ≡ false
    → listed q (without path xs) ≡ listed q xs
listed-without q path [] apart = refl
listed-without q path (x ∷ xs) apart = elim (Bool-cases (text_eq path x)) [
  | inl same ↦ ground (
    arith,
    same,
    listed-without q path xs apart,
    ap (λ t. text_eq t q) ((text_eq_iff path x).0 same),
    apart,
  )
  | inr other ↦ ground (arith, other, listed-without q path xs apart)
]

abbrev label_eq : Label → Label → Bool
label_eq (path, hash, name) (path', hash', name') =
    text_eq path path' && (text_eq hash hash' && text_eq name name')

-- A detection with this label waits for a review.
abbrev pub queued : Label → List Label → Bool
queued x [] = false
queued x (y ∷ ys) = label_eq x y || queued x ys

queued-append : (x : Label) (xs ys : List Label) → queued x (xs ++ ys) ≡ queued x xs || queued x ys
queued-append x [] ys = refl
queued-append x (y ∷ xs) ys = ground (arith, queued-append x xs ys)

queued-own : (x : Label) (xs : List Label) → queued x (xs ++ x ∷ []) ≡ true
queued-own (path, hash, name) xs = ground (
  arith,
  queued-append (path, hash, name) xs ((path, hash, name) ∷ []),
  text_eq_refl path,
  text_eq_refl hash,
  text_eq_refl name,
)

module _ (p : Platform) where
  -- If the file at the path matches as it stands, a detection of the match waits.
  abbrev pub IsQueued : World → Text → Type 0
  IsQueued w q =
      (m : Match) → expected p w.db w.files q ≡ some m → queued (label m) (labels w) ≡ true

  pub IsQueued-other :
      (w : World) (path q : Text) (n : Option Node)
      → text_eq path q ≡ false
      → IsQueued w q
      → IsQueued (put_node path n w) q
  IsQueued-other w path q n apart h m e = h m (ground (arith, apart, e))

  pub IsQueued-removed :
      (w : World) (path q : Text) → text_eq path q ≡ true → IsQueued (put_node path none w) q
  IsQueued-removed w path q same m e = ground (arith, same, e)

  expected_same :
      (w' w : World) (q : Text)
      → w'.files ≡ w.files
      → w'.db.hash_entries ≡ w.db.hash_entries
      → expected p w'.db w'.files q ≡ expected p w.db w.files q
  expected_same w' w q files hashes =
      ap
        (λ (t : List HashRow × (Text → Option Node)).
          expected p (record w.db { hash_entries = t.0 }) t.1 q)
        (hashes_files w' w files hashes)

  module _ (notify : Text → Text → Result (Unit {0})) where
    pub handled-IsQueued :
        (l : Live) (path : Text)
        → l.world.outcomes ≡ []
        → IsQueued (handle_file p notify l.stats path l.world).1 path
    unfolding or_skip
    handled-IsQueued l path quiet m e =
        let (_, queue, (_, files, hashes)) = handled p notify l.stats path l.world quiet in
        let there =
          sym
            (expected_same (handle_file p notify l.stats path l.world).1 l.world path files hashes)
          ∙ e in
        ap (queued (label m))
          (queue ∙ ap (λ (o : Option Match). labels l.world ++ map label (or_skip (ok o))) there)
        ∙ queued-own (label m) (labels l.world)

    pub handled-other :
        (l : Live) (path q : Text)
        → l.world.outcomes ≡ []
        → IsQueued l.world q
        → IsQueued (handle_file p notify l.stats path l.world).1 q
    handled-other l path q quiet h m e =
        let (_, queue, (_, files, hashes)) = handled p notify l.stats path l.world quiet in
        let there =
          sym (expected_same (handle_file p notify l.stats path l.world).1 l.world q files hashes)
          ∙ e in
        let ms = map label (or_skip (ok (expected p l.world.db l.world.files path))) in
        ap (queued (label m)) queue
        ∙ ground (arith, queued-append (label m) (labels l.world) ms, h m there)
