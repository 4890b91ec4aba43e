-- ===== src/Commands/Watch/Drain.antt =====
-- cmd/avtool/watch.go catches up: what was written comes to be queued once the writing stops.
use nexguard.Prelude.{All-map, ℕ, ◌+◌, ◌≤◌, ◌≡◌, refl, ◌∙◌, true, List, [], ◌∷◌, arith, All}
use nexguard.Prelude.Text.{Text}
use nexguard.Exec.{Result}
use nexguard.World.{World, Platform}
use nexguard.Watcher.{debounce, Timer}
use nexguard.Commands.Watch.Queue.{handled}
use nexguard.Commands.Watch.Live.{
  Live, start_live, take_event, take_fire, passes, takes, expires, fires, LiveReach, rests, steps,
}
use nexguard.Commands.Watch.Waiting.{IsQueued}
use nexguard.Commands.Watch.Protection.{
  Owed, start_live-LiveInv, LiveReach-LiveInv, settled_matches_wait,
}

-- What the watcher's own steps leave alone.
abbrev Untouched : Live → Live → Type 0
Untouched k l =
    (k.world.files ≡ l.world.files)
    × (k.dirs ≡ l.dirs)
    × (k.written ≡ l.written)
    × (k.dropped ≡ l.dropped)

abbrev IsRipe : ℕ → Timer → Type 0
IsRipe now t = t.started + debounce ≤ now

module _ (p : Platform) (notify : Text → Text → Result (Unit {0})) where
  abbrev Reaches : Live → Live → Type 0
  Reaches = LiveReach p notify

  LiveReach-trans : {l k m : Live} → Reaches l k → Reaches k m → Reaches l m
  LiveReach-trans r rests = r
  LiveReach-trans r (steps q st) = steps (LiveReach-trans r q) st

  -- The loop can take every event.
  take_all :
      (us : List Text) (l : Live)
      → l.unseen ≡ us
      → (k : Live) × Reaches l k × (k.unseen ≡ []) × Untouched k l
  unfolding take_event
  take_all [] l same = (l, rests, same, (refl, refl, refl, refl))
  take_all (path ∷ us) l same =
      let (k, r, empty, kept) = take_all us (take_event path us l) refl in
      (k, LiveReach-trans (steps rests (takes path us same)) r, empty, kept)

  -- The loop can take the path of every timer that is due.
  fire_all :
      (ts : List Timer) (l : Live)
      → l.watch.timers ≡ ts
      → l.world.outcomes ≡ []
      → All (IsRipe l.watch.now) ts
      → (k : Live) × Reaches l k × (k.watch.timers ≡ []) × (k.unseen ≡ l.unseen) × Untouched k l
  unfolding take_fire nexguard.Watcher.on_fire
  fire_all [] l same quiet ripe = (l, rests, same, refl, (refl, refl, refl, refl))
  fire_all (t ∷ ts) l same quiet ripe =
      let late : Timer = record t { expired = true } in
      let due : Live = record l { watch = record l.watch { timers = late ∷ ts } } in
      let (_, _, (quiet', files, _)) = handled p notify l.stats t.path l.world quiet in
      let (k, r, empty, unseen, (files', dirs, written, dropped)) =
        fire_all ts (take_fire p notify late ts due) refl quiet' ripe.1 in
      (
        k,
        LiveReach-trans
            (steps (steps rests (expires [] ts t same ripe.0)) (fires [] ts late refl refl)) r,
        empty,
        unseen,
        (files' ∙ files, dirs, written, dropped),
      )

  -- If the system refuses nothing, the watcher can catch up from every state that it comes to, by
  -- steps of its own that write and remove no file; then every file that stands directly in a
  -- watched directory, that was written or created since the start, for whose last write fsnotify
  -- dropped no event, and that matches as it stands has a detection that waits for a review.
  pub watch_catches_up :
      (paths : List Text) (answers : List (Result (Unit {0}))) (now : ℕ) (w : World) {l : Live}
      → w.outcomes ≡ []
      → LiveReach p notify (start_live paths answers now w) l
      → (k : Live) × LiveReach p notify l k
        × (k.world.files ≡ l.world.files)
        × (k.written ≡ l.written)
        × ((q : Text) → Owed p l q → IsQueued p k.world q)
  watch_catches_up paths answers now w {l} quiet r =
      let (a, ra, taken, (files_a, dirs_a, written_a, dropped_a)) = take_all l.unseen l refl in
      let inv =
        LiveReach-LiveInv p notify (LiveReach-trans r ra)
          (start_live-LiveInv p notify paths answers now w quiet) in
      let later : Live = record a { watch = record a.watch { now = a.watch.now + debounce } } in
      let ripe =
        All-map _ (IsRipe (a.watch.now + debounce)) a.watch.timers (λ t k. omega (arith, k.past))
          inv.loop.timers in
      let (k, rk, fired, unseen, (files_k, dirs_k, written_k, dropped_k)) =
        fire_all a.watch.timers later refl inv.quiet ripe in
      let from_here = LiveReach-trans (steps ra (passes debounce a.world.now)) rk in
      (
        k,
        from_here,
        files_k ∙ files_a,
        written_k ∙ written_a,
        λ q h.
            settled_matches_wait p notify paths answers now w q quiet (LiveReach-trans r from_here)
              (unseen ∙ taken) fired (rw (dirs_k ∙ dirs_a) h.0) (rw (written_k ∙ written_a) h.1)
              (rw (dropped_k ∙ dropped_a) h.2),
      )
