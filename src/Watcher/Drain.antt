-- ===== src/Watcher/Drain.antt =====
-- internal/watcher/watcher.go: what is waiting comes to be called once the events stop.
use nexguard.Prelude.{All-map, ℕ, ◌+◌, ◌≤◌, ◌≡◌, refl, ap, true, List, [], ◌∷◌, arith, All}
use nexguard.Prelude.Text.{Text}
use nexguard.Watcher.Defs.{
  debounce, Timer, Watch, start, on_fire, tick, expire, fire, Reach, here, next,
}
use nexguard.Watcher.Timers.{happened, timed, called}
use nexguard.Watcher.Coverage.{timers-past, no_event_lost}

Reach-trans : {w v u : Watch} → Reach w v → Reach v u → Reach w u
Reach-trans r here = r
Reach-trans r (next q st) = next (Reach-trans r q) st

abbrev IsRipe : ℕ → Timer → Type 0
IsRipe now t = t.started + debounce ≤ now

-- Timers that are due can expire and be taken one after another.
drain :
    (ts : List Timer) (w : Watch)
    → w.timers ≡ ts
    → All (IsRipe w.now) ts
    → (u : Watch) × Reach w u × (u.timers ≡ []) × (u.events ≡ w.events)
unfolding on_fire
drain [] w same ripe = (w, here, same, refl)
drain (t ∷ ts) w same ripe =
    let late : Timer = record t { expired = true } in
    let due : Watch = record w { timers = late ∷ ts } in
    let (u, r, empty, events) = drain ts (on_fire late ts due) refl ripe.1 in
    (
      u,
      Reach-trans (next (next here (expire [] ts t same ripe.0)) (fire [] ts late refl refl)) r,
      empty,
      events,
    )

-- From whatever state the loop has come to, it can come without another event to one in which no
-- timer is left, and there the handler has been called for the path of each event so far by a timer
-- that was started at the event or later.
always_drains :
    (now : ℕ) {w : Watch}
    → Reach (start now) w
    → (u : Watch) × Reach w u
      × (u.timers ≡ [])
      × (u.events ≡ w.events)
      × ((p : Text) (e : ℕ) → happened p e w.events ≡ true → called p e u.calls ≡ true)
always_drains now {w} r =
    let later : Watch = record w { now = w.now + debounce } in
    let ripe =
      All-map (λ (t : Timer). t.started ≤ w.now) (IsRipe (w.now + debounce)) w.timers
        (λ t k. omega (arith, k)) (timers-past now r) in
    let (u, q, empty, events) = drain w.timers later refl ripe in
    let from_here = Reach-trans (next here (tick debounce)) q in
    (
      u,
      from_here,
      empty,
      events,
      λ p e h. ground (
        arith,
        no_event_lost now p e (Reach-trans r from_here) (rw events h),
        ap (timed p e) empty,
      ),
    )
