-- ===== src/Watcher/Invariant.antt =====
-- internal/watcher/watcher.go: what holds in every state that the loop reaches.
use nexguard.Prelude.{
  All-map, All-middle, inl, inr, Bool-cases, ℕ, suc, ◌+◌, ◌≤◌, ◌≡◌, ap, ◌∙◌, subst, true, ◌&&◌,
  ◌||◌, List, ◌∷◌, ◌++◌, some, arith, leb, All, All-append,
}
use nexguard.Prelude.Text.{Text, text_eq, text_eq_iff, text_eq_refl}
use nexguard.Watcher.Defs.{
  debounce, Timer, Call, Watch, start, set_pending, on_event, on_fire, Step, tick, event, ignored,
  expire, fire, Reach, here, next,
}
use nexguard.Watcher.Timers.{
  happened, timed, called, stop_pending-All, timed-append, timed-stop_pending,
}

pub record IsTimer (now last_timer : ℕ) (events : List (Text × ℕ)) (t : Timer) : Type 0 where
  pub number : t.id ≤ last_timer
  pub real : happened t.path t.started events ≡ true
  pub past : t.started ≤ now
  pub ripe : t.expired ≡ true → t.started + debounce ≤ now

abbrev pub Known : Watch → Timer → Type 0
Known w = IsTimer w.now w.last_timer w.events

-- A call comes at least the debounce after an event of its path.
pub record IsDue (events : List (Text × ℕ)) (c : Call) : Type 0 where
  pub real : happened c.path c.started events ≡ true
  pub late : c.started + debounce ≤ c.time

abbrev pub IsCall : Watch → Call → Type 0
IsCall w = IsDue w.events

-- What holds in every reachable state.
pub record Inv (w : Watch) : Type 0 where
  pub timers : All (Known w) w.timers
  pub calls : All (IsCall w) w.calls
  pub pending :
      (p : Text) (id : ℕ)
      → w.pending p ≡ some id
      → (id ≤ w.last_timer) × All (λ (t : Timer). t.id ≡ id → t.path ≡ p) w.timers
  pub past : (p : Text) (e : ℕ) → happened p e w.events ≡ true → e ≤ w.now
  pub covered :
      (p : Text) (e : ℕ)
      → happened p e w.events ≡ true
      → timed p e w.timers || called p e w.calls ≡ true

pub start-Inv : (now : ℕ) → Inv (start now)
unfolding start
start-Inv now = record {
  timers = tt;
  calls = tt;
  pending = λ p id h. ground arith;
  past = λ p e h. ground arith;
  covered = λ p e h. ground arith;
}

module _ (w : Watch) (inv : Inv w) where
  tick-Inv : (n : ℕ) → Inv (record w { now = w.now + n })
  tick-Inv n = record {
    timers =
        All-map (Known w) (Known (record w { now = w.now + n })) w.timers
          (λ t k. record {
            number = k.number;
            real = k.real;
            past = omega (arith, k.past);
            ripe = λ h. omega (arith, k.ripe h);
          })
          inv.timers;
    calls =
        All-map (IsCall w) (IsCall (record w { now = w.now + n })) w.calls
          (λ c k. record { real = k.real; late = k.late }) inv.calls;
    pending = inv.pending;
    past = λ p e h. omega (arith, inv.past p e h);
    covered = inv.covered;
  }

  happened-event :
      (path p : Text) (e : ℕ)
      → happened p e w.events ≡ true
      → happened p e ((path, w.now) ∷ w.events) ≡ true
  happened-event path p e h = ground (arith, h)

  event-covered :
      (path p : Text) (e : ℕ)
      → happened p e ((path, w.now) ∷ w.events) ≡ true
      → timed p e (on_event path w).timers || called p e w.calls ≡ true
  unfolding on_event
  event-covered path p e h = elim (Bool-cases (text_eq path p)) [
    | inl same ↦ ground (arith, same, inv.past p e)
    | inr apart ↦ ground (
      arith,
      apart,
      inv.covered p e,
      timed-stop_pending p path e (w.pending path) w.timers apart
          (λ id k. (inv.pending path id k).1),
    )
  ]

  event-pending :
      (path p : Text) (id : ℕ)
      → (on_event path w).pending p ≡ some id
      → (id ≤ suc w.last_timer)
        × All (λ (t : Timer). t.id ≡ id → t.path ≡ p) (on_event path w).timers
  unfolding on_event set_pending
  event-pending path p id h = elim (Bool-cases (text_eq path p)) [
    | inl same ↦
        let number : id ≡ suc w.last_timer = ground (arith, same) in
        (
          omega (arith, number),
          (
            (λ k. (text_eq_iff path p).0 same),
            stop_pending-All (λ (t : Timer). t.id ≡ id → t.path ≡ p) (w.pending path) w.timers
                (All-map (Known w) (λ (t : Timer). t.id ≡ id → t.path ≡ p) w.timers
                  (λ t k e. absurd (omega (arith, k.number, e, number))) inv.timers),
          ),
        )
    | inr apart ↦
        let (below, own) = inv.pending p id (ground (arith, apart)) in
        (
          omega (arith, below),
          (
            (λ k. absurd (omega (arith, below, k))),
            stop_pending-All (λ (t : Timer). t.id ≡ id → t.path ≡ p) (w.pending path) w.timers own,
          ),
        )
  ]

  event-Inv : (path : Text) → Inv (on_event path w)
  unfolding on_event
  event-Inv path = record {
    timers = (
      record {
        number = omega arith;
        real = ground (arith, text_eq_refl path);
        past = omega arith;
        ripe = λ h. ground arith;
      },
      stop_pending-All (Known (on_event path w)) (w.pending path) w.timers (
          All-map (Known w) (Known (on_event path w)) w.timers
            (λ t k. record {
              number = omega (arith, k.number);
              real = happened-event path t.path t.started k.real;
              past = k.past;
              ripe = k.ripe;
            })
            inv.timers),
    );
    calls =
        All-map (IsCall w) (IsCall (on_event path w)) w.calls
          (λ c k. record { real = happened-event path c.path c.started k.real; late = k.late })
          inv.calls;
    pending = λ p id h. event-pending path p id h;
    past = λ p e h. ground (arith, inv.past p e);
    covered = λ p e h. event-covered path p e h;
  }

  module _ (before after : List Timer) (t : Timer) (split : w.timers ≡ before ++ t ∷ after) where
    parts : (P : Timer → Type 0) → All P w.timers → All P before × P t × All P after
    parts P h = All-middle P before after t (subst (All P) split h)

    known : All (Known w) before × Known w t × All (Known w) after
    known = parts (Known w) inv.timers

    timed-split :
        (p : Text) (e : ℕ)
        → timed p e w.timers
          ≡ timed p e before || (text_eq t.path p && leb e t.started || timed p e after)
    timed-split p e = ap (timed p e) split ∙ timed-append p e before (t ∷ after)

    timed-rest :
        (p : Text) (e : ℕ) → timed p e (before ++ after) ≡ timed p e before || timed p e after
    timed-rest p e = timed-append p e before after

    expire-Inv :
        t.started + debounce ≤ w.now
        → Inv (record w { timers = before ++ record t { expired = true } ∷ after })
    expire-Inv due =
        let t' : Timer = record t { expired = true } in
        let (front, k, back) = known in
        record {
          timers =
              All-append (Known w) before (t' ∷ after) front
                (record { number = k.number; real = k.real; past = k.past; ripe = λ h. due }, back);
          calls = inv.calls;
          pending = λ p id h.
              let (below, own) = inv.pending p id h in
              let (a, b, c) = parts (λ (x : Timer). x.id ≡ id → x.path ≡ p) own in
              (
                below,
                All-append (λ (x : Timer). x.id ≡ id → x.path ≡ p) before (t' ∷ after) a (b, c),
              );
          past = inv.past;
          covered = λ p e h.
              ground
                (arith, inv.covered p e h, timed-split p e, timed-append p e before (t' ∷ after));
        }

    fire-Inv : t.expired ≡ true → Inv (on_fire t (before ++ after) w)
    unfolding on_fire set_pending
    fire-Inv done =
        let (front, k, back) = known in
        record {
          timers = All-append (Known w) before after front back;
          calls = (record { real = k.real; late = k.ripe done }, inv.calls);
          pending = λ p id h.
              let (below, own) = inv.pending p id (ground (arith, h)) in
              let (a, b, c) = parts (λ (x : Timer). x.id ≡ id → x.path ≡ p) own in
              (below, All-append (λ (x : Timer). x.id ≡ id → x.path ≡ p) before after a c);
          past = inv.past;
          covered = λ p e h. ground (arith, inv.covered p e h, timed-split p e, timed-rest p e);
        }

pub Step-Inv : {w u : Watch} → Step w u → Inv w → Inv u
Step-Inv {w} (tick n) inv = tick-Inv w inv n
Step-Inv {w} (event path) inv = event-Inv w inv path
Step-Inv ignored inv = inv
Step-Inv {w} (expire before after t split due) inv = expire-Inv w inv before after t split due
Step-Inv {w} (fire before after t split done) inv = fire-Inv w inv before after t split done

pub Reach-Inv : {w u : Watch} → Reach w u → Inv w → Inv u
Reach-Inv here inv = inv
Reach-Inv (next r st) inv = Step-Inv st (Reach-Inv r inv)
