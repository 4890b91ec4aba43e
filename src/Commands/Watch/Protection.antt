-- ===== src/Commands/Watch/Protection.antt =====
-- What cmd/avtool/watch.go protects: a file that matches when it is written comes to be queued.
use nexguard.Prelude.{
  ℕ, ◌+◌, ◌≤◌, ◌≡◌, ap, ◌∙◌, subst, ◌⊎◌, inl, inr, Bool-cases, true, false, ◌||◌, List, [], ◌∷◌,
  ◌++◌, none, some, arith,
}
use nexguard.Prelude.Text.{Text, text_eq, text_eq_iff}
use nexguard.Exec.{Result}
use nexguard.World.{World, Platform, Node}
use nexguard.Files.{put_node}
use nexguard.Watcher.{debounce, Timer, on_event, on_fire, tick, event, expire, fire}
use nexguard.Watcher.Timers.{timed, timed-append, timed-stop_pending}
use nexguard.Watcher.Invariant.{Inv, start-Inv, Step-Inv}
use nexguard.Commands.Watch.Defs.{handle_file}
use nexguard.Commands.Watch.Queue.{handled}
use nexguard.Commands.Watch.Live.{
  Live, listed, is_watched, write_dropped, complain, overflows, complains, start_live, write,
  take_event, take_fire, beat, LiveStep, beats, passes, writes, removes, takes, expires, fires,
  LiveReach, rests, steps,
}
use nexguard.Commands.Watch.Waiting.{
  listed-append, listed-without, IsQueued, IsQueued-other, IsQueued-removed, handled-IsQueued,
  handled-other,
}

module _ (p : Platform) where
  -- A file that the watcher has to see: one that stands directly in a watched directory and was
  -- written or created since the start, by a last write whose event was not dropped.
  abbrev pub Owed : Live → Text → Type 0
  Owed l q =
      (is_watched p l.dirs q ≡ true) × (listed q l.written ≡ true) × (listed q l.dropped ≡ false)

module _ (p : Platform) (notify : Text → Text → Result (Unit {0})) where
  abbrev pub IsCovered : Live → Text → Type 0
  IsCovered l q = (listed q l.unseen || timed q 0 l.watch.timers ≡ true) ⊎ IsQueued p l.world q

  -- What holds in every state that is reached.
  pub record LiveInv (l : Live) : Type 0 where
    pub loop : Inv l.watch
    pub quiet : l.world.outcomes ≡ []
    pub covered : (q : Text) → Owed p l q → IsCovered l q

  pub start_live-LiveInv :
      (paths : List Text) (answers : List (Result (Unit {0}))) (now : ℕ) (w : World)
      → w.outcomes ≡ []
      → LiveInv (start_live paths answers now w)
  unfolding start_live
  start_live-LiveInv paths answers now w quiet = record {
    loop = start-Inv now;
    quiet = quiet;
    covered = λ q h. ground (arith, h);
  }

  module _ (l : Live) (inv : LiveInv l) where
    write-LiveInv : (path : Text) (n : Node) → LiveInv (write p path n l)
    unfolding write
    write-LiveInv path n = record {
      loop = inv.loop;
      quiet = inv.quiet;
      covered = λ q h. elim (Bool-cases (text_eq path q)) [
        | inl same ↦ inl (
            ground (
              arith,
              same,
              h,
              ap (λ t. is_watched p l.dirs t) ((text_eq_iff path q).0 same),
              listed-append q l.unseen (path ∷ []),
            ))
        | inr apart ↦
            elim (inv.covered q (ground (arith, apart, h, listed-without q path l.dropped apart))) [
              | inl waits ↦ inl (ground (arith, waits, listed-append q l.unseen (path ∷ [])))
              | inr done ↦ inr (IsQueued-other p l.world path q (some n) apart done)
            ]
      ];
    }

    write_dropped-LiveInv : (path : Text) (n : Node) → LiveInv (write_dropped p path n l)
    unfolding write_dropped
    write_dropped-LiveInv path n = record {
      loop = inv.loop;
      quiet = inv.quiet;
      covered = λ q h. elim (Bool-cases (text_eq path q)) [
        | inl same ↦ absurd (ground (arith, same, h))
        | inr apart ↦ elim (inv.covered q (ground (arith, apart, h))) [
          | inl waits ↦ inl waits
          | inr done ↦ inr (IsQueued-other p l.world path q (some n) apart done)
        ]
      ];
    }

    complain-LiveInv : (t : Text) → LiveInv (complain t l)
    unfolding complain
    complain-LiveInv t = record { loop = inv.loop; quiet = inv.quiet; covered = inv.covered }

    removes-LiveInv : (path : Text) → LiveInv (record l { world = put_node path none l.world })
    removes-LiveInv path = record {
      loop = inv.loop;
      quiet = inv.quiet;
      covered = λ q h. elim (Bool-cases (text_eq path q)) [
        | inl same ↦ inr (IsQueued-removed p l.world path q same)
        | inr apart ↦ elim (inv.covered q h) [
          | inl waits ↦ inl waits
          | inr done ↦ inr (IsQueued-other p l.world path q none apart done)
        ]
      ];
    }

    take_event-waits :
        (path q : Text) (rest : List Text)
        → l.unseen ≡ path ∷ rest
        → listed q l.unseen || timed q 0 l.watch.timers ≡ true
        → listed q rest || timed q 0 (on_event path l.watch).timers ≡ true
    unfolding on_event
    take_event-waits path q rest next waits = elim (Bool-cases (text_eq path q)) [
      | inl same ↦ ground (arith, same)
      | inr apart ↦ ground (
        arith,
        apart,
        waits,
        ap (listed q) next,
        timed-stop_pending q path 0 (l.watch.pending path) l.watch.timers apart
            (λ id k. (inv.loop.pending path id k).1),
      )
    ]

    take_event-LiveInv :
        (path : Text) (rest : List Text) → l.unseen ≡ path ∷ rest → LiveInv (take_event path rest l)
    unfolding take_event
    take_event-LiveInv path rest next = record {
      loop = Step-Inv (event path) inv.loop;
      quiet = inv.quiet;
      covered = λ q h. elim (inv.covered q h) [
        | inl waits ↦ inl (take_event-waits path q rest next waits)
        | inr done ↦ inr done
      ];
    }

    passes-LiveInv :
        (n clock : ℕ)
        → LiveInv (record l {
          watch = record l.watch { now = l.watch.now + n };
          world = record l.world { now = clock };
        })
    passes-LiveInv n clock = record {
      loop = Step-Inv (tick n) inv.loop;
      quiet = inv.quiet;
      covered = inv.covered;
    }

    beat-LiveInv : (clock : Text) → LiveInv (beat clock l)
    unfolding beat
    beat-LiveInv clock = record { loop = inv.loop; quiet = inv.quiet; covered = inv.covered }

    module _ (before after : List Timer) (t : Timer)
        (split : l.watch.timers ≡ before ++ t ∷ after) where
      timed-split :
          (q : Text) → timed q 0 l.watch.timers ≡ timed q 0 before || timed q 0 (t ∷ after)
      timed-split q = ap (timed q 0) split ∙ timed-append q 0 before (t ∷ after)

      expires-LiveInv :
          t.started + debounce ≤ l.watch.now
          → LiveInv (record l {
            watch = record l.watch { timers = before ++ record t { expired = true } ∷ after };
          })
      expires-LiveInv due = record {
        loop = Step-Inv (expire before after t split due) inv.loop;
        quiet = inv.quiet;
        covered = λ q h. elim (inv.covered q h) [
          | inl waits ↦ inl (
              ground (
                arith,
                waits,
                timed-split q,
                timed-append q 0 before (record t { expired = true } ∷ after),
              ))
          | inr done ↦ inr done
        ];
      }

      fires-IsCovered :
          (q : Text) → IsCovered l q → IsCovered (take_fire p notify t (before ++ after) l) q
      unfolding take_fire on_fire
      fires-IsCovered q (inr done) = inr (handled-other p notify l t.path q inv.quiet done)
      fires-IsCovered q (inl waits) = elim (Bool-cases (text_eq t.path q)) [
        | inl same ↦ inr (
            subst (IsQueued p (handle_file p notify l.stats t.path l.world).1)
              ((text_eq_iff t.path q).0 same) (handled-IsQueued p notify l t.path inv.quiet))
        | inr apart ↦
            inl (ground (arith, waits, apart, timed-split q, timed-append q 0 before after))
      ]

      fires-LiveInv : t.expired ≡ true → LiveInv (take_fire p notify t (before ++ after) l)
      unfolding take_fire
      fires-LiveInv late = record {
        loop = Step-Inv (fire before after t split late) inv.loop;
        quiet =
            let (_, _, (quiet, _, _)) = handled p notify l.stats t.path l.world inv.quiet in quiet;
        covered = λ q h. fires-IsCovered q (inv.covered q h);
      }

  LiveStep-LiveInv : {l k : Live} → LiveStep p notify l k → LiveInv l → LiveInv k
  LiveStep-LiveInv {l} (passes n clock) inv = passes-LiveInv l inv n clock
  LiveStep-LiveInv {l} (writes path n) inv = write-LiveInv l inv path n
  LiveStep-LiveInv {l} (overflows path n) inv = write_dropped-LiveInv l inv path n
  LiveStep-LiveInv {l} (complains t) inv = complain-LiveInv l inv t
  LiveStep-LiveInv {l} (removes path) inv = removes-LiveInv l inv path
  LiveStep-LiveInv {l} (takes path rest next) inv = take_event-LiveInv l inv path rest next
  LiveStep-LiveInv {l} (expires before after t split due) inv =
      expires-LiveInv l inv before after t split due
  LiveStep-LiveInv {l} (fires before after t split late) inv =
      fires-LiveInv l inv before after t split late
  LiveStep-LiveInv {l} (beats clock) inv = beat-LiveInv l inv clock

  pub LiveReach-LiveInv : {l k : Live} → LiveReach p notify l k → LiveInv l → LiveInv k
  LiveReach-LiveInv rests inv = inv
  LiveReach-LiveInv (steps r st) inv = LiveStep-LiveInv st (LiveReach-LiveInv r inv)

  -- If the system refuses nothing, then however writes, removals, events, timers and calls of the
  -- handler follow each other: when no event and no timer is left, every file that stands directly
  -- in a watched directory, that was written or created since the start, for whose last write
  -- fsnotify dropped no event, and that matches as it stands has a detection that waits for a
  -- review.
  pub settled_matches_wait :
      (paths : List Text) (answers : List (Result (Unit {0}))) (now : ℕ) (w : World) {l : Live}
      (q : Text)
      → w.outcomes ≡ []
      → LiveReach p notify (start_live paths answers now w) l
      → l.unseen ≡ []
      → l.watch.timers ≡ []
      → is_watched p l.dirs q ≡ true
      → listed q l.written ≡ true
      → listed q l.dropped ≡ false
      → IsQueued p l.world q
  settled_matches_wait paths answers now w {l} q quiet r taken fired near written kept =
      elim ((LiveReach-LiveInv r (start_live-LiveInv paths answers now w quiet)).covered q
        (near, written, kept)) [
          | inl waits ↦ absurd (ground (arith, waits, ap (listed q) taken, ap (timed q 0) fired))
          | inr done ↦ done
        ]
