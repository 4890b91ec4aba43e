-- ===== src/Commands/Watch/Live.antt =====
-- `runWatch` of cmd/avtool/watch.go at work: the loop of internal/watcher/watcher.go calls the
-- handler of cmd/avtool/watch.go while files change. fsnotify names an event by the path of the file,
-- and puts one into its channel for each write and each creation of a file that stands directly in a
-- directory that was added; what happens elsewhere, also further down, gives none. If its queue
-- overflows, it drops events and reports an error instead. The loop takes the events in their order.
use nexguard.Prelude.{
  Bool, false, ◌||◌, if◌then◌else◌, ℕ, ◌+◌, ◌*◌, ◌≤◌, ◌≡◌, true, List, [], ◌∷◌, ◌++◌, none, some,
}
use nexguard.Prelude.Text.{Text, codes, text_eq}
use nexguard.Prelude.Text.Decimal.{decimal}
use nexguard.Exec.{Result, ok, err}
use nexguard.World.{World, Platform, Node, print}
use nexguard.Files.{put_node}
use nexguard.Watcher.{debounce, Timer, Watch, start, on_event, on_fire}
use nexguard.Commands.Watch.Defs.{WatchStats, handle_file}

abbrev pub listed : Text → List Text → Bool
listed q [] = false
listed q (path ∷ paths) = text_eq path q || listed q paths

abbrev pub without : Text → List Text → List Text
without q [] = []
without q (path ∷ paths) =
    let rest = without q paths in if text_eq q path then rest else path ∷ rest

-- The paths that `w.Add` accepts, by its answers; a path that it does not is dropped.
unfoldable pub accepted : List Text → List (Result (Unit {0})) → List Text
accepted (path ∷ paths) (ok a ∷ answers) = path ∷ accepted paths answers
accepted (path ∷ paths) (err e ∷ answers) = accepted paths answers
accepted _ _ = []

pub record Live : Type 0 where
  -- the directories that are watched
  pub dirs : List Text
  pub watch : Watch
  pub world : World
  pub stats : WatchStats
  -- the paths of the events that the loop has not taken yet, the oldest first
  pub unseen : List Text
  -- every path that has been written or created since the start, and those of them for whose last
  -- write the event was dropped
  pub written : List Text
  pub dropped : List Text

-- `paths` are the arguments, with the answers of `w.Add` to them.
unfoldable pub start_live : List Text → List (Result (Unit {0})) → ℕ → World → Live
unfolding accepted
start_live paths answers now w = record {
  dirs = accepted paths answers;
  watch = start now;
  world = w;
  stats = record { scanned = 0; matches = 0 };
  unseen = [];
  written = [];
  dropped = [];
}

-- The loop takes the event of a path.
unfoldable pub take_event : Text → List Text → Live → Live
take_event path rest l = record l { watch = on_event path l.watch; unseen = rest }

-- The loop takes an error of fsnotify: a line is printed, and the loop goes on.
unfoldable pub complain : Text → Live → Live
complain t l = record l { world = (print (codes "watcher error (continuing): " ++ t) l.world).1 }

unfoldable pub or_same : WatchStats → Result WatchStats → WatchStats
or_same stats (ok s) = s
or_same stats (err e) = stats

-- `heartbeatInterval`, in nanoseconds
abbrev pub heartbeat_interval : ℕ
heartbeat_interval = 60 * 1000000000

-- `snapshot` under its lock, and the line that `runHeartbeat` prints at a time of the day.
unfoldable pub snapshot : WatchStats → ℕ × ℕ
snapshot s = (s.scanned, s.matches)

unfoldable pub heartbeat_line : WatchStats → Text → Text
unfolding snapshot
heartbeat_line stats clock =
    let (scanned, matches) = snapshot stats in
    codes "watching: "
    ++ (decimal scanned
        ++ (codes " files scanned, "
            ++ (decimal matches ++ (codes " matches (as of " ++ (clock ++ codes ")")))))

-- What `runHeartbeat` does at a tick: beside the loop, at any time until the watcher stops.
unfoldable pub beat : Text → Live → Live
unfolding heartbeat_line
beat clock l = record l { world = (print (heartbeat_line l.stats clock) l.world).1 }

module _ (p : Platform) where
  -- The path stands directly in a directory that is watched.
  abbrev pub is_watched : List Text → Text → Bool
  is_watched dirs path = listed (p.parent path) dirs

  -- Another program writes or creates a file, and fsnotify has an event of it.
  unfoldable pub write : Text → Node → Live → Live
  write path n l = record l {
    world = put_node path (some n) l.world;
    unseen = if is_watched l.dirs path then l.unseen ++ path ∷ [] else l.unseen;
    written = path ∷ l.written;
    dropped = without path l.dropped;
  }

  -- The same, while the queue of fsnotify is full.
  unfoldable pub write_dropped : Text → Node → Live → Live
  write_dropped path n l = record l {
    world = put_node path (some n) l.world;
    written = path ∷ l.written;
    dropped = path ∷ l.dropped;
  }

module _ (p : Platform) (notify : Text → Text → Result (Unit {0})) where
  -- The loop takes the path of an expired timer and calls the handler.
  unfoldable pub take_fire : Timer → List Timer → Live → Live
  unfolding or_same
  take_fire t others l =
      let (r, w) = handle_file p notify l.stats t.path l.world in
      record l { watch = on_fire t others l.watch; world = w; stats = or_same l.stats r }

  -- One step. Time passes for the timers and on the clock, another program writes or removes a file,
  -- the loop takes an event or an error of fsnotify, a timer expires, the loop takes the path of one
  -- that has, or the heartbeat ticks.
  pub data LiveStep (l : Live) : Live → Type 0 where
    passes :
        (n clock : ℕ)
        → LiveStep l (record l {
          watch = record l.watch { now = l.watch.now + n };
          world = record l.world { now = clock };
        })
    writes : (path : Text) (n : Node) → LiveStep l (write p path n l)
    overflows : (path : Text) (n : Node) → LiveStep l (write_dropped p path n l)
    complains : (t : Text) → LiveStep l (complain t l)
    removes : (path : Text) → LiveStep l (record l { world = put_node path none l.world })
    takes :
        (path : Text) (rest : List Text)
        → l.unseen ≡ path ∷ rest
        → LiveStep l (take_event path rest l)
    expires :
        (before after : List Timer) (t : Timer)
        → l.watch.timers ≡ before ++ t ∷ after
        → t.started + debounce ≤ l.watch.now
        → LiveStep l (record l {
          watch = record l.watch { timers = before ++ record t { expired = true } ∷ after };
        })
    fires :
        (before after : List Timer) (t : Timer)
        → l.watch.timers ≡ before ++ t ∷ after
        → t.expired ≡ true
        → LiveStep l (take_fire t (before ++ after) l)
    beats : (clock : Text) → LiveStep l (beat clock l)

  pub data LiveReach (l : Live) : Live → Type 0 where
    rests : LiveReach l l
    steps : {k m : Live} → LiveReach l k → LiveStep k m → LiveReach l m
