-- ===== src/Watcher/Timers.antt =====
-- internal/watcher/watcher.go: what has happened to a path, and the timers that stopping one leaves.
use nexguard.Prelude.{
  inl, inr, Bool-cases, ℕ, ◌≡◌, refl, Bool, false, not, ◌&&◌, ◌||◌, List, [], ◌∷◌, ◌++◌, Option,
  none, some, arith, ◌==◌, leb, All,
}
use nexguard.Prelude.Text.{Text, text_eq}
use nexguard.Watcher.Defs.{Timer, Call, stop, stop_pending}

-- There was an event of this path at this time.
abbrev pub happened : Text → ℕ → List (Text × ℕ) → Bool
happened p e [] = false
happened p e ((q, t) ∷ events) = text_eq q p && t == e || happened p e events

-- A timer for the path was started at this time or later.
abbrev pub timed : Text → ℕ → List Timer → Bool
timed p e [] = false
timed p e (t ∷ timers) = text_eq t.path p && leb e t.started || timed p e timers

-- The handler was called for the path by a timer that was started at this time or later.
abbrev pub called : Text → ℕ → List Call → Bool
called p e [] = false
called p e (c ∷ calls) = text_eq c.path p && leb e c.started || called p e calls

pub stop-All : (P : Timer → Type 0) (id : ℕ) (ts : List Timer) → All P ts → All P (stop id ts)
unfolding stop
stop-All P id [] h = tt
stop-All P id (t ∷ ts) h = elim (Bool-cases (t.id == id && not t.expired)) [
  | inl e ↦ rw e (stop-All P id ts h.1)
  | inr e ↦ rw e (h.0, stop-All P id ts h.1)
]

pub stop_pending-All :
    (P : Timer → Type 0) (o : Option ℕ) (ts : List Timer) → All P ts → All P (stop_pending o ts)
unfolding stop_pending
stop_pending-All P none ts h = h
stop_pending-All P (some id) ts h = stop-All P id ts h

pub timed-append :
    (p : Text) (e : ℕ) (xs ys : List Timer) → timed p e (xs ++ ys) ≡ timed p e xs || timed p e ys
timed-append p e [] ys = refl
timed-append p e (x ∷ xs) ys = ground (arith, timed-append p e xs ys)

timed-stop :
    (p q : Text) (e id : ℕ) (ts : List Timer)
    → text_eq q p ≡ false
    → All (λ (t : Timer). t.id ≡ id → t.path ≡ q) ts
    → timed p e (stop id ts) ≡ timed p e ts
unfolding stop
timed-stop p q e id [] apart own = refl
timed-stop p q e id (t ∷ ts) apart own = ground (arith, timed-stop p q e id ts apart own.1, own.0)

pub timed-stop_pending :
    (p q : Text) (e : ℕ) (o : Option ℕ) (ts : List Timer)
    → text_eq q p ≡ false
    → ((id : ℕ) → o ≡ some id → All (λ (t : Timer). t.id ≡ id → t.path ≡ q) ts)
    → timed p e (stop_pending o ts) ≡ timed p e ts
unfolding stop_pending
timed-stop_pending p q e none ts apart own = refl
timed-stop_pending p q e (some id) ts apart own = timed-stop p q e id ts apart (own id refl)
