-- ===== src/Web/Billing/Threads/AtOnce.antt =====
-- Deliveries of new and changed subscriptions that internal/web/billing/webhook.go handles at once.
use nexguard.Prelude.{
  All-map, All-middle, ℕ, ◌<◌, ◌≡◌, ◌≢◌, refl, sym, ◌∙◌, subst, true, List, [], ◌∷◌, ◌++◌,
  Option-cases, arith, All, All-append,
}
use nexguard.Web.World.{Service, Backend}
use nexguard.Web.Billing.Defs.{Subscription, active_licenses}
use nexguard.Web.Billing.Threads.Defs.{
  Deed, generating, licensed, start_upsert, advance, Pool, PoolStep, arrives, arrives_end, moves,
  elapses, PoolReach, here, next,
}
use nexguard.Web.Billing.Threads.Licenses.{
  is_upsert, active_of, Granted, advance_upsert, advance_more, advance-Granted, advance_keeps,
}

abbrev pub NoEnd : List Deed → Type 0
NoEnd = All (λ d. is_upsert d ≡ true)

module _ (b : Backend) where
  PoolStep-NoEnd : {p q : Pool b} → PoolStep b p q → NoEnd q.deeds → NoEnd p.deeds
  PoolStep-NoEnd (arrives sub) h = h.1
  PoolStep-NoEnd (arrives_end id) h = h.1
  PoolStep-NoEnd {p} (moves before after d split) h =
      let (front, moved, back) = All-middle _ before after (advance b d p.service).0 h in
      subst NoEnd (sym split)
        (All-append _ before (d ∷ after) front (sym (advance_upsert b d p.service) ∙ moved, back))
  PoolStep-NoEnd (elapses now) h = h

  -- A property of the service, and one of each deed in it, that no delivery breaks.
  record Rules (J : Service → Type 0) (P : Service → Deed → Type 0) : Type 0 where
    fresh : (s : Service) (sub : Subscription) → J s → P s (start_upsert sub)
    keeps : (d : Deed) (s : Service) → is_upsert d ≡ true → J s → P s d → J (advance b d s).1
    own :
        (d : Deed) (s : Service)
        → is_upsert d ≡ true
        → J s
        → P s d
        → P (advance b d s).1 (advance b d s).0
    others :
        (d e : Deed) (s : Service)
        → is_upsert d ≡ true
        → J s
        → P s d
        → P s e
        → P (advance b d s).1 e
    timeless : (s : Service) (now : ℕ) → J s → J (record s { now = now })
    timeless_deed : (s : Service) (now : ℕ) (d : Deed) → P s d → P (record s { now = now }) d

  module _ (J : Service → Type 0) (P : Service → Deed → Type 0) (rules : Rules J P) where
    abbrev Good : Pool b → Type 0
    Good p = J p.service × All (P p.service) p.deeds

    PoolStep-Good :
        {p q : Pool b} → PoolStep b p q → NoEnd p.deeds → NoEnd q.deeds → Good p → Good q
    PoolStep-Good {p} (arrives sub) quiet quiet' (j, h) = (j, (rules.fresh p.service sub j, h))
    PoolStep-Good (arrives_end id) quiet quiet' h = absurd (ground (arith, quiet'.0))
    PoolStep-Good {p} (moves before after d split) quiet quiet' (j, h) =
        let s = p.service in
        let (front, mine, back) = All-middle (P s) before after d (subst (All (P s)) split h) in
        let (_, new, _) = All-middle _ before after d (subst NoEnd split quiet) in
        let (d', s') = advance b d s in
        let same = λ (e : Deed) (k : P s e). rules.others d e s new j mine k in
        (
          rules.keeps d s new j mine,
          All-append (P s') before (d' ∷ after) (All-map (P s) (P s') before same front)
              (rules.own d s new j mine, All-map (P s) (P s') after same back),
        )
    PoolStep-Good {p} (elapses now) quiet quiet' (j, h) = (
      rules.timeless p.service now j,
      All-map (P p.service) (P (record p.service { now = now })) p.deeds
          (λ d k. rules.timeless_deed p.service now d k) h,
    )

    PoolReach-Good : {p q : Pool b} → PoolReach b p q → NoEnd q.deeds → Good p → Good q
    PoolReach-Good here quiet h = h
    PoolReach-Good (next r st) quiet h =
        let before = PoolStep-NoEnd st quiet in
        PoolStep-Good st before quiet (PoolReach-Good r before h)

  start_upsert-unlicensed : (sub : Subscription) (u : ℕ) → start_upsert sub ≢ licensed u
  unfolding start_upsert
  start_upsert-unlicensed sub u h = ground (arith, h, Option-cases sub.customer)

  start_upsert-idle : (sub : Subscription) (u : ℕ) → start_upsert sub ≢ generating u
  unfolding start_upsert
  start_upsert-idle sub u h = ground (arith, h, Option-cases sub.customer)

  granting : Rules (λ s. Unit {0}) (Granted b)
  granting = record {
    fresh = λ s sub j u h. absurd (start_upsert-unlicensed sub u h);
    keeps = λ d s new j mine. tt;
    own = λ d s new j mine. advance-Granted b d s new mine;
    others = λ d e s new j mine k u h. omega (arith, k u h, advance_more b u d s new);
    timeless = λ s now j. tt;
    timeless_deed = λ s now d k. k;
  }

  keeping : (u c : ℕ) → 0 < c → Rules (λ s. active_of u s ≡ c) (λ s d. d ≢ generating u)
  keeping u c some_ = record {
    fresh = λ s sub j. start_upsert-idle sub u;
    keeps = λ d s new j mine. (advance_keeps b u d s new (omega (arith, j, some_)) mine).0 ∙ j;
    own = λ d s new j mine. (advance_keeps b u d s new (omega (arith, j, some_)) mine).1;
    others = λ d e s new j mine k. k;
    timeless = λ s now j. j;
    timeless_deed = λ s now d k. k;
  }

  -- The service with nothing in its hands.
  abbrev pub resting : Service → Pool b
  resting s = record { service = s; deeds = [] }

  -- However the calls of the deliveries that are handled at once follow each other, and whatever
  -- the database refuses, if none of them ends a subscription: each that has returned without an
  -- error behind its check for a license leaves the user with an active license.
  pub licensed_at_once :
      (s : Service) {p : Pool b} (before after : List Deed) (u : ℕ)
      → PoolReach b (resting s) p
      → NoEnd p.deeds
      → p.deeds ≡ before ++ licensed u ∷ after
      → 0 < active_licenses u p.service.db
  unfolding active_licenses
  licensed_at_once s {p} before after u r quiet at =
      let (_, granted) = PoolReach-Good (λ s. Unit {0}) (Granted b) granting r quiet (tt, tt) in
      let (_, mine, _) =
        All-middle (Granted b p.service) before after (licensed u)
          (subst (All (Granted b p.service)) at granted) in
      mine u refl

  -- However the calls of the deliveries that are handled at once follow each other, and whatever
  -- the database refuses, if none of them ends a subscription: a user who had an active license
  -- before gets no other and loses none.
  pub single_at_once :
      (s : Service) {p : Pool b} (u : ℕ)
      → PoolReach b (resting s) p
      → NoEnd p.deeds
      → 0 < active_licenses u s.db
      → active_licenses u p.service.db ≡ active_licenses u s.db
  unfolding active_licenses
  single_at_once s u r quiet some_ =
      (PoolReach-Good _ _ (keeping u (active_of u s) some_) r quiet (refl, tt)).0
