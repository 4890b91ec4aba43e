-- ===== src/Web/Billing/Threads/Defs.antt =====
-- internal/web/billing/webhook.go: `upsertSubscription` and `cancelSubscription`, stopped before each
-- of their calls of the database. A call of the database is one step.
use nexguard.Prelude.{
  ℕ, zero, suc, ◌≡◌, List, [], ◌∷◌, ◌++◌, Option, none, some, if◌then◌else◌, ◌==◌,
}
use nexguard.Prelude.Text.{Text, codes, text_eq}
use nexguard.Exec.{errorf, panic, unknown_stripe_customer, Result, ok, err, wrapping}
use nexguard.Web.World.{UserRow, SubscriptionRow, Service, Backend, query, exec}
use nexguard.Web.License.{generate, revoke_all_for_user}
use nexguard.Web.Billing.Defs.{
  Subscription, active_licenses, find_customer, store_subscription, find_subscription, set_canceled,
}

-- Where a delivery stands, and what it has read.
pub data Deed : Type 0 where
  -- `upsertSubscription`: before its calls, and after its return
  finding : Subscription → Text → Deed
  storing : Subscription → Text → ℕ → ℕ → Deed
  counting generating : ℕ → Deed
  upserted : Result (Unit {0}) → Deed
  -- returned without an error behind the check for a license of this user
  licensed : ℕ → Deed
  -- `cancelSubscription`
  locating : Text → Deed
  canceling : Text → ℕ → Deed
  revoking : ℕ → Deed
  canceled : Result (Unit {0}) → Deed

unfoldable pub start_upsert : Subscription → Deed
start_upsert sub = elim sub.customer [
  | none ↦ upserted (err panic)
  | some customer ↦ finding sub customer
]

unfoldable pub with_period : Subscription → Text → ℕ → Option (List ℕ) → Deed
with_period sub customer user none = upserted (err (errorf (codes "subscription has no items")))
with_period sub customer user (some []) =
    upserted (err (errorf (codes "subscription has no items")))
with_period sub customer user (some (period_end ∷ more)) = storing sub customer user period_end

unfoldable pub after_finding : Subscription → Text → Result (Option UserRow) → Deed
unfolding with_period
after_finding sub customer (err e) = upserted (err e)
after_finding sub customer (ok none) = upserted (err unknown_stripe_customer)
after_finding sub customer (ok (some u)) = with_period sub customer u.id sub.items

unfoldable pub after_storing : Text → ℕ → Result (Unit {0}) → Deed
after_storing status user (err e) = upserted (err e)
after_storing status user (ok a) =
    if text_eq status (codes "active") then counting user else upserted (ok tt)

unfoldable pub after_counting : ℕ → Result ℕ → Deed
after_counting user (err e) = upserted (err e)
after_counting user (ok existing) = if existing == 0 then generating user else licensed user

unfoldable pub after_generating : ℕ → Result Text → Deed
after_generating user (err e) = upserted (err e)
after_generating user (ok key) = licensed user

unfoldable pub after_locating : Text → Result (Option SubscriptionRow) → Deed
after_locating id (err e) = canceled (err e)
after_locating id (ok none) = canceled (ok tt)
after_locating id (ok (some r)) = canceling id r.user_id

unfoldable pub after_canceling : ℕ → Result (Unit {0}) → Deed
after_canceling user (err e) = canceled (err e)
after_canceling user (ok a) = revoking user

abbrev then_ : {A : Type 0} → (Result A → Deed) → Result A × Service → Deed × Service
then_ f (r, s) = (f r, s)

module _ (b : Backend) where
  -- The next call of a delivery; one that has returned makes none.
  unfoldable pub advance : Deed → Service → Deed × Service
  unfolding after_finding after_storing after_counting after_generating after_locating
      after_canceling
  advance (finding sub customer) s = then_ (after_finding sub customer) (
      wrapping (codes "looking up user for stripe customer")
        (query (λ db. find_customer b customer db.users)) s)
  advance (storing sub customer user period_end) s = then_ (after_storing sub.status user) (
      wrapping (codes "upserting subscription")
        (exec (λ now. store_subscription b user customer sub period_end)) s)
  advance (counting user) s =
      then_ (after_counting user)
        (wrapping (codes "checking existing licenses") (query (active_licenses user)) s)
  advance (generating user) s =
      then_ (after_generating user) (wrapping (codes "generating license") (generate b user) s)
  advance (upserted r) s = (upserted r, s)
  advance (licensed user) s = (licensed user, s)
  advance (locating id) s = then_ (after_locating id) (
      wrapping (codes "looking up user for subscription")
        (query (λ db. find_subscription b id db.subscriptions)) s)
  advance (canceling id user) s = then_ (after_canceling user) (
      wrapping (codes "canceling subscription")
        (exec (λ now db. record db { subscriptions = set_canceled b id db.subscriptions })) s)
  advance (revoking user) s =
      then_ canceled
        (wrapping (codes "revoking license after cancellation") (revoke_all_for_user user) s)
  advance (canceled r) s = (canceled r, s)

  -- A number of calls of one delivery, with nothing in between.
  unfoldable pub alone : ℕ → Deed → Service → Deed × Service
  alone zero d s = (d, s)
  alone (suc n) d s = let (d', s') = advance d s in alone n d' s'

  -- The service, and the deliveries that it is handling or has handled.
  pub record Pool : Type 0 where
    pub service : Service
    pub deeds : List Deed

  pub data PoolStep (p : Pool) : Pool → Type 0 where
    arrives : (sub : Subscription) → PoolStep p (record p { deeds = start_upsert sub ∷ p.deeds })
    arrives_end : (id : Text) → PoolStep p (record p { deeds = locating id ∷ p.deeds })
    moves :
        (before after : List Deed) (d : Deed)
        → p.deeds ≡ before ++ d ∷ after
        → PoolStep p (record p {
          service = (advance d p.service).1;
          deeds = before ++ (advance d p.service).0 ∷ after;
        })
    elapses : (now : ℕ) → PoolStep p (record p { service = record p.service { now = now } })

  pub data PoolReach (p : Pool) : Pool → Type 0 where
    here : PoolReach p p
    next : {q r : Pool} → PoolReach p q → PoolStep q r → PoolReach p r
