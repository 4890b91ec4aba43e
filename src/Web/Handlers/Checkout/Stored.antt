-- ===== src/Web/Handlers/Checkout/Stored.antt =====
-- internal/web/handlers/checkout.go stores the customer before it sends the user to Stripe.
use mathlib.Core.Option
use nexguard.Prelude.{
  ℕ, zero, suc, ◌≡◌, ◌≢◌, refl, subst, Bool-cases, Option-cases, ap, sym, ◌∙◌, inl, inr, List, [],
  ◌∷◌, Option, none, some, arith,
}
use nexguard.Prelude.Text.{Text, codes, text_eq, text_eq_iff}
use nexguard.Exec.{Result, ok, err, Result-cases, Exec, ◌>>=◌}
use nexguard.Web.World.{UserRow, Service, Backend, query}
use nexguard.Web.Users.{User}
use nexguard.Web.Sessions.{find_user}
use nexguard.Web.Http.{Request, Response}
use nexguard.Web.Handlers.Checkout.{
  StripeApi, Checkout, or_fails, null_string, customer_of, set_customer, saved, save_customer,
  go_to, customer_or_new, create_checkout_session, with_customer, with_count, active_subscriptions,
  checkout_redirect,
}

find_user-set_customer :
    (customer : Text) (id : ℕ) (us : List UserRow)
    → find_user id (set_customer customer id us)
      ≡ Option.map
          (λ (u : UserRow). record u { stripe_customer_id = some customer })
          (find_user id us)
unfolding find_user set_customer
find_user-set_customer customer id [] = refl
find_user-set_customer customer id (u ∷ us) = ground (arith, find_user-set_customer customer id us)

-- The user's row holds this customer.
abbrev pub IsStored : ℕ → Text → Service → Type 0
IsStored id customer s =
    (row : UserRow) × (find_user id s.db.users ≡ some row)
    × (row.stripe_customer_id ≡ some customer)

save_customer-IsStored :
    (id : ℕ) (customer : Text) (s : Service) (row : UserRow)
    → find_user id s.db.users ≡ some row
    → (save_customer id customer s).0 ≡ ok tt
    → IsStored id customer (save_customer id customer s).1
unfolding save_customer
save_customer-IsStored id customer s row there done = (
  record row { stripe_customer_id = some customer },
  ground (arith, find_user-set_customer customer id s.db.users),
  refl,
)

null_string-some : (o : Option Text) (t : Text) → null_string o ≡ t → t ≢ [] → o ≡ some t
unfolding null_string
null_string-some none t h named = absurd (named (sym h))
null_string-some (some x) t h named = ap some h

go_to-IsStored :
    (id : ℕ) (c : Checkout) (s : Service) (row : UserRow) (answer : Response) (url : Text)
    → find_user id s.db.users ≡ some row
    → c.customer ≢ []
    → (go_to id (null_string row.stripe_customer_id) (ok c) s).0 ≡ ok answer
    → answer.location ≡ some url
    → (c.url ≡ url)
      × IsStored id c.customer (go_to id (null_string row.stripe_customer_id) (ok c) s).1
unfolding go_to saved
go_to-IsStored id c s row answer url there named done there_to =
    let existing = null_string row.stripe_customer_id in
    elim (Bool-cases (text_eq c.customer existing)) [
      | inl e ↦
          let state : s ≡ (go_to id existing (ok c) s).1 = ground (arith, e) in
          let same = sym ((text_eq_iff c.customer existing).0 e) in
          (
            ground (arith, e),
            subst (IsStored id c.customer) state
                (row, there, null_string-some row.stripe_customer_id c.customer same named),
          )
      | inr e ↦ elim (Result-cases (save_customer id c.customer s).0) [
        | inl (u, k) ↦
            let state : (save_customer id c.customer s).1 ≡ (go_to id existing (ok c) s).1 =
              ground (arith, e, k) in
            (
              ground (arith, e, k),
              subst (IsStored id c.customer) state
                  (save_customer-IsStored id c.customer s row there k),
            )
        | inr (x, k) ↦ absurd (ground (arith, e, k))
      ]
    ]

module _ (api : StripeApi) where
  -- What a checkout session of a user knows of its customer.
  checkout_session-customer :
      (email existing : Text) (s : Service) (c : Checkout)
      → ((t : Service) (mail : Text) → api.new_customer t mail ≢ some [])
      → (create_checkout_session api email existing s).0 ≡ ok c
      → (c.customer ≢ [])
        × (api.new_session s c.customer ≡ some c.url)
        × ((create_checkout_session api email existing s).1 ≡ s)
  unfolding create_checkout_session customer_or_new or_fails
  checkout_session-customer email existing s c named done = ground (
    arith,
    named s email,
    Option-cases (api.new_customer s email),
    Option-cases (api.new_session s c.customer),
  )

  with_customer-IsStored :
      (u : User) (s : Service) (row : UserRow) (answer : Response) (url : Text)
      → ((t : Service) (mail : Text) → api.new_customer t mail ≢ some [])
      → find_user u.id s.db.users ≡ some row
      → (with_customer api u (ok (null_string row.stripe_customer_id)) s).0 ≡ ok answer
      → answer.location ≡ some url
      → (customer : Text) × (api.new_session s customer ≡ some url)
        × IsStored u.id customer (with_customer api u (ok (null_string row.stripe_customer_id)) s).1
  unfolding with_customer
  with_customer-IsStored u s row answer url named there done there_to =
      let existing = null_string row.stripe_customer_id in
      elim (Result-cases (create_checkout_session api u.email existing s).0) [
        | inl (c, e) ↦
            let (some_customer, asked, state) =
              checkout_session-customer u.email existing s c named e in
            let step : with_customer api u (ok existing) s ≡ go_to u.id existing (ok c) s =
              ground (arith, e, state) in
            let (same, stored) =
              go_to-IsStored u.id c s row answer url there some_customer
                (ap (λ (t : Result Response × Service). t.0) (sym step) ∙ done) there_to in
            (
              c.customer,
              asked ∙ ap some same,
              subst (λ (t : Result Response × Service). IsStored u.id c.customer t.1) (sym step)
                  stored,
            )
        | inr (x, e) ↦ absurd (ground (arith, e))
      ]

  load_customer : User → Exec Service Text
  load_customer u = query (λ db. find_user u.id db.users) >>= customer_of

  loaded :
      (u : User) (s : Service) (existing : Text)
      → (load_customer u s).0 ≡ ok existing
      → (row : UserRow) × (find_user u.id (load_customer u s).1.db.users ≡ some row)
        × (existing ≡ null_string row.stripe_customer_id)
  unfolding load_customer customer_of
  loaded u s existing done = elim (Option-cases (find_user u.id s.db.users)) [
    | inl e ↦ absurd (ground (arith, e))
    | inr (row, e) ↦ (row, ground (arith, e), ground (arith, e))
  ]

  IsSentTo : User → Text → Result Response × Service → Type 0
  IsSentTo u url (r, s') =
      (customer : Text) × (t : Service) × (api.new_session t customer ≡ some url)
      × IsStored u.id customer s'

  loaded-IsSentTo :
      (u : User) (s : Service) (o : Result Text) (answer : Response) (url : Text)
      → ((t : Service) (mail : Text) → api.new_customer t mail ≢ some [])
      → ((existing : Text)
          → o ≡ ok existing
          → (row : UserRow) × (find_user u.id s.db.users ≡ some row)
            × (existing ≡ null_string row.stripe_customer_id))
      → (with_customer api u o s).0 ≡ ok answer
      → answer.location ≡ some url
      → IsSentTo u url (with_customer api u o s)
  unfolding with_customer IsSentTo
  loaded-IsSentTo u s (err e) answer url named row done there_to = absurd (ground arith)
  loaded-IsSentTo u s (ok existing) answer url named row done there_to =
      let (x, there, same) = row existing refl in
      let (customer, asked, stored) =
        with_customer-IsStored u s x answer url named there
          (ap (λ (t : Text). (with_customer api u (ok t) s).0) (sym same) ∙ done) there_to in
      (
        customer,
        s,
        asked,
        subst (λ (t : Text). IsStored u.id customer (with_customer api u (ok t) s).1) (sym same)
            stored,
      )

  with_count-IsSentTo :
      (u : User) (s : Service) (o : Result ℕ) (answer : Response) (url : Text)
      → ((t : Service) (mail : Text) → api.new_customer t mail ≢ some [])
      → (with_count api u o s).0 ≡ ok answer
      → answer.location ≡ some url
      → url ≢ codes "/dashboard"
      → IsSentTo u url (with_count api u o s)
  unfolding with_count IsSentTo load_customer
  with_count-IsSentTo u s (err e) answer url named done there_to away = absurd (ground arith)
  with_count-IsSentTo u s (ok zero) answer url named done there_to away =
      let m = load_customer u s in
      loaded-IsSentTo u m.1 m.0 answer url named (loaded u s) done there_to
  with_count-IsSentTo u s (ok (suc n)) answer url named done there_to away = absurd (ground arith)

  -- A user who is sent to a page of Stripe's is sent to a session of a customer that is stored at
  -- that user by then, so that the events about the customer find the user, if Stripe gives no
  -- empty id.
  pub checkout_redirect-IsStored :
      (b : Backend) (u : User) (r : Request) (s : Service) (answer : Response) (url : Text)
      → ((t : Service) (mail : Text) → api.new_customer t mail ≢ some [])
      → (checkout_redirect api b (some u) r s).0 ≡ ok answer
      → answer.location ≡ some url
      → url ≢ codes "/dashboard"
      → (customer : Text) × (t : Service) × (api.new_session t customer ≡ some url)
        × IsStored u.id customer (checkout_redirect api b (some u) r s).1
  unfolding checkout_redirect IsSentTo
  checkout_redirect-IsStored b u r s answer url named done there_to away =
      let count = query (active_subscriptions b u.id) s in
      with_count-IsSentTo u count.1 count.0 answer url named done there_to away
