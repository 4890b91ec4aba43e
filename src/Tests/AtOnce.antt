-- ===== src/Tests/AtOnce.antt =====
-- Witnesses for deliveries that are handled at once, and for the end of the service.
use nexguard.Prelude.{ℕ, ◌<◌, ◌≤◌, ◌≡◌, ◌⊎◌, refl, true, [], ◌∷◌, some, arith}
use nexguard.Prelude.Text.{text_eq}
use nexguard.Exec.{not_exist, ok}
use nexguard.World.{next_outcome, later_outcomes}
use nexguard.Web.World.{Service, bytes_from, hex_encode}
use nexguard.Web.License.{
  generate, fresh_key, fresh_group, group_of, key_of, upper_digit, store_license, is_taken,
  find_license, insert_license,
}
use nexguard.Web.Billing.{active_licenses, find_customer, store_subscription}
use nexguard.Web.Billing.Threads.{
  Deed, start_upsert, with_period, after_finding, after_storing, after_counting, after_generating,
  advance, alone, Pool, arrives, moves, PoolReach, here, next,
}
use nexguard.Web.Billing.Threads.AtOnce.{resting, licensed_at_once, single_at_once}
use nexguard.Web.Launch.{
  Serving, serve_start, shut, closes, signals, selects_stop, shuts_down, receives_closed, returned,
  closed, ServeStep, ServeRun, halt, more, meets, fails, sends,
}
use nexguard.Web.Launch.Shutdown.{
  IsReturned, IsIdle, Came, serve_graceful_returns, serve_graceful_result,
}
use nexguard.Tests.Billing.{backend, service, licensed as licensed_service, subscription}

-- One delivery after each of its calls.
abbrev arrived : Pool backend
arrived = record { service = service; deeds = start_upsert subscription ∷ [] }

abbrev moved : Deed → Pool backend → Pool backend
moved d p = record {
  service = (advance backend d p.service).1;
  deeds = (advance backend d p.service).0 ∷ [];
}

abbrev deed : ℕ → Service → Deed
deed n s = (alone backend n (start_upsert subscription) s).0

abbrev found : Pool backend
found = moved (start_upsert subscription) arrived

abbrev stored : Pool backend
stored = moved (deed 1 service) found

abbrev counted : Pool backend
counted = moved (deed 2 service) stored

abbrev issued : Pool backend
issued = moved (deed 3 service) counted

until_issued : PoolReach backend (resting backend service) issued
unfolding alone
until_issued =
    next
      (next
        (next
          (next (next here (arrives subscription)) (moves [] [] (start_upsert subscription) refl))
          (moves [] [] (deed 1 service) refl))
        (moves [] [] (deed 2 service) refl))
      (moves [] [] (deed 3 service) refl)

licensed_at_once_example : 0 < active_licenses 1 issued.service.db
unfolding alone advance start_upsert with_period after_finding after_storing after_counting
    after_generating active_licenses find_customer text_eq next_outcome later_outcomes generate
    fresh_key fresh_group store_license is_taken find_license store_subscription
licensed_at_once_example = licensed_at_once backend service [] [] 1 until_issued (refl, tt) refl

-- The user has a license already.
abbrev again : Pool backend
again =
    moved (start_upsert subscription)
      (record { service = licensed_service; deeds = start_upsert subscription ∷ [] })

single_at_once_example : active_licenses 1 again.service.db ≡ active_licenses 1 licensed_service.db
unfolding advance start_upsert after_finding with_period find_customer text_eq next_outcome
    later_outcomes active_licenses
single_at_once_example =
    single_at_once backend licensed_service 1
      (next (next here (arrives subscription)) (moves [] [] (start_upsert subscription) refl))
      (refl, tt) (omega arith)

-- Two deliveries that both count before one of them issues leave a user with two active licenses.
abbrev both_counted : Service
both_counted = (advance backend (deed 2 service) counted.service).1

abbrev first_issued : Service
first_issued = (advance backend (deed 3 service) both_counted).1

abbrev both_issued : Service
both_issued = (advance backend (deed 3 service) first_issued).1

issued_twice :
    ((advance backend (deed 2 service) counted.service).0 ≡ deed 3 service)
    × (active_licenses 1 both_issued.db ≡ 2)
unfolding alone advance start_upsert with_period after_finding after_storing after_counting
    after_generating active_licenses find_customer text_eq next_outcome later_outcomes generate
    fresh_key fresh_group store_license is_taken find_license store_subscription insert_license
    key_of group_of upper_digit hex_encode bytes_from
issued_twice = (refl, refl)

-- A signal comes, and the server goes down.
abbrev down : Serving
down = record serve_start { signalled = true; listener = closed; phase = returned (ok tt) }

until_down : ServeRun serve_start 6 down
unfolding serve_start
until_down =
    more
      (more
        (more (more (more (meets halt (signals refl)) (selects_stop refl refl)) (shuts_down refl))
          (shut refl refl))
        (closes refl))
      (receives_closed refl refl refl)

-- The port is taken: the first goroutine has sent the error and closed the channel.
abbrev unbound : Serving
unbound = record serve_start {
  listener = closed;
  buffer = some not_exist;
  failure = some not_exist;
}

until_unbound : ServeRun serve_start 3 unbound
unfolding serve_start
until_unbound =
    more (more (meets halt (fails not_exist refl)) (sends not_exist refl refl)) (closes refl)

serve_graceful_returns_example :
    (3 ≤ 7) × (IsReturned unbound ⊎ IsIdle unbound ⊎ ((t : Serving) × ServeStep unbound t))
serve_graceful_returns_example = serve_graceful_returns until_unbound

serve_graceful_result_example : Came (returned (ok tt)) down
serve_graceful_result_example = serve_graceful_result (ok tt) until_down refl
