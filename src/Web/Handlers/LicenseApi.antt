-- ===== src/Web/Handlers/LicenseApi.antt =====
-- internal/web/handlers/api.go: `ValidateLicenseAPI`.
use nexguard.Prelude.{ℕ, true, false, ◌&&◌, List, [], ◌∷◌, Option, none, some, if◌then◌else◌, ◌==◌}
use nexguard.Prelude.Text.{Text, codes, is_empty}
use nexguard.Exec.{Exec, Result, ok, err, pure, attempt, ◌>>=◌}
use nexguard.Web.World.{SubscriptionRow, Service, Backend, query}
use nexguard.Web.License.{validate}
use nexguard.Web.Http.{json, Response, respond, Handler}

abbrev pub invalid : ℕ → Text → Response
invalid status message =
    respond status (json (record { valid = false; tier = none; error = some message }))

unfoldable pub tier_of : Option SubscriptionRow → Option Text
tier_of none = none
tier_of (some r) = if is_empty r.tier then none else some r.tier

unfoldable pub tier_reply : Result (Option SubscriptionRow) → Response
unfolding tier_of
tier_reply (err e) = invalid 500 (codes "internal error")
tier_reply (ok found) =
    respond 200 (json (record { valid = true; tier = tier_of found; error = none }))

module _ (b : Backend) where
  -- `... WHERE user_id = ? AND status = 'active' ORDER BY id DESC LIMIT 1`
  unfoldable pub active_from :
      ℕ → Option SubscriptionRow → List SubscriptionRow → Option SubscriptionRow
  active_from user found [] = found
  active_from user found (r ∷ rows) =
      active_from user
        (if r.user_id == user && b.same_text r.status (codes "active") then some r else found) rows

  unfoldable pub license_reply : Result (Option ℕ) → Exec Service Response
  unfolding tier_reply active_from
  license_reply (err e) = pure (invalid 500 (codes "internal error"))
  license_reply (ok none) = pure (invalid 401 (codes "invalid or unknown license key"))
  license_reply (ok (some user)) = do
    found ← attempt (query (λ db. active_from user none db.subscriptions))
    pure (tier_reply found)

  unfoldable pub validate_key : Text → Exec Service Response
  unfolding license_reply
  validate_key key = do verdict ← attempt (validate b key); license_reply verdict

  unfoldable pub validate_license_api : Handler
  unfolding validate_key
  validate_license_api u r =
      if is_empty r.api_key
      then pure (invalid 401 (codes "missing X-API-Key header"))
      else validate_key r.api_key
