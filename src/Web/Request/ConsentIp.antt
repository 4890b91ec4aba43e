-- ===== src/Web/Request/ConsentIp.antt =====
-- `clientIP` of internal/web/handlers/consent.go, which says again what `ClientIP` of
-- internal/web/ratelimit/ratelimit.go says.
use nexguard.Prelude.{◌≡◌, refl, Option, if◌then◌else◌}
use nexguard.Prelude.Text.{Text, is_empty, trim_space}
use nexguard.Web.Request.ClientIp.{Origin, split, last, host_or, client_ip}

-- `split_host_port` is `net.SplitHostPort`.
unfoldable pub consent_ip : (Text → Option Text) → Origin → Text
unfolding split last host_or
consent_ip split_host_port r =
    if is_empty r.forwarded_for
    then host_or r.remote_addr (split_host_port r.remote_addr)
    else trim_space (last (split b',' r.forwarded_for))

pub consent_ip_lem :
    (split_host_port : Text → Option Text) (r : Origin)
    → consent_ip split_host_port r ≡ client_ip split_host_port r
unfolding consent_ip client_ip
consent_ip_lem split_host_port r = refl
