-- ===== src/Web/Server/Limits.antt =====
-- How often cmd/avtool-web/main.go's router lets a login through.
use nexguard.Prelude.{
  ℕ, ◌≡◌, refl, ap, sym, Bool, ◌∙◌, List, [], ◌∷◌, ◌++◌, arith, if◌then◌else◌, ltb, length, select,
}
use nexguard.Prelude.Text.{Text}
use nexguard.Exec.{ok}
use nexguard.Web.World.{Service}
use nexguard.Web.RateLimit.{Limiter, allow, in_window}
use nexguard.Web.RateLimit.Window.{Run, attempt, attempts, Ordered}
use nexguard.Web.RateLimit.Bounds
use nexguard.Web.RateLimit.Bounds.{allow_exact}
use nexguard.Web.Http.{Request}
use nexguard.Web.Server.Defs.{
  Env, Server, Endpoint, healthz, login_submit, license_validate, start, login_window, too_many,
  limit_login, limit_license, if_allowed, ip_of, handle, serve,
}

-- A request at a time.
pub record Arrival : Type 0 where
  pub time : ℕ
  pub endpoint : Endpoint
  pub request : Request

abbrev pub clock : ℕ → Server → Server
clock now s = record s { service = record s.service { now = now } }

attempts-append :
    (run : Run) (xs ys : List (Text × ℕ)) → attempts run (xs ++ ys) ≡ attempts (attempts run xs) ys
attempts-append run [] ys = refl
attempts-append run ((key, now) ∷ xs) ys = attempts-append (attempt run key now) xs ys

start-limiter :
    (service : Service) → (start service).login_limiter ≡ (Bounds.start 5 login_window).limiter
unfolding start
start-limiter service = refl

module _ (env : Env) where
  -- One request after another.
  abbrev pub serve_all : Server → List Arrival → Server
  serve_all s [] = s
  serve_all s (a ∷ more) = serve_all (serve env a.endpoint a.request (clock a.time s)).1 more

  -- Who sent a login, and when.
  abbrev pub login_of : Endpoint → Text → ℕ → List (Text × ℕ)
  login_of login_submit ip now = (ip, now) ∷ []
  login_of e ip now = []

  abbrev pub logins : List Arrival → List (Text × ℕ)
  logins [] = []
  logins (a ∷ more) = login_of a.endpoint (ip_of env a.request) a.time ++ logins more

  serve-login_limiter :
      (e : Endpoint) (r : Request) (s : Server) (run : Run)
      → s.login_limiter ≡ run.limiter
      → (serve env e r s).1.login_limiter
        ≡ (attempts run (login_of e (ip_of env r) s.service.now)).limiter
  unfolding serve limit_login limit_license if_allowed
  serve-login_limiter login_submit r s run same = ground arith
  serve-login_limiter license_validate r s run same = ground arith
  serve-login_limiter healthz r s run same = same
  serve-login_limiter _ r s run same = same

  serve_all-login_limiter :
      (h : List Arrival) (s : Server) (run : Run)
      → s.login_limiter ≡ run.limiter
      → (serve_all s h).login_limiter ≡ (attempts run (logins h)).limiter
  serve_all-login_limiter [] s run same = same
  serve_all-login_limiter (a ∷ more) s run same =
      let calls = login_of a.endpoint (ip_of env a.request) a.time in
      serve_all-login_limiter more (serve env a.endpoint a.request (clock a.time s)).1
        (attempts run calls) (serve-login_limiter a.endpoint a.request (clock a.time s) run same)
      ∙ ap (λ (t : Run). t.limiter) (sym (attempts-append run calls (logins more)))

  login_answer :
      (r : Request) (s : Server) (n : Bool)
      → (allow s.login_limiter (ip_of env r) s.service.now).0 ≡ n
      → (serve env login_submit r s).0
        ≡ (if n then (handle env login_submit r s.service).0 else ok too_many)
  unfolding serve limit_login if_allowed
  login_answer r s n h = ground arith

  -- Whatever was served before, as long as the clock does not run backwards over the logins, a
  -- login is handled exactly if fewer than five of the logins from its address that were let
  -- through are in the last fifteen minutes; else it is answered with 429.
  pub serve_login_exact :
      (service : Service) (h : List Arrival) (r : Request) (now : ℕ)
      → Ordered 0 (logins h ++ (ip_of env r, now) ∷ [])
      → let s = clock now (serve_all (start service) h) in
        let passed = (attempts (Bounds.start 5 login_window) (logins h)).granted (ip_of env r) in
        (serve env login_submit r s).0 ≡ (
          if ltb (length (select (in_window login_window now) passed)) 5
          then (handle env login_submit r s.service).0
          else ok too_many)
  serve_login_exact service h r now ordered =
      let s = clock now (serve_all (start service) h) in
      login_answer r s _ (
        ap (λ (l : Limiter). (allow l (ip_of env r) now).0)
          (serve_all-login_limiter h (start service) (Bounds.start 5 login_window)
            (start-limiter service))
        ∙ allow_exact 5 login_window (logins h) (ip_of env r) now ordered)
