-- ===== src/Web/Request/ClientIp.antt =====
-- `ClientIP` of internal/web/ratelimit/ratelimit.go, which internal/web/handlers/consent.go's
-- `clientIP` repeats: the address that the proxy appended.
use nexguard.Prelude.{
  ℕ, List, Bool-cases, inl, inr, ◌≡◌, ◌≢◌, refl, sym, ap, ◌∙◌, [], ◌∷◌, ◌++◌, Option, none, some,
  arith, if◌then◌else◌, ◌==◌, All,
}
use nexguard.Prelude.Text.{Text, is_empty, trim_space}

unfoldable with_first : ℕ → List Text → List Text
with_first c [] = (c ∷ []) ∷ []
with_first c (part ∷ parts) = (c ∷ part) ∷ parts

-- `strings.Split` by one character
unfoldable pub split : ℕ → Text → List Text
unfolding with_first
split sep [] = [] ∷ []
split sep (c ∷ s) = let rest = split sep s in if c == sep then [] ∷ rest else with_first c rest

-- `parts[len(parts)-1]`, of parts that are not empty
unfoldable pub last : List Text → Text
last [] = []
last (part ∷ []) = part
last (part ∷ (next ∷ parts)) = last (next ∷ parts)

-- What the code reads of a request: the header `X-Forwarded-For` ("" if absent) and the address of
-- the connection.
pub record Origin : Type 0 where
  pub forwarded_for : Text
  pub remote_addr : Text

unfoldable pub host_or : Text → Option Text → Text
host_or addr none = addr
host_or addr (some host) = host

-- `split_host_port` is `net.SplitHostPort`.
unfoldable pub client_ip : (Text → Option Text) → Origin → Text
unfolding host_or split last
client_ip split_host_port r =
    if is_empty r.forwarded_for
    then host_or r.remote_addr (split_host_port r.remote_addr)
    else trim_space (last (split b',' r.forwarded_for))

abbrev pub Commaless : Text → Type 0
Commaless = All (λ c. c ≢ b',')

-- The first part and the others.
split_cons :
    (sep : ℕ) (s : Text) → (part : Text) × (parts : List Text) × (split sep s ≡ part ∷ parts)
unfolding split with_first
split_cons sep [] = ([], [], refl)
split_cons sep (c ∷ s) =
    let (part, parts, e) = split_cons sep s in
    elim (Bool-cases (c == sep)) [
      | inl same ↦ ([], split sep s, ground (arith, same))
      | inr other ↦ (c ∷ part, parts, ground (arith, other, e))
    ]

split-Commaless : (t : Text) → Commaless t → split b',' t ≡ t ∷ []
unfolding split with_first
split-Commaless [] h = refl
split-Commaless (c ∷ t) h = ground (arith, h.0, split-Commaless t h.1)

-- A comma in the text makes a second part, and the last part is that of what follows it.
split-comma :
    (s t : Text)
    → (part next : Text) × (parts : List Text) × (split b',' (s ++ b',' ∷ t)
        ≡ part ∷ (next ∷ parts))
      × (last (next ∷ parts) ≡ last (split b',' t))
unfolding split with_first last
split-comma [] t =
    let (next, parts, e) = split_cons b',' t in
    ([], next, parts, ground (arith, e), ap last (sym e))
split-comma (c ∷ s) t =
    let (part, next, parts, e, same) = split-comma s t in
    elim (Bool-cases (c == b',')) [
      | inl comma ↦ ([], part, next ∷ parts, ground (arith, comma, e), same)
      | inr other ↦ (c ∷ part, next, parts, ground (arith, other, e), same)
    ]

last-split : (s t : Text) → Commaless t → last (split b',' (s ++ b',' ∷ t)) ≡ t
unfolding last
last-split s t clean =
    let (part, next, parts, e, same) = split-comma s t in
    ap last e ∙ same ∙ ap last (split-Commaless t clean)

-- Whatever a client puts into the header, the address that is used is the one without a comma
-- that the proxy appended behind the last comma, without its spaces.
pub client_ip_of_proxy :
    (split_host_port : Text → Option Text) (spoofed address remote_addr : Text)
    → Commaless address
    → client_ip split_host_port
        (record { forwarded_for = spoofed ++ b',' ∷ address; remote_addr = remote_addr })
      ≡ trim_space address
unfolding client_ip
client_ip_of_proxy split_host_port spoofed address remote_addr clean =
    header spoofed address (last-split spoofed address clean)
  where
    header :
        (s t : Text)
        → last (split b',' (s ++ b',' ∷ t)) ≡ t
        → (if is_empty (s ++ b',' ∷ t)
            then host_or remote_addr (split_host_port remote_addr)
            else trim_space (last (split b',' (s ++ b',' ∷ t))))
          ≡ trim_space t
    header [] t e = ap trim_space e
    header (c ∷ s) t e = ap trim_space e
