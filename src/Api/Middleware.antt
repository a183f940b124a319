-- ===== src/Api/Middleware.antt =====
-- internal/api/middleware.go. A handler takes a request and the world behind it, the response
-- writer included, and returns or panics; what it has done before a panic stays done.
pub mod Stack
mod Tests
use mathlib.Core.List.{reverse}
use sugi.Base.{ℕ, Option, none, some, List, [], ◌∷◌, ◌++◌, if◌then◌else◌}
use sugi.Base.Text.{Text, codes, text_eq}
use sugi.Base.Dict.{insert}

pub record ResponseWriter : Type 0 where
  pub header : List (Text × Text)
  -- The status, once `WriteHeader` or a write has sent it.
  pub status : Option ℕ
  pub body : Text

pub record World (S : Type 0) : Type 0 where
  pub w : ResponseWriter
  pub rest : S

pub data Outcome (S : Type 0) : Type 0 where
  finished panicked : World S → Outcome S

-- A request is its method and what else a handler reads of it.
abbrev pub Handler : Type 0 → Type 0 → Type 0
Handler R S = Text × R → World S → Outcome S

abbrev pub Middleware : Type 0 → Type 0 → Type 0
Middleware R S = Handler R S → Handler R S

-- `w.Header().Set` behind the sent header has no effect on the response.
unfoldable pub set_header : Text → Text → ResponseWriter → ResponseWriter
unfolding insert
set_header key value w = elim w.status [
  | none ↦ record w { header = insert key value w.header }
  | some s ↦ w
]

unfoldable pub write_header : ℕ → ResponseWriter → ResponseWriter
write_header code w = elim w.status [ none ↦ record w { status = some code } | some s ↦ w ]

-- `http.Error`, without the headers that it deletes: no handler here has set them.
unfoldable pub http_error : Text → ℕ → ResponseWriter → ResponseWriter
unfolding set_header write_header
http_error message code w =
    let w' = write_header code (
      set_header (codes "X-Content-Type-Options") (codes "nosniff")
        (set_header (codes "Content-Type") (codes "text/plain; charset=utf-8") w)) in
    record w' { body = w'.body ++ (message ++ codes "\n") }

abbrev pub internal_error : Text
internal_error = codes "{\"error\":\"internal server error\"}"

-- The headers that `CORSMiddleware` sets.
unfoldable pub cors_headers : ResponseWriter → ResponseWriter
unfolding set_header
cors_headers w =
    set_header (codes "Access-Control-Allow-Headers")
      (codes "Content-Type, Authorization, X-Service-Name")
      (set_header (codes "Access-Control-Allow-Methods") (codes "GET, POST, OPTIONS, PUT, DELETE")
        (set_header (codes "Access-Control-Allow-Origin") (codes "*") w))

module _ {S : Type 0} where
  abbrev pub on_writer : (ResponseWriter → ResponseWriter) → World S → World S
  on_writer change world = record world { w = change world.w }

  -- The deferred function of `RecoveryMiddleware`.
  unfoldable pub recovered : Outcome S → Outcome S
  unfolding http_error
  recovered (finished world) = finished world
  recovered (panicked world) = finished (on_writer (http_error internal_error 500) world)

module _ {R S : Type 0} where
  -- `CORSMiddleware`.
  unfoldable pub cors_middleware : Middleware R S
  unfolding cors_headers write_header text_eq
  cors_middleware next (method, r) world =
      let world' = on_writer cors_headers world in
      if text_eq method (codes "OPTIONS")
      then finished (on_writer (write_header 204) world')
      else next (method, r) world'

  -- `LoggerMiddleware`, which logs nothing.
  unfoldable pub logger_middleware : Middleware R S
  logger_middleware next r world = next r world

  -- `RecoveryMiddleware`.
  unfoldable pub recovery_middleware : Middleware R S
  unfolding recovered
  recovery_middleware next r world = recovered (next r world)

  -- The loop of `Chain`, over the middlewares from the last to the first.
  unfoldable pub wrap : List (Middleware R S) → Handler R S → Handler R S
  wrap [] h = h
  wrap (m ∷ ms) h = wrap ms (m h)

  -- `Chain`.
  unfoldable pub chain : Handler R S → List (Middleware R S) → Handler R S
  unfolding wrap
  chain h middlewares = wrap (reverse middlewares) h

  -- The middlewares in internal/server/server.go.
  abbrev pub server_middlewares : List (Middleware R S)
  server_middlewares = cors_middleware ∷ recovery_middleware ∷ logger_middleware ∷ []
