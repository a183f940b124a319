-- ===== src/Api/Middleware/Stack.antt =====
-- The order of the middlewares of internal/api/middleware.go, and what becomes of a panic behind
-- them.
use mathlib.Core.List.{reverse, reverse-cons}
use sugi.Base.{ℕ, ◌≡◌, refl, ap, ◌∙◌, false, Option, none, some, List, [], ◌∷◌, ◌++◌}
use sugi.Base.Text.{Text, codes, text_eq}
use sugi.Base.Dict.{value_or}
use sugi.Api.Middleware.{
  World, Outcome, finished, panicked, Handler, Middleware, ResponseWriter, on_writer, http_error,
  set_header, write_header, cors_headers, cors_middleware, logger_middleware, recovered,
  recovery_middleware, wrap, chain, internal_error, server_middlewares,
}

module _ {R S : Type 0} where
  wrap-append :
      (ms ns : List (Middleware R S)) (h : Handler R S) → wrap (ms ++ ns) h ≡ wrap ns (wrap ms h)
  unfolding wrap
  wrap-append [] ns h = refl
  wrap-append (m ∷ ms) ns h = wrap-append ms ns (m h)

  -- The first of the middlewares is the outermost.
  pub chain_cons :
      (h : Handler R S) (m : Middleware R S) (ms : List (Middleware R S))
      → chain h (m ∷ ms) ≡ m (chain h ms)
  unfolding chain wrap
  chain_cons h m ms = ap (λ l. wrap l h) (reverse-cons m ms) ∙ wrap-append (reverse ms) (m ∷ []) h

-- What the outcome of a handler is turned into: a response stays, and a panic gives one with the
-- status 500 unless a status had been sent, behind what the handler had done.
abbrev pub Replied : {S : Type 0} → Outcome S → Outcome S → Type 0
Replied (finished v) o = o ≡ finished v
Replied {S} (panicked v) o =
    (v' : World S) × ((o ≡ finished v')
      × ((v'.rest ≡ v.rest) × (v'.w.status ≡ some (value_or 500 v.w.status))))

status-set_header :
    (o : Option ℕ) (key value : Text) (w : ResponseWriter)
    → w.status ≡ o
    → (set_header key value w).status ≡ o
unfolding set_header
status-set_header none key value w e = rw e refl
status-set_header (some s) key value w e = rw e refl

status-write_header :
    (o : Option ℕ) (w : ResponseWriter)
    → w.status ≡ o
    → (write_header 500 w).status ≡ some (value_or 500 o)
unfolding write_header
status-write_header none w e = rw e refl
status-write_header (some s) w e = rw e refl

status-http_error :
    (message : Text) (w : ResponseWriter)
    → (http_error message 500 w).status ≡ some (value_or 500 w.status)
unfolding http_error
status-http_error message w =
    status-write_header w.status _
      (status-set_header w.status _ _ _ (status-set_header w.status _ _ w refl))

module _ {S : Type 0} where
  recovered-Replied : (o : Outcome S) → Replied o (recovered o)
  unfolding recovered
  recovered-Replied (finished v) = refl
  recovered-Replied (panicked v) = (_, (refl, (refl, status-http_error internal_error v.w)))

module _ {R S : Type 0} where
  -- Behind the middlewares of the server no handler's panic gets out: a request that is not OPTIONS
  -- is answered with the handler's response, or with the status 500 where the handler panics before
  -- it has sent one.
  pub server_chain-Replied :
      (h : Handler R S) (method : Text) (r : R) (world : World S)
      → text_eq method (codes "OPTIONS") ≡ false
      → Replied
          (h (method, r) (on_writer cors_headers world))
          (chain h server_middlewares (method, r) world)
  unfolding chain wrap cors_middleware recovery_middleware logger_middleware
  server_chain-Replied h method r world other =
      rw other (recovered-Replied (h (method, r) (on_writer cors_headers world)))
