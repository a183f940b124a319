-- ===== src/Api/Middleware/Tests.antt =====
-- The middlewares of the server around concrete handlers.
use sugi.Base.{ℕ, ◌≡◌, refl, false, none, []}
use sugi.Base.Text.{codes, text_eq}
use sugi.Api.Middleware.{
  World, finished, panicked, Handler, on_writer, write_header, cors_headers, cors_middleware, chain,
  server_middlewares,
}
use sugi.Api.Middleware.Stack.{Replied, server_chain-Replied}

abbrev start : World ℕ
start = record { w = record { header = []; status = none; body = [] }; rest = 7 }

-- It counts the request and panics.
abbrev broken : Handler Unit ℕ
broken r world = panicked (record world { rest = 8 })

abbrev after_headers : World ℕ
after_headers = on_writer cors_headers start

get_not_options : text_eq (codes "GET") (codes "OPTIONS") ≡ false
unfolding text_eq
get_not_options = refl

options_stops :
    chain broken server_middlewares (codes "OPTIONS", tt) start
    ≡ finished (on_writer (write_header 204) after_headers)
unfolding chain cors_middleware text_eq
options_stops = refl

server_chain-Replied_example :
    Replied
      (panicked (record after_headers { rest = 8 }))
      (chain broken server_middlewares (codes "GET", tt) start)
server_chain-Replied_example = server_chain-Replied broken (codes "GET") tt start get_not_options
