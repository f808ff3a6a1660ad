-- ===== src/Http/Routes.antt =====
-- The registration of the handlers in main (main.go), the handlers of the web sockets and of the
-- home page, and the requests and ticks of the timer that the server meets. The template of the
-- home page (`render`) and the multiplexer of net/http (`match`), which picks one of the
-- registered patterns for a path, are parameters. A request has with it what its handler meets
-- outside the server: the clock, the random bytes, and for a web socket whether the connection is
-- upgraded, its identifier, which messages it accepts and which texts or numbers arrive on its
-- channel. A panic in a handler ends its request only, as net/http has it; one in the goroutine of
-- a tick would end the program. The requests and ticks of a history follow one another here: each is
-- handled to its end before the next begins, where Go runs each in a goroutine of its own. What
-- transfers that are counted at the same time do to the table is in Server.Statistics.Races.
pub mod Effects
pub mod History
pub mod Patterns
mod Tests
pub mod Watching
use fabric_byzantine.Base.{
  ℕ, String, str_append, Bool, true, false, List, [], ◌∷◌, map, Option, none, some,
}
use fabric_byzantine.Strconv.Digits.{format_uint}
use fabric_byzantine.Json.{Wire}
use fabric_byzantine.Dict.{Dict, lookup}
use fabric_byzantine.Flow.{Flow, go, stop, return, Outcome}
use fabric_byzantine.Mysql.{Database}
use fabric_byzantine.Server.State.{initial}
use fabric_byzantine.Server.Gateway.{Sdk, Orgs}
use fabric_byzantine.Http.{
  Site, Reaction, silent, bytes, frames, Handler, query, invoke, muma, block_page_handler,
  transaction_page_handler, peer_list_handler, get_statistics, timer_control, controller_state,
  timer_tick,
}
use fabric_byzantine.Http.Sockets.{
  Channel, block_chans, block_number_chans, tx_chans, tx_number_chans, socket, echo,
}

pub record Request (w : Wire) (F : Type 0) : Type 0 where
  pub path : String
  pub method : String
  pub host : String
  pub form : String → String
  pub body : Outcome String w.Bytes
  pub now : ℕ
  pub random : Outcome F w.Bytes
  pub upgraded : Bool
  pub uid : String
  pub write : String → Bool
  pub arrived : List String
  pub numbers : List ℕ

-- A request, or a tick of the timer with its instant and its random bytes.
pub data Happening (w : Wire) (F : Type 0) : Type 0 where
  request : Request w F → Happening w F
  tick : ℕ → Outcome F w.Bytes → Happening w F

module _ (w : Wire) (sdk : Sdk w) (db : Database) where
  abbrev pub Served : Type 0
  Served = Request w sdk.Fault → Handler w sdk db (Unit {0})

  -- A web socket on one of the four maps of channels.
  unfoldable pub watch : Channel → List String → Served
  unfolding socket
  watch c arrived q u = elim q.upgraded [
    | false ↦ (stop silent, u)
    | true ↦
        let (written, st) = socket c q.uid q.write arrived u.memory in
        (stop (frames written), record u { memory = st })
  ]

  unfoldable pub block_number_socket : Served
  unfolding watch
  block_number_socket q = watch block_number_chans (map format_uint q.numbers) q

  unfoldable pub block_socket : Served
  unfolding watch
  block_socket q = watch block_chans q.arrived q

  unfoldable pub transaction_number_socket : Served
  unfolding watch
  transaction_number_socket q = watch tx_number_chans (map format_uint q.numbers) q

  unfoldable pub transaction_socket : Served
  unfolding watch
  transaction_socket q = watch tx_chans q.arrived q

  unfoldable pub echo_socket : Served
  unfolding echo
  echo_socket q u = elim q.upgraded [
    | false ↦ (stop silent, u)
    | true ↦ (stop (frames (echo q.write q.arrived)), u)
  ]

  -- `render` is `homeTemplate.Execute`, on what the template is given.
  unfoldable pub home : (String → w.Bytes) → Served
  home render q = return (bytes (some (render (str_append "ws://" (str_append q.host "/echo")))))

  module _ (orgs : Orgs w sdk) (render : String → w.Bytes) where
    -- The calls of `http.HandleFunc`, in order.
    unfoldable pub routes : Dict Served
    routes =
        ("/invoke", λ q. invoke w sdk db orgs q.now q.random (q.form "peer"))
        ∷ ("/query", λ q. query w sdk db orgs (q.form "user") (q.form "peer"))
        ∷ ("/block/page", λ q. return (block_page_handler w sdk db (q.form "id") (q.form "size")))
        ∷ ("/block/number", block_number_socket)
        ∷ ("/block", block_socket)
        ∷ (
          "/transaction/page",
          λ q. return (transaction_page_handler w sdk db (q.form "id") (q.form "size")),
        )
        ∷ ("/transaction/number", transaction_number_socket)
        ∷ ("/transaction", transaction_socket)
        ∷ ("/muma", λ q. muma w sdk db orgs q.now q.random q.method q.body)
        ∷ ("/peers", λ q. return (peer_list_handler w sdk db))
        ∷ ("/statistics", λ q. get_statistics w sdk db)
        ∷ ("/controller", λ q. timer_control w sdk db)
        ∷ ("/controllerState", λ q. controller_state w sdk db)
        ∷ ("/", home render)
        ∷ ("/echo", echo_socket)
        ∷ []

    module _ (match : List String → String → Option String) where
      -- A request to the server; none if no pattern is picked, which is answered by net/http.
      unfoldable pub serve :
          Request w sdk.Fault → Site → Option (Flow (Reaction w sdk db) (Unit {0})) × Site
      serve q u = elim (match (map (λ r. r.0) routes) q.path) [
        | none ↦ (none, u)
        | some pattern ↦ elim (lookup pattern routes) [
          | none ↦ (none, u)
          | some handler ↦ let (r, u') = handler q u in (some r, u')
        ]
      ]

      unfoldable pub happen : Happening w sdk.Fault → Site → Site
      unfolding serve
      happen (request q) u = (serve q u).1
      happen (tick now random) u = (timer_tick w sdk db orgs now random u).1

      unfoldable pub happen_all : List (Happening w sdk.Fault) → Site → Site
      unfolding happen
      happen_all [] u = u
      happen_all (h ∷ hs) u = happen_all hs (happen h u)

-- The server at its start.
abbrev pub started : Site
started = record { memory = initial; timer_flag = true; updates = [] }
