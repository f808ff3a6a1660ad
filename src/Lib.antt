-- ===== src/Lib.antt =====
-- fabric-byzantine: a Hyperledger Fabric network with byzantine peers, and the explorer that shows it.
--
-- The program has these parts.
--
-- * The token chaincode (chaincode/src/token/token.go) keeps one document per token on the ledger:
--   the balances, and which of the ten peers are byzantine. Token models the struct and its methods
--   transfer and balance; Token.Contract the handlers issue, transfer (transfer_tokens), setPeer,
--   getPeers, balance (query_balance) and Invoke. A map of Go is an association list (Dict), an int
--   an integer with its wrap-around at 64 bits (Int), strconv's functions are in Strconv, and JSON
--   documents and their decoding into typed values in Json.
-- * The example chaincode (chaincode/src/example_cc/go/example_cc.go): ExampleCc.
-- * The gateway (server/fabsdk.go): Server.Gateway models InvokeCC (invoke_cc, whose second half is
--   submit and finish) and QueryCC (query_cc), Server.Targets the choice of the peers that are asked,
--   Server.PeerName how a peer's name gives its organisation, Server.Provider the start
--   (NewFabSdkProvider), and Server.Start the init of server/server.go. InvokeCC asks the token
--   chaincode for the peers, enters the transaction in TxList and counts it.
-- * The statistics (server/statistics.go): Server.Statistics. InvokeCC runs on several goroutines, and
--   Server.Statistics.Races has its counting as steps that interleave by a schedule.
-- * The block listener (server/block_listener.go, and BlockListener of server/fabsdk.go):
--   Server.Listener models updateBlock (update_block), which takes the senders out of TxList and
--   stores rows, Server.Listener.Sync syncBlock, and Server.Listener.Start registerBlockEvent and
--   BlockListener. The variables that the gateway, the listener and the handlers share are the record
--   Server.State.State.
-- * The explorer's database (server/mysql/db.go, server/mysql/handler.go): Mysql models the
--   queries and updates, Mysql.Manager the connection (NewDBMgr, CloseDB).
-- * The HTTP handlers (main.go): Http, and Http.Sockets for the web sockets, with the channel between
--   a socket and a goroutine that tells it messages in Http.Sockets.Rendezvous. The handlers call the
--   gateway and the explorer's database. Http.Routes has their registration, and the requests and the
--   ticks of the timer that the server meets.
-- * The helpers (server/helpers): Helpers has the paths (utils.go, metadata.go) and the configuration
--   (appconf.go), Helpers.Logging the start of the logger (logger.go).
--
-- Server.Journey joins the gateway and the block listener, in Server.Journey.Later with other calls
-- and blocks in between, and in Server.Journey.Races as goroutines whose accesses of TxList interleave
-- by a schedule. Server.Restart joins the block listener and the explorer's database,
-- Http.Balance the handler `query`, the gateway and the token chaincode, Http.Settled the handlers
-- `muma` and `invoke` and the gateway, and Server.Start the configuration and the gateway.
--
-- State is passed explicitly. A chaincode handler is an action on the stub's state that ends in a
-- response (Shim); a function of the server is a body with early returns and panics (Flow), in which
-- an index out of range is a panic.
--
-- What is not part of the repository is a parameter: the stub of the chaincode (Shim.Stub, with what
-- a ledger promises in IsLedger), the bytes of JSON documents (Json.Wire, IsWire), the Fabric SDK
-- (Server.Gateway.Sdk, Server.Provider.Setup), its ledger client (Server.Listener.Start.Ledger),
-- protobuf decoding (Server.Listener.Proto), the SQL driver (Mysql.Database, Mysql.Manager.Driver),
-- files and YAML (Helpers.Environment), the disk and the logging library (Helpers.Logging.Disk, Logs),
-- and the multiplexer of net/http (Http.Routes, with what it promises in IsMux). Testbed and the
-- Tests modules have concrete ones, and a run of each result.
--
-- Loops are structural recursion over the lists that the program walks, and the loop that prints
-- decimal digits is recursion on accessibility; no fuel is used. The width of an int is 64 bits, that
-- of the statistics' key 8, and sums are exact only where a result says so. A loop over a map is
-- modelled over a list of its entries, and Token.Contract.Peers and Server.Targets.Order treat the
-- order. A text is sliced by its bytes in UTF-8.
--
-- Not modelled: goroutines that interleave outside the counting, the accesses of TxList and the
-- channel of a web socket (each runs on its own there, to its end, and a message to a web socket is
-- taken), the wording of errors that quote a library's, what is logged, the text of the home page's
-- template, the JSON of the statistics, and server/protoutil, which is a copy of a library of
-- Hyperledger Fabric.
pub mod Base
pub mod Int
pub mod Dict
pub mod Strconv
pub mod Json
pub mod Shim
pub mod Flow
pub mod Helpers
pub mod Token
pub mod ExampleCc
pub mod Server
pub mod Mysql
pub mod Http
pub mod Testbed
