-- ===== src/Http/Balance.antt =====
-- The handler `query` of main.go, over the gateway (server/fabsdk.go) and the token contract
-- (chaincode/src/token/token.go).
use fabric_byzantine.Base.{
  ℕ, suc, ◌+◌, ◌^◌, ◌<◌, ◌≡◌, refl, String, [], ◌∷◌, Option, none, some, arith, length,
}
use fabric_byzantine.Int.{ℤ, pos}
use fabric_byzantine.Strconv.{NumError, atoi, bytes_of}
use fabric_byzantine.Json.{Wire, IsWire}
use fabric_byzantine.Shim.{Response, success, failure, Stub, IsLedger}
use fabric_byzantine.Flow.{go, stop, ok}
use fabric_byzantine.Mysql.{Database}
use fabric_byzantine.Token.{Token, balance}
use fabric_byzantine.Token.Supply.{IsSound}
use fabric_byzantine.Token.Contract.{invoke}
use fabric_byzantine.Token.Contract.Held.{Holds}
use fabric_byzantine.Token.Contract.Effects.{number_of, invoke-balance}
use fabric_byzantine.Server.PeerName.{peer_number}
use fabric_byzantine.Server.Targets.{OrgInfo, at}
use fabric_byzantine.Server.Targets.Totality.{AllStaffed, peer_at_total, sub64_one}
use fabric_byzantine.Server.Gateway.{Sdk, Orgs, query_cc}
use fabric_byzantine.Server.Gateway.Total.{balance_request}
use fabric_byzantine.Http.{Site, bytes, query}

answer_of :
    (w : Wire) (r : Response (Option w.Bytes)) (x : ℤ × Option NumError)
    → number_of w r ≡ some x
    → (b : w.Bytes) × (r ≡ success (some b)) × (atoi (w.to_string b) ≡ x)
answer_of w (success (some b)) x e = (b, refl, ground arith)
answer_of w (success none) x e = absurd (ground arith)
answer_of w (failure m) x e = absurd (ground arith)

module _ {w : Wire} (sdk : Sdk w) (l : Stub w) where
  -- What the network promises for this query: a client can be had, and each peer answers as the
  -- token contract does on the ledger's state.
  pub record IsServing (user : String) (s : l.State) : Type 0 where
    pub client :
        (channel : String) (o : OrgInfo) → (c : sdk.Client) × (sdk.new_client channel o ≡ ok c)
    pub answers :
        (c : sdk.Client) (p : sdk.Peer) (b : w.Bytes)
        → (invoke w l "balance" ("fab" ∷ user ∷ []) s).0 ≡ success (some b)
        → sdk.query c (balance_request w user) (p ∷ []) ≡ ok b

  query_cc_serving :
      {S R : Type 0} (orgs : Orgs w sdk) (v : ℕ) (user : String) (s : l.State) (b : w.Bytes)
      (st : S)
      → IsServing user s
      → AllStaffed orgs
      → v < length orgs
      → (invoke w l "balance" ("fab" ∷ user ∷ []) s).0 ≡ success (some b)
      → query_cc w sdk {R = R} orgs
          (pos v)
          "mychannel1"
          "token"
          "balance"
          (w.of_string "fab" ∷ w.of_string user ∷ [])
          st
        ≡ (go (ok b), st)
  unfolding query_cc at
  query_cc_serving orgs v user s b st serving staffed lt answer =
      let (org, found, target, known) = peer_at_total orgs v staffed lt in
      let (c, made) = serving.client "mychannel1" org.config in
      rw (found, made, known, serving.answers c target b answer) refl

  -- While each peer answers as the token contract does on a ledger that holds a sound token "fab",
  -- a request for a user's balance that names the peer of the organisation at position v, each
  -- organisation having a peer, is answered with a text from which `Atoi` reads the user's balance
  -- in that token, and changes nothing in the server.
  pub query-balance :
      (db : Database) (wire : IsWire w) (ledger : IsLedger l) (orgs : Orgs w sdk)
      (user peer : String) (v : ℕ) (t : Token) (s : l.State) (u : Site)
      → Holds l "fab" t s
      → IsSound t
      → IsServing user s
      → AllStaffed orgs
      → v < length orgs
      → v + 1 < 2 ^ 63
      → peer_number (bytes_of peer) ≡ some (pos (suc v))
      → (b : w.Bytes) × (query w sdk db orgs user peer u ≡ (stop (bytes (some b)), u))
        × (atoi (w.to_string b) ≡ (balance user t, none))
  unfolding query
  query-balance db wire ledger orgs user peer v t s u holds sound serving staffed lt small named =
      let (read, _) = invoke-balance wire ledger "fab" t s holds sound user in
      let (b, answer, is_balance) =
        answer_of w (invoke w l "balance" ("fab" ∷ user ∷ []) s).0 (balance user t, none) read in
      (
        b,
        rw
            (
              named,
              sub64_one v small,
              query_cc_serving orgs v user s b u.memory serving staffed lt answer,
            )
            refl,
        is_balance,
      )
