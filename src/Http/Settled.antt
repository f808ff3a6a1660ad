-- ===== src/Http/Settled.antt =====
-- How the handlers of main.go that call InvokeCC (server/fabsdk.go) come to their end: muma and
-- invoke.
use fabric_byzantine.Base.{ℕ, ◌<◌, ◌≡◌, ◌⊎◌, refl, [], ◌∷◌, ◌++◌, Option, some, length}
use fabric_byzantine.Int.{ℤ}
use fabric_byzantine.Dict.{Dict}
use fabric_byzantine.Http.Marks.{Asks}
use fabric_byzantine.Json.{Wire, decode_map, decode_string, unmarshal}
use fabric_byzantine.Flow.{Flow, go, stop}
use fabric_byzantine.Mysql.{Database}
use fabric_byzantine.Server.Statistics.{byzantine_num}
use fabric_byzantine.Server.State.{State}
use fabric_byzantine.Server.Targets.Totality.{AllStaffed}
use fabric_byzantine.Server.Gateway.{Sdk, Failure, Orgs}
use fabric_byzantine.Server.Gateway.Total.{query_cc_calm}
use fabric_byzantine.Http.{Site, Reaction, refused, chain, bytes, byzantine_task}

module _ {w : Wire} (sdk : Sdk w) (db : Database) where
  -- An answer with what the chaincode gave, or a refusal with InvokeCC's error.
  abbrev pub Replied : Flow (Reaction w sdk db) (Unit {0}) → Type 0
  Replied r =
      ((b : Option w.Bytes) × (r ≡ stop (bytes b)))
      ⊎ ((e : Failure sdk.Fault) × (r ≡ stop (refused (chain e))))

  -- In a network whose organisations each have a peer, the goroutine that muma starts for the
  -- statistics comes to its end and changes nothing at all, whatever the query of the peers gives.
  pub byzantine_task_idle :
      (orgs : Orgs w sdk) (now : ℕ) (u : Site)
      → AllStaffed orgs
      → 0 < length orgs
      → byzantine_task w sdk db orgs now u ≡ (go tt, u)
  unfolding byzantine_task byzantine_num
  byzantine_task_idle orgs now u staffed some_org =
      let (result, asked, _) =
        query_cc_calm sdk {R = Reaction w sdk db} orgs 0 "mychannel1" "token" "getPeers"
          (w.of_string "fab" ∷ []) u.memory staffed some_org in
      rw (asked, byzantine_task) refl

  -- The marks that a body asks for, read as a map of texts.
  abbrev pub AskedBy : w.Bytes → Dict ℤ → Type 0
  AskedBy body = Asks (unmarshal w (decode_map decode_string "") (some body) [])

  -- How a request to muma ends, from the state in which it came and to the one after it.
  abbrev Ended : w.Bytes → Site → Flow (Reaction w sdk db) (Unit {0}) × Site → Type 0
  Ended body u (r, u') =
      (u'.timer_flag ≡ u.timer_flag)
      × (((b : Option w.Bytes) × (marks : Dict ℤ) × (r ≡ stop (bytes b))
            × (u'.updates ≡ u.updates ++ marks)
            × AskedBy body marks)
          ⊎ ((e : Failure sdk.Fault) × (r ≡ stop (refused (chain e))) × (u'.updates ≡ u.updates)))
