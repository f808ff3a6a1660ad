-- ===== src/Server/Gateway/Counted.antt =====
-- What InvokeCC (server/fabsdk.go) does to the statistics, however it ends, also by a panic.
use fabric_byzantine.Base.{
  ℕ, ◌≡◌, ◌⊎◌, inl, inr, refl, ap, Option-cases, Bool-cases, String, Bool, true, false, List, [],
  ◌∷◌, arith, str_eq, ◌==◌, length,
}
use fabric_byzantine.Int.{ℤ, pos}
use fabric_byzantine.Dict.{insert}
use fabric_byzantine.Json.{Wire}
use fabric_byzantine.Flow.{Outcome, Outcome-cases, Flow-cases}
use fabric_byzantine.Server.Statistics.{Table}
use fabric_byzantine.Server.Statistics.Tally.{Event, count_event}
use fabric_byzantine.Server.Targets.{Split, split, at, first_peer, choose_targets}
use fabric_byzantine.Server.State.{State, broadcast}
use fabric_byzantine.Server.Gateway.{
  Request, Executed, Sdk, Reply, Orgs, query_cc, known_peers, sender, finish, submit, invoke_cc,
}

-- A table is left alone, or counts one transfer more, of a normal sender or of a byzantine one.
abbrev pub CountsOne : Bool → Bool → Table → Table → Type 0
CountsOne normal transfer before after =
    (after ≡ before)
    ⊎ ((e : Event) × (e.normal ≡ normal) × (transfer ≡ true) × (after ≡ count_event e before))

module _ {w : Wire} (sdk : Sdk w) where
  finish-CountsOne :
      (peer : String) (peer_type : ℕ) (function : String) (now : ℕ) (s : Split)
      (r : Executed w sdk.Fault) (st : State)
      → CountsOne
          (peer_type == 0)
          (str_eq function "transfer")
          st.table
          (finish w sdk peer peer_type function now s r st).1.table
  unfolding finish count_event broadcast
  finish-CountsOne peer peer_type function now s r st =
      let e : Bool → Event = λ committed. record {
        normal = peer_type == 0;
        byzantine = length s.byzantine;
        committed = committed;
        now = now;
      } in
      elim (Bool-cases (str_eq function "transfer")) [
        | inr other ↦ inl (ground (arith, other))
        | inl same ↦ elim (Option-cases r.fault) [
          | inl fine ↦ inr (e true, refl, same, ground (arith, same, fine))
          | inr (x, failed) ↦ inr (e false, refl, same, ground (arith, same, failed))
        ]
      ]

  -- A query leaves the state alone.
  pub query_cc_still :
      {S : Type 0} (R : Type 0) (orgs : Orgs w sdk) (index : ℤ)
      (channel chaincode function : String) (args : List w.Bytes) (st : S)
      → (query_cc w sdk {R = R} orgs index channel chaincode function args st).1 ≡ st
  unfolding query_cc
  query_cc_still R orgs index channel chaincode function args st =
      elim (Option-cases (at orgs index)) [
        | inl outside ↦ rw (outside, query_cc) refl
        | inr (org, found) ↦ elim (Outcome-cases (sdk.new_client channel org.config)) [
          | inr (e, refused) ↦ rw (found, refused, query_cc) refl
          | inl (client, has_client) ↦ elim (Option-cases (first_peer org)) [
            | inl alone ↦ rw (found, has_client, alone, query_cc) refl
            | inr (target, known) ↦
                let request : Request w = record {
                  chaincode_id = chaincode;
                  fcn = function;
                  args = args;
                } in
                elim (Outcome-cases (sdk.query client request (target ∷ []))) [
                  | inr (e, refused) ↦ rw (found, has_client, known, refused, query_cc) refl
                  | inl (b, answered) ↦ rw (found, has_client, known, answered, query_cc) refl
                ]
          ]
        ]
      ]

  submit-CountsOne :
      (orgs : Orgs w sdk) (client : sdk.Client) (creator nonce : w.Bytes) (txid peer : String)
      (peer_type now : ℕ) (request : Request w) (st : State)
      → CountsOne
          (peer_type == 0)
          (str_eq request.fcn "transfer")
          st.table
          (submit w sdk orgs client creator nonce txid peer peer_type now request st).1.table
  unfolding submit
  submit-CountsOne orgs client creator nonce txid peer peer_type now request st =
      let asking =
        query_cc w sdk {R = Reply w sdk} orgs (pos 0) "mychannel1" "token" "getPeers"
          (w.of_string "fab" ∷ []) in
      let still =
        query_cc_still (Reply w sdk) orgs (pos 0) "mychannel1" "token" "getPeers"
          (w.of_string "fab" ∷ []) st in
      elim (Flow-cases (asking st).0) [
        | inr (inl (r, stopped)) ↦ rw (stopped, submit) (inl (ap (λ s. s.table) still))
        | inr (inr crashed) ↦ rw (crashed, submit) (inl (ap (λ s. s.table) still))
        | inl (result, asked) ↦ elim (Option-cases (split (known_peers w sdk result))) [
          | inl outside ↦ rw (asked, still, outside, submit) (inl refl)
          | inr (s, parted) ↦ elim (Option-cases (choose_targets orgs s)) [
            | inl outside ↦ rw (asked, still, parted, outside, submit) (inl refl)
            | inr (targets, chosen) ↦
                rw (asked, still, parted, chosen, submit)
                  (finish-CountsOne peer peer_type request.fcn now s
                    (sdk.execute client creator nonce request targets)
                    (record st {
                      tx_list = insert txid (sender w sdk peer peer_type s) st.tx_list;
                    }))
          ]
        ]
      ]

  -- However a call of InvokeCC ends, it leaves the table alone or counts one transfer, and that
  -- only if the function is `transfer`.
  pub invoke_cc-CountsOne :
      (orgs : Orgs w sdk) (now : ℕ) (random : Outcome sdk.Fault w.Bytes) (peer : String)
      (peer_type : ℕ) (index : ℤ) (channel chaincode function : String) (args : List w.Bytes)
      (st : State)
      → CountsOne
          (peer_type == 0)
          (str_eq function "transfer")
          st.table
          (invoke_cc w sdk orgs now random peer peer_type index channel chaincode function args
            st).1.table
  unfolding invoke_cc
  invoke_cc-CountsOne orgs now random peer peer_type index channel chaincode function args st =
      elim (Option-cases (at orgs index)) [
        | inl outside ↦ rw (outside, invoke_cc) (inl refl)
        | inr (org, found) ↦ elim (Outcome-cases (sdk.new_client channel org.config)) [
          | inr (e, refused) ↦ rw (found, refused, invoke_cc) (inl refl)
          | inl (client, has_client) ↦ elim (Outcome-cases (sdk.new_identity org.config)) [
            | inr (e, refused) ↦ rw (found, has_client, refused, invoke_cc) (inl refl)
            | inl (signer, signs) ↦ elim (Outcome-cases (sdk.serialize signer)) [
              | inr (e, refused) ↦ rw (found, has_client, signs, refused, invoke_cc) (inl refl)
              | inl (creator, created) ↦ elim (Outcome-cases random) [
                | inr (e, refused) ↦
                    rw (found, has_client, signs, created, refused, invoke_cc) (inl refl)
                | inl (nonce, drawn) ↦ elim (Outcome-cases (sdk.hash nonce creator)) [
                  | inr (e, refused) ↦
                      rw (found, has_client, signs, created, drawn, refused, invoke_cc) (inl refl)
                  | inl (digest, hashed) ↦
                      rw (found, has_client, signs, created, drawn, hashed, invoke_cc)
                        (submit-CountsOne orgs client creator nonce (sdk.hex digest) peer peer_type
                          now (record { chaincode_id = chaincode; fcn = function; args = args }) st)
                ]
              ]
            ]
          ]
        ]
      ]
