-- ===== src/Server/Gateway/Total.antt =====
-- The panics of InvokeCC and QueryCC (server/fabsdk.go).
use fabric_byzantine.Base.{
  ℕ, ◌^◌, ◌<◌, ◌≡◌, inl, inr, ◌⊎◌, refl, String, List, [], ◌∷◌, arith, length,
}
use fabric_byzantine.Int.{pos}
use fabric_byzantine.Dict.{insert}
use fabric_byzantine.Json.{Wire, unmarshal}
use fabric_byzantine.Flow.{Flow, go, stop, crash, Outcome, Outcome-cases, ok, err}
use fabric_byzantine.Server.Targets.{Split, at}
use fabric_byzantine.Server.Targets.Totality.{
  AllStaffed, AllNumbered, choose_targets_total, peer_at_total,
}
use fabric_byzantine.Server.State.{State}
use fabric_byzantine.Server.Gateway.{
  Request, Executed, Sdk, Failure, no_client, fault, Reply, Orgs, query_cc, known_peers, sender,
  finish, submit, invoke_cc,
}

-- The body has returned a result.
abbrev pub Returned : {R A : Type 0} → Flow R A → Type 0
Returned (go a) = ⊥
Returned (stop r) = Unit
Returned crash = ⊥

-- The request for a user's balance in the token "fab".
abbrev pub balance_request : (w : Wire) → String → Request w
balance_request w user = record {
  chaincode_id = "token";
  fcn = "balance";
  args = w.of_string "fab" ∷ w.of_string user ∷ [];
}

module _ {w : Wire} (sdk : Sdk w) where
  finish-Returned :
      (peer : String) (peer_type : ℕ) (function : String) (now : ℕ) (s : Split)
      (r : Executed w sdk.Fault) (st : State)
      → Returned (finish w sdk peer peer_type function now s r st).0
  unfolding finish
  finish-Returned peer peer_type function now s r st = ground arith

  -- The request for the peers that the token "fab" knows.
  abbrev pub peers_request : Request w
  peers_request = record { chaincode_id = "token"; fcn = "getPeers"; args = w.of_string "fab" ∷ [] }

  -- Every answer to the request for the token's peers names peers of `n` organisations only.
  abbrev pub AnswersNumbered : ℕ → Type 0
  AnswersNumbered n =
      (c : sdk.Client) (ps : List sdk.Peer) (b : w.Bytes)
      → sdk.query c peers_request ps ≡ ok b
      → AllNumbered (known_peers w sdk (ok b)) n

  -- What a network promises: each organisation has a peer, there is an organisation and there are
  -- fewer than 2^63, and the request for the token's peers is answered with peers of these
  -- organisations.
  pub record IsNetwork (orgs : Orgs w sdk) : Type 0 where
    pub staffed : AllStaffed orgs
    pub some_org : 0 < length orgs
    pub small : length orgs < 2 ^ 63
    pub numbered : AnswersNumbered (length orgs)

  -- Where a query's answer comes from.
  abbrev Answered : Request w → Outcome (Failure sdk.Fault) w.Bytes → Type 0
  Answered q (err e) = Unit
  Answered q (ok b) = (c : sdk.Client) × (ps : List sdk.Peer) × (sdk.query c q ps ≡ ok b)

  -- A query of an organisation that has a peer gives an answer and leaves the state alone.
  pub query_cc_calm :
      {S R : Type 0} (orgs : Orgs w sdk) (v : ℕ) (channel chaincode function : String)
      (args : List w.Bytes) (st : S)
      → AllStaffed orgs
      → v < length orgs
      → (result : Outcome (Failure sdk.Fault) w.Bytes) × (query_cc w sdk {R = R} orgs
            (pos v)
            channel
            chaincode
            function
            args
            st
          ≡ (go result, st))
        × Answered (record { chaincode_id = chaincode; fcn = function; args = args }) result
  unfolding query_cc
  query_cc_calm orgs v channel chaincode function args st staffed lt =
      let (org, found, target, known) = peer_at_total orgs v staffed lt in
      elim (Outcome-cases (sdk.new_client channel org.config)) [
        | inr (e, failing) ↦ (err (no_client org.config.name), rw (found, failing), tt)
        | inl (client, fine) ↦
            (let request : Request w = record {
              chaincode_id = chaincode;
              fcn = function;
              args = args;
            } in
              elim (Outcome-cases (sdk.query client request (target ∷ []))) [
                | inr (e, failing) ↦ (err (fault e), rw (found, fine, known, failing), tt)
                | inl (b, answered) ↦
                    (ok b, rw (found, fine, known, answered), (client, target ∷ [], answered))
              ])
      ]

  pub known_peers-AllNumbered :
      (result : Outcome (Failure sdk.Fault) w.Bytes) (n : ℕ)
      → AnswersNumbered n
      → Answered peers_request result
      → AllNumbered (known_peers w sdk result) n
  unfolding known_peers unmarshal
  known_peers-AllNumbered (err e) n numbered a = tt
  known_peers-AllNumbered (ok b) n numbered (c, ps, e) = numbered c ps b e

  submit_total :
      (orgs : Orgs w sdk) (client : sdk.Client) (creator nonce : w.Bytes) (txid peer : String)
      (peer_type now : ℕ) (request : Request w) (st : State)
      → AllStaffed orgs
      → 0 < length orgs
      → length orgs < 2 ^ 63
      → AnswersNumbered (length orgs)
      → Returned (submit w sdk orgs client creator nonce txid peer peer_type now request st).0
  unfolding submit
  submit_total orgs client creator nonce txid peer peer_type now request st staffed some_org small
        numbered =
      let (result, asked, answered) =
        query_cc_calm {R = Reply w sdk} orgs 0 "mychannel1" "token" "getPeers"
          (w.of_string "fab" ∷ []) st staffed some_org in
      let (s, parted, targets, chosen) =
        choose_targets_total orgs (known_peers w sdk result) small staffed
          (known_peers-AllNumbered result (length orgs) numbered answered) in
      rw (asked, parted, chosen, submit)
        (finish-Returned peer peer_type request.fcn now s
          (sdk.execute client creator nonce request targets)
          (record st { tx_list = insert txid (sender w sdk peer peer_type s) st.tx_list }))

  -- InvokeCC ends before it has an identifier for the transaction, and has changed nothing; or it
  -- goes on to `submit`, under the identifier that comes from its random bytes.
  pub invoke_cc-cases :
      (orgs : Orgs w sdk) (now : ℕ) (random : Outcome sdk.Fault w.Bytes) (peer : String)
      (peer_type v : ℕ) (channel chaincode function : String) (args : List w.Bytes) (st : State)
      → AllStaffed orgs
      → v < length orgs
      → let r =
          invoke_cc w sdk orgs now random peer peer_type
            (pos v)
            channel
            chaincode
            function
            args
            st in
        (Returned r.0 × (r.1 ≡ st))
        ⊎ ((client : sdk.Client) × (creator nonce digest : w.Bytes) × ((random ≡ ok nonce)
              × (sdk.hash nonce creator ≡ ok digest)
              × (r
                  ≡ submit w sdk orgs client creator nonce
                      (sdk.hex digest)
                      peer
                      peer_type
                      now
                      (record { chaincode_id = chaincode; fcn = function; args = args })
                      st)))
  unfolding invoke_cc at
  invoke_cc-cases orgs now random peer peer_type v channel chaincode function args st staffed lt =
      let (org, found, target, known) = peer_at_total orgs v staffed lt in
      elim (Outcome-cases (sdk.new_client channel org.config)) [
        | inr (e, refused) ↦ rw (found, refused, invoke_cc) (inl (tt, refl))
        | inl (client, has_client) ↦ elim (Outcome-cases (sdk.new_identity org.config)) [
          | inr (e, refused) ↦ rw (found, has_client, refused, invoke_cc) (inl (tt, refl))
          | inl (signer, signs) ↦ elim (Outcome-cases (sdk.serialize signer)) [
            | inr (e, refused) ↦ rw (found, has_client, signs, refused, invoke_cc) (inl (tt, refl))
            | inl (creator, created) ↦ elim (Outcome-cases random) [
              | inr (e, refused) ↦
                  rw (found, has_client, signs, created, refused, invoke_cc) (inl (tt, refl))
              | inl (nonce, drawn) ↦ elim (Outcome-cases (sdk.hash nonce creator)) [
                | inr (e, refused) ↦
                    rw (found, has_client, signs, created, drawn, refused, invoke_cc)
                      (inl (tt, refl))
                | inl (digest, hashed) ↦
                    rw (found, has_client, signs, created, drawn, hashed, invoke_cc)
                      (inr (client, creator, nonce, digest, (refl, hashed, refl)))
              ]
            ]
          ]
        ]
      ]

  -- InvokeCC meets no panic and ends with a reply or an error, from every state and for all answers
  -- of the SDK, where a message to a web socket is one that the socket takes: if its index is the
  -- position of an organisation, each organisation has a peer, and the request for the token's peers,
  -- if it is answered, is answered with peers of these organisations only.
  pub invoke_cc_total :
      (orgs : Orgs w sdk) (now : ℕ) (random : Outcome sdk.Fault w.Bytes) (peer : String)
      (peer_type v : ℕ) (channel chaincode function : String) (args : List w.Bytes) (st : State)
      → AllStaffed orgs
      → v < length orgs
      → length orgs < 2 ^ 63
      → AnswersNumbered (length orgs)
      → Returned
          (invoke_cc w sdk orgs now random peer peer_type
            (pos v)
            channel
            chaincode
            function
            args
            st).0
  invoke_cc_total orgs now random peer peer_type v channel chaincode function args st staffed lt
        small numbered =
      elim (invoke_cc-cases orgs now random peer peer_type v channel chaincode function args st
        staffed lt) [
          | inl (returned, same) ↦ returned
          | inr (client, creator, nonce, digest, (drawn, hashed, on)) ↦ rw on (
              submit_total orgs client creator nonce (sdk.hex digest) peer peer_type now
                (record { chaincode_id = chaincode; fcn = function; args = args }) st staffed
                (omega arith) small numbered)
        ]
