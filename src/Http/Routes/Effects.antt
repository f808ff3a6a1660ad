-- ===== src/Http/Routes/Effects.antt =====
-- What a request to the server (main.go) does to the timer's flag and to the statistics.
use fabric_byzantine.Base.{
  ℕ, ◌≡◌, inl, inr, refl, ap, ◌∙◌, Option-cases, Bool-cases, String, Bool, true, false, not, [],
  ◌∷◌, arith, str_eq, if◌then◌else◌,
}
use fabric_byzantine.Int.{pos, sub64}
use fabric_byzantine.Strconv.{bytes_of}
use fabric_byzantine.Json.{Wire}
use fabric_byzantine.Flow.{
  Flow, Body, go_on, go, stop, crash, Outcome, Outcome-cases, Flow-cases, lift,
}
use fabric_byzantine.Mysql.{Database}
use fabric_byzantine.Server.PeerName.{peer_number}
use fabric_byzantine.Server.Statistics.{byzantine_num}
use fabric_byzantine.Server.State.{State}
use fabric_byzantine.Server.Gateway.{Sdk, Reply, Orgs, query_cc, invoke_cc}
use fabric_byzantine.Server.Gateway.Counted.{CountsOne, query_cc_still, invoke_cc-CountsOne}
use fabric_byzantine.Http.{
  Site, Reaction, Handler, reply_of, answered, changed, query, muma, invoke, byzantine_task,
  timer_tick,
}

-- What holds before a body goes on, and is kept by what follows, holds at the end.
go_on_kept :
    {S R A B : Type 0} (P : S → Type 0) (f : A → Body S R B) (r : Flow R A) (v : S)
    → P v
    → ((a : A) → P (f a v).1)
    → P (go_on r f v).1
go_on_kept P f (go a) v h kept = kept a
go_on_kept P f (stop x) v h kept = h
go_on_kept P f crash v h kept = h

-- What a request may do: the flag of the timer is turned or not, and the statistics count one
-- transfer at most.
abbrev pub Does : (turns counts normal : Bool) → Site → Site → Type 0
Does turns counts normal u u' =
    (u'.timer_flag ≡ (if turns then not u.timer_flag else u.timer_flag))
    × CountsOne normal counts u.memory.table u'.memory.table

-- The flag and the statistics are left alone.
abbrev pub Calm : Site → Site → Type 0
Calm u u' = (u'.timer_flag ≡ u.timer_flag) × (u'.memory.table ≡ u.memory.table)

module _ {w : Wire} (sdk : Sdk w) (db : Database) where
  pub query_still :
      (orgs : Orgs w sdk) (user peer : String) (u : Site) → (query w sdk db orgs user peer u).1 ≡ u
  unfolding query
  query_still orgs user peer u = elim (Option-cases (peer_number (bytes_of peer))) [
    | inl unread ↦ rw (unread, query) refl
    | inr (n, named) ↦
        let asked =
          query_cc w sdk {R = Reaction w sdk db} orgs (sub64 n (pos 1)) "mychannel1" "token"
            "balance" (w.of_string "fab" ∷ w.of_string user ∷ []) in
        let still =
          query_cc_still sdk (Reaction w sdk db) orgs (sub64 n (pos 1)) "mychannel1" "token"
            "balance" (w.of_string "fab" ∷ w.of_string user ∷ []) u.memory in
        rw (named, query)
          (elim (Flow-cases (asked u.memory).0) [
            | inr (inl (r, stopped)) ↦ rw stopped (ap (λ st. record u { memory = st }) still)
            | inr (inr crashed) ↦ rw crashed (ap (λ st. record u { memory = st }) still)
            | inl (result, gone) ↦ rw gone (elim (Outcome-cases result) [
              | inl (b, fine) ↦ rw fine (ap (λ st. record u { memory = st }) still)
              | inr (e, failed) ↦ rw failed (ap (λ st. record u { memory = st }) still)
            ])
          ])
  ]

  answered_still : (reply : Reply w sdk) (u : Site) → (answered w sdk db reply u).1 ≡ u
  unfolding answered
  answered_still reply u = ground arith

  -- A handler that calls InvokeCC and goes on with its reply.
  after_call :
      {A : Type 0} (P : Site → Type 0) (f : Reply w sdk → Handler w sdk db A)
      (call : Body State (Reply w sdk) (Unit {0})) (u : Site)
      → P (record u { memory = (call u.memory).1 })
      → ((reply : Reply w sdk) → P (f reply (record u { memory = (call u.memory).1 })).1)
      → P
          (go_on
            (reply_of w sdk db (call u.memory).0)
            f
            (record u { memory = (call u.memory).1 })).1
  after_call P f call u h kept =
      go_on_kept P f (reply_of w sdk db (call u.memory).0) (record u { memory = (call u.memory).1 })
        h kept

  pub invoke-Does :
      (orgs : Orgs w sdk) (now : ℕ) (random : Outcome sdk.Fault w.Bytes) (peer : String) (u : Site)
      → Does false true false u (invoke w sdk db orgs now random peer u).1
  unfolding invoke
  invoke-Does orgs now random peer u = elim (Option-cases (peer_number (bytes_of peer))) [
    | inl unread ↦ rw (unread, invoke) (refl, inl refl)
    | inr (n, named) ↦
        let args =
          w.of_string "fab"
          ∷ w.of_string "alice"
          ∷ w.of_string "bob"
          ∷ w.of_string "10"
          ∷ w.of_string "true"
          ∷ [] in
        let call =
          invoke_cc w sdk orgs now random peer 1 (sub64 n (pos 1)) "mychannel1" "token" "transfer"
            args in
        let counted =
          invoke_cc-CountsOne sdk orgs now random peer 1 (sub64 n (pos 1)) "mychannel1" "token"
            "transfer" args u.memory in
        rw (named, invoke)
          (after_call (Does false true false u) (answered w sdk db) call u (refl, counted)
            (λ reply.
              rw (answered_still reply (record u { memory = (call u.memory).1 })) (refl, counted)))
  ]

  byzantine_task-Calm :
      (orgs : Orgs w sdk) (now : ℕ) (u : Site) → Calm u (byzantine_task w sdk db orgs now u).1
  unfolding byzantine_task byzantine_num
  byzantine_task-Calm orgs now u =
      let asking =
        query_cc w sdk {R = Reaction w sdk db} orgs (pos 0) "mychannel1" "token" "getPeers"
          (w.of_string "fab" ∷ []) in
      let still =
        query_cc_still sdk (Reaction w sdk db) orgs (pos 0) "mychannel1" "token" "getPeers"
          (w.of_string "fab" ∷ []) u.memory in
      elim (Flow-cases (asking u.memory).0) [
        | inr (inl (r, stopped)) ↦ rw (stopped, byzantine_task) (refl, ap (λ s. s.table) still)
        | inr (inr crashed) ↦ rw (crashed, byzantine_task) (refl, ap (λ s. s.table) still)
        | inl (result, gone) ↦ rw (gone, byzantine_task) (refl, ap (λ s. s.table) still)
      ]

  changed-Calm :
      (orgs : Orgs w sdk) (now : ℕ) (body : w.Bytes) (reply : Reply w sdk) (u : Site)
      → Calm u (changed w sdk db orgs now body reply u).1
  unfolding changed
  changed-Calm orgs now body reply u = elim (Option-cases reply.failure) [
    | inr (e, failed) ↦ rw (failed, changed) (refl, refl)
    | inl fine ↦
        let task = byzantine_task w sdk db orgs now u in
        let calm = byzantine_task-Calm orgs now u in
        rw (fine, changed)
          (elim (Flow-cases task.0) [
            | inr (inl (r, stopped)) ↦ rw stopped calm
            | inr (inr crashed) ↦ rw crashed calm
            | inl (x, gone) ↦ rw gone calm
          ])
  ]

  pub muma-Calm :
      (orgs : Orgs w sdk) (now : ℕ) (random : Outcome sdk.Fault w.Bytes) (method : String)
      (request : Outcome String w.Bytes) (u : Site)
      → Calm u (muma w sdk db orgs now random method request u).1
  unfolding muma
  muma-Calm orgs now random method request u = elim (Bool-cases (str_eq method "OPTIONS")) [
    | inl asks ↦ rw (asks, muma) (refl, refl)
    | inr other ↦ elim (Outcome-cases request) [
      | inr (e, unread) ↦ rw (other, unread, muma) (refl, refl)
      | inl (body, read) ↦
          let args = w.of_string "fab" ∷ body ∷ w.of_string "false" ∷ [] in
          let call =
            invoke_cc w sdk orgs now random "peer0.org1.example.com" 0 (pos 0) "mychannel1" "token"
              "setPeer" args in
          let same : (call u.memory).1.table ≡ u.memory.table =
            elim (invoke_cc-CountsOne sdk orgs now random "peer0.org1.example.com" 0 (pos 0)
              "mychannel1" "token" "setPeer" args u.memory) [
                | inl kept ↦ kept
                | inr (e, normal, transfer, _) ↦ absurd (ground (arith, transfer))
              ] in
          rw (other, read, muma)
            (after_call (Calm u) (changed w sdk db orgs now body) call u (refl, same)
              (λ reply.
                let (flag, table) =
                  changed-Calm orgs now body reply (record u { memory = (call u.memory).1 }) in
                (flag, table ∙ same)))
    ]
  ]

  pub timer_tick-Does :
      (orgs : Orgs w sdk) (now : ℕ) (random : Outcome sdk.Fault w.Bytes) (u : Site)
      → Does false u.timer_flag true u (timer_tick w sdk db orgs now random u).1
  unfolding timer_tick
  timer_tick-Does orgs now random u = elim (Bool-cases u.timer_flag) [
    | inr off ↦ rw (off, timer_tick) (off, inl refl)
    | inl on ↦
        let args =
          w.of_string "fab"
          ∷ w.of_string "alice"
          ∷ w.of_string "bob"
          ∷ w.of_string "10"
          ∷ w.of_string "false"
          ∷ [] in
        let call =
          invoke_cc w sdk orgs now random "peer0.org1.example.com" 0 (pos 0) "mychannel1" "token"
            "transfer" args in
        let counted =
          invoke_cc-CountsOne sdk orgs now random "peer0.org1.example.com" 0 (pos 0) "mychannel1"
            "token" "transfer" args u.memory in
        rw (on, timer_tick)
          (after_call
            (λ v. (v.timer_flag ≡ true) × CountsOne true true u.memory.table v.memory.table)
            (λ _. lift (go tt)) call u (on, counted) (λ reply. (on, counted)))
  ]
