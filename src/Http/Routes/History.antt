-- ===== src/Http/Routes/History.antt =====
-- What the statistics show after any history of requests and ticks of the timer (main.go,
-- server/fabsdk.go).
use fabric_byzantine.Base.{
  ℕ, ◌+◌, ◌^◌, ◌≤◌, ◌<◌, ◌≡◌, inl, inr, refl, subst, sym, ap, ◌∙◌, String, Bool, true, false, not,
  ◌&&◌, List, [], ◌∷◌, Option, some, arith, str_eq, length, if◌then◌else◌,
}
use fabric_byzantine.Json.{Wire}
use fabric_byzantine.Mysql.{Database}
use fabric_byzantine.Server.Statistics.{Statistics, Table}
use fabric_byzantine.Server.Statistics.Tally.{
  Event, count_event, after, count, of_row, row, row-IsTally, count_le, commits_le,
}
use fabric_byzantine.Server.Gateway.{Sdk, Orgs}
use fabric_byzantine.Server.Gateway.Counted.{CountsOne}
use fabric_byzantine.Http.{Site, timer_tick}
use fabric_byzantine.Http.Routes.{Happening, request, tick, serve, happen, happen_all, started}
use fabric_byzantine.Http.Routes.Effects.{timer_tick-Does}
use fabric_byzantine.Http.Routes.Patterns.{IsMux, serve-Does}

module _ {w : Wire} {F : Type 0} where
  -- The requests to invoke.
  abbrev pub invokes : List (Happening w F) → ℕ
  invokes [] = 0
  invokes (request q ∷ hs) = (if str_eq q.path "/invoke" then 1 else 0) + invokes hs
  invokes (tick now random ∷ hs) = invokes hs

  -- The ticks at which the timer is on, if each request to the controller turns it.
  abbrev pub ticks_on : Bool → List (Happening w F) → ℕ
  ticks_on on [] = 0
  ticks_on on (request q ∷ hs) = ticks_on (if str_eq q.path "/controller" then not on else on) hs
  ticks_on on (tick now random ∷ hs) = (if on then 1 else 0) + ticks_on on hs

  fewer : (on : Bool) (hs : List (Happening w F)) → invokes hs + ticks_on on hs ≤ length hs
  fewer on [] = omega arith
  fewer on (request q ∷ hs) =
      ground (arith, fewer (if str_eq q.path "/controller" then not on else on) hs)
  fewer on (tick now random ∷ hs) = ground (arith, fewer on hs)

-- The table counts transfers, so many of normal and of byzantine senders at most.
abbrev Counted : ℕ → ℕ → Table → Type 0
Counted normal byzantine table =
    (es : List Event) × (table ≡ after es)
    × (count (λ e. e.normal) es ≤ normal)
    × (count (λ e. not e.normal) es ≤ byzantine)

count_all :
    (es : List Event)
    → count (λ e. true) es ≡ count (λ e. e.normal) es + count (λ e. not e.normal) es
count_all [] = refl
count_all (e ∷ es) = ground (arith, count_all es)

CountsOne-Counted :
    (normal counts : Bool) (n b : ℕ) (table table' : Table)
    → CountsOne normal counts table table'
    → Counted n b table
    → Counted
        (n + (if normal && counts then 1 else 0))
        (b + (if not normal && counts then 1 else 0))
        table'
unfolding after
CountsOne-Counted normal counts n b table table' (inl kept) (es, same, le_n, le_b) =
    (es, kept ∙ same, ground (arith, le_n), ground (arith, le_b))
CountsOne-Counted normal counts n b table table' (inr (e, kind, counted, one))
      (es, same, le_n, le_b) =
    (
      e ∷ es,
      one ∙ ap (count_event e) same,
      ground (arith, le_n, kind, counted),
      ground (arith, le_b, kind, counted),
    )

module _ {w : Wire} (sdk : Sdk w) (db : Database) (orgs : Orgs w sdk) (render : String → w.Bytes)
    (match : List String → String → Option String) where
  happen_all-Counted :
      (hs : List (Happening w sdk.Fault)) (u : Site) (n b : ℕ)
      → IsMux match
      → Counted n b u.memory.table
      → Counted
          (n + ticks_on u.timer_flag hs)
          (b + invokes hs)
          (happen_all w sdk db orgs render match hs u).memory.table
  unfolding happen_all happen
  happen_all-Counted [] u n b mux (es, same, le_n, le_b) =
      (es, same, omega (arith, le_n), omega (arith, le_b))
  happen_all-Counted (request q ∷ hs) u n b mux h =
      let (flag, one) = serve-Does sdk db orgs render match mux q u in
      let u' = (serve w sdk db orgs render match q u).1 in
      let next =
        happen_all-Counted hs u' (n + 0) (b + (if str_eq q.path "/invoke" then 1 else 0)) mux (
          CountsOne-Counted false (str_eq q.path "/invoke") n b u.memory.table u'.memory.table one
            h) in
      let (es, same, le_n, le_b) = next in
      (es, same, ground (arith, rw flag at le_n), ground (arith, le_b))
  happen_all-Counted (tick now random ∷ hs) u n b mux h =
      let (flag, one) = timer_tick-Does sdk db orgs now random u in
      let u' = (timer_tick w sdk db orgs now random u).1 in
      let (es, same, le_n, le_b) =
        happen_all-Counted hs u' (n + (if u.timer_flag then 1 else 0)) (b + 0) mux
          (CountsOne-Counted true u.timer_flag n b u.memory.table u'.memory.table one h) in
      (es, same, ground (arith, rw flag at le_n), ground (arith, le_b))

  -- From the server's start, after any history of fewer than 2^64 requests and ticks of which each is
  -- handled to its end before the next begins, whatever the network answers to them, each row of the statistics shows no more normal transfers than there
  -- were ticks while the timer was on, where each request to the controller turns it, no more
  -- byzantine transfers than there were requests to invoke, and no more commits of either kind than
  -- transfers.
  pub history_counted :
      (hs : List (Happening w sdk.Fault)) (n : ℕ) (t : Statistics)
      → IsMux match
      → length hs < 2 ^ 64
      → (happen_all w sdk db orgs render match hs started).memory.table n ≡ some t
      → (t.normal_tx ≤ ticks_on true hs)
        × (t.byzantine_tx ≤ invokes hs)
        × (t.normal_commit ≤ t.normal_tx)
        × (t.byzantine_commit ≤ t.byzantine_tx)
  unfolding after
  history_counted hs n t mux small here =
      let (es, same, le_n, le_b) =
        happen_all-Counted hs started 0 0 mux ([], refl, omega arith, omega arith) in
      let shown : row n es ≡ t = ground (arith, sym (ap (λ table. table n) same) ∙ here) in
      let tally = row-IsTally n es in
      let few = fewer true hs in
      let (normal_le, byzantine_le) =
        commits_le n es (omega (arith, count_all es, le_n, le_b, few, small)) in
      subst
        (λ (r : Statistics).
          (r.normal_tx ≤ ticks_on true hs)
          × (r.byzantine_tx ≤ invokes hs)
          × (r.normal_commit ≤ r.normal_tx)
          × (r.byzantine_commit ≤ r.byzantine_tx))
        shown
        (
          omega (
            arith,
            tally.normal_tx,
            count_le (λ e. of_row n e && e.normal) (λ e. e.normal) es (λ e h. ground (arith, h)),
            le_n,
          ),
          omega (
            arith,
            tally.byzantine_tx,
            count_le (λ e. of_row n e && not e.normal) (λ e. not e.normal) es
                (λ e h. ground (arith, h)),
            le_b,
          ),
          normal_le,
          byzantine_le,
        )
