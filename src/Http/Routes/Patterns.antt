-- ===== src/Http/Routes/Patterns.antt =====
-- What the patterns that main (main.go) registers do to the timer's flag and to the statistics.
use fabric_byzantine.Base.{
  ◌≡◌, inl, inr, refl, subst, Option-cases, Bool-cases, String, Bool, true, false, not, List, [],
  ◌∷◌, map, Option, none, some, arith, str_eq, eq_iff, if◌then◌else◌,
}
use fabric_byzantine.Strconv.Digits.{format_uint}
use fabric_byzantine.Json.{Wire}
use fabric_byzantine.Dict.{Dict, lookup}
use fabric_byzantine.Mysql.{Database}
use fabric_byzantine.Server.Statistics.Tally.{after}
use fabric_byzantine.Server.Gateway.{Sdk, Orgs}
use fabric_byzantine.Http.{Site, muma, get_statistics, timer_control, controller_state}
use fabric_byzantine.Http.Sockets.{
  Channel, block_chans, block_number_chans, tx_chans, tx_number_chans,
}
use fabric_byzantine.Http.Routes.{
  Request, Served, watch, block_number_socket, block_socket, transaction_number_socket,
  transaction_socket, echo_socket, home, routes, serve,
}
use fabric_byzantine.Http.Routes.Watching.{socket-table}
use fabric_byzantine.Http.Routes.Effects.{query_still, invoke-Does, muma-Calm, Calm, Does}

abbrev pub member : String → List String → Bool
member k [] = false
member k (j ∷ ks) = if str_eq j k then true else member k ks

-- What net/http promises of its multiplexer, for patterns of which only "/" ends in a slash: a path
-- that is a pattern is served by it, and any other pattern than "/" serves no path but itself.
pub record IsMux (match : List String → String → Option String) : Type 0 where
  pub own : (ps : List String) (p : String) → member p ps ≡ true → match ps p ≡ some p
  pub fixed :
      (ps : List String) (p path : String)
      → match ps path ≡ some p
      → str_eq p "/" ≡ false
      → p ≡ path

Calm-Does : (counts : Bool) (u u' : Site) → Calm u u' → Does false counts false u u'
Calm-Does counts u u' (flag, table) = (flag, inl table)

counts_none :
    (counts : Bool) (u u' : Site) → Does false false false u u' → Does false counts false u u'
counts_none counts u u' (flag, inl kept) = (flag, inl kept)
counts_none counts u u' (flag, inr (e, normal, counted, after)) = absurd (ground (arith, counted))

module _ {w : Wire} (sdk : Sdk w) (db : Database) where
  -- A handler, if there is one, turns the flag under the pattern "/controller" only, and counts
  -- under "/invoke" only.
  abbrev DoesOnly : String → Option (Served w sdk db) → Type 0
  DoesOnly p none = Unit
  DoesOnly p (some handler) =
      (q : Request w sdk.Fault) (u : Site)
      → Does (str_eq p "/controller") (str_eq p "/invoke") false u (handler q u).1

  abbrev AllDo : Dict (Served w sdk db) → Type 0
  AllDo [] = Unit
  AllDo ((p, handler) ∷ rs) = DoesOnly p (some handler) × AllDo rs

  lookup-DoesOnly : (rs : Dict (Served w sdk db)) (p : String) → AllDo rs → DoesOnly p (lookup p rs)
  lookup-DoesOnly [] p all = tt
  lookup-DoesOnly ((j, handler) ∷ rs) p all = elim (Bool-cases (str_eq j p)) [
    | inl same ↦
        rw (same, lookup) (subst (λ k. DoesOnly k (some handler)) ((eq_iff j p).0 same) all.0)
    | inr other ↦ rw (other, lookup) (lookup-DoesOnly rs p all.1)
  ]

  watch-Calm :
      (c : Channel) (arrived : List String) (q : Request w sdk.Fault) (u : Site)
      → Calm u (watch w sdk db c arrived q u).1
  unfolding watch
  watch-Calm c arrived q u = elim (Bool-cases q.upgraded) [
    | inl accepted ↦ rw (accepted, watch) (refl, socket-table c q.uid q.write arrived u.memory)
    | inr lost ↦ rw (lost, watch) (refl, refl)
  ]

  socket-Does :
      (c : Channel) (arrived : List String) (q : Request w sdk.Fault) (u : Site)
      → Does false false false u (watch w sdk db c arrived q u).1
  socket-Does c arrived q u =
      Calm-Does false u (watch w sdk db c arrived q u).1 (watch-Calm c arrived q u)

  echo_socket-Calm : (q : Request w sdk.Fault) (u : Site) → Calm u (echo_socket w sdk db q u).1
  unfolding echo_socket
  echo_socket-Calm q u = ground arith

  module _ (orgs : Orgs w sdk) (render : String → w.Bytes) where
    routes-AllDo : AllDo (routes w sdk db orgs render)
    unfolding routes block_number_socket block_socket transaction_number_socket transaction_socket
        home get_statistics timer_control controller_state
    routes-AllDo = (
      (λ q u. invoke-Does sdk db orgs q.now q.random (q.form "peer") u),
      (
        (λ q u.
            rw (query_still sdk db orgs (q.form "user") (q.form "peer") u)
              (Calm-Does false u u (refl, refl))),
        (
          (λ q u. (refl, inl refl)),
          (
            (λ q u. socket-Does block_number_chans (map format_uint q.numbers) q u),
            (
              (λ q u. socket-Does block_chans q.arrived q u),
              (
                (λ q u. (refl, inl refl)),
                (
                  (λ q u. socket-Does tx_number_chans (map format_uint q.numbers) q u),
                  (
                    (λ q u. socket-Does tx_chans q.arrived q u),
                    (
                      (λ q u.
                          Calm-Does false u (muma w sdk db orgs q.now q.random q.method q.body u).1
                            (muma-Calm sdk db orgs q.now q.random q.method q.body u)),
                      (
                        (λ q u. (refl, inl refl)),
                        (
                          (λ q u. (refl, inl refl)),
                          (
                            (λ q u. (refl, inl refl)),
                            (
                              (λ q u. (refl, inl refl)),
                              (
                                (λ q u. (refl, inl refl)),
                                (
                                  (λ q u.
                                      Calm-Does false u (echo_socket w sdk db q u).1
                                        (echo_socket-Calm q u)),
                                  tt,
                                ),
                              ),
                            ),
                          ),
                        ),
                      ),
                    ),
                  ),
                ),
              ),
            ),
          ),
        ),
      ),
    )

    module _ (match : List String → String → Option String) (mux : IsMux match) where
      controller_served :
          (q : Request w sdk.Fault) (u : Site)
          → str_eq q.path "/controller" ≡ true
          → (serve w sdk db orgs render match q u).1 ≡ record u { timer_flag = not u.timer_flag }
      unfolding serve routes timer_control
      controller_served q u same =
          let path = (eq_iff q.path "/controller").0 same in
          let picked = mux.own (map (λ r. r.0) (routes w sdk db orgs render)) "/controller" refl in
          rw (path, picked, serve) refl

      -- A request turns the flag exactly if it is for "/controller", and counts one transfer at
      -- most, only if it is for "/invoke".
      pub serve-Does :
          (q : Request w sdk.Fault) (u : Site)
          → Does
              (str_eq q.path "/controller")
              (str_eq q.path "/invoke")
              false
              u
              (serve w sdk db orgs render match q u).1
      unfolding serve
      serve-Does q u = elim (Bool-cases (str_eq q.path "/controller")) [
        | inl same ↦ rw (same, controller_served q u same) (refl, inl refl)
        | inr other ↦
            let table = routes w sdk db orgs render in
            let patterns = map (λ r. r.0) table in
            elim (Option-cases (match patterns q.path)) [
              | inl unpicked ↦ rw (unpicked, other, serve) (refl, inl refl)
              | inr (p, picked) ↦ elim (Option-cases (lookup p table)) [
                | inl absent ↦ rw (picked, absent, other, serve) (refl, inl refl)
                | inr (handler, found) ↦
                    let only : DoesOnly p (some handler) =
                      subst (DoesOnly p) found (lookup-DoesOnly table p routes-AllDo) in
                    let done = only q u in
                    rw (picked, found, serve)
                      (elim (Bool-cases (str_eq p "/")) [
                        | inl slash ↦
                            let other_path : Does false false false u (handler q u).1 =
                              subst
                                (λ k.
                                  Does (str_eq k "/controller") (str_eq k "/invoke") false u
                                    (handler q u).1)
                                ((eq_iff p "/").0 slash) done in
                            rw other
                              (counts_none (str_eq q.path "/invoke") u (handler q u).1 other_path)
                        | inr fixed ↦
                            subst
                              (λ k.
                                Does (str_eq k "/controller") (str_eq k "/invoke") false u
                                  (handler q u).1)
                              (mux.fixed patterns p q.path picked fixed) done
                      ])
              ]
            ]
      ]
