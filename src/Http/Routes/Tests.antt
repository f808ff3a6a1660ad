-- ===== src/Http/Routes/Tests.antt =====
-- The statistics of the server after a tick, a request to invoke, one to the controller and a tick at
-- which the timer is off.
use fabric_byzantine.Base.{
  ◌≤◌, ◌≡◌, refl, String, true, List, [], ◌∷◌, Option, Bool-cases, inl, inr, none, some, arith,
  eq_iff, if◌then◌else◌,
}
use fabric_byzantine.Flow.{ok, err}
use fabric_byzantine.Testbed.{plain, documents}
use fabric_byzantine.Int.{sub64, wrap64, ◌-ℤ◌}
use fabric_byzantine.Strconv.{atoi_bytes}
use fabric_byzantine.Json.{
  unmarshal, decode_map, decode_members, decode_bool, encode_map, encode_members,
}
use fabric_byzantine.Token.Contract.{initial_peers}
use fabric_byzantine.Server.PeerName.{peer_number}
use fabric_byzantine.Server.Targets.{split, choose_targets}
use fabric_byzantine.Server.Gateway.{known_peers, query_cc, finish, submit, invoke_cc}
use fabric_byzantine.Http.{invoke, timer_tick, timer_control, answered}
use fabric_byzantine.Server.Statistics.{Statistics, count_committed}
use fabric_byzantine.Server.Tests.{network, orgs}
use fabric_byzantine.Http.Tests.{explorer}
use fabric_byzantine.Http.Routes.{
  Happening, request, tick, routes, serve, happen, happen_all, started,
}
use fabric_byzantine.Http.Routes.Patterns.{member, IsMux}
use fabric_byzantine.Http.Routes.History.{invokes, ticks_on, history_counted}

-- A multiplexer that takes the path itself, or else "/".
abbrev pick : List String → String → Option String
pick ps path = if member path ps then some path else if member "/" ps then some "/" else none

pick-IsMux : IsMux pick
pick-IsMux = record {
  own = λ ps p h. ground (arith, h);
  fixed = λ ps p path e h. elim (Bool-cases (member path ps)) [
    | inl there ↦ ground (arith, there, e)
    | inr missing ↦ elim (Bool-cases (member "/" ps)) [
      | inl home ↦ absurd (ground (arith, missing, home, e, h, eq_iff p "/"))
      | inr lost ↦ absurd (ground (arith, missing, lost, e))
    ]
  ];
}

abbrev ask : String → Happening documents String
ask path = request (record {
  path = path;
  method = "GET";
  host = "localhost:8080";
  form = λ name. "peer0.org2.example.com";
  body = err "closed";
  now = 9;
  random = ok (plain "n2");
  upgraded = true;
  uid = "uid";
  write = λ m. true;
  arrived = [];
  numbers = [];
})

abbrev history : List (Happening documents String)
history =
    tick 7 (ok (plain "n1")) ∷ ask "/invoke" ∷ ask "/controller" ∷ tick 8 (ok (plain "n3")) ∷ []

abbrev shown : Statistics
shown = record {
  byzantine_peers = 2;
  datetime = 7;
  normal_tx = 1;
  normal_commit = 1;
  byzantine_tx = 1;
  byzantine_commit = 0;
}

history-shown :
    (happen_all documents network explorer orgs plain pick history started).memory.table 2
    ≡ some shown
unfolding happen_all happen serve routes timer_tick timer_control invoke invoke_cc submit finish
    query_cc peer_number atoi_bytes known_peers unmarshal decode_map decode_members decode_bool
    encode_map encode_members initial_peers split choose_targets count_committed sub64 wrap64 ◌-ℤ◌
    answered
history-shown = refl

history_counted_example :
    (shown.normal_tx ≤ ticks_on true history)
    × (shown.byzantine_tx ≤ invokes history)
    × (shown.normal_commit ≤ shown.normal_tx)
    × (shown.byzantine_commit ≤ shown.byzantine_tx)
history_counted_example =
    history_counted network explorer orgs plain pick history 2 shown pick-IsMux (omega arith)
      history-shown
