-- ===== src/Server/Restart/Tests.antt =====
-- The start of the server on an empty database: a ledger of three blocks, and two more that come.
use fabric_byzantine.Base.{
  ◌≡◌, refl, map, str_eq, List, [], ◌∷◌, Option, some, arith, if◌then◌else◌, String,
}
use fabric_byzantine.Flow.{go, ok}
use fabric_byzantine.Testbed.{plain, Doc, documents}
use fabric_byzantine.Mysql.{Database, get_block_height}
use fabric_byzantine.Server.State.{initial}
use fabric_byzantine.Server.Tests.{orgs, orgs-AllStaffed, network}
use fabric_byzantine.Server.Listener.{Statement, World, filter_at}
use fabric_byzantine.Server.Listener.Sync.{chain_from}
use fabric_byzantine.Server.Listener.Start.{Ledger, delivered, block_listener}
use fabric_byzantine.Server.Listener.Tests.{proto, block}
use fabric_byzantine.Server.Restart.{numbers, max_text, one_value, IsComplete, handle_all}
use fabric_byzantine.Server.Restart.CatchesUp.{IsSetting, restart_catches_up}

abbrev database : List (Statement Doc) → Database
database l = record {
  Fault = String;
  query = λ sql args. ok (
      if str_eq sql "select max(number) as height from block;"
      then one_value "height" (max_text (numbers l))
      else one_value "tx" (some "1"));
  prepare = λ sql. ok (λ args. Option.none);
}

setting : IsSetting network proto orgs 10 database block
unfolding filter_at
setting = record {
  staffed = orgs-AllStaffed;
  some_org = omega arith;
  numbered = λ n. refl;
  balances = record {
    client = λ o. (tt, refl);
    alice = λ c p. (plain "100", refl);
    bob = λ c p. (plain "100", refl);
  };
  headed = λ n. (((λ payload opened e. absurd (ground (arith, e))), (0, refl)), tt);
  explorer = record { height = λ l. refl; total = λ l. (some "1", refl) };
}

abbrev three_blocks : Ledger Doc
three_blocks = record { info = ok 3; block = λ n. ok (block n) }

abbrev at_first : World Doc
at_first = record { memory = initial; statements = [] }

restart_catches_up_example :
    let (r, handed) =
      block_listener orgs
        (ok (ok (delivered (block 2) ∷ map (λ b. delivered b) (chain_from block 3 2))))
        (ok three_blocks)
        (get_block_height (database []))
        [] in
    let (r', u') = handle_all documents network proto orgs 10 database handed at_first in
    (r ≡ go tt)
    × (r' ≡ go tt)
    × IsComplete u'.statements 4
    × (get_block_height (database u'.statements) ≡ some 4)
restart_catches_up_example =
    restart_catches_up network proto orgs 10 database block three_blocks 0 3 2 at_first setting
      (refl, λ n lt le. absurd (omega (arith, lt, le))) (omega arith) (omega arith) refl (λ n. refl)
