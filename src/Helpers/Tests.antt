-- ===== src/Helpers/Tests.antt =====
-- The theorems about server/helpers at concrete inputs: a disk as the list of its paths, and a
-- logging library that only keeps the adapters it is given.
use fabric_byzantine.Base.{refl, Bool, true, false, List, [], ◌∷◌, arith, str_append, eq_iff}
use fabric_byzantine.Int.{pos}
use fabric_byzantine.Dict.{Dict, lookup, insert, lookup-insert, lookup-insert_self}
use fabric_byzantine.Flow.{ok}
use fabric_byzantine.Helpers.{DbInfo, Application}
use fabric_byzantine.Helpers.Logging.{Disk, Adapter, Logs, IsDisk}

abbrev paths : Disk
paths = record {
  State = Dict Bool;
  join = λ dir name. str_append dir name;
  stat = λ p s. lookup p s;
  mkdir_all = λ p s. (ok tt, insert p true s);
  write_empty = λ p s. (ok tt, insert p false s);
}

paths-IsDisk : (logs : Logs) → IsDisk paths logs
paths-IsDisk logs = record {
  made = λ p s absent. (insert p true s, refl, lookup-insert_self p true s);
  written = λ dir name s there absent. (
    insert (str_append dir name) false s,
    refl,
    lookup-insert_self (str_append dir name) false s,
    ground (
      arith,
      there,
      absent,
      lookup-insert (str_append dir name) dir false s,
      eq_iff (str_append dir name) dir,
    ),
  );
}

abbrev adapters : Logs
adapters = record {
  Logger = List Adapter;
  new_logger = [];
  set_logger = λ a c l. (ok tt, a ∷ l);
  enable_func_call_depth = λ b l. l;
  set_log_func_call_depth = λ n l. l;
}

abbrev db : DbInfo
db = record {
  user = "root";
  password = "secret";
  name = "explore";
  host = "localhost";
  port = "3306";
  max_open_conns = pos 10000;
  max_idle_conns = pos 1000;
}

abbrev conf : Application
conf = record {
  log_path = "";
  log_level = pos 7;
  org_info = [];
  orderer_info = [];
  db = db;
  tx_num_per_block = pos 100;
  tx_interval = pos 30;
}
