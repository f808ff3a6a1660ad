-- ===== src/Mysql/Tests.antt =====
-- The theorems about the database's manager at a concrete package: handles are numbers, given out
-- in order.
use fabric_byzantine.Base.{
  ℕ, suc, ◌≡◌, refl, Bool, true, false, not, arith, leb, ◌==◌, if◌then◌else◌,
}
use fabric_byzantine.Int.{pos}
use fabric_byzantine.Flow.{go, ◌>>=◌, ok}
use fabric_byzantine.Helpers.{DbInfo}
use fabric_byzantine.Mysql.Manager.{Driver, new_db_mgr, close_db}
use fabric_byzantine.Mysql.Manager.Lifecycle.{IsDriver, close_db-new_db_mgr}

-- The next number, and which handles are closed.
pub record Pool : Type 0 where
  pub next : ℕ
  pub shut : ℕ → Bool

abbrev in_use : ℕ → Pool → Bool
in_use h s = if leb (suc h) s.next then not (s.shut h) else false

abbrev given : Pool → Pool
given s = record { next = suc s.next; shut = λ q. if s.next == q then false else s.shut q }

abbrev numbers : Driver
numbers = record {
  State = Pool;
  Handle = ℕ;
  connect = λ n d s. (ok s.next, given s);
  set_max_open_conns = λ h n s. s;
  set_max_idle_conns = λ h n s. s;
  ping = λ h s. (ok tt, s);
  prepare = λ h t s. (ok s.next, given s);
  close = λ h s. (ok tt, record s { shut = λ q. if h == q then true else s.shut q });
}

unused : (s : Pool) → in_use s.next s ≡ false
unused s = ground arith

in_use-given : (q : ℕ) (s : Pool) → in_use q (given s) ≡ (if s.next == q then true else in_use q s)
in_use-given q s = ground arith

numbers-IsDriver : IsDriver numbers
numbers-IsDriver = record {
  live = in_use;
  same = λ h q. h == q;
  same_refl = λ h. ground arith;
  same_eq = λ h q e. ground arith;
  connected = λ n d s. (s.next, given s, refl, unused s, λ q. in_use-given q s);
  max_open = λ h q n s. refl;
  max_idle = λ h q n s. refl;
  reached = λ h s e. (s, refl, λ q. refl);
  prepared = λ h t s e. (s.next, given s, refl, unused s, λ q. in_use-given q s);
  closed = λ h s e.
      (record s { shut = λ q. if h == q then true else s.shut q }, refl, λ q. ground arith);
}

abbrev config : DbInfo
config = record {
  user = "root";
  password = "secret";
  name = "explore";
  host = "localhost";
  port = "3306";
  max_open_conns = pos 10000;
  max_idle_conns = pos 1000;
}

abbrev start : Pool
start = record { next = 0; shut = λ q. false }

close_db-new_db_mgr_example :
    (s' : Pool) × ((new_db_mgr numbers {R = Unit {0}} config >>= λ m. close_db numbers m) start
      ≡ (go tt, s'))
    × ((q : ℕ) → numbers-IsDriver.live q s' ≡ numbers-IsDriver.live q start)
close_db-new_db_mgr_example = close_db-new_db_mgr numbers config start numbers-IsDriver
