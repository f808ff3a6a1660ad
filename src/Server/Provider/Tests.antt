-- ===== src/Server/Provider/Tests.antt =====
-- The start of the gateway and of the package server at a concrete configuration.
use fabric_byzantine.Base.{
  ℕ, ◌≡◌, refl, String, [], ◌∷◌, map, some, none, str_eq, ◌&&◌, ◌||◌, if◌then◌else◌,
}
use fabric_byzantine.Flow.{ok, err}
use fabric_byzantine.Server.Targets.{OrgInfo}
use fabric_byzantine.Server.Targets.Totality.{AllStaffed}
use fabric_byzantine.Int.{pos}
use fabric_byzantine.Helpers.{Application, Environment}
use fabric_byzantine.Server.Start.{
  Handler, get_sdk_provider, init_server, IsInstalled, init_server_total,
}
use fabric_byzantine.Server.Provider.{OrdererInfo, Setup, Provider, HasOrg, IsConfigured}

abbrev setup : Setup
setup = record {
  Peer = ℕ;
  Context = String;
  PeerConfig = ℕ;
  Fault = String;
  new_sdk = ok tt;
  new_msp_client = λ o. if str_eq o "Org1" then ok tt else err "unknown organisation";
  new_admin_client = λ u o.
      if str_eq u "Admin" && (str_eq o "Org1" || str_eq o "OrdererOrg")
      then ok tt
      else err "unknown user";
  context = λ u o. if str_eq u "Admin" && str_eq o "Org1" then ok o else err "unknown user";
  peers_config = λ c o. if str_eq c o then some (1 ∷ 2 ∷ []) else none;
  create_peer = λ c v. ok v;
}

abbrev first_org : OrgInfo
first_org = record { name = "Org1"; admin = "Admin"; user = "User1" }

abbrev orderer : OrdererInfo
orderer = record { name = "OrdererOrg"; admin = "Admin"; endpoint = "orderer.example.com" }

-- The network knows this organisation's administrator and no other.
first_org-HasOrg : HasOrg setup first_org
first_org-HasOrg = record {
  msp = refl;
  admin = refl;
  context = "Org1";
  known = refl;
  first = 1;
  others = 2 ∷ [];
  listed = refl;
  made = ((1, refl), ((2, refl), tt));
}

setup-IsConfigured : IsConfigured setup (first_org ∷ []) (orderer ∷ [])
setup-IsConfigured = record {
  sdk = refl;
  orgs_known = (first_org-HasOrg, tt);
  orderers_known = (refl, tt);
}

abbrev conf : Application
conf = record {
  log_path = "logs";
  log_level = pos 7;
  org_info = first_org ∷ [];
  orderer_info = orderer ∷ [];
  db = record {
    user = "root";
    password = "secret";
    name = "explore";
    host = "localhost";
    port = "3306";
    max_open_conns = pos 10000;
    max_idle_conns = pos 1000;
  };
  tx_num_per_block = pos 100;
  tx_interval = pos 30;
}

-- One Go path, and a file system in which every file is the configuration.
abbrev env : Environment
env = record {
  File = Application;
  gopath = "/go";
  split_list = λ s. s ∷ [];
  join = λ parts. "path";
  read_file = λ p. ok conf;
  unmarshal = λ c. ok c;
}

env-IsInstalled : IsInstalled env setup conf
env-IsInstalled = record {
  root = "/go";
  others = [];
  listed = refl;
  file = conf;
  read = refl;
  parsed = refl;
}

init_server_total_example :
    (h : Handler ℕ) × (p : Provider ℕ) × (init_server env setup ≡ some h)
    × (get_sdk_provider h ≡ some p)
    × (map (λ i. i.config) p.orgs ≡ first_org ∷ [])
    × AllStaffed p.orgs
    × (p.orderers ≡ orderer ∷ [])
init_server_total_example =
    init_server_total env setup conf first_org [] env-IsInstalled refl setup-IsConfigured
