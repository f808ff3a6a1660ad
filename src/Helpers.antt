-- ===== src/Helpers.antt =====
-- server/helpers: the configuration (appconf.go), the paths (utils.go, metadata.go) and, in Logging,
-- the logger. The functions on paths, the reading of a file and the YAML library are parameters.
pub mod Logging
mod Tests
use fabric_byzantine.Base.{String, List, [], ◌∷◌, Option, none, some, get_elem?}
use fabric_byzantine.Int.{ℤ}
use fabric_byzantine.Flow.{Outcome, ok, err}

-- The configuration of an organisation, of an orderer and of the database.
pub record OrgInfo : Type 0 where
  pub name : String
  pub admin : String
  pub user : String

pub record OrdererInfo : Type 0 where
  pub name : String
  pub admin : String
  pub endpoint : String

pub record DbInfo : Type 0 where
  pub user : String
  pub password : String
  pub name : String
  pub host : String
  pub port : String
  pub max_open_conns : ℤ
  pub max_idle_conns : ℤ

pub record Application : Type 0 where
  pub log_path : String
  pub log_level : ℤ
  pub org_info : List OrgInfo
  pub orderer_info : List OrdererInfo
  pub db : DbInfo
  pub tx_num_per_block : ℤ
  pub tx_interval : ℤ

-- `build.Default.GOPATH`, `filepath.SplitList`, `path.Join`, `ioutil.ReadFile`, and
-- `yaml.Unmarshal` into an empty configuration.
pub record Environment : Type 1 where
  pub File : Type 0
  pub gopath : String
  pub split_list : String → List String
  pub join : List String → String
  pub read_file : String → Outcome String File
  pub unmarshal : File → Outcome String Application

abbrev pub project : String
project = "fabric-byzantine"

module _ (env : Environment) where
  -- `none` is the panic on an empty list.
  unfoldable pub go_path : Option String
  go_path = get_elem? (env.split_list env.gopath) 0

  unfoldable pub get_config_path : String → Option String
  unfolding go_path
  get_config_path filename = elim go_path [
    | none ↦ none
    | some root ↦ some (env.join (root ∷ "src" ∷ project ∷ "conf" ∷ filename ∷ []))
  ]

  unfoldable pub get_channel_config_path : String → Option String
  unfolding go_path
  get_channel_config_path filename = elim go_path [
    | none ↦ none
    | some root ↦ some (env.join (root ∷ "src" ∷ project ∷ "channel-artifacts" ∷ filename ∷ []))
  ]

  unfoldable pub get_deploy_path : Option String
  unfolding go_path
  get_deploy_path = elim go_path [
    | none ↦ none
    | some root ↦ some (env.join (root ∷ "src" ∷ project ∷ "chaincode" ∷ []))
  ]

  -- `init` of appconf.go: the configuration, or the panic.
  unfoldable pub load_config : Option Application
  unfolding get_config_path
  load_config = elim (get_config_path "app.yaml") [
    | none ↦ none
    | some path ↦ elim (env.read_file path) [
      | err e ↦ none
      | ok file ↦ elim (env.unmarshal file) [ err e ↦ none | ok conf ↦ some conf ]
    ]
  ]
