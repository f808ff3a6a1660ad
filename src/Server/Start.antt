-- ===== src/Server/Start.antt =====
-- server/server.go: the handler of the package, and its `init` over the configuration that
-- server/helpers/appconf.go has read. What else the program does at its start is in Helpers.Logging
-- (the logger) and Mysql.Manager (the connection to the database).
use fabric_byzantine.Base.{◌≡◌, refl, String, List, [], ◌∷◌, map, Option, none, some}
use fabric_byzantine.Flow.{ok, err}
use fabric_byzantine.Helpers.{
  OrgInfo, Application, Environment, go_path, get_config_path, load_config,
}
use fabric_byzantine.Server.Targets.Totality.{AllStaffed}
use fabric_byzantine.Server.Provider.{
  Setup, Provider, IsConfigured, new_provider, new_provider_total,
}

-- The pointer to the provider is nil at first.
pub record Handler (P : Type 0) : Type 0 where
  pub provider : Option (Provider P)

unfoldable pub new_handler : {P : Type 0} → Handler P
new_handler = record { provider = none }

unfoldable pub get_sdk_provider : {P : Type 0} → Handler P → Option (Provider P)
get_sdk_provider h = h.provider

module _ (env : Environment) (setup : Setup) where
  -- `none` is a panic: of the configuration, of the path of the SDK's own configuration, or on an
  -- error of NewFabSdkProvider.
  unfoldable pub init_server : Option (Handler setup.Peer)
  unfolding new_handler
  init_server = elim (load_config env) [
    | none ↦ none
    | some conf ↦ elim (get_config_path env "config.yaml") [
      | none ↦ none
      | some path ↦ elim (new_provider setup conf.org_info conf.orderer_info) [
        | err e ↦ none
        | ok p ↦ some (record new_handler { provider = some p })
      ]
    ]
  ]

  -- What the installation promises: a Go path, and a readable configuration.
  pub record IsInstalled (conf : Application) : Type 0 where
    pub root : String
    pub others : List String
    pub listed : env.split_list env.gopath ≡ root ∷ others
    pub file : env.File
    pub read :
        env.read_file (env.join (root ∷ "src" ∷ "fabric-byzantine" ∷ "conf" ∷ "app.yaml" ∷ []))
        ≡ ok file
    pub parsed : env.unmarshal file ≡ ok conf

  get_config_path_installed :
      (conf : Application) (i : IsInstalled conf) (name : String)
      → get_config_path env name
        ≡ some (env.join (i.root ∷ "src" ∷ "fabric-byzantine" ∷ "conf" ∷ name ∷ []))
  unfolding get_config_path go_path
  get_config_path_installed conf i name = rw (i.listed, get_config_path, go_path) refl

  load_config_installed : (conf : Application) → IsInstalled conf → load_config env ≡ some conf
  unfolding load_config
  load_config_installed conf i =
      rw (get_config_path_installed conf i "app.yaml", i.read, i.parsed, load_config) refl

  -- With a Go path, a readable configuration with at least one organisation, and a network whose own
  -- configuration has these organisations, each with a peer, and these orderers, with the
  -- administrators that are configured: the init of the package server meets no panic, and
  -- GetSdkProvider then gives a provider that has the configured organisations in their order, each
  -- with a peer, and the configured orderers.
  pub init_server_total :
      (conf : Application) (o : OrgInfo) (os : List OrgInfo)
      → IsInstalled conf
      → conf.org_info ≡ o ∷ os
      → IsConfigured setup (o ∷ os) conf.orderer_info
      → (h : Handler setup.Peer) × (p : Provider setup.Peer) × (init_server ≡ some h)
        × (get_sdk_provider h ≡ some p)
        × (map (λ i. i.config) p.orgs ≡ conf.org_info)
        × AllStaffed p.orgs
        × (p.orderers ≡ conf.orderer_info)
  unfolding init_server get_sdk_provider
  init_server_total conf o os i some_org configured =
      let (p, made, same, staffed, orderers) =
        new_provider_total setup o os conf.orderer_info configured in
      (
        record { provider = some p },
        p,
        rw
            (
              load_config_installed conf i,
              get_config_path_installed conf i "config.yaml",
              some_org,
              made,
              init_server,
            )
            refl,
        refl,
        rw some_org same,
        staffed,
        orderers,
      )
