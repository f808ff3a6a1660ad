-- ===== src/Server/Provider.antt =====
-- NewFabSdkProvider and loadOrgPeers of server/fabsdk.go: how the organisations that the gateway
-- uses come out of the configuration. The SDK's constructors are parameters. The clients for
-- administration and for the MSP are made and never used again, so they are not kept.
mod Tests
use fabric_byzantine.Base.{
  ◌<◌, ◌≡◌, refl, ap, String, List, [], ◌∷◌, map, Option, none, some, arith, length, inl, inr,
  Option-cases,
}
pub use fabric_byzantine.Helpers.{OrdererInfo}
use fabric_byzantine.Flow.{Outcome, Outcome-cases, ok, err}
use fabric_byzantine.Server.Targets.{OrgInfo, OrgInstance}
use fabric_byzantine.Server.Targets.Totality.{AllStaffed}

pub data StartError (F : Type 0) : Type 0 where
  fault : F → StartError F
  no_peers : String → StartError F
  no_orgs : StartError F

-- The calls of the SDK: the two constructors of clients (of a user's context), the context of a
-- user of an organisation, the configured peers of an organisation, and a peer of a configuration.
pub record Setup : Type 1 where
  pub Peer : Type 0
  pub Context : Type 0
  pub PeerConfig : Type 0
  pub Fault : Type 0
  pub new_sdk : Outcome Fault (Unit {0})
  pub new_msp_client : String → Outcome Fault (Unit {0})
  pub new_admin_client : String → String → Outcome Fault (Unit {0})
  pub context : String → String → Outcome Fault Context
  pub peers_config : Context → String → Option (List PeerConfig)
  pub create_peer : Context → PeerConfig → Outcome Fault Peer

pub record Provider (P : Type 0) : Type 0 where
  pub orgs : List (OrgInstance P)
  pub orderers : List OrdererInfo

module _ (setup : Setup) where
  abbrev pub Started : Type 0 → Type 0
  Started A = Outcome (StartError setup.Fault) A

  unfoldable pub create_peers : setup.Context → List setup.PeerConfig → Started (List setup.Peer)
  create_peers c [] = ok []
  create_peers c (v ∷ vs) = elim (setup.create_peer c v) [
    | err e ↦ err (fault e)
    | ok p ↦ elim (create_peers c vs) [ err e ↦ err e | ok ps ↦ ok (p ∷ ps) ]
  ]

  unfoldable pub load_org_peers : String → String → Started (List setup.Peer)
  unfolding create_peers
  load_org_peers user org = elim (setup.context user org) [
    | err e ↦ err (fault e)
    | ok c ↦ elim (setup.peers_config c org) [
      | none ↦ err (no_peers org)
      | some vs ↦ create_peers c vs
    ]
  ]

  unfoldable pub load_org : OrgInfo → Started (OrgInstance setup.Peer)
  unfolding load_org_peers
  load_org o = elim (setup.new_msp_client o.name) [
    | err e ↦ err (fault e)
    | ok tt ↦ elim (setup.new_admin_client o.admin o.name) [
      | err e ↦ err (fault e)
      | ok tt ↦ elim (load_org_peers o.admin o.name) [
        | err e ↦ err e
        | ok ps ↦ ok (record { config = o; peers = ps })
      ]
    ]
  ]

  unfoldable pub load_orgs : List OrgInfo → Started (List (OrgInstance setup.Peer))
  unfolding load_org
  load_orgs [] = ok []
  load_orgs (o ∷ os) = elim (load_org o) [
    | err e ↦ err e
    | ok i ↦ elim (load_orgs os) [ err e ↦ err e | ok is ↦ ok (i ∷ is) ]
  ]

  unfoldable pub load_orderers : List OrdererInfo → Started (List OrdererInfo)
  load_orderers [] = ok []
  load_orderers (o ∷ os) = elim (setup.new_admin_client o.admin o.name) [
    | err e ↦ err (fault e)
    | ok tt ↦ elim (load_orderers os) [ err e ↦ err e | ok is ↦ ok (o ∷ is) ]
  ]

  unfoldable pub new_provider : List OrgInfo → List OrdererInfo → Started (Provider setup.Peer)
  unfolding load_orgs load_orderers
  new_provider orgs orderers = elim setup.new_sdk [
    | err e ↦ err (fault e)
    | ok tt ↦ elim (load_orgs orgs) [
      | err e ↦ err e
      | ok [] ↦ err no_orgs
      | ok (i ∷ is) ↦ elim (load_orderers orderers) [
        | err e ↦ err e
        | ok os ↦ ok (record { orgs = i ∷ is; orderers = os })
      ]
    ]
  ]

  -- Each of the peers that a configuration lists can be made.
  abbrev AllMade : setup.Context → List setup.PeerConfig → Type 0
  AllMade c [] = Unit
  AllMade c (v ∷ vs) = ((p : setup.Peer) × (setup.create_peer c v ≡ ok p)) × AllMade c vs

  -- What the network's configuration promises of an organisation: a client for its MSP, and of its
  -- administrator a client and a context, in which it has peers that can be made.
  pub record HasOrg (o : OrgInfo) : Type 0 where
    pub msp : setup.new_msp_client o.name ≡ ok tt
    pub admin : setup.new_admin_client o.admin o.name ≡ ok tt
    pub context : setup.Context
    pub known : setup.context o.admin o.name ≡ ok context
    pub first : setup.PeerConfig
    pub others : List setup.PeerConfig
    pub listed : setup.peers_config context o.name ≡ some (first ∷ others)
    pub made : AllMade context (first ∷ others)

  abbrev HasOrgs : List OrgInfo → Type 0
  HasOrgs [] = Unit
  HasOrgs (o ∷ os) = HasOrg o × HasOrgs os

  -- Each orderer's administrator has a client.
  abbrev HasOrderers : List OrdererInfo → Type 0
  HasOrderers [] = Unit
  HasOrderers (o ∷ os) = (setup.new_admin_client o.admin o.name ≡ ok tt) × HasOrderers os

  -- The SDK can be made, and the network's configuration has the organisations and the orderers of
  -- the program's configuration.
  pub record IsConfigured (orgs : List OrgInfo) (orderers : List OrdererInfo) : Type 0 where
    pub sdk : setup.new_sdk ≡ ok tt
    pub orgs_known : HasOrgs orgs
    pub orderers_known : HasOrderers orderers

  create_peers_all :
      (c : setup.Context) (vs : List setup.PeerConfig)
      → AllMade c vs
      → (ps : List setup.Peer) × (create_peers c vs ≡ ok ps) × (length ps ≡ length vs)
  unfolding create_peers
  create_peers_all c [] h = ([], refl, refl)
  create_peers_all c (v ∷ vs) h =
      let (p, made) = h.0 in
      let (ps, rest, same) = create_peers_all c vs h.1 in
      (p ∷ ps, rw (made, rest, create_peers) refl, omega (arith, same))

  load_org_all :
      (o : OrgInfo)
      → HasOrg o
      → (ps : List setup.Peer) × (load_org o ≡ ok (record { config = o; peers = ps }))
        × (0 < length ps)
  unfolding load_org load_org_peers
  load_org_all o h =
      let (ps, made, same) = create_peers_all h.context (h.first ∷ h.others) h.made in
      (
        ps,
        rw (h.msp, h.admin, h.known, h.listed, made, load_org_peers, load_org) refl,
        omega (arith, same),
      )

  load_orgs_all :
      (os : List OrgInfo)
      → HasOrgs os
      → (is : List (OrgInstance setup.Peer)) × (load_orgs os ≡ ok is)
        × (map (λ i. i.config) is ≡ os)
        × AllStaffed is
  unfolding load_orgs
  load_orgs_all [] h = ([], refl, refl, tt)
  load_orgs_all (o ∷ os) h =
      let (ps, made, staffed) = load_org_all o h.0 in
      let (is, rest, same, all) = load_orgs_all os h.1 in
      (
        record { config = o; peers = ps } ∷ is,
        rw (made, rest, load_orgs) refl,
        ap (λ l. o ∷ l) same,
        (staffed, all),
      )

  load_orderers_all : (os : List OrdererInfo) → HasOrderers os → load_orderers os ≡ ok os
  unfolding load_orderers
  load_orderers_all [] h = refl
  load_orderers_all (o ∷ os) h = rw (h.0, load_orderers_all os h.1, load_orderers) refl

  -- With at least one organisation in the configuration, and a network that has the configured
  -- organisations and orderers, the start succeeds: the provider has the configured organisations in
  -- their order, each with a peer, and the configured orderers.
  pub new_provider_total :
      (o : OrgInfo) (os : List OrgInfo) (orderers : List OrdererInfo)
      → IsConfigured (o ∷ os) orderers
      → (p : Provider setup.Peer) × (new_provider (o ∷ os) orderers ≡ ok p)
        × (map (λ i. i.config) p.orgs ≡ o ∷ os)
        × AllStaffed p.orgs
        × (p.orderers ≡ orderers)
  unfolding new_provider
  new_provider_total o os orderers h =
      let (ps, made, staffed) = load_org_all o h.orgs_known.0 in
      let (is, rest, same, all) = load_orgs_all os h.orgs_known.1 in
      (
        record { orgs = record { config = o; peers = ps } ∷ is; orderers = orderers },
        rw (h.sdk, made, rest, load_orderers_all orderers h.orderers_known, load_orgs, new_provider)
            refl,
        ap (λ l. o ∷ l) same,
        (staffed, all),
        refl,
      )
