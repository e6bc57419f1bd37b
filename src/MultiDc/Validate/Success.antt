-- ===== src/MultiDc/Validate/Success.antt =====
-- What holds of a configuration that `validate_and_set_config3` accepts.
use cloudnative.Base.{
  need, lookup, length, ◌≤◌, All-map, Option-cases, inl, inr, sym, ◌∙◌, string_eq, String, ℕ, Bool,
  true, false, is_some, Option, none, some, List, [], ◌∷◌, ◌++◌, All, Dict, ok, >>=-eq-ok,
  ok-injective, ◌≡◌, refl, subst, arith, nat_eq, duplicate_port,
}
use cloudnative.Config.{Args}
use cloudnative.Machines.{Machines}
use cloudnative.Claims.{PortMap, add_port_to_machine}
use cloudnative.Claims.Distinct.{Distinct, claim_all, claim_all-Distinct}
use cloudnative.Allocate.{Site}
use cloudnative.Allocate.Claimed.{PortsClaimed, PortsClaimed-append, placed_nodes_ports}
use cloudnative.OneDc.Validate.{check_backup, check_elasticsearch}
use cloudnative.OneDc.Validate.Claimed.{mgrs_ports, items_ports}
use cloudnative.OneDc.Validate.Services.{
  backup_ports, check_backup-claim, elasticsearch_ports, check_elasticsearch-claim,
}
use cloudnative.OneKey.Shards.Claimed.{optional_claim}
use cloudnative.MultiDc.{DataCenter, Xpanel, XpanelNode, MultiDcConfig}
use cloudnative.MultiDc.Centers.{check_centers, check_bootstrap_centers}
use cloudnative.MultiDc.Managers.{too_few}
use cloudnative.MultiDc.Located.{entry}
use cloudnative.MultiDc.Located.Managers.{mgr_hosts, addresses_in}
use cloudnative.MultiDc.Located.Metas.{node_hosts, positions_in, validate_meta-MetasGathered}
use cloudnative.MultiDc.Meta.{validate_meta}
use cloudnative.MultiDc.Meta.Positions.{IsBooted, validate_meta-MetaValid}
use cloudnative.MultiDc.Validate.{
  claim_xpanel_node, claim_xpanel_nodes, xpanel_image, check_xpanel, is_firstboot,
  validate_managers, Validated, validate_and_set_config3,
}
use cloudnative.MultiDc.Validate.Managers.{
  validate_managers-Valid, check_centers-names, center_names,
}

abbrev pub xpanel_nodes_ports : List XpanelNode → List (String × ℕ)
xpanel_nodes_ports [] = []
xpanel_nodes_ports (n ∷ ns) = optional_claim n.ip n.port ++ xpanel_nodes_ports ns

abbrev pub xpanel_ports : Option Xpanel → List (String × ℕ)
xpanel_ports none = []
xpanel_ports (some x) = elim x.nodes [ none ↦ [] | some ns ↦ xpanel_nodes_ports ns ]

claim_xpanel_node-claim :
    (p q : PortMap) (n n' : XpanelNode)
    → claim_xpanel_node p n ≡ ok (q, n')
    → PortsClaimed p (optional_claim n'.ip n'.port) q
unfolding claim_xpanel_node claim_all add_port_to_machine
claim_xpanel_node-claim p q n n' h = ground arith

claim_xpanel_nodes-claim :
    (p q : PortMap) (ns ns' : List XpanelNode)
    → claim_xpanel_nodes p ns ≡ ok (q, ns')
    → PortsClaimed p (xpanel_nodes_ports ns') q
unfolding claim_xpanel_nodes
claim_xpanel_nodes-claim p q [] ns' h =
    subst (λ (r : PortMap × List XpanelNode). PortsClaimed p (xpanel_nodes_ports r.1) r.0)
      (ok-injective h) (unfold claim_all in refl)
claim_xpanel_nodes-claim p q (n ∷ ns) ns' h =
    let ((p1, n'), first, h1) = >>=-eq-ok (claim_xpanel_node p n) _ h in
    let ((p2, ns2), others, h2) = >>=-eq-ok (claim_xpanel_nodes p1 ns) _ h1 in
    subst (λ (r : PortMap × List XpanelNode). PortsClaimed p (xpanel_nodes_ports r.1) r.0)
      (ok-injective h2)
      (PortsClaimed-append p p1 p2 _ _ (claim_xpanel_node-claim p p1 n n' first)
        (claim_xpanel_nodes-claim p1 p2 ns ns2 others))

check_xpanel-claim :
    (args : Args) (p q : PortMap) (x x' : Option Xpanel)
    → check_xpanel args p x ≡ ok (q, x')
    → PortsClaimed p (xpanel_ports x') q
unfolding check_xpanel
check_xpanel-claim args p q none x' h =
    subst (λ (r : PortMap × Option Xpanel). PortsClaimed p (xpanel_ports r.1) r.0) (ok-injective h)
      (unfold claim_all in refl)
check_xpanel-claim args p q (some x) x' h =
    let (image, imaged, h1) = >>=-eq-ok (xpanel_image args x) _ h in
    let (given, present, h2) = >>=-eq-ok (need "nodes" x.nodes) _ h1 in
    let ((p1, ns), claimed, h3) = >>=-eq-ok (claim_xpanel_nodes p given) _ h2 in
    subst (λ (r : PortMap × Option Xpanel). PortsClaimed p (xpanel_ports r.1) r.0) (ok-injective h3)
      (claim_xpanel_nodes-claim p p1 given ns claimed)

-- Every (host, port) pair of the validated configuration, in the order of the claims.
abbrev pub sites_ports : Args → MultiDcConfig → Validated → List (String × ℕ)
sites_ports args jscfg v =
    ((((items_ports args jscfg.node_manager ++ mgrs_ports v.cluster_manager)
          ++ placed_nodes_ports "rbr" v.meta.nodes)
        ++ backup_ports v.backup)
      ++ xpanel_ports v.xpanel)
    ++ elasticsearch_ports v.elasticsearch

-- The cluster managers and the metadata nodes stay on the hosts of the configuration, and no two
-- managers share one. `dc_clustermgr_map` holds the addresses of the managers in a data center, and
-- `dc_meta_map` the positions of the metadata nodes in it.
pub record IsValidSites (args : Args) (jscfg : MultiDcConfig) (v : Validated) : Type 0 where
  pub ports_distinct : Distinct (sites_ports args jscfg v)
  pub has_primary : is_firstboot jscfg ≡ true → is_some v.dcprimary ≡ true
  pub manager_hosts : mgr_hosts v.cluster_manager ≡ mgr_hosts jscfg.cluster_manager
  pub managers_distinct : Distinct (mgr_hosts v.cluster_manager)
  pub managers_gathered :
      (dc : String)
      → entry v.dc_clustermgr_map dc ≡ addresses_in jscfg.node_manager dc jscfg.cluster_manager
  pub two_managers :
      is_firstboot jscfg ≡ true
      → All
          (λ dc. 2 ≤ length (addresses_in jscfg.node_manager dc jscfg.cluster_manager))
          (center_names jscfg.datacenters)
  pub meta_hosts : node_hosts v.meta.nodes ≡ node_hosts jscfg.meta.nodes
  pub metas_gathered :
      (dc : String) → entry v.dc_meta_map dc ≡ positions_in jscfg.node_manager dc 0 jscfg.meta.nodes
  pub two_metas :
      is_firstboot jscfg ≡ true
      → All
          (λ dc. 2 ≤ length (positions_in jscfg.node_manager dc 0 jscfg.meta.nodes))
          (center_names jscfg.datacenters)
  pub booted : is_firstboot jscfg ≡ true → IsBooted v.names v.dcprimary v.dc_meta_map v.meta.nodes

-- A center with enough entries in the map has as many nodes.
too_few-entry {ℓ} :
    {V : Type ℓ} (m : Dict (List V)) (dc : String) → too_few m dc ≡ false → 2 ≤ length (entry m dc)
too_few-entry m dc h = elim (Option-cases (lookup dc m)) [
  | inl e ↦ ground arith
  | inr (vs, e) ↦ ground arith
]

two_of_each {ℓ} :
    {V : Type ℓ} (m : Dict (List V)) (found : String → List V) (names centers : List String)
    → ((dc : String) → entry m dc ≡ found dc)
    → names ≡ centers
    → All (λ dc. too_few m dc ≡ false) names
    → All (λ dc. 2 ≤ length (found dc)) centers
two_of_each m found names centers same e h =
    subst (All (λ dc. 2 ≤ length (found dc))) e (
      All-map _ _ names (λ dc few. subst (λ vs. 2 ≤ length vs) (same dc) (too_few-entry m dc few))
        h)

bootstrap-primary :
    (boot : Bool) (p : Option DataCenter) (dcs : List DataCenter)
    → check_bootstrap_centers boot p dcs ≡ ok tt
    → boot ≡ true
    → is_some p ≡ true
unfolding check_bootstrap_centers
bootstrap-primary boot p dcs h b = ground arith

-- In a configuration of several data centers that is accepted, no (host, port) pair is claimed
-- twice by the node managers, the cluster managers, the metadata nodes, with the ports that were
-- given out to them, the backup, the panel and the search service. The cluster managers stay on the
-- hosts of the configuration, no two on the same one, and so do the metadata nodes on theirs; the two
-- maps from a data center hold exactly the managers' addresses and the metadata nodes' positions in
-- it, where a manager is in the data center that it names or else, like a metadata node always, in
-- that of its host's node manager. If it is a bootstrap, there is a primary data center, each data
-- center of the configuration has at least two cluster managers and two metadata nodes, and exactly
-- one metadata node is the primary, which is the first one of the primary data center.
pub validate_and_set_config3-IsValidSites :
    (args : Args) (jscfg : MultiDcConfig) (machines : Machines) (v : Validated)
    → validate_and_set_config3 args jscfg machines ≡ ok v
    → IsValidSites args jscfg v
unfolding validate_and_set_config3
validate_and_set_config3-IsValidSites args jscfg machines v h =
    let boot = is_firstboot jscfg in
    let ((p, dcs), centers, h1) = >>=-eq-ok (check_centers [] none jscfg.datacenters) _ h in
    let (_, primary, h2) = >>=-eq-ok (check_bootstrap_centers boot p dcs) _ h1 in
    let ((c, q1, m, nodes), managers, h3) =
      >>=-eq-ok (validate_managers args jscfg machines p dcs) _ h2 in
    let s1 : Site = record { machines = machines; ports = q1; nodemgrs = c.nodemgrs } in
    let ((s2, mm, meta), metas, h4) = >>=-eq-ok (validate_meta args boot c p s1 jscfg.meta) _ h3 in
    let ((q3, backup), backed, h5) = >>=-eq-ok (check_backup s2.ports jscfg.backup) _ h4 in
    let ((q4, xpanel), paneled, h6) = >>=-eq-ok (check_xpanel args q3 jscfg.xpanel) _ h5 in
    let ((q5, search), searched, h7) =
      >>=-eq-ok (check_elasticsearch q4 jscfg.elasticsearch) _ h6 in
    let a = validate_managers-Valid args jscfg machines p dcs c q1 m nodes managers in
    let g =
      validate_meta-MetasGathered args jscfg.node_manager boot c p s1 s2 jscfg.meta meta mm
        a.located metas in
    let all_names : boot ≡ true → c.names ≡ center_names jscfg.datacenters =
      λ yes. a.names yes ∙ check_centers-names [] none p jscfg.datacenters dcs centers in
    let b = validate_meta-MetaValid args boot c p s1 s2 jscfg.meta meta mm metas in
    let c2 = PortsClaimed-append [] q1 s2.ports _ _ a.claimed b.claimed in
    let c3 =
      PortsClaimed-append [] s2.ports q3 _ _ c2
        (check_backup-claim s2.ports q3 jscfg.backup backup backed) in
    let c4 =
      PortsClaimed-append [] q3 q4 _ _ c3
        (check_xpanel-claim args q3 q4 jscfg.xpanel xpanel paneled) in
    let c5 =
      PortsClaimed-append [] q4 q5 _ _ c4
        (check_elasticsearch-claim q4 q5 jscfg.elasticsearch search searched) in
    subst (λ (w : Validated). IsValidSites args jscfg w) (ok-injective h7)
      (record {
        ports_distinct = (claim_all-Distinct duplicate_port [] q5 _ c5).0;
        has_primary = bootstrap-primary boot p dcs primary;
        manager_hosts = a.hosts;
        managers_distinct = subst Distinct (sym a.hosts) a.distinct;
        managers_gathered = a.gathered;
        two_managers =
            λ yes. two_of_each m _ c.names _ a.gathered (all_names yes) (a.two_managers yes);
        meta_hosts = g.hosts;
        metas_gathered = g.positions;
        two_metas =
            λ yes. two_of_each mm _ c.names _ g.positions (all_names yes) (b.booted yes).two_metas;
        booted = b.booted;
      })
