-- ===== src/MultiDc/Managers.antt =====
-- The managers of `validate_and_set_config3`: node managers and their data centers, and the cluster
-- managers of a data center with their election timeouts. Where the source keeps the node of a
-- cluster manager under its data center, its address is kept here: no two have the same.
pub mod Claimed
use cloudnative.Base.{
  String, ◌==◌, ℕ, ltb, Bool, true, false, not, Option, none, some, List, [], ◌∷◌, ◌++◌, length,
  map, Dict, lookup, insert, has_key, contains, string_eq, Error, Result, ok, err, value_error,
  need, raise_if, ◌>>=◌, ◌>>◌, if◌then◌else◌,
}
use cloudnative.Base.Text.{concat}
use cloudnative.ListMaps.{add_to_list_map}
use cloudnative.Config.{Args, ClusterMgrNode}
use cloudnative.Machines.{Machines}
use cloudnative.Claims.{PortMap}
use cloudnative.NodeMgr.{NodeMgrItem, NodeMgrs, curports, resolve_nodemgr}
use cloudnative.OneDc.Validate.{claim_clustermgr}
use cloudnative.Version.{check_version_to_minor}
use cloudnative.MultiDc.{DataCenter}
use cloudnative.MultiDc.Centers.{default_center}

-- What the two loops over the managers share: `portmap`, `dcnames`, `dcs`, `nodemgrmaps`, whose
-- keys are `nodemgrips`, and `ipdcmap`.
pub record Centers : Type 0 where
  pub ports : PortMap
  pub names : List String
  pub dcs : List DataCenter
  pub nodemgrs : NodeMgrs
  pub dc_of : Dict String

abbrev two_nodemgrs : String → Error
two_nodemgrs ip =
    value_error
      (concat ("Error: " ∷ ip ∷ " exists, only one node_mgr can be run on a machine!" ∷ []))

abbrev no_center : String → Error
no_center ip =
    value_error (concat ("Error: dc attribute for the node(" ∷ ip ∷ ") must be specified !" ∷ []))

abbrev unknown_center : String → Error
unknown_center dc = value_error (concat ("Error: unknown datacenter " ∷ dc ∷ " !" ∷ []))

-- The data center of a node manager. Without a bootstrap, one of an unknown name is added.
unfoldable pub know_center : Bool → Centers → String → Result Centers
know_center firstboot c dc =
    if contains dc c.names
    then ok c
    else if firstboot
    then err (unknown_center dc)
    else ok (record c { names = dc ∷ c.names; dcs = c.dcs ++ (default_center dc ∷ []) })

unfoldable pub given_center : NodeMgrItem → Result String
given_center item = elim item.dc [ none ↦ err (no_center item.ip) | some dc ↦ ok dc ]

unfoldable pub check_nodemgr : Args → Machines → Bool → Centers → NodeMgrItem → Result Centers
unfolding know_center given_center
check_nodemgr args machines firstboot c item = do
  raise_if (has_key item.ip c.nodemgrs) (two_nodemgrs item.ip)
  dc ← given_center item
  c1 ← know_center firstboot c dc
  (storage_port, server_port) ← curports args item
  (ports, n) ← resolve_nodemgr args machines c1.ports item storage_port server_port
  ok (record c1 {
    ports = ports;
    nodemgrs = insert item.ip n c1.nodemgrs;
    dc_of = insert item.ip dc c1.dc_of;
  })

unfoldable pub check_nodemgrs : Args → Machines → Bool → Centers → List NodeMgrItem → Result Centers
unfolding check_nodemgr
check_nodemgrs args machines firstboot c [] = ok c
check_nodemgrs args machines firstboot c (item ∷ items) = do
  c1 ← check_nodemgr args machines firstboot c item
  check_nodemgrs args machines firstboot c1 items

-- `if node['skip']: raise …` in a bootstrap.
unfoldable pub forbid_skipped : NodeMgrs → Result (Unit {0})
forbid_skipped [] = ok tt
forbid_skipped ((ip, n) ∷ ns) = do
  raise_if n.skip (
      value_error (concat ("Error: node " ∷ n.ip ∷ " must be initialized during bootstrap !" ∷ [])))
  forbid_skipped ns

abbrev two_clustermgrs : String → Error
two_clustermgrs ip =
    value_error
      (concat ("Error: " ∷ ip ∷ " exists, only one cluster_mgr can be run on a machine!" ∷ []))

abbrev center_missing : String → Error
center_missing ip =
    value_error (concat ("Error: datacenter not specified for clustermgr node " ∷ ip ∷ "!" ∷ []))

abbrev center_conflict : String → Error
center_conflict ip =
    value_error (concat ("Error: conflict datacenter specification for " ∷ ip ∷ " !" ∷ []))

-- `ip in ipdcmap and ipdcmap[ip] != dc`
abbrev pub conflicts : Option String → String → Bool
conflicts none dc = false
conflicts (some known) dc = not (known == dc)

-- The data center of a cluster manager: its own, or that of the node manager on its host.
unfoldable pub clustermgr_center : Centers → ClusterMgrNode → Result String
clustermgr_center c node = elim node.dc [
  | none ↦ elim (lookup node.ip c.dc_of) [ none ↦ err (center_missing node.ip) | some dc ↦ ok dc ]
  | some dc ↦
      if not (contains dc c.names)
      then err (unknown_center dc)
      else if conflicts (lookup node.ip c.dc_of) dc
      then err (center_conflict node.ip)
      else ok dc
]

-- The loop over the cluster managers, with the map from a data center to those in it.
unfoldable pub check_clustermgrs :
    Args
    → Centers
    → PortMap
    → List String
    → Dict (List String)
    → List ClusterMgrNode
    → Result (PortMap × Dict (List String) × List ClusterMgrNode)
unfolding clustermgr_center add_to_list_map
check_clustermgrs args c ports ips mgrs [] = ok (ports, mgrs, [])
check_clustermgrs args c ports ips mgrs (node ∷ nodes) = do
  raise_if (contains node.ip ips) (two_clustermgrs node.ip)
  dc ← clustermgr_center c node
  (ports1, node') ← claim_clustermgr args ports node
  (ports2, mgrs', nodes') ←
      check_clustermgrs args c ports1 (node.ip ∷ ips) (add_to_list_map mgrs dc node.ip) nodes
  ok (ports2, mgrs', node' ∷ nodes')

-- `dc not in m or len(m[dc]) < 2`
abbrev pub too_few {ℓ} : {V : Type ℓ} → Dict (List V) → String → Bool
too_few m dc = elim (lookup dc m) [ none ↦ true | some nodes ↦ ltb (length nodes) 2 ]

-- The loop over `dcnames` that asks for two nodes of a kind in each.
unfoldable pub need_two {ℓ} :
    {V : Type ℓ} → (String → Error) → Dict (List V) → List String → Result (Unit {0})
need_two few m [] = ok tt
need_two few m (dc ∷ dcs) = do raise_if (too_few m dc) (few dc); need_two few m dcs

-- The loop over the cluster managers of one data center.
unfoldable pub set_timeout :
    Args → ℕ → List String → List ClusterMgrNode → Result (List ClusterMgrNode)
set_timeout args ms [] nodes = ok nodes
set_timeout args ms (ip ∷ ips) nodes = do
  new ← check_version_to_minor args.product_version 1 2
  let set =
      if new
      then map
          (λ (n : ClusterMgrNode).
            if n.ip == ip then record n { brpc_raft_election_timeout_ms = some ms } else n)
          nodes
      else nodes
  set_timeout args ms ips set

-- The same for each data center of a list.
unfoldable pub set_timeouts :
    Args
    → ℕ
    → Dict (List String)
    → List DataCenter
    → List ClusterMgrNode
    → Result (List ClusterMgrNode)
unfolding set_timeout
set_timeouts args ms mgrs [] nodes = ok nodes
set_timeouts args ms mgrs (dc ∷ dcs) nodes = do
  ips ← need dc.name (lookup dc.name mgrs)
  nodes' ← set_timeout args ms ips nodes
  set_timeouts args ms mgrs dcs nodes'
