-- ===== src/OneDc/Validate/Claimed.antt =====
-- What the managers, the metadata shard and the single services claim in
-- `validate_and_set_config2`.
use cloudnative.Base.{
  string_eq, String, ℕ, ◌<◌, Bool, false, List, [], ◌∷◌, ◌++◌, length, or_default, insert, contains,
  has_key, Error, Result, ok, raise_if, >>=-eq-ok, ok-injective, ◌≡◌, refl, subst, arith, nat_eq,
  ◌∙◌,
}
use cloudnative.Config.{Args, StorageNode, ClusterMgrNode}
use cloudnative.Machines.{Machines}
use cloudnative.Claims.{PortMap, add_port_to_machine}
use cloudnative.Claims.Distinct.{claim_all}
use cloudnative.HaMode.{Fits, check_ha_mode, check_ha_mode-Fits}
use cloudnative.NodeMgr.{NodeMgrItem, NodeMgr, NodeMgrs, curports, resolve_nodemgr}
use cloudnative.OneKey.Shards.Claimed.{optional_claim}
use cloudnative.OneKey.Shards.Primary.{primaries}
use cloudnative.Allocate.{Site, place_storage_nodes, elect_first}
use cloudnative.Allocate.Claimed.{
  PortsClaimed, PortsClaimed-append, placed_nodes_ports, place_storage_nodes-claim,
  place_storage_nodes-count, elect_first-ports, elect_first-primaries, elect_first-length,
}
use cloudnative.OneDc.Validate.{claim_clustermgr, check_clustermgrs, check_nodemgrs}

abbrev pub mgr_ports : ClusterMgrNode → List (String × ℕ)
mgr_ports n =
    optional_claim n.ip n.brpc_raft_port
    ++ (optional_claim n.ip n.brpc_http_port ++ optional_claim n.ip n.prometheus_port_start)

abbrev pub mgrs_ports : List ClusterMgrNode → List (String × ℕ)
mgrs_ports [] = []
mgrs_ports (n ∷ ns) = mgr_ports n ++ mgrs_ports ns

pub claim_clustermgr-claim :
    (args : Args) (p q : PortMap) (n n' : ClusterMgrNode)
    → claim_clustermgr args p n ≡ ok (q, n')
    → PortsClaimed p (mgr_ports n') q
unfolding claim_clustermgr claim_all add_port_to_machine
claim_clustermgr-claim args p q n n' h = ground arith

pub check_clustermgrs-claim :
    (args : Args) (p q : PortMap) (ips : List String) (ns ns' : List ClusterMgrNode)
    → check_clustermgrs args p ips ns ≡ ok (q, ns')
    → PortsClaimed p (mgrs_ports ns') q
unfolding check_clustermgrs
check_clustermgrs-claim args p q ips [] ns' h =
    subst (λ (r : PortMap × List ClusterMgrNode). PortsClaimed p (mgrs_ports r.1) r.0)
      (ok-injective h) (unfold claim_all in refl)
check_clustermgrs-claim args p q ips (n ∷ ns) ns' h =
    let (_, fresh, h0) = >>=-eq-ok (raise_if (contains n.ip ips) _) _ h in
    let ((p1, n'), first, h1) = >>=-eq-ok (claim_clustermgr args p n) _ h0 in
    let ((p2, ns1), others, h2) = >>=-eq-ok (check_clustermgrs args p1 (n.ip ∷ ips) ns) _ h1 in
    subst (λ (r : PortMap × List ClusterMgrNode). PortsClaimed p (mgrs_ports r.1) r.0)
      (ok-injective h2)
      (PortsClaimed-append p p1 p2 _ _ (claim_clustermgr-claim args p p1 n n' first)
        (check_clustermgrs-claim args p1 p2 (n.ip ∷ ips) ns ns1 others))

-- The ports of the item of a node manager, given or default.
abbrev pub item_ports : Args → NodeMgrItem → List (String × ℕ)
item_ports args n =
    (n.ip, or_default args.defbrpc_http_port_nodemgr n.brpc_http_port)
    ∷ (n.ip, or_default args.deftcp_port_nodemgr n.tcp_port)
    ∷ (n.ip, or_default args.defprometheus_port_start_nodemgr n.prometheus_port_start)
    ∷ []

abbrev pub items_ports : Args → List NodeMgrItem → List (String × ℕ)
items_ports args [] = []
items_ports args (n ∷ ns) = item_ports args n ++ items_ports args ns

pub resolve_nodemgr-claim :
    (args : Args) (machines : Machines) (p q : PortMap) (item : NodeMgrItem) (a b : ℕ) (n : NodeMgr)
    → resolve_nodemgr args machines p item a b ≡ ok (q, n)
    → PortsClaimed p (item_ports args item) q
unfolding resolve_nodemgr claim_all add_port_to_machine
resolve_nodemgr-claim args machines p q item a b n h = ground arith

pub check_nodemgrs-claim :
    (args : Args) (machines : Machines) (p q : PortMap) (ms ms' : NodeMgrs)
    (items : List NodeMgrItem)
    → check_nodemgrs args machines p ms items ≡ ok (q, ms')
    → PortsClaimed p (items_ports args items) q
unfolding check_nodemgrs
check_nodemgrs-claim args machines p q ms ms' [] h =
    subst (λ (r : PortMap × NodeMgrs). PortsClaimed p [] r.0) (ok-injective h)
      (unfold claim_all in refl)
check_nodemgrs-claim args machines p q ms ms' (i ∷ is) h =
    let ((a, b), parsed, h0) = >>=-eq-ok (curports args i) _ h in
    let (_, fresh, h1) = >>=-eq-ok (raise_if (has_key i.ip ms) _) _ h0 in
    let ((p1, n), resolved, h2) = >>=-eq-ok (resolve_nodemgr args machines p i a b) _ h1 in
    PortsClaimed-append p p1 q _ _ (resolve_nodemgr-claim args machines p p1 i a b n resolved)
      (check_nodemgrs-claim args machines p1 q (insert i.ip n ms) ms' is h2)

-- A shard behind the validation: what it claimed, and if it has a node, exactly one is the
-- primary; the number of nodes goes with the mode.
pub record Placed (p : PortMap) (mode : String) (nodes : List StorageNode) (q : PortMap)
    : Type 0 where
  pub claimed : PortsClaimed p (placed_nodes_ports mode nodes) q
  pub one_primary : 0 < length nodes → primaries nodes ≡ 1
  pub fits : Fits (length nodes) mode

pub place-Placed :
    (prepare : StorageNode → Result StorageNode) (args : Args) (s s' : Site) (mode buf : String)
    (two many one : Error) (has : Bool) (nodes nodes' : List StorageNode)
    → check_ha_mode many one (length nodes) mode ≡ ok tt
    → place_storage_nodes prepare args s mode buf two false nodes ≡ ok (s', has, nodes')
    → Placed s.ports mode (elect_first has nodes') s'.ports
place-Placed prepare args s s' mode buf two many one has nodes nodes' m h =
    let count = place_storage_nodes-count prepare args s s' mode buf two false has nodes nodes' h in
    let same : length (elect_first has nodes') ≡ length nodes =
      elect_first-length has nodes' ∙ count.0 in
    record {
      claimed =
          rw elect_first-ports
            (place_storage_nodes-claim prepare args s s' mode buf two false has nodes nodes' h);
      one_primary = λ l.
          elect_first-primaries has nodes' (omega (arith, elect_first-length has nodes'))
            (omega (arith, count.1));
      fits = rw same (check_ha_mode-Fits many one (length nodes) mode m);
    }
