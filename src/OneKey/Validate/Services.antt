-- ===== src/OneKey/Validate/Services.antt =====
-- What the computing nodes, the proxy and the cluster manager claim in `validate_and_set_config1`.
use cloudnative.Base.{
  String, ℕ, Option, none, some, List, [], ◌∷◌, ◌++◌, or_default, ok, >>=-eq-ok, ok-injective, ◌≡◌,
  refl, subst, arith, duplicate_port, nat_eq, string_eq,
}
use cloudnative.Config.{Args, CompNode, Haproxy, ClusterMgrNode}
use cloudnative.Machines.{Machines, set_haspg}
use cloudnative.Claims.{PortMap, add_port_to_machine, add_dir_to_machine}
use cloudnative.Claims.Distinct.{claim_all, claim_all-append}
use cloudnative.OneKey.{ClusterMgr}
use cloudnative.OneKey.Shards.{Taken}
use cloudnative.OneKey.Shards.Claimed.{Claimed, Claimed-append, Claimed-nil, optional_claim}
use cloudnative.OneKey.Validate.{
  check_comps, check_haproxy, check_clustermgr_node, check_clustermgr_nodes, check_clustermgr,
  check_clustermgr_ip, check_clustermgr_by, claim_comp,
}

abbrev pub comp_ports : CompNode → List (String × ℕ)
comp_ports n = optional_claim n.ip n.port ++ optional_claim n.ip n.mysql_port

abbrev pub comp_dirs : CompNode → List (String × String)
comp_dirs n = optional_claim n.ip n.datadir

abbrev pub comps_ports : List CompNode → List (String × ℕ)
comps_ports [] = []
comps_ports (n ∷ ns) = comp_ports n ++ comps_ports ns

abbrev pub comps_dirs : List CompNode → List (String × String)
comps_dirs [] = []
comps_dirs (n ∷ ns) = comp_dirs n ++ comps_dirs ns

claim_comp-Claimed :
    (t u : Taken) (n : CompNode) → claim_comp t n ≡ ok u → Claimed t (comp_ports n) (comp_dirs n) u
unfolding claim_comp add_port_to_machine add_dir_to_machine claim_all
claim_comp-Claimed t u n h = record { ports_claimed = ground arith; dirs_claimed = ground arith }

pub check_comps-Claimed :
    (m m' : Machines) (t u : Taken) (ns : List CompNode)
    → check_comps m t ns ≡ ok (m', u)
    → Claimed t (comps_ports ns) (comps_dirs ns) u
unfolding check_comps
check_comps-Claimed m m' t u [] h =
    subst (λ (p : Machines × Taken). Claimed t [] [] p.1) (ok-injective h) (Claimed-nil t)
check_comps-Claimed m m' t u (n ∷ ns) h =
    let (m1, marked, h1) = >>=-eq-ok (set_haspg m n.ip) _ h in
    let (t1, claimed, rest) = >>=-eq-ok (claim_comp t n) _ h1 in
    Claimed-append t t1 u _ _ _ _ (claim_comp-Claimed t t1 n claimed)
      (check_comps-Claimed m1 m' t1 u ns rest)

abbrev pub haproxy_ports : Option Haproxy → List (String × ℕ)
haproxy_ports none = []
haproxy_ports (some h) = optional_claim h.ip h.port ++ optional_claim h.ip h.mysql_port

pub check_haproxy-Claimed :
    (t u : Taken) (h : Option Haproxy) → check_haproxy t h ≡ ok u → Claimed t (haproxy_ports h) [] u
unfolding check_haproxy add_port_to_machine claim_all
check_haproxy-Claimed t u none e = subst (λ v. Claimed t [] [] v) (ok-injective e) (Claimed-nil t)
check_haproxy-Claimed t u (some h) e = record {
  ports_claimed = ground arith;
  dirs_claimed = ground arith;
}

abbrev pub clustermgr_node_ports : ClusterMgrNode → List (String × ℕ)
clustermgr_node_ports n =
    optional_claim n.ip n.brpc_raft_port ++ optional_claim n.ip n.brpc_http_port

abbrev pub clustermgr_nodes_ports : List ClusterMgrNode → List (String × ℕ)
clustermgr_nodes_ports [] = []
clustermgr_nodes_ports (n ∷ ns) = clustermgr_node_ports n ++ clustermgr_nodes_ports ns

abbrev pub clustermgr_ports : ClusterMgr → List (String × ℕ)
clustermgr_ports c = clustermgr_nodes_ports (or_default [] c.nodes)

check_clustermgr_node-ports :
    (args : Args) (p q : PortMap) (n n' : ClusterMgrNode)
    → check_clustermgr_node args p n ≡ ok (q, n')
    → claim_all duplicate_port p (clustermgr_node_ports n') ≡ ok q
unfolding check_clustermgr_node add_port_to_machine claim_all
check_clustermgr_node-ports args p q n n' h = ground arith

check_clustermgr_nodes-ports :
    (args : Args) (p q : PortMap) (ns ns' : List ClusterMgrNode)
    → check_clustermgr_nodes args p ns ≡ ok (q, ns')
    → claim_all duplicate_port p (clustermgr_nodes_ports ns') ≡ ok q
unfolding check_clustermgr_nodes
check_clustermgr_nodes-ports args p q [] ns' h =
    subst
      (λ (r : PortMap × List ClusterMgrNode).
        claim_all duplicate_port p (clustermgr_nodes_ports r.1) ≡ ok r.0)
      (ok-injective h) (unfold claim_all in refl)
check_clustermgr_nodes-ports args p q (n ∷ ns) ns' h =
    let ((p1, n1), first, h1) = >>=-eq-ok (check_clustermgr_node args p n) _ h in
    let ((p2, ns1), others, h2) = >>=-eq-ok (check_clustermgr_nodes args p1 ns) _ h1 in
    subst
      (λ (r : PortMap × List ClusterMgrNode).
        claim_all duplicate_port p (clustermgr_nodes_ports r.1) ≡ ok r.0)
      (ok-injective h2)
      (rw (claim_all-append, check_clustermgr_node-ports args p p1 n n1 first)
        (check_clustermgr_nodes-ports args p1 p2 ns ns1 others))

check_clustermgr_ip-ports :
    (args : Args) (p q : PortMap) (c c' : ClusterMgr) (ip : String)
    → check_clustermgr_ip args p c ip ≡ ok (q, c')
    → claim_all duplicate_port p (clustermgr_ports c') ≡ ok q
unfolding check_clustermgr_ip add_port_to_machine claim_all
check_clustermgr_ip-ports args p q c c' ip h = ground arith

check_clustermgr_by-ports :
    (args : Args) (p q : PortMap) (c c' : ClusterMgr) (ip : Option String)
    (nodes : Option (List ClusterMgrNode))
    → check_clustermgr_by args p c ip nodes ≡ ok (q, c')
    → claim_all duplicate_port p (clustermgr_ports c') ≡ ok q
unfolding check_clustermgr_by
check_clustermgr_by-ports args p q c c' (some ip) (some nodes) h = cc
check_clustermgr_by-ports args p q c c' (some ip) none h =
    check_clustermgr_ip-ports args p q c c' ip h
check_clustermgr_by-ports args p q c c' none (some nodes) h =
    let ((p1, ns), checked, h1) = >>=-eq-ok (check_clustermgr_nodes args p nodes) _ h in
    subst (λ (r : PortMap × ClusterMgr). claim_all duplicate_port p (clustermgr_ports r.1) ≡ ok r.0)
      (ok-injective h1) (check_clustermgr_nodes-ports args p p1 nodes ns checked)
check_clustermgr_by-ports args p q c c' none none h = cc

pub check_clustermgr-ports :
    (args : Args) (p q : PortMap) (c c' : ClusterMgr)
    → check_clustermgr args p c ≡ ok (q, c')
    → claim_all duplicate_port p (clustermgr_ports c') ≡ ok q
unfolding check_clustermgr
check_clustermgr-ports args p q c c' h = check_clustermgr_by-ports args p q c c' c.ip c.nodes h
