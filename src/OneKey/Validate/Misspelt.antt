-- ===== src/OneKey/Validate/Misspelt.antt =====
-- `validate_and_set_config1` reads the ports of a cluster manager that is given by its address
-- through a name that does not exist.
use cloudnative.Base.{
  String, true, ◌||◌, Option, none, some, is_some, List, ok, >>=-eq-ok, ◌≡◌, ◌≢◌, arith,
}
use cloudnative.Config.{Args, ClusterMgrNode}
use cloudnative.Machines.{Machines}
use cloudnative.Claims.{PortMap}
use cloudnative.OneKey.{ClusterMgr, OneKeyConfig}
use cloudnative.OneKey.Validate.{
  resolve_modes, check_meta, check_comps, check_haproxy, check_shards, check_clustermgr,
  check_clustermgr_by, check_clustermgr_ip, misspelt, nothing_taken, validate_and_set_config1,
}

check_clustermgr_by-ne-ok :
    (args : Args) (ports : PortMap) (c : ClusterMgr) (given : Option String)
    (nodes : Option (List ClusterMgrNode)) (r : PortMap × ClusterMgr)
    → is_some given ≡ true
    → (is_some c.brpc_raft_port || is_some c.brpc_http_port) ≡ true
    → check_clustermgr_by args ports c given nodes ≢ ok r
unfolding check_clustermgr_by
check_clustermgr_by-ne-ok args ports c none nodes r g h e = cc
check_clustermgr_by-ne-ok args ports c (some ip) (some nodes) r g h e = cc
check_clustermgr_by-ne-ok args ports c (some ip) none r g h e =
    unfold check_clustermgr_ip misspelt in ground arith

-- Where the cluster manager is given by its address together with one of its ports, no
-- configuration is accepted.
pub validate_and_set_config1-clsutermgr :
    (args : Args) (jscfg : OneKeyConfig) (machines : Machines) (r : Machines × OneKeyConfig)
    → is_some jscfg.cluster.clustermgr.ip ≡ true
    → (is_some jscfg.cluster.clustermgr.brpc_raft_port
        || is_some jscfg.cluster.clustermgr.brpc_http_port)
      ≡ true
    → validate_and_set_config1 args jscfg machines ≢ ok r
unfolding validate_and_set_config1 check_clustermgr
validate_and_set_config1-clsutermgr args jscfg machines r given port h =
    let c = jscfg.cluster in
    let ((gm, gs), e0, h0) = >>=-eq-ok (resolve_modes c) _ h in
    let ((t1, meta), e1, h1) = >>=-eq-ok (check_meta nothing_taken c.meta gm) _ h0 in
    let ((ms, t2), e2, h2) = >>=-eq-ok (check_comps machines t1 c.comps) _ h1 in
    let (t3, e3, h3) = >>=-eq-ok (check_haproxy t2 c.haproxy) _ h2 in
    let ((t4, datas), e4, h4) = >>=-eq-ok (check_shards t3 1 _ c.datas) _ h3 in
    let (q, e5, h5) = >>=-eq-ok (check_clustermgr args t4.ports c.clustermgr) _ h4 in
    check_clustermgr_by-ne-ok args t4.ports c.clustermgr c.clustermgr.ip c.clustermgr.nodes q given
      port e5
