-- ===== src/OneKey/Validate/Success.antt =====
-- What holds of a configuration that `validate_and_set_config1` accepts.
use cloudnative.Base.{
  String, ℕ, List, [], ◌++◌, ok, >>=-eq-ok, ok-injective, ◌≡◌, subst, All, duplicate_port,
  duplicate_directory, nat_eq, string_eq,
}
use cloudnative.Config.{Args}
use cloudnative.Machines.{Machines}
use cloudnative.Claims.Distinct.{claim_all-append, claim_all-Distinct, Distinct}
use cloudnative.OneKey.{Cluster, OneKeyConfig}
use cloudnative.OneKey.Shards.Claimed.{Claimed-append, nodes_ports, nodes_dirs}
use cloudnative.OneKey.Validate.{
  resolve_modes, check_meta, check_comps, check_haproxy, check_shards, check_clustermgr,
  nothing_taken, validate_and_set_config1,
}
use cloudnative.OneKey.Validate.Checked.{
  IsSound, Checked-IsSound, set_mode, shards_ports, shards_dirs, check_meta-Checked,
  check_shards-Checked,
}
use cloudnative.OneKey.Validate.Services.{
  comps_ports, comps_dirs, haproxy_ports, clustermgr_ports, check_comps-Claimed,
  check_haproxy-Claimed, check_clustermgr-ports,
}

-- Every (host, port) pair of the services of a cluster.
abbrev pub cluster_ports : Cluster → List (String × ℕ)
cluster_ports c =
    (((nodes_ports c.meta.nodes ++ comps_ports c.comps) ++ haproxy_ports c.haproxy)
      ++ shards_ports c.datas)
    ++ clustermgr_ports c.clustermgr

-- Every (host, directory) pair of the services of a cluster.
abbrev pub cluster_dirs : Cluster → List (String × String)
cluster_dirs c = (((nodes_dirs c.meta.nodes ++ comps_dirs c.comps) ++ []) ++ shards_dirs c.datas)

-- What the installation relies on.
pub record IsValidCluster (c : Cluster) : Type 0 where
  pub ports_distinct : Distinct (cluster_ports c)
  pub dirs_distinct : Distinct (cluster_dirs c)
  pub meta_sound : IsSound (set_mode c.meta.ha_mode) c.meta.nodes
  pub datas_sound : All (λ s. IsSound (set_mode c.ha_mode) s.nodes) c.datas

-- An accepted configuration has no port and no directory used twice on a host, and its metadata
-- shard and each data shard have at least one node, exactly one primary, and a number of nodes
-- that goes with their replication mode (one with `no_rep`, several with another).
pub validate_and_set_config1-IsValidCluster :
    (args : Args) (jscfg jscfg' : OneKeyConfig) (machines machines' : Machines)
    → validate_and_set_config1 args jscfg machines ≡ ok (machines', jscfg')
    → IsValidCluster jscfg'.cluster
unfolding validate_and_set_config1
validate_and_set_config1-IsValidCluster args jscfg jscfg' machines machines' h =
    let c = jscfg.cluster in
    let ((gm, gs), e0, h0) = >>=-eq-ok (resolve_modes c) _ h in
    let ((t1, meta), e1, h1) = >>=-eq-ok (check_meta nothing_taken c.meta gm) _ h0 in
    let ((ms, t2), e2, h2) = >>=-eq-ok (check_comps machines t1 c.comps) _ h1 in
    let (t3, e3, h3) = >>=-eq-ok (check_haproxy t2 c.haproxy) _ h2 in
    let ((t4, datas), e4, h4) = >>=-eq-ok (check_shards t3 1 _ c.datas) _ h3 in
    let ((ports, mgr), e5, h5) = >>=-eq-ok (check_clustermgr args t4.ports c.clustermgr) _ h4 in
    let m = check_meta-Checked nothing_taken t1 c.meta meta gm e1 in
    let ds = check_shards-Checked t3 t4 1 _ c.datas datas e4 in
    let all =
      Claimed-append nothing_taken t3 t4 _ _ _ _
        (Claimed-append nothing_taken t2 t3 _ _ _ _
          (Claimed-append nothing_taken t1 t2 _ _ _ _ m.claimed
            (check_comps-Claimed machines ms t1 t2 c.comps e2))
          (check_haproxy-Claimed t2 t3 c.haproxy e3))
        ds.claimed in
    subst (λ (r : Machines × OneKeyConfig). IsValidCluster r.1.cluster) (ok-injective h5)
      (record {
        ports_distinct =
            (claim_all-Distinct duplicate_port [] ports _ (
              rw (claim_all-append, all.ports_claimed)
                (check_clustermgr-ports args t4.ports ports c.clustermgr mgr e5))).0;
        dirs_distinct = (claim_all-Distinct duplicate_directory [] t4.dirs _ all.dirs_claimed).0;
        meta_sound = Checked-IsSound m;
        datas_sound = ds.sound;
      })
