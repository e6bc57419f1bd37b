-- ===== src/OneDc/Clusters/Success.antt =====
-- What holds of a configuration that `validate_and_set_config2` accepts.
use cloudnative.Base.{
  String, ℕ, List, [], ◌++◌, or_default, All, ok, >>=-eq-ok, ok-injective, ◌≡◌, subst, nat_eq,
  duplicate_port,
}
use cloudnative.Config.{Args, MetaShard}
use cloudnative.Machines.{Machines}
use cloudnative.Claims.Distinct.{Distinct, claim_all-Distinct}
use cloudnative.Allocate.{Site}
use cloudnative.Allocate.Claimed.{PortsClaimed-append, placed_nodes_ports}
use cloudnative.OneDc.{OneDcConfig}
use cloudnative.OneDc.Validate.{
  check_clustermgrs, check_nodemgrs, check_meta, check_backup, check_xpanel, check_elasticsearch,
}
use cloudnative.OneDc.Validate.Claimed.{
  mgrs_ports, items_ports, check_clustermgrs-claim, check_nodemgrs-claim,
}
use cloudnative.OneDc.Validate.Services.{
  check_meta-Placed, backup_ports, check_backup-claim, xpanel_ports, check_xpanel-claim,
  elasticsearch_ports, check_elasticsearch-claim,
}
use cloudnative.OneDc.Clusters.{check_clusters, Validated, validate_and_set_config2}
use cloudnative.OneDc.Clusters.Claimed.{
  IsSound, IsValidCluster, clusters_ports, check_clusters-Placed,
}

abbrev pub meta_mode_of : MetaShard → String
meta_mode_of m = or_default "" m.ha_mode

-- Every (host, port) pair of the validated configuration, in the order of the claims.
abbrev pub site_ports : Args → OneDcConfig → Validated → List (String × ℕ)
site_ports args jscfg v =
    (((((mgrs_ports v.cluster_manager ++ items_ports args jscfg.node_manager)
            ++ placed_nodes_ports (meta_mode_of v.meta) v.meta.nodes)
          ++ backup_ports v.backup)
        ++ xpanel_ports v.xpanel)
      ++ elasticsearch_ports v.elasticsearch)
    ++ clusters_ports v.clusters

pub record IsValidSite (args : Args) (jscfg : OneDcConfig) (v : Validated) : Type 0 where
  pub ports_distinct : Distinct (site_ports args jscfg v)
  pub meta_sound : IsSound (meta_mode_of v.meta) v.meta.nodes
  pub clusters_valid : All IsValidCluster v.clusters

-- In an accepted configuration no (host, port) pair is claimed twice by the cluster managers, the
-- configured node managers, the metadata and data nodes (with the ports that were given out to
-- them), the computing nodes, the backup, panel and search services and the proxies; the metadata
-- shard and every data shard has exactly one primary if it has a node, and a number of nodes that
-- goes with its mode; and the mode of every cluster is a known one.
pub validate_and_set_config2-IsValidSite :
    (args : Args) (jscfg : OneDcConfig) (machines : Machines) (v : Validated)
    → validate_and_set_config2 args jscfg machines ≡ ok v
    → IsValidSite args jscfg v
unfolding validate_and_set_config2
validate_and_set_config2-IsValidSite args jscfg machines v h =
    let ((p1, mgrs), e1, h1) = >>=-eq-ok (check_clustermgrs args [] [] jscfg.cluster_manager) _ h in
    let ((p2, nodemgrs), e2, h2) =
      >>=-eq-ok (check_nodemgrs args machines p1 [] jscfg.node_manager) _ h1 in
    let s2 : Site = record { machines = machines; ports = p2; nodemgrs = nodemgrs } in
    let ((s3, meta), e3, h3) = >>=-eq-ok (check_meta args s2 jscfg.meta) _ h2 in
    let ((p4, backup), e4, h4) = >>=-eq-ok (check_backup s3.ports jscfg.backup) _ h3 in
    let ((p5, xpanel), e5, h5) = >>=-eq-ok (check_xpanel args p4 jscfg.xpanel) _ h4 in
    let ((p6, search), e6, h6) = >>=-eq-ok (check_elasticsearch p5 jscfg.elasticsearch) _ h5 in
    let s6 : Site = record s3 { ports = p6 } in
    let ((s7, clusters), e7, h7) = >>=-eq-ok (check_clusters args s6 jscfg.clusters) _ h6 in
    let m = check_meta-Placed args s2 s3 jscfg.meta meta e3 in
    let cs = check_clusters-Placed args s6 s7 jscfg.clusters clusters e7 in
    let c2 =
      PortsClaimed-append [] p1 p2 _ _
        (check_clustermgrs-claim args [] p1 [] jscfg.cluster_manager mgrs e1)
        (check_nodemgrs-claim args machines p1 p2 [] nodemgrs jscfg.node_manager e2) in
    let c3 = PortsClaimed-append [] p2 s3.ports _ _ c2 m.claimed in
    let c4 =
      PortsClaimed-append [] s3.ports p4 _ _ c3
        (check_backup-claim s3.ports p4 jscfg.backup backup e4) in
    let c5 =
      PortsClaimed-append [] p4 p5 _ _ c4 (check_xpanel-claim args p4 p5 jscfg.xpanel xpanel e5) in
    let c6 =
      PortsClaimed-append [] p5 p6 _ _ c5
        (check_elasticsearch-claim p5 p6 jscfg.elasticsearch search e6) in
    subst (λ (w : Validated). IsValidSite args jscfg w) (ok-injective h7)
      (record {
        ports_distinct =
            (claim_all-Distinct duplicate_port [] s7.ports _
              (PortsClaimed-append [] p6 s7.ports _ _ c6 cs.claimed)).0;
        meta_sound = record { one_primary = m.one_primary; fits = m.fits };
        clusters_valid = cs.valid;
      })
