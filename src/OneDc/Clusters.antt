-- ===== src/OneDc/Clusters.antt =====
-- cluster/cluster_common.py: the clusters of `validate_and_set_config2`, and the whole of it.
pub mod Claimed
pub mod Success
use cloudnative.Base.{
  String, ◌==◌, ℕ, ◌+◌, eqb, Bool, true, false, Option, none, some, List, [], ◌∷◌, length,
  or_default, Error, Result, ok, err, value_error, raise_if, need, ◌>>=◌, ◌>>◌, if◌then◌else◌,
}
use cloudnative.Base.Text.{concat, show}
use cloudnative.Config.{Args, StorageNode, CompNode, Shard, MetaShard, Haproxy, ClusterMgrNode}
use cloudnative.Machines.{Machines}
use cloudnative.HaMode.{validate_ha_mode, check_ha_mode}
use cloudnative.NodeMgr.{NodeMgrs}
use cloudnative.OneKey.Shards.{add_optional_port}
use cloudnative.Allocate.{Site, place_storage_nodes, elect_first, place_comps}
use cloudnative.OneDc.{Elasticsearch, Xpanel, Backup, Cluster, OneDcConfig}
use cloudnative.OneDc.Validate.{
  check_clustermgrs, check_nodemgrs, check_meta, check_backup, check_xpanel, check_elasticsearch,
}
use cloudnative.Claims.{PortMap, add_port_to_machine}

-- What the loop of a data shard sets first.
pub set_fullsync : StorageNode → Result StorageNode
set_fullsync node = ok (record node { fullsync = some (or_default 1 node.fullsync) })

abbrev two_primaries : String → ℕ → Error
two_primaries name i = value_error (
    concat (
      "Error: Two primaries found in "
      ∷ name
      ∷ "-shard"
      ∷ show i
      ∷ ", there should be one and only one Primary specified !"
      ∷ []))

abbrev shard_empty : Error
shard_empty = value_error "Error: There must be at least one node in the shard"

abbrev shard_many : Error
shard_many = value_error "Error: ha_mode is no_rep, but there are multiple nodes in the shard"

abbrev shard_one : Error
shard_one = value_error "Error: ha_mode is mgr/rbr, but there is only one node in the shard"

pub check_shard : Args → Site → String → String → String → ℕ → Shard → Result (Site × Shard)
unfolding set_fullsync place_storage_nodes elect_first check_ha_mode
check_shard args site name ha_mode innodb_buf i shard = do
  let nodecnt = length shard.nodes
  raise_if (eqb nodecnt 0) shard_empty
  check_ha_mode shard_many shard_one nodecnt ha_mode
  (site', has_primary, nodes) ←
      place_storage_nodes set_fullsync args site ha_mode innodb_buf (two_primaries name i) false
        shard.nodes
  ok (site', record shard { nodes = elect_first has_primary nodes })

pub check_shards :
    Args → Site → String → String → String → ℕ → List Shard → Result (Site × List Shard)
check_shards args site name ha_mode innodb_buf i [] = ok (site, [])
check_shards args site name ha_mode innodb_buf i (shard ∷ shards) = do
  (site1, shard') ← check_shard args site name ha_mode innodb_buf i shard
  (site2, shards') ← check_shards args site1 name ha_mode innodb_buf (i + 1) shards
  ok (site2, shard' ∷ shards')

pub check_haproxy : PortMap → Option Haproxy → Result PortMap
unfolding add_optional_port
check_haproxy ports none = ok ports
check_haproxy ports (some h) = do
  port ← need "port" h.port
  ports1 ← add_port_to_machine ports h.ip port
  add_optional_port ports1 h.ip h.mysql_port

-- The defaults of a cluster.
pub cluster_defaults : Cluster → Cluster
cluster_defaults c = record c {
  ha_mode = some (or_default "rbr" c.ha_mode);
  enable_degrade = some (or_default false c.enable_degrade);
  enable_global_mvcc = some (or_default false c.enable_global_mvcc);
  max_files_per_process = some (or_default 10000 c.max_files_per_process);
  degrade_time = some (or_default 15 c.degrade_time);
  storage_template = some (or_default "normal" c.storage_template);
  innodb_buffer_pool_size_mb = some (or_default 1024 c.innodb_buffer_pool_size_mb);
  fullsync_level = some (or_default 1 c.fullsync_level);
  max_connections = some (or_default 1000 c.max_connections);
  max_storage_size_gb = some (or_default 20 c.max_storage_size_gb);
  storage_cpu_cores = some (or_default 8 c.storage_cpu_cores);
  enable_rocksdb = some (or_default true c.enable_rocksdb);
  dbcfg = some (if or_default "normal" c.storage_template == "small" then 1 else 0);
}

abbrev no_name : Error
no_name = value_error "Error: the name of cluster must be specified!"

-- The name of a cluster, which must be there.
cluster_name : Option String → Result String
cluster_name none = err no_name
cluster_name (some name) = ok name

pub check_cluster : Args → Site → Cluster → Result (Site × Cluster)
unfolding cluster_name cluster_defaults check_haproxy check_shards check_shard place_comps
    validate_ha_mode
check_cluster args site given = do
  name ← cluster_name given.name
  let ha_mode = or_default "rbr" given.ha_mode
  validate_ha_mode ha_mode
  (site1, comps) ← place_comps args site given.comps
  let innodb_buf = concat (show (or_default 1024 given.innodb_buffer_pool_size_mb) ∷ "MB" ∷ [])
  (site2, datas) ← check_shards args site1 name ha_mode innodb_buf 1 given.datas
  ports ← check_haproxy site2.ports given.haproxy
  ok (
    record site2 { ports = ports },
    record (cluster_defaults given) { comps = comps; datas = datas },
  )

pub check_clusters : Args → Site → List Cluster → Result (Site × List Cluster)
unfolding check_cluster
check_clusters args site [] = ok (site, [])
check_clusters args site (cluster ∷ clusters) = do
  (site1, cluster') ← check_cluster args site cluster
  (site2, clusters') ← check_clusters args site1 clusters
  ok (site2, cluster' ∷ clusters')

-- The configuration behind the validation; its node managers are complete now.
pub record Validated : Type 0 where
  pub site : Site
  pub meta : MetaShard
  pub cluster_manager : List ClusterMgrNode
  pub backup : Backup
  pub xpanel : Option Xpanel
  pub elasticsearch : Option Elasticsearch
  pub clusters : List Cluster

unfoldable pub validate_and_set_config2 : Args → OneDcConfig → Machines → Result Validated
unfolding check_clustermgrs check_nodemgrs check_meta check_backup check_xpanel check_elasticsearch
    check_clusters
validate_and_set_config2 args jscfg machines = do
  (ports1, mgrs) ← check_clustermgrs args [] [] jscfg.cluster_manager
  (ports2, nodemgrs) ← check_nodemgrs args machines ports1 [] jscfg.node_manager
  (site3, meta) ←
      check_meta args (record { machines = machines; ports = ports2; nodemgrs = nodemgrs })
        jscfg.meta
  (ports4, backup) ← check_backup site3.ports jscfg.backup
  (ports5, xpanel) ← check_xpanel args ports4 jscfg.xpanel
  (ports6, elasticsearch) ← check_elasticsearch ports5 jscfg.elasticsearch
  (site7, clusters) ← check_clusters args (record site3 { ports = ports6 }) jscfg.clusters
  ok (record {
    site = site7;
    meta = meta;
    cluster_manager = mgrs;
    backup = backup;
    xpanel = xpanel;
    elasticsearch = elasticsearch;
    clusters = clusters;
  })
