-- ===== src/OneDc.antt =====
-- cluster/cluster_common.py: the configuration of the cluster managers in one data center, and
-- `setup_machines2`. A list of nodes that is left out counts as empty, as in the source.
pub mod Validate
pub mod Clusters
use cloudnative.Base.{
  Result, ok, need, ◌>>=◌, ok, Result, false, String, ℕ, Bool, Option, none, some, List, [], ◌∷◌,
}
use cloudnative.Config.{
  Args, MachineItem, StorageNode, CompNode, Shard, MetaShard, Haproxy, ClusterMgrNode,
}
use cloudnative.Machines.{Machines, add_ip_to_machine_map}
use cloudnative.NodeMgr.{NodeMgrItem, NodeMgrs}
use cloudnative.OneKey.{
  add_items, add_storage_nodes, add_shards, add_comps, add_clustermgr_nodes, add_haproxy,
}

-- `backup`: where to find HDFS, and an ssh account.
pub record HdfsBackup : Type 0 where
  pub ip : String
  pub port : Option ℕ

pub record SshBackup : Type 0 where
  pub ip : String
  pub port : Option ℕ
  pub user : Option String
  pub target_dir : Option String

pub record Backup : Type 0 where
  pub hdfs : Option HdfsBackup
  pub ssh : Option SshBackup

pub record Xpanel : Type 0 where
  pub ip : String
  pub port : Option ℕ
  pub name : Option String
  pub image_type : Option String
  pub image : Option String
  pub image_file : Option String

pub record Elasticsearch : Type 0 where
  pub ip : Option String
  pub port : Option ℕ
  pub kibana_port : Option ℕ

-- One of `clusters`.
pub record Cluster : Type 0 where
  pub name : Option String
  pub ha_mode : Option String
  pub enable_degrade : Option Bool
  pub enable_global_mvcc : Option Bool
  pub max_files_per_process : Option ℕ
  pub degrade_time : Option ℕ
  pub storage_template : Option String
  pub innodb_buffer_pool_size_mb : Option ℕ
  pub fullsync_level : Option ℕ
  pub max_connections : Option ℕ
  pub max_storage_size_gb : Option ℕ
  pub storage_cpu_cores : Option ℕ
  pub enable_rocksdb : Option Bool
  pub dbcfg : Option ℕ
  pub comps : List CompNode
  pub datas : List Shard
  pub haproxy : Option Haproxy

pub record OneDcConfig : Type 0 where
  pub machines : List MachineItem
  pub meta : MetaShard
  pub cluster_manager : List ClusterMgrNode
  pub node_manager : List NodeMgrItem
  pub backup : Backup
  pub xpanel : Option Xpanel
  pub elasticsearch : Option Elasticsearch
  pub clusters : List Cluster

module _ (args : Args) where
  unfoldable pub add_nodemgr_items : Machines → List NodeMgrItem → Machines
  add_nodemgr_items machines [] = machines
  add_nodemgr_items machines (node ∷ nodes) =
      add_nodemgr_items (add_ip_to_machine_map args false machines node.ip) nodes

  add_xpanel : Machines → Option Xpanel → Machines
  add_xpanel machines none = machines
  add_xpanel machines (some x) = add_ip_to_machine_map args false machines x.ip

  -- An `elasticsearch` with no address raises `KeyError` here; the validation reports it again.
  unfoldable pub add_elasticsearch : Machines → Option Elasticsearch → Result Machines
  add_elasticsearch machines none = ok machines
  add_elasticsearch machines (some e) = do
    ip ← need "ip" e.ip
    ok (add_ip_to_machine_map args false machines ip)

  add_clusters : Machines → List Cluster → Machines
  add_clusters machines [] = machines
  add_clusters machines (cluster ∷ clusters) =
      let comps = add_comps args machines cluster.comps in
      let datas = add_shards args comps cluster.datas in
      add_clusters (add_haproxy args datas cluster.haproxy) clusters

  unfoldable pub setup_machines2 : OneDcConfig → Machines → Result Machines
  unfolding add_items add_nodemgr_items add_storage_nodes add_clustermgr_nodes add_xpanel
      add_elasticsearch add_clusters
  setup_machines2 jscfg machines = do
    let items = add_items args machines jscfg.machines
    let metas = add_storage_nodes args items jscfg.meta.nodes
    let nodemgrs = add_nodemgr_items metas jscfg.node_manager
    let mgrs = add_clustermgr_nodes args nodemgrs jscfg.cluster_manager
    let xpanels = add_xpanel mgrs jscfg.xpanel
    searches ← add_elasticsearch xpanels jscfg.elasticsearch
    ok (add_clusters searches jscfg.clusters)
