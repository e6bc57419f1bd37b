-- ===== src/OneKey.antt =====
-- cluster/cluster_common.py: `setup_machines1` and `validate_and_set_config1`, the configuration
-- of the one-key installation. The arguments `jscfg` and `machines` that the source changes in
-- place are taken and returned.
pub mod Shards
pub mod Setup
pub mod Validate
use cloudnative.Base.{
  String, ◌==◌, ℕ, ◌+◌, eqb, ltb, Bool, true, false, not, ◌&&◌, Option, none, some, List, [], ◌∷◌,
  length, or_default, Result, ok, err, value_error, name_error, raise_if, need, ◌>>=◌, ◌>>◌,
  if◌then◌else◌, contains, string_eq,
}
use cloudnative.Base.Text.{concat, show}
use cloudnative.Config.{
  Args, MachineItem, StorageNode, CompNode, Shard, MetaShard, Haproxy, ClusterMgrNode,
}
use cloudnative.Machines.{Machines, add_machine_item, add_ip_to_machine_map, set_haspg}
use cloudnative.Claims.{PortMap, DirMap, add_port_to_machine, add_dir_to_machine}

-- `clustermgr`: either one address with its ports, or a list of nodes.
pub record ClusterMgr : Type 0 where
  pub ip : Option String
  pub brpc_raft_port : Option ℕ
  pub brpc_http_port : Option ℕ
  pub nodes : Option (List ClusterMgrNode)

pub record Cluster : Type 0 where
  pub ha_mode : Option String
  pub enable_rocksdb : Option Bool
  pub meta : MetaShard
  pub comps : List CompNode
  pub datas : List Shard
  pub clustermgr : ClusterMgr
  pub haproxy : Option Haproxy

pub record OneKeyConfig : Type 0 where
  pub machines : List MachineItem
  pub cluster : Cluster

module _ (args : Args) where
  unfoldable pub add_items : Machines → List MachineItem → Machines
  add_items machines [] = machines
  add_items machines (item ∷ items) = add_items (add_machine_item args machines item) items

  unfoldable pub add_storage_nodes : Machines → List StorageNode → Machines
  add_storage_nodes machines [] = machines
  add_storage_nodes machines (node ∷ nodes) =
      add_storage_nodes (add_ip_to_machine_map args false machines node.ip) nodes

  unfoldable pub add_shards : Machines → List Shard → Machines
  unfolding add_storage_nodes
  add_shards machines [] = machines
  add_shards machines (shard ∷ shards) = add_shards (add_storage_nodes machines shard.nodes) shards

  unfoldable pub add_comps : Machines → List CompNode → Machines
  add_comps machines [] = machines
  add_comps machines (node ∷ nodes) =
      add_comps (add_ip_to_machine_map args true machines node.ip) nodes

  unfoldable pub add_clustermgr_nodes : Machines → List ClusterMgrNode → Machines
  add_clustermgr_nodes machines [] = machines
  add_clustermgr_nodes machines (node ∷ nodes) =
      add_clustermgr_nodes (add_ip_to_machine_map args false machines node.ip) nodes

  add_clustermgr : Machines → ClusterMgr → Machines
  add_clustermgr machines c = elim c.ip [
    | some ip ↦ add_ip_to_machine_map args false machines ip
    | none ↦ elim c.nodes [ some nodes ↦ add_clustermgr_nodes machines nodes | none ↦ machines ]
  ]

  unfoldable pub add_haproxy : Machines → Option Haproxy → Machines
  add_haproxy machines none = machines
  add_haproxy machines (some h) = add_ip_to_machine_map args false machines h.ip

  unfoldable pub setup_machines1 : OneKeyConfig → Machines → Machines
  unfolding add_items add_shards add_comps add_clustermgr add_clustermgr_nodes add_haproxy
  setup_machines1 jscfg machines =
      let cluster = jscfg.cluster in
      let items = add_items machines jscfg.machines in
      let metas = add_storage_nodes items cluster.meta.nodes in
      let datas = add_shards metas cluster.datas in
      let comps = add_comps datas cluster.comps in
      let mgrs = add_clustermgr comps cluster.clustermgr in add_haproxy mgrs cluster.haproxy
