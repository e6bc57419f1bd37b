-- ===== src/Control/Ready.antt =====
-- A configuration from which the scripts can be written.
pub mod Runs
use cloudnative.Base.{String, is_some, true, All, ◌≡◌}
use cloudnative.Config.{StorageNode, CompNode, Shard, Haproxy, ClusterMgrNode}
use cloudnative.Machines.{Machines}
use cloudnative.NodeMgr.{NodeMgr, NodeMgrs}
use cloudnative.OneDc.{Cluster}
use cloudnative.Scripts.Runs.{IsKnown}
use cloudnative.Panel.Runs.{OnGiven, IsPanelReady}
use cloudnative.Search.Runs.{IsSearchReady}
use cloudnative.Control.{Deployment}

module _ (machines : Machines) (nodemgrs : NodeMgrs) where
  -- A storage node: its host has a machine and a node manager, and its port is given.
  abbrev pub IsStorageReady : StorageNode → Type 0
  IsStorageReady n = IsKnown machines n.ip × IsKnown nodemgrs n.ip × (is_some n.port ≡ true)

  abbrev pub IsCompReady : CompNode → Type 0
  IsCompReady n = IsKnown machines n.ip × IsKnown nodemgrs n.ip × (is_some n.port ≡ true)

  abbrev pub IsHaproxyReady : Haproxy → Type 0
  IsHaproxyReady h = IsKnown machines h.ip × (is_some h.port ≡ true)

  pub record IsClusterReady (c : Cluster) : Type 0 where
    pub storages : All (λ (s : Shard). All IsStorageReady s.nodes) c.datas
    pub servers : All IsCompReady c.comps
    pub proxy : OnGiven IsHaproxyReady c.haproxy

  pub record IsManagerReady (n : ClusterMgrNode) : Type 0 where
    pub known : IsKnown machines n.ip
    pub valgrind : is_some n.valgrind ≡ true
    pub raft_port : is_some n.brpc_raft_port ≡ true
    pub prometheus : is_some n.prometheus_port_start ≡ true

-- Every host has a machine, the hosts of storage and computing nodes have a node manager, and the
-- ports that the scripts name are given.
pub record IsReady (machines : Machines) (d : Deployment) : Type 0 where
  pub nodemgrs : All (λ (e : String × NodeMgr). IsKnown machines e.1.ip) d.node_manager
  pub metas : All (IsStorageReady machines d.node_manager) d.meta.nodes
  pub managers : All (IsManagerReady machines d.node_manager) d.cluster_manager
  pub clusters : All (IsClusterReady machines d.node_manager) d.clusters
  pub search : OnGiven (IsSearchReady machines) d.elasticsearch
  pub panel : OnGiven (IsPanelReady machines) d.xpanel
