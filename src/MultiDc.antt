-- ===== src/MultiDc.antt =====
-- cluster/cluster_common.py: the configuration of the cluster managers in several data centers,
-- and `setup_machines3`.
pub mod Centers
pub mod Managers
pub mod Located
pub mod Meta
pub mod Validate
use cloudnative.Base.{String, ℕ, Bool, false, Option, none, some, List, [], ◌∷◌, Result, ok, ◌>>=◌}
use cloudnative.Config.{Args, MachineItem, MetaShard, ClusterMgrNode}
use cloudnative.Machines.{Machines, add_ip_to_machine_map}
use cloudnative.NodeMgr.{NodeMgrItem}
use cloudnative.OneKey.{add_items, add_storage_nodes, add_clustermgr_nodes}
use cloudnative.OneDc.{Backup, Elasticsearch, add_nodemgr_items, add_elasticsearch}

-- One of `datacenters`. One that stands for an unknown name has neither `skip` nor `is_primary`.
pub record DataCenter : Type 0 where
  pub name : String
  pub province : Option String
  pub city : Option String
  pub is_primary : Option Bool
  pub skip : Option Bool

pub record XpanelNode : Type 0 where
  pub ip : String
  pub port : Option ℕ
  pub name : Option String

pub record Xpanel : Type 0 where
  pub image_type : Option String
  pub image : Option String
  pub image_file : Option String
  pub nodes : Option (List XpanelNode)

pub record MultiDcConfig : Type 0 where
  pub machines : List MachineItem
  pub datacenters : List DataCenter
  pub meta : MetaShard
  pub cluster_manager : List ClusterMgrNode
  pub node_manager : List NodeMgrItem
  pub backup : Backup
  pub xpanel : Option Xpanel
  pub elasticsearch : Option Elasticsearch

module _ (args : Args) where
  add_xpanel_nodes : Machines → List XpanelNode → Machines
  add_xpanel_nodes machines [] = machines
  add_xpanel_nodes machines (node ∷ nodes) =
      add_xpanel_nodes (add_ip_to_machine_map args false machines node.ip) nodes

  add_xpanel : Machines → Option Xpanel → Machines
  add_xpanel machines none = machines
  add_xpanel machines (some x) = elim x.nodes [
    | none ↦ machines
    | some nodes ↦ add_xpanel_nodes machines nodes
  ]

  unfoldable pub setup_machines3 : MultiDcConfig → Machines → Result Machines
  unfolding add_items add_nodemgr_items add_storage_nodes add_clustermgr_nodes add_xpanel
      add_xpanel_nodes add_elasticsearch
  setup_machines3 jscfg machines = do
    let items = add_items args machines jscfg.machines
    let metas = add_storage_nodes args items jscfg.meta.nodes
    let nodemgrs = add_nodemgr_items args metas jscfg.node_manager
    let mgrs = add_clustermgr_nodes args nodemgrs jscfg.cluster_manager
    searches ← add_elasticsearch args mgrs jscfg.elasticsearch
    ok (add_xpanel searches jscfg.xpanel)
