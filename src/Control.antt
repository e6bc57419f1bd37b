-- ===== src/Control.antt =====
-- cluster/setup_cluster_manager.py: starting, stopping, cleaning and servicing an installation: what
-- the scripts read of the validated configuration, and the steps that they share.
pub mod Clusters
pub mod Start
pub mod Stop
pub mod CleanManagers
pub mod Clean
pub mod Service
pub mod Startable
pub mod Units
pub mod Ready
use cloudnative.Base.{
  suc, String, ℕ, Bool, true, false, Option, none, some, List, [], ◌∷◌, ◌++◌, lookup, Result, ok,
  err, none_error, need, ◌>>=◌, if◌then◌else◌,
}
use cloudnative.Base.Text.{show}
use cloudnative.Base.Format.{format}
use cloudnative.Config.{Args, MetaShard, StorageNode, ClusterMgrNode}
use cloudnative.Machines.{Machines}
use cloudnative.NodeMgr.{NodeMgr, NodeMgrs}
use cloudnative.OneDc.{Cluster, Elasticsearch}
use cloudnative.MultiDc.{Xpanel}
use cloudnative.Scripts.{Host, Work, Step, Command, add_to_commands_list, purge_cache_commands}

-- The validated configuration, as the scripts read it.
pub record Deployment : Type 0 where
  pub meta : MetaShard
  pub cluster_manager : List ClusterMgrNode
  pub node_manager : NodeMgrs
  pub clusters : List Cluster
  pub xpanel : Option Xpanel
  pub elasticsearch : Option Elasticsearch

-- The empty `dirmap`, `filesmap` and `commandslist` that a script begins with.
abbrev pub fresh : Work → Work
fresh w = record w { dirs = []; files = []; commands = [] }

-- `nodemgrmaps.get(ip)['skip']`: whether the node manager of a host is left to itself.
unfoldable pub is_skipped : NodeMgrs → String → Result Bool
is_skipped nodemgrs ip = elim (lookup ip nodemgrs) [ none ↦ err none_error | some n ↦ ok n.skip ]

-- A step for each node manager that is not skipped.
unfoldable pub each_nodemgr : (NodeMgr → Step) → NodeMgrs → Step
each_nodemgr body [] w = ok w
each_nodemgr body ((ip, node) ∷ nodes) w = do
  w1 ← if node.skip then ok w else body node w
  each_nodemgr body nodes w1

-- The same with a running number, which counts those that are not skipped.
unfoldable pub each_nodemgr_from : (ℕ → NodeMgr → Step) → ℕ → NodeMgrs → Step
each_nodemgr_from body i [] w = ok w
each_nodemgr_from body i ((ip, node) ∷ nodes) w =
    if node.skip
    then each_nodemgr_from body i nodes w
    else (do w1 ← body i node w; each_nodemgr_from body (suc i) nodes w1)

-- A step for each item with its number.
unfoldable pub each_from {ℓ} : {A : Type ℓ} → (ℕ → A → Step) → ℕ → List A → Step
each_from body i [] w = ok w
each_from body i (a ∷ rest) w = do w1 ← body i a w; each_from body (suc i) rest w1

-- `generate_systemctl_start` and `generate_systemctl_stop`.
abbrev pub systemctl : String → String → String → Work → Work
systemctl verb servname ip =
    add_to_commands_list ip "/" (format "sudo systemctl %s %s" (verb ∷ servname ∷ []))

unfoldable pub nodemgr_service : NodeMgr → String
nodemgr_service n = format "kunlun-node-manager-%d.service" (show n.brpc_http_port ∷ [])

unfoldable pub clustermgr_service : ClusterMgrNode → Result String
clustermgr_service n = do
  port ← need "brpc_raft_port" n.brpc_raft_port
  ok (format "kunlun-cluster-manager-%d.service" (show port ∷ []))

unfoldable pub storage_service : StorageNode → Result String
storage_service n = do
  port ← need "port" n.port
  ok (format "kunlun-storage-%d.service" (show port ∷ []))

-- The command that ends what listens on the monitoring port.
abbrev pub kill_exporter : String → String → String
kill_exporter program port =
    format
      "ps -fe | grep %s | grep ':%d' | awk '{print \\$2}' | while read f; do kill -9 \\$f; done"
      (program ∷ port ∷ [])
