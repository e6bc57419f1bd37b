-- ===== src/Control/Clusters/Targets.antt =====
-- What `start_clusters` and `stop_clusters` are about, described on its own: the programs of the clusters
-- that no node manager cares for, and how each is started and stopped.
use cloudnative.Base.{
  String, ℕ, Option, none, some, Bool, false, List, [], ◌∷◌, ◌++◌, lookup, if◌then◌else◌,
}
use cloudnative.Base.Text.{show}
use cloudnative.Base.Format.{format}
use cloudnative.Config.{StorageNode, CompNode, Shard, Haproxy}
use cloudnative.NodeMgr.{NodeMgrs}
use cloudnative.OneDc.{Cluster}
use cloudnative.Scripts.{Command}
use cloudnative.Control.Clusters.{command_at}

-- A program, with its host and its port.
pub data Target : Type 0 where
  storage_program : String → ℕ → Target
  server_program : String → ℕ → Target
  proxy_program : String → ℕ → Target

-- How it is started, in the base directory.
abbrev pub start_of : Target → Command
start_of (storage_program ip port) =
    command_at ip "." (format "bash start-storage-%d.sh" (show port ∷ []))
start_of (server_program ip port) =
    command_at ip "." (format "bash start-server-%d.sh" (show port ∷ []))
start_of (proxy_program ip port) = command_at ip "." (
    format "\\${HAPROXY_DIR}/sbin/haproxy -f %s >& haproxy-%d.log"
      (format "haproxy-%d.cfg" (show port ∷ []) ∷ show port ∷ []))

-- How it is stopped, in the same directory.
abbrev pub stop_of : Target → Command
stop_of (storage_program ip port) =
    command_at ip "." (format "bash stop-storage-%d.sh" (show port ∷ []))
stop_of (server_program ip port) =
    command_at ip "." (format "bash stop-server-%d.sh" (show port ∷ []))
stop_of (proxy_program ip port) =
    command_at ip "." (format "cat haproxy-%d.pid | xargs kill -9" (show port ∷ []))

-- The node manager of the host is one that is skipped.
unfoldable pub is_unmanaged : NodeMgrs → String → Bool
is_unmanaged nodemgrs ip = elim (lookup ip nodemgrs) [ none ↦ false | some n ↦ n.skip ]

-- One program, if it has a port.
abbrev pub with_port : (ℕ → Target) → Option ℕ → List Target
with_port target none = []
with_port target (some port) = target port ∷ []

unfoldable pub storage_targets : NodeMgrs → List StorageNode → List Target
storage_targets nodemgrs [] = []
storage_targets nodemgrs (n ∷ ns) =
    (if is_unmanaged nodemgrs n.ip then with_port (storage_program n.ip) n.port else [])
    ++ storage_targets nodemgrs ns

unfoldable pub shard_targets : NodeMgrs → List Shard → List Target
shard_targets nodemgrs [] = []
shard_targets nodemgrs (s ∷ ss) = storage_targets nodemgrs s.nodes ++ shard_targets nodemgrs ss

unfoldable pub server_targets : NodeMgrs → List CompNode → List Target
server_targets nodemgrs [] = []
server_targets nodemgrs (n ∷ ns) =
    (if is_unmanaged nodemgrs n.ip then with_port (server_program n.ip) n.port else [])
    ++ server_targets nodemgrs ns

abbrev pub proxy_targets : Option Haproxy → List Target
proxy_targets none = []
proxy_targets (some h) = with_port (proxy_program h.ip) h.port

-- The programs of each cluster, in the order in which they are started: on hosts whose node manager
-- is skipped the storage nodes and the computing nodes, and the proxy wherever it is.
unfoldable pub targets : NodeMgrs → List Cluster → List Target
targets nodemgrs [] = []
targets nodemgrs (c ∷ cs) =
    (shard_targets nodemgrs c.datas ++ (server_targets nodemgrs c.comps ++ proxy_targets c.haproxy))
    ++ targets nodemgrs cs
