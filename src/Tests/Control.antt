-- ===== src/Tests/Control.antt =====
-- Starting and stopping a small installation: a metadata node, two node managers, a cluster manager,
-- a cluster, the search service and the panel; and the installation on the two hosts.
use cloudnative.Base.{
  ℕ, negsuc, true, List, get_elem?, err, index_error, ◌⊎◌, false, some, none, [], ◌∷◌, All, lookup,
  ok, ◌≡◌, refl,
}
use cloudnative.Config.{StorageNode, ClusterMgrNode}
use cloudnative.Scripts.{Work}
use cloudnative.Install.Env.{init_worknodes}
use cloudnative.Install.Env.Runs.{init_worknodes-IsKnown}
use cloudnative.Scripts.Runs.{IsKnown}
use cloudnative.Remote.{Console, start_storage_node_usingidx}
use cloudnative.Remote.Bounds.{
  IsPosition, IsOutside, IsReachable, RunsOne, start_storage_node_usingidx-Bounds,
}
use cloudnative.Control.{Deployment}
use cloudnative.Control.Ready.{IsReady}
use cloudnative.Control.Start.{start_with_config}
use cloudnative.Control.Stop.{stop_with_config}
use cloudnative.Control.Start.Runs.{start_with_config-IsReady}
use cloudnative.Control.Stop.Runs.{stop_with_config-IsReady}
use cloudnative.Tests.OneKey.{args}
use cloudnative.Tests.OneDc.{storage_on, clustermgr_on}
use cloudnative.Tests.Scripts.{host, machines, nodemgrs, cluster, work}

abbrev manager : ClusterMgrNode
manager = record (clustermgr_on "10.0.0.1") {
  valgrind = some false;
  brpc_raft_port = some 58000;
  prometheus_port_start = some 59010;
}

abbrev deployment : Deployment
deployment = record {
  meta = record {
    ha_mode = some "no_rep";
    enable_rocksdb = none;
    fullsync_level = none;
    group_seeds = some "10.0.0.1:57003";
    nodes = record (storage_on "10.0.0.1") { port = some 57003 } ∷ [];
  };
  cluster_manager = manager ∷ [];
  node_manager = nodemgrs;
  clusters = cluster ∷ [];
  xpanel = some (record {
    image_type = some "url";
    image = some "kunlun-xpanel:1.2.1";
    image_file = none;
    nodes = some (record { ip = "10.0.0.2"; port = some 18080; name = some "xpanel_18080" } ∷ []);
  });
  elasticsearch = some (record { ip = some "10.0.0.2"; port = some 9200; kibana_port = some 5601 });
}

deployment-IsReady : IsReady machines deployment
unfolding lookup
deployment-IsReady = record {
  nodemgrs = (refl, (refl, tt));
  metas = ((refl, refl, refl), tt);
  managers = (record { known = refl; valgrind = refl; raft_port = refl; prometheus = refl }, tt);
  clusters = (
    record {
      storages = (((refl, refl, refl), tt), tt);
      servers = ((refl, refl, refl), tt);
      proxy = tt;
    },
    tt,
  );
  search = record { ip = "10.0.0.2"; given = refl; known = refl; port = refl; kibana_port = refl };
  panel = record { listed = _; given = refl; nodes = ((refl, refl), tt) };
}

start_with_config-IsReady_example :
    (v : Work) × (start_with_config host args machines deployment work ≡ ok v)
start_with_config-IsReady_example =
    start_with_config-IsReady host args machines deployment work deployment-IsReady

stop_with_config-IsReady_example :
    (v : Work) × (stop_with_config host args machines deployment work ≡ ok v)
stop_with_config-IsReady_example =
    stop_with_config-IsReady host args machines deployment work deployment-IsReady

both_known : All (IsKnown machines) ("10.0.0.1" ∷ "10.0.0.2" ∷ [])
unfolding lookup
both_known = (refl, (refl, tt))

init_worknodes-IsKnown_example :
    (v : Work) × (init_worknodes host args machines
        ("10.0.0.2" ∷ [])
        0
        ("10.0.0.1" ∷ "10.0.0.2" ∷ [])
        work
      ≡ ok v)
init_worknodes-IsKnown_example =
    init_worknodes-IsKnown host args machines ("10.0.0.2" ∷ []) 0 ("10.0.0.1" ∷ "10.0.0.2" ∷ [])
      work refl both_known

-- Two storage nodes of a group.
abbrev group : List StorageNode
group =
    record (storage_on "10.0.0.1") { port = some 57001 }
    ∷ record (storage_on "10.0.0.2") { port = some 57004 }
    ∷ []

group-IsReachable : All (IsReachable machines) group
unfolding lookup
group-IsReachable = ((refl, refl), ((refl, refl), tt))

abbrev console : Console
console = record { printed = []; executed = [] }

-- The last node.
start_storage_node_usingidx-Bounds_example :
    ((i : ℕ) × IsPosition 2 (negsuc 0) i
      × (n : StorageNode) × (d : Console) × (get_elem? group i ≡ some n)
      × (start_storage_node_usingidx machines "bin" group (negsuc 0) true console ≡ ok d)
      × RunsOne machines "bin" n true console d)
    ⊎ (IsOutside 2 (negsuc 0)
        × (start_storage_node_usingidx machines "bin" group (negsuc 0) true console
            ≡ err index_error))
start_storage_node_usingidx-Bounds_example =
    start_storage_node_usingidx-Bounds machines "bin" group (negsuc 0) true console
      group-IsReachable
