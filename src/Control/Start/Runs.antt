-- ===== src/Control/Start/Runs.antt =====
-- `start_with_config` returns where the configuration is ready.
use cloudnative.Base.{String, true, is_some, List, [], ◌∷◌, All, ok, ◌>>=◌, ◌≡◌, refl}
use cloudnative.Config.{Args, StorageNode, ClusterMgrNode}
use cloudnative.Machines.{Machines}
use cloudnative.NodeMgr.{NodeMgr, NodeMgrs}
use cloudnative.OneDc.{Cluster}
use cloudnative.Panel.Runs.{each_node-Runs, start_xpanel-Runs}
use cloudnative.Panel.{each_node, start_xpanel}
use cloudnative.Search.{start_elasticsearch}
use cloudnative.Search.Runs.{start_elasticsearch-Runs}
use cloudnative.Scripts.{Host, Work, Step, add_to_commands_list_env}
use cloudnative.Scripts.Runs.{
  IsKnown, Runs, Runs-ok, Runs->>=, Runs-if, Runs-need, Runs-get_machine,
  add_to_commands_list_env-AllKnown, add_to_files_list_map-AllKnown,
}
use cloudnative.Control.{Deployment, fresh, each_nodemgr, storage_service}
use cloudnative.Control.Ready.{IsReady, IsStorageReady, IsClusterReady, IsManagerReady}
use cloudnative.Control.Ready.Runs.{
  each_nodemgr-Runs, told-Runs, if_skip-Runs, storage_service-Runs, clustermgr_service-Runs,
}
use cloudnative.Control.Clusters.Runs.{start_clusters-Runs}
use cloudnative.Control.Start.{
  purge, nodemgr_start, start_nodemgr, storage_start, start_meta, clustermgr_start,
  start_clustermgr, start_all_clusters, start_with_config,
}

module _ (host : Host) (args : Args) (machines : Machines) where
  -- A command more is known.
  command_known :
      (ip dir command env : String)
      → IsKnown machines ip
      → Runs host args machines (λ w. ok (add_to_commands_list_env ip dir command env w))
  command_known ip dir command env h =
      Runs-ok host args machines _
        (λ w k. add_to_commands_list_env-AllKnown host args machines ip dir command env w h k)

  nodemgr_start-Runs :
      (n : NodeMgr)
      → IsKnown machines n.ip
      → Runs host args machines (nodemgr_start host args machines n)
  unfolding nodemgr_start
  nodemgr_start-Runs n h =
      Runs-if host args machines args.autostart _ _ (command_known n.ip _ _ _ h) (
        Runs-get_machine host args machines n.ip _ h (λ mach. Runs-ok host args machines _ (λ w k.
          add_to_commands_list_env-AllKnown host args machines n.ip _ _ _ _ h (
            add_to_commands_list_env-AllKnown host args machines n.ip _ _ _ _ h
              (add_to_files_list_map-AllKnown host args machines n.ip _ _ w h k)))))

  start_nodemgr-Runs :
      (n : NodeMgr)
      → IsKnown machines n.ip
      → Runs host args machines (start_nodemgr host args machines n)
  unfolding start_nodemgr purge
  start_nodemgr-Runs n h =
      told-Runs host args machines _ (nodemgr_start host args machines n) (nodemgr_start-Runs n h)

  storage_start-Runs :
      (n : StorageNode)
      → IsKnown machines n.ip
      → is_some n.port ≡ true
      → Runs host args machines (storage_start host args machines n)
  unfolding storage_start storage_service
  storage_start-Runs n h p =
      Runs-if host args machines args.autostart _ _
        (storage_service-Runs host args machines n _ p (λ unit. command_known n.ip _ _ _ h))
        (Runs-need host args machines "port" n.port _ p (λ port. command_known n.ip _ _ _ h))

  start_meta-Runs :
      (nodemgrs : NodeMgrs) (n : StorageNode)
      → IsStorageReady machines nodemgrs n
      → Runs host args machines (start_meta host args machines nodemgrs n)
  unfolding start_meta purge
  start_meta-Runs nodemgrs n h = if_skip-Runs host args machines nodemgrs n.ip _ h.1 (
      told-Runs host args machines _ (storage_start host args machines n)
        (storage_start-Runs n h.0 h.2))

  clustermgr_start-Runs :
      (nodemgrs : NodeMgrs) (n : ClusterMgrNode)
      → IsManagerReady machines nodemgrs n
      → Runs host args machines (clustermgr_start host args machines n)
  unfolding clustermgr_start
  clustermgr_start-Runs nodemgrs n r =
      Runs-if host args machines args.autostart _ _
        (clustermgr_service-Runs host args machines n _ r.raft_port
          (λ unit. command_known n.ip _ _ _ r.known))
        (Runs-need host args machines "valgrind" n.valgrind _ r.valgrind
          (λ v. command_known n.ip _ _ _ r.known))

  start_clustermgr-Runs :
      (nodemgrs : NodeMgrs) (n : ClusterMgrNode)
      → IsManagerReady machines nodemgrs n
      → Runs host args machines (start_clustermgr host args machines n)
  unfolding start_clustermgr purge
  start_clustermgr-Runs nodemgrs n r =
      told-Runs host args machines _ (clustermgr_start host args machines n)
        (clustermgr_start-Runs nodemgrs n r)

  start_all_clusters-Runs :
      (nodemgrs : NodeMgrs) (cs : List Cluster)
      → All (IsClusterReady machines nodemgrs) cs
      → Runs host args machines (start_all_clusters host args machines nodemgrs cs)
  unfolding start_all_clusters purge
  start_all_clusters-Runs nodemgrs [] r w k = (w, refl, k)
  start_all_clusters-Runs nodemgrs (c ∷ cs) r w k =
      told-Runs host args machines _ _ (start_clusters-Runs host args machines nodemgrs (c ∷ cs) r)
        w k

  -- Where every host has a machine, the hosts of storage and computing nodes have a node manager, and
  -- the addresses, ports, names and flags that the scripts read of the metadata nodes, the managers,
  -- the clusters, the search service and the panel are given, start_with_config returns.
  pub start_with_config-IsReady :
      (d : Deployment) (w : Work)
      → IsReady machines d
      → (v : Work) × (start_with_config host args machines d w ≡ ok v)
  unfolding start_with_config
  start_with_config-IsReady d w r =
      let s6 : Step = start_xpanel host args machines d.xpanel in
      let s5 : Step =
        λ v. each_node (start_clustermgr host args machines) d.cluster_manager v >>= s6 in
      let s4 : Step = λ v. start_elasticsearch host args machines d.elasticsearch v >>= s5 in
      let s3 : Step =
        λ v. start_all_clusters host args machines d.node_manager d.clusters v >>= s4 in
      let s2 : Step =
        λ v. each_node (start_meta host args machines d.node_manager) d.meta.nodes v >>= s3 in
      let r6 : Runs host args machines s6 = start_xpanel-Runs host args machines d.xpanel r.panel in
      let r5 : Runs host args machines s5 =
        Runs->>= host args machines
          (each_node (start_clustermgr host args machines) d.cluster_manager) s6
          (each_node-Runs host args machines (IsManagerReady machines d.node_manager) _
            d.cluster_manager (start_clustermgr-Runs d.node_manager) r.managers)
          r6 in
      let r4 : Runs host args machines s4 =
        Runs->>= host args machines (start_elasticsearch host args machines d.elasticsearch) s5
          (start_elasticsearch-Runs host args machines d.elasticsearch r.search) r5 in
      let r3 : Runs host args machines s3 =
        Runs->>= host args machines
          (start_all_clusters host args machines d.node_manager d.clusters) s4
          (start_all_clusters-Runs d.node_manager d.clusters r.clusters) r4 in
      let r2 : Runs host args machines s2 =
        Runs->>= host args machines
          (each_node (start_meta host args machines d.node_manager) d.meta.nodes) s3
          (each_node-Runs host args machines (IsStorageReady machines d.node_manager) _ d.meta.nodes
            (start_meta-Runs d.node_manager) r.metas)
          r3 in
      let (v, e, k) =
        Runs->>= host args machines (each_nodemgr (start_nodemgr host args machines) d.node_manager)
          s2 (each_nodemgr-Runs host args machines _ d.node_manager start_nodemgr-Runs r.nodemgrs)
          r2 (fresh w) (record { dirs = tt; files = tt; commands = tt }) in
      (v, e)
