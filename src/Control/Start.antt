-- ===== src/Control/Start.antt =====
-- `start_with_config`.
pub mod Runs
use cloudnative.Base.{String, List, [], ◌∷◌, ok, need, ◌>>=◌, if◌then◌else◌}
use cloudnative.Base.Text.{show}
use cloudnative.Base.Format.{format}
use cloudnative.Config.{Args, StorageNode, ClusterMgrNode}
use cloudnative.Machines.{Machines, get_machine}
use cloudnative.NodeMgr.{NodeMgr, NodeMgrs}
use cloudnative.Panel.{each_node, start_xpanel}
use cloudnative.Search.{start_elasticsearch}
use cloudnative.Programs.{clustermgrdir}
use cloudnative.OneDc.{Cluster}
use cloudnative.Scripts.{
  Host, Step, output_info, add_to_files_list_map, add_to_commands_list, add_to_commands_list_env,
  purge_cache_commands,
}
use cloudnative.Control.{
  Deployment, fresh, is_skipped, each_nodemgr, systemctl, nodemgr_service, clustermgr_service,
  storage_service,
}
use cloudnative.Control.Clusters.{start_clusters}

module _ (host : Host) (args : Args) (machines : Machines) where
  purge : Step
  purge = purge_cache_commands host args machines

  nodemgr_start : NodeMgr → Step
  unfolding get_machine
  nodemgr_start node w =
      if args.autostart then ok (systemctl "start" (nodemgr_service node) node.ip w) else (do
        mach ← get_machine machines node.ip
        let w1 = add_to_files_list_map node.ip "start_instances.sh" "." w
        let w2 =
            add_to_commands_list node.ip "."
              (format "bash ./start_instances.sh %s %s >& start.log || true"
                (mach.basedir ∷ args.product_version ∷ []))
              w1
        ok (
            add_to_commands_list node.ip "."
              (format "bash start-nodemgr-%d.sh </dev/null >& nodemgr_start.log"
                (show node.brpc_http_port ∷ []))
              w2))

  start_nodemgr : NodeMgr → Step
  unfolding purge nodemgr_start
  start_nodemgr node w = do
    w1 ← nodemgr_start node (output_info (format "Starting node_mgr on %s ..." (node.ip ∷ [])) w)
    purge w1

  storage_start : StorageNode → Step
  storage_start node w =
      if args.autostart
      then (do servname ← storage_service node; ok (systemctl "start" servname node.ip w))
      else (do
        port ← need "port" node.port
        ok (
            add_to_commands_list_env node.ip "."
              (format "bash start-storage-%d.sh" (show port ∷ [])) "storage" w))

  start_meta : NodeMgrs → StorageNode → Step
  unfolding purge storage_start is_skipped
  start_meta nodemgrs node w = do
    skip ← is_skipped nodemgrs node.ip
    if skip
        then (do
          w1 ←
              storage_start node
                (output_info (format "Starting meta node on %s ..." (node.ip ∷ [])) w)
          purge w1)
        else ok w

  clustermgr_start : ClusterMgrNode → Step
  clustermgr_start node w =
      if args.autostart
      then (do servname ← clustermgr_service node; ok (systemctl "start" servname node.ip w))
      else (do
        valgrind ← need "valgrind" node.valgrind
        let envpfx : String = if valgrind then "export USE_VALGRIND=1;" else ""
        ok (
            add_to_commands_list node.ip (format "%s/bin" (clustermgrdir args ∷ []))
              (format "%s bash start_cluster_mgr.sh </dev/null >& start.log" (envpfx ∷ [])) w))

  start_clustermgr : ClusterMgrNode → Step
  unfolding purge clustermgr_start
  start_clustermgr node w = do
    w1 ←
        clustermgr_start node
          (output_info (format "Starting cluster_mgr on %s ..." (node.ip ∷ [])) w)
    purge w1

  start_all_clusters : NodeMgrs → List Cluster → Step
  unfolding purge start_clusters
  start_all_clusters nodemgrs [] w = ok w
  start_all_clusters nodemgrs (c ∷ cs) w = do
    w1 ←
        start_clusters host args machines nodemgrs (c ∷ cs)
          (output_info "Starting all clusters specified in the configuration file ..." w)
    purge w1

  unfoldable pub start_with_config : Deployment → Step
  unfolding start_nodemgr start_meta start_all_clusters start_clustermgr each_node each_nodemgr
      start_elasticsearch start_xpanel
  start_with_config d w = do
    w1 ← each_nodemgr start_nodemgr d.node_manager (fresh w)
    w2 ← each_node (start_meta d.node_manager) d.meta.nodes w1
    w3 ← start_all_clusters d.node_manager d.clusters w2
    w4 ← start_elasticsearch host args machines d.elasticsearch w3
    w5 ← each_node start_clustermgr d.cluster_manager w4
    start_xpanel host args machines d.xpanel w5
