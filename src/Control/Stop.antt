-- ===== src/Control/Stop.antt =====
-- `stop_with_config`.
pub mod Runs
use cloudnative.Base.{List, [], ◌∷◌, ok, need, ◌>>=◌, if◌then◌else◌}
use cloudnative.Base.Text.{show}
use cloudnative.Base.Format.{format}
use cloudnative.Config.{Args, StorageNode, ClusterMgrNode}
use cloudnative.Machines.{Machines, get_machine}
use cloudnative.NodeMgr.{NodeMgr, NodeMgrs}
use cloudnative.Panel.{each_node, stop_xpanel}
use cloudnative.Search.{stop_elasticsearch}
use cloudnative.Programs.{clustermgrdir, nodemgrdir}
use cloudnative.OneDc.{Cluster}
use cloudnative.Scripts.{
  Host, Step, output_info, add_to_files_list_map, add_to_commands_list, add_to_commands_list_env,
  purge_cache_commands,
}
use cloudnative.Control.{
  Deployment, fresh, is_skipped, each_nodemgr, systemctl, nodemgr_service, clustermgr_service,
  storage_service, kill_exporter,
}
use cloudnative.Control.Clusters.{stop_clusters}

module _ (host : Host) (args : Args) (machines : Machines) where
  purge : Step
  purge = purge_cache_commands host args machines

  stop_nodemgr : NodeMgr → Step
  unfolding purge get_machine
  stop_nodemgr node w = do
    let w1 =
        output_info (format "Stopping node_mgr and its managed instances on %s ..." (node.ip ∷ []))
          w
    let w2 =
        if args.autostart
        then systemctl "stop" (nodemgr_service node) node.ip w1
        else add_to_commands_list node.ip (format "%s/bin" (nodemgrdir args ∷ []))
            "bash stop_node_mgr.sh" w1
    let w3 = add_to_files_list_map node.ip "stop_instances.sh" "." w2
    mach ← get_machine machines node.ip
    let w4 =
        add_to_commands_list node.ip "."
          (format "bash ./stop_instances.sh %s %s >& stop.log || true"
            (mach.basedir ∷ args.product_version ∷ []))
          w3
    purge (
        add_to_commands_list node.ip "."
          (kill_exporter "node_exporter" (show node.prometheus_port_start)) w4)

  clustermgr_stop : ClusterMgrNode → Step
  clustermgr_stop node w =
      if args.autostart
      then (do servname ← clustermgr_service node; ok (systemctl "stop" servname node.ip w))
      else ok (
          add_to_commands_list node.ip (format "%s/bin" (clustermgrdir args ∷ []))
            "bash stop_cluster_mgr.sh" w)

  stop_clustermgr : ClusterMgrNode → Step
  unfolding purge clustermgr_stop
  stop_clustermgr node w = do
    w1 ←
        clustermgr_stop node
          (output_info (format "Stopping cluster_mgr on %s ..." (node.ip ∷ [])) w)
    port ← need "prometheus_port_start" node.prometheus_port_start
    purge (add_to_commands_list node.ip "." (kill_exporter "prometheus" (show port)) w1)

  storage_stop : StorageNode → Step
  storage_stop node w =
      if args.autostart
      then (do servname ← storage_service node; ok (systemctl "stop" servname node.ip w))
      else (do
        port ← need "port" node.port
        ok (
            add_to_commands_list_env node.ip "." (format "bash stop-storage-%d.sh" (show port ∷ []))
              "storage" w))

  stop_meta : NodeMgrs → StorageNode → Step
  unfolding purge storage_stop is_skipped
  stop_meta nodemgrs node w = do
    skip ← is_skipped nodemgrs node.ip
    if skip
        then (do
          w1 ←
              storage_stop node
                (output_info (format "Stopping meta node on %s ..." (node.ip ∷ [])) w)
          purge w1)
        else ok w

  stop_all_clusters : NodeMgrs → List Cluster → Step
  unfolding purge stop_clusters
  stop_all_clusters nodemgrs [] w = ok w
  stop_all_clusters nodemgrs (c ∷ cs) w = do
    w1 ←
        stop_clusters host args machines nodemgrs (c ∷ cs)
          (output_info "Stopping all clusters specified in the configuration file ..." w)
    purge w1

  unfoldable pub stop_with_config : Deployment → Step
  unfolding stop_nodemgr stop_meta stop_all_clusters stop_clustermgr each_node each_nodemgr
      stop_elasticsearch stop_xpanel
  stop_with_config d w = do
    w1 ← each_nodemgr stop_nodemgr d.node_manager (fresh w)
    w2 ← stop_all_clusters d.node_manager d.clusters w1
    w3 ← stop_elasticsearch host args machines d.elasticsearch w2
    w4 ← each_node stop_clustermgr d.cluster_manager w3
    w5 ← each_node (stop_meta d.node_manager) d.meta.nodes w4
    stop_xpanel host args machines d.xpanel w5
