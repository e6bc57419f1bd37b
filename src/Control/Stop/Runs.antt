-- ===== src/Control/Stop/Runs.antt =====
-- `stop_with_config` returns where the configuration is ready.
use cloudnative.Base.{
  true, false, if◌then◌else◌, ℕ, Bool, String, true, is_some, List, [], ◌∷◌, All, ok, ◌>>=◌, ◌≡◌,
  refl,
}
use cloudnative.Config.{Args, StorageNode, ClusterMgrNode}
use cloudnative.Machines.{Machines}
use cloudnative.NodeMgr.{NodeMgr, NodeMgrs}
use cloudnative.OneDc.{Cluster}
use cloudnative.Panel.Runs.{each_node-Runs, stop_xpanel-Runs}
use cloudnative.Panel.{each_node, stop_xpanel}
use cloudnative.Search.{stop_elasticsearch}
use cloudnative.Search.Runs.{stop_elasticsearch-Runs}
use cloudnative.Scripts.{Host, Work, Step, add_to_commands_list_env}
use cloudnative.Scripts.Runs.{
  purge-Runs, output_info-AllKnown, AllKnown, IsKnown, Runs, Runs-ok, Runs->>=, Runs-if, Runs-need,
  get_machine-known, add_to_commands_list_env-AllKnown, add_to_files_list_map-AllKnown,
}
use cloudnative.Control.{
  nodemgr_service, purge_cache_commands, show, kill_exporter, format, Deployment, fresh,
  each_nodemgr, storage_service,
}
use cloudnative.Control.Ready.{IsReady, IsStorageReady, IsClusterReady, IsManagerReady}
use cloudnative.Control.Ready.Runs.{
  each_nodemgr-Runs, told-Runs, if_skip-Runs, storage_service-Runs, clustermgr_service-Runs,
}
use cloudnative.Control.Clusters.Runs.{stop_clusters-Runs}
use cloudnative.Control.Stop.{
  nodemgrdir, output_info, purge, stop_nodemgr, storage_stop, stop_meta, clustermgr_stop,
  stop_clustermgr, stop_all_clusters, stop_with_config,
}

module _ (host : Host) (args : Args) (machines : Machines) where
  -- A command more is known.
  command_known :
      (ip dir command env : String)
      → IsKnown machines ip
      → Runs host args machines (λ w. ok (add_to_commands_list_env ip dir command env w))
  command_known ip dir command env h =
      Runs-ok host args machines _
        (λ w k. add_to_commands_list_env-AllKnown host args machines ip dir command env w h k)

  AllKnown-if :
      (b : Bool) (w v : Work)
      → AllKnown host args machines w
      → AllKnown host args machines v
      → AllKnown host args machines (if b then w else v)
  AllKnown-if true w v h k = h
  AllKnown-if false w v h k = k

  stop_nodemgr-Runs :
      (n : NodeMgr)
      → IsKnown machines n.ip
      → Runs host args machines (stop_nodemgr host args machines n)
  unfolding stop_nodemgr purge
  stop_nodemgr-Runs n h w k =
      let info : String =
        format "Stopping node_mgr and its managed instances on %s ..." (n.ip ∷ []) in
      let w1 = output_info info w in
      let k1 = output_info-AllKnown host args machines info w k in
      let unit =
        add_to_commands_list_env n.ip "/"
          (format "sudo systemctl %s %s" ("stop" ∷ nodemgr_service n ∷ [])) "no" w1 in
      let script =
        add_to_commands_list_env n.ip (format "%s/bin" (nodemgrdir args ∷ []))
          "bash stop_node_mgr.sh" "no" w1 in
      let k2 =
        AllKnown-if args.autostart unit script
          (add_to_commands_list_env-AllKnown host args machines n.ip _ _ _ w1 h k1)
          (add_to_commands_list_env-AllKnown host args machines n.ip _ _ _ w1 h k1) in
      let (mach, e) = get_machine-known host args machines n.ip h in
      let k3 =
        add_to_files_list_map-AllKnown host args machines n.ip "stop_instances.sh" "." _ h k2 in
      let k4 =
        add_to_commands_list_env-AllKnown host args machines n.ip "."
          (format "bash ./stop_instances.sh %s %s >& stop.log || true"
            (mach.basedir ∷ args.product_version ∷ []))
          "no" _ h k3 in
      let k5 =
        add_to_commands_list_env-AllKnown host args machines n.ip "."
          (kill_exporter "node_exporter" (show n.prometheus_port_start)) "no" _ h k4 in
      let (v, purged, known) = purge-Runs host args machines _ k5 in (v, rw e purged, known)

  clustermgr_stop-Runs :
      (nodemgrs : NodeMgrs) (n : ClusterMgrNode)
      → IsManagerReady machines nodemgrs n
      → Runs host args machines (clustermgr_stop host args machines n)
  unfolding clustermgr_stop
  clustermgr_stop-Runs nodemgrs n r =
      Runs-if host args machines args.autostart _ _
        (clustermgr_service-Runs host args machines n _ r.raft_port
          (λ unit. command_known n.ip _ _ _ r.known))
        (command_known n.ip _ _ _ r.known)

  stop_clustermgr-Runs :
      (nodemgrs : NodeMgrs) (n : ClusterMgrNode)
      → IsManagerReady machines nodemgrs n
      → Runs host args machines (stop_clustermgr host args machines n)
  unfolding stop_clustermgr purge
  stop_clustermgr-Runs nodemgrs n r w k =
      let info : String = format "Stopping cluster_mgr on %s ..." (n.ip ∷ []) in
      let kill : ℕ → String = λ port. kill_exporter "prometheus" (show port) in
      let behind : ℕ → Step = λ port v.
        purge_cache_commands host args machines
          (add_to_commands_list_env n.ip "." (kill port) "no" v) in
      let killed : (port : ℕ) → Runs host args machines (behind port) = λ port v g.
        purge-Runs host args machines (add_to_commands_list_env n.ip "." (kill port) "no" v) (
          add_to_commands_list_env-AllKnown host args machines n.ip "." (kill port) "no" v r.known
            g) in
      Runs->>= host args machines (clustermgr_stop host args machines n) _
        (clustermgr_stop-Runs nodemgrs n r)
        (Runs-need host args machines "prometheus_port_start" n.prometheus_port_start behind
          r.prometheus killed)
        (output_info info w) (output_info-AllKnown host args machines info w k)

  storage_stop-Runs :
      (n : StorageNode)
      → IsKnown machines n.ip
      → is_some n.port ≡ true
      → Runs host args machines (storage_stop host args machines n)
  unfolding storage_stop storage_service
  storage_stop-Runs n h p =
      Runs-if host args machines args.autostart _ _
        (storage_service-Runs host args machines n _ p (λ unit. command_known n.ip _ _ _ h))
        (Runs-need host args machines "port" n.port _ p (λ port. command_known n.ip _ _ _ h))

  stop_meta-Runs :
      (nodemgrs : NodeMgrs) (n : StorageNode)
      → IsStorageReady machines nodemgrs n
      → Runs host args machines (stop_meta host args machines nodemgrs n)
  unfolding stop_meta purge
  stop_meta-Runs nodemgrs n h = if_skip-Runs host args machines nodemgrs n.ip _ h.1 (
      told-Runs host args machines _ (storage_stop host args machines n)
        (storage_stop-Runs n h.0 h.2))

  stop_all_clusters-Runs :
      (nodemgrs : NodeMgrs) (cs : List Cluster)
      → All (IsClusterReady machines nodemgrs) cs
      → Runs host args machines (stop_all_clusters host args machines nodemgrs cs)
  unfolding stop_all_clusters purge
  stop_all_clusters-Runs nodemgrs [] r w k = (w, refl, k)
  stop_all_clusters-Runs nodemgrs (c ∷ cs) r w k =
      told-Runs host args machines _ _ (stop_clusters-Runs host args machines nodemgrs (c ∷ cs) r) w
        k

  -- Where every host has a machine, the hosts of storage and computing nodes have a node manager, and
  -- the addresses, ports, names and flags that the scripts read of the metadata nodes, the managers,
  -- the clusters, the search service and the panel are given, stop_with_config returns.
  pub stop_with_config-IsReady :
      (d : Deployment) (w : Work)
      → IsReady machines d
      → (v : Work) × (stop_with_config host args machines d w ≡ ok v)
  unfolding stop_with_config
  stop_with_config-IsReady d w r =
      let s6 : Step = stop_xpanel host args machines d.xpanel in
      let s5 : Step =
        λ v. each_node (stop_meta host args machines d.node_manager) d.meta.nodes v >>= s6 in
      let s4 : Step =
        λ v. each_node (stop_clustermgr host args machines) d.cluster_manager v >>= s5 in
      let s3 : Step = λ v. stop_elasticsearch host args machines d.elasticsearch v >>= s4 in
      let s2 : Step =
        λ v. stop_all_clusters host args machines d.node_manager d.clusters v >>= s3 in
      let r6 : Runs host args machines s6 = stop_xpanel-Runs host args machines d.xpanel r.panel in
      let r5 : Runs host args machines s5 =
        Runs->>= host args machines
          (each_node (stop_meta host args machines d.node_manager) d.meta.nodes) s6
          (each_node-Runs host args machines (IsStorageReady machines d.node_manager) _ d.meta.nodes
            (stop_meta-Runs d.node_manager) r.metas)
          r6 in
      let r4 : Runs host args machines s4 =
        Runs->>= host args machines
          (each_node (stop_clustermgr host args machines) d.cluster_manager) s5
          (each_node-Runs host args machines (IsManagerReady machines d.node_manager) _
            d.cluster_manager (stop_clustermgr-Runs d.node_manager) r.managers)
          r5 in
      let r3 : Runs host args machines s3 =
        Runs->>= host args machines (stop_elasticsearch host args machines d.elasticsearch) s4
          (stop_elasticsearch-Runs host args machines d.elasticsearch r.search) r4 in
      let r2 : Runs host args machines s2 =
        Runs->>= host args machines (stop_all_clusters host args machines d.node_manager d.clusters)
          s3 (stop_all_clusters-Runs d.node_manager d.clusters r.clusters) r3 in
      let (v, e, k) =
        Runs->>= host args machines (each_nodemgr (stop_nodemgr host args machines) d.node_manager)
          s2 (each_nodemgr-Runs host args machines _ d.node_manager stop_nodemgr-Runs r.nodemgrs) r2
          (fresh w) (record { dirs = tt; files = tt; commands = tt }) in
      (v, e)
