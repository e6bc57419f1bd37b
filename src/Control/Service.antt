-- ===== src/Control/Service.antt =====
-- `service_with_config`.
use cloudnative.Base.{ℕ, [], ◌∷◌, ◌>>=◌}
use cloudnative.Base.Format.{format}
use cloudnative.Config.{Args, StorageNode, ClusterMgrNode}
use cloudnative.Machines.{Machines}
use cloudnative.NodeMgr.{NodeMgr}
use cloudnative.Programs.{
  generate_nodemgr_service, generate_storage_service, generate_clustermgr_service,
}
use cloudnative.Scripts.{Host, Step, output_info, purge_cache_commands}
use cloudnative.Control.{Deployment, fresh, each_nodemgr_from, each_from}

module _ (host : Host) (args : Args) (machines : Machines) where
  purge : Step
  purge = purge_cache_commands host args machines

  service_nodemgr : ℕ → NodeMgr → Step
  unfolding purge generate_nodemgr_service
  service_nodemgr i node w = do
    w1 ←
        generate_nodemgr_service args machines node i
          (output_info (format "Servicing node_mgr on %s ..." (node.ip ∷ [])) w)
    purge w1

  service_meta : ℕ → StorageNode → Step
  unfolding purge generate_storage_service
  service_meta i node w = do
    w1 ←
        generate_storage_service args machines node i
          (output_info (format "Servicing meta node on %s ..." (node.ip ∷ [])) w)
    purge w1

  service_clustermgr : ℕ → ClusterMgrNode → Step
  unfolding purge generate_clustermgr_service
  service_clustermgr i node w = do
    w1 ←
        generate_clustermgr_service args machines node i
          (output_info (format "Servicing cluster_mgr on %s ..." (node.ip ∷ [])) w)
    purge w1

  unfoldable pub service_with_config : Deployment → Step
  unfolding service_nodemgr service_meta service_clustermgr each_nodemgr_from each_from
  service_with_config d w = do
    w1 ← each_nodemgr_from service_nodemgr 0 d.node_manager (fresh w)
    w2 ← each_from service_meta 0 d.meta.nodes w1
    each_from service_clustermgr 0 d.cluster_manager w2
