-- ===== src/Control/Ready/Runs.antt =====
-- The steps that starting and stopping share, where the configuration is ready.
use cloudnative.Base.{
  String, true, false, Bool, Option-cases, inl, inr, is_some, [], ◌∷◌, All, lookup, ok, ◌>>=◌, ◌≡◌,
  refl, need-Returns, if◌then◌else◌,
}
use cloudnative.Base.Text.{show}
use cloudnative.Base.Format.{format}
use cloudnative.Config.{Args, StorageNode, ClusterMgrNode}
use cloudnative.Machines.{Machines}
use cloudnative.NodeMgr.{NodeMgr, NodeMgrs}
use cloudnative.Scripts.{Host, Step, output_info, purge_cache_commands}
use cloudnative.Scripts.Runs.{IsKnown, Runs, Runs->>=, purge-Runs, output_info-AllKnown}
use cloudnative.Control.{is_skipped, each_nodemgr, storage_service, clustermgr_service}

module _ (host : Host) (args : Args) (machines : Machines) where
  -- A line that says what is done, the step, and what it gathered.
  pub told-Runs :
      (info : String) (f : Step)
      → Runs host args machines f
      → Runs host args machines
          (λ w. f (output_info info w) >>= purge_cache_commands host args machines)
  told-Runs info f h w k =
      Runs->>= host args machines f _ h (purge-Runs host args machines) (output_info info w)
        (output_info-AllKnown host args machines info w k)

  each_one :
      (b : Bool) (f : Step)
      → Runs host args machines f
      → Runs host args machines (λ w. if b then ok w else f w)
  each_one true f h w k = (w, refl, k)
  each_one false f h w k = h w k

  pub each_nodemgr-Runs :
      (body : NodeMgr → Step) (nodemgrs : NodeMgrs)
      → ((n : NodeMgr) → IsKnown machines n.ip → Runs host args machines (body n))
      → All (λ (e : String × NodeMgr). IsKnown machines e.1.ip) nodemgrs
      → Runs host args machines (each_nodemgr body nodemgrs)
  unfolding each_nodemgr
  each_nodemgr-Runs body [] h r w k = (w, refl, k)
  each_nodemgr-Runs body ((ip, n) ∷ nodes) h r w k =
      Runs->>= host args machines _ _ (each_one n.skip (body n) (h n r.0))
        (each_nodemgr-Runs body nodes h r.1) w k

  when_skipped :
      (b : Bool) (f : Step)
      → Runs host args machines f
      → Runs host args machines (λ w. if b then f w else ok w)
  when_skipped true f h w k = h w k
  when_skipped false f h w k = (w, refl, k)

  pub if_skip-Runs :
      (nodemgrs : NodeMgrs) (ip : String) (f : Step)
      → IsKnown nodemgrs ip
      → Runs host args machines f
      → Runs host args machines (λ w. is_skipped nodemgrs ip >>= λ skip. if skip then f w else ok w)
  unfolding is_skipped
  if_skip-Runs nodemgrs ip f h r w k = elim (Option-cases (lookup ip nodemgrs)) [
    | inl e ↦ cc
    | inr (n, e) ↦ let (v, e1, k1) = when_skipped n.skip f r w k in (v, rw (e, is_skipped) e1, k1)
  ]

  pub storage_service-Runs :
      (n : StorageNode) (rest : String → Step)
      → is_some n.port ≡ true
      → ((unit : String) → Runs host args machines (rest unit))
      → Runs host args machines (λ w. storage_service n >>= λ unit. rest unit w)
  unfolding storage_service
  storage_service-Runs n rest h r w k =
      let (port, e) = need-Returns "port" n.port h in
      let (v, e1, k1) = r (format "kunlun-storage-%d.service" (show port ∷ [])) w k in
      (v, rw e e1, k1)

  pub clustermgr_service-Runs :
      (n : ClusterMgrNode) (rest : String → Step)
      → is_some n.brpc_raft_port ≡ true
      → ((unit : String) → Runs host args machines (rest unit))
      → Runs host args machines (λ w. clustermgr_service n >>= λ unit. rest unit w)
  unfolding clustermgr_service
  clustermgr_service-Runs n rest h r w k =
      let (port, e) = need-Returns "brpc_raft_port" n.brpc_raft_port h in
      let (v, e1, k1) = r (format "kunlun-cluster-manager-%d.service" (show port ∷ [])) w k in
      (v, rw e e1, k1)
