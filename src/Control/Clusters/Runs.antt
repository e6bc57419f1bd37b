-- ===== src/Control/Clusters/Runs.antt =====
-- `start_clusters` and `stop_clusters` return where the clusters are ready.
use cloudnative.Base.{
  need, String, ℕ, true, false, Bool, Option, none, some, is_some, Option-cases, inl, inr, sym,
  subst, List, [], ◌∷◌, ◌++◌, All, All-append, lookup, Result, ok, ◌>>=◌, ◌≡◌, refl, ap, ◌∙◌,
  Returns, if◌then◌else◌,
}
use cloudnative.Config.{Args, Haproxy, Shard, StorageNode, CompNode}
use cloudnative.Machines.{Machines}
use cloudnative.NodeMgr.{NodeMgrs}
use cloudnative.OneDc.{Cluster}
use cloudnative.Scripts.{Host, Work, Command, process_commandslist_setenv}
use cloudnative.Scripts.Runs.{IsKnown, AllKnown, Runs, runs-HasMachine}
use cloudnative.Panel.Runs.{OnGiven}
use cloudnative.Control.{is_skipped}
use cloudnative.Control.Ready.{IsStorageReady, IsCompReady, IsHaproxyReady, IsClusterReady}
use cloudnative.Control.Clusters.{
  Commands, each_commands, if_skipped, port_command, start_haproxy, stop_haproxy, start_cluster,
  stop_cluster, run_commands, start_clusters, stop_clusters,
}
use cloudnative.Control.Clusters.Stops.{commands-writes}

module _ (machines : Machines) (nodemgrs : NodeMgrs) where
  -- Commands on known hosts.
  abbrev Gives : Commands → Type 0
  Gives r = (cs : List Command) × (r ≡ ok cs) × All (λ (c : Command). IsKnown machines c.ip) cs

  is_skipped-Returns : (ip : String) → IsKnown nodemgrs ip → Returns (is_skipped nodemgrs ip)
  unfolding is_skipped
  is_skipped-Returns ip h = elim (Option-cases (lookup ip nodemgrs)) [
    | inl e ↦ cc
    | inr (n, e) ↦ (n.skip, rw (e, is_skipped) refl)
  ]

  Gives-if : (b : Bool) (r : Commands) → Gives r → Gives (if b then r else ok [])
  Gives-if true r h = h
  Gives-if false r h = ([], refl, tt)

  if_skipped-Gives :
      (ip : String) (r : Commands)
      → IsKnown nodemgrs ip
      → Gives r
      → Gives (if_skipped nodemgrs ip r)
  unfolding if_skipped
  if_skipped-Gives ip r h g =
      let (skip, e) = is_skipped-Returns ip h in
      let (cs, e1, k) = Gives-if skip r g in
      (cs, ap (λ (x : Result Bool). x >>= λ s. if s then r else ok []) e ∙ e1, k)

  each_commands-Gives {ℓ} :
      {A : Type ℓ} (P : A → Type 0) (f : A → Commands) (xs : List A)
      → ((a : A) → P a → Gives (f a))
      → All P xs
      → Gives (each_commands f xs)
  unfolding each_commands
  each_commands-Gives P f [] h k = ([], refl, tt)
  each_commands-Gives P f (x ∷ xs) h k =
      let (cs, e, g) = h x k.0 in
      let (ds, e1, g1) = each_commands-Gives P f xs h k.1 in
      (cs ++ ds, rw e (rw e1 refl), All-append _ cs ds g g1)

  port_command-Gives :
      (pattern ip : String) (port : Option ℕ)
      → IsKnown machines ip
      → IsKnown nodemgrs ip
      → is_some port ≡ true
      → Gives (port_command nodemgrs pattern ip port)
  unfolding port_command
  port_command-Gives pattern ip none h g s = cc
  port_command-Gives pattern ip (some n) h g s = if_skipped-Gives ip _ g (_, refl, (h, tt))

  storages-Gives :
      (pattern : String) (ss : List Shard)
      → All (λ (s : Shard). All (IsStorageReady machines nodemgrs) s.nodes) ss
      → Gives (
          each_commands
            (λ (s : Shard).
              each_commands
                (λ (n : StorageNode). port_command nodemgrs pattern n.ip n.port)
                s.nodes)
            ss)
  storages-Gives pattern ss h =
      each_commands-Gives _ _ ss
        (λ s k.
          each_commands-Gives (IsStorageReady machines nodemgrs) _ s.nodes
            (λ n r. port_command-Gives pattern n.ip n.port r.0 r.1 r.2) k)
        h

  servers-Gives :
      (pattern : String) (ns : List CompNode)
      → All (IsCompReady machines nodemgrs) ns
      → Gives (each_commands (λ (n : CompNode). port_command nodemgrs pattern n.ip n.port) ns)
  servers-Gives pattern ns h =
      each_commands-Gives (IsCompReady machines nodemgrs) _ ns
        (λ n r. port_command-Gives pattern n.ip n.port r.0 r.1 r.2) h

  one-Gives :
      (ip : String) (o : Option ℕ) (command : ℕ → Command)
      → ((p : ℕ) → (command p).ip ≡ ip)
      → IsKnown machines ip
      → is_some o ≡ true
      → Gives (need "port" o >>= λ p. ok (command p ∷ []))
  one-Gives ip none command same h g = cc
  one-Gives ip (some p) command same h g =
      (command p ∷ [], refl, (subst (IsKnown machines) (sym (same p)) h, tt))

  start_haproxy-Gives :
      (o : Option Haproxy) → OnGiven (IsHaproxyReady machines nodemgrs) o → Gives (start_haproxy o)
  unfolding start_haproxy
  start_haproxy-Gives none h = ([], refl, tt)
  start_haproxy-Gives (some x) h = one-Gives x.ip x.port _ (λ p. refl) h.0 h.1

  stop_haproxy-Gives :
      (o : Option Haproxy) → OnGiven (IsHaproxyReady machines nodemgrs) o → Gives (stop_haproxy o)
  unfolding stop_haproxy
  stop_haproxy-Gives none h = ([], refl, tt)
  stop_haproxy-Gives (some x) h = one-Gives x.ip x.port _ (λ p. refl) h.0 h.1

  three-Gives :
      (r s t : Commands)
      → Gives r
      → Gives s
      → Gives t
      → Gives (r >>= λ a. s >>= λ b. t >>= λ c. ok (a ++ (b ++ c)))
  three-Gives r s t (cs, e, g) (ds, e1, g1) (es, e2, g2) = (
    cs ++ (ds ++ es),
    rw e (rw e1 (rw e2 refl)),
    All-append _ cs (ds ++ es) g (All-append _ ds es g1 g2),
  )

  start_cluster-Gives :
      (c : Cluster) → IsClusterReady machines nodemgrs c → Gives (start_cluster nodemgrs c)
  unfolding start_cluster
  start_cluster-Gives c r =
      three-Gives _ _ _ (storages-Gives _ c.datas r.storages) (servers-Gives _ c.comps r.servers)
        (start_haproxy-Gives c.haproxy r.proxy)

  stop_cluster-Gives :
      (c : Cluster) → IsClusterReady machines nodemgrs c → Gives (stop_cluster nodemgrs c)
  unfolding stop_cluster
  stop_cluster-Gives c r =
      three-Gives _ _ _ (storages-Gives _ c.datas r.storages) (servers-Gives _ c.comps r.servers)
        (stop_haproxy-Gives c.haproxy r.proxy)

module _ (host : Host) (args : Args) (machines : Machines) where
  run_commands-Runs :
      (nodemgrs : NodeMgrs) (r : Commands)
      → Gives machines nodemgrs r
      → Runs host args machines (run_commands host args machines nodemgrs r)
  unfolding run_commands
  run_commands-Runs nodemgrs r (cs, e, g) w k =
      let (v, ran, (ls, els, written)) =
        commands-writes host args machines cs w (runs-HasMachine host args machines cs g) in
      (
        v,
        ap (λ (x : Commands). x >>= λ list. process_commandslist_setenv host args machines list w) e
            ∙ ran,
        subst (AllKnown host args machines) (sym written)
            (record { dirs = k.dirs; files = k.files; commands = k.commands }),
      )

  if_one-Runs :
      (several : Bool) (f : Work → Result Work)
      → Runs host args machines f
      → Runs host args machines (λ w. if several then ok w else f w)
  if_one-Runs true f h w k = (w, refl, k)
  if_one-Runs false f h w k = h w k

  pub start_clusters-Runs :
      (nodemgrs : NodeMgrs) (cs : List Cluster)
      → All (IsClusterReady machines nodemgrs) cs
      → Runs host args machines (start_clusters host args machines nodemgrs cs)
  unfolding start_clusters
  start_clusters-Runs nodemgrs cs r = if_one-Runs args.multipledc _ (
      run_commands-Runs nodemgrs _
        (each_commands-Gives machines nodemgrs _ _ cs (start_cluster-Gives machines nodemgrs) r))

  pub stop_clusters-Runs :
      (nodemgrs : NodeMgrs) (cs : List Cluster)
      → All (IsClusterReady machines nodemgrs) cs
      → Runs host args machines (stop_clusters host args machines nodemgrs cs)
  unfolding stop_clusters
  stop_clusters-Runs nodemgrs cs r = if_one-Runs args.multipledc _ (
      run_commands-Runs nodemgrs _
        (each_commands-Gives machines nodemgrs _ _ cs (stop_cluster-Gives machines nodemgrs) r))
