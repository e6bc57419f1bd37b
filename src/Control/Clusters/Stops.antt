-- ===== src/Control/Clusters/Stops.antt =====
-- `start_clusters` and `stop_clusters`: what is started can be stopped, program by program.
use mathlib.Core.List.{append-nil}
use cloudnative.Base.{
  String, Bool, true, false, is_some, List, [], ◌∷◌, ◌++◌, map, All, Result, ok, ◌>>=◌, >>=-eq-ok,
  ok-injective, ◌≡◌, refl, sym, ap, ◌∙◌, subst, if◌then◌else◌, lookup,
}
use cloudnative.Config.{Args}
use cloudnative.Machines.{Machines}
use cloudnative.NodeMgr.{NodeMgrs}
use cloudnative.OneDc.{Cluster}
use cloudnative.Scripts.{Host, Work, Command, process_commandslist_setenv}
use cloudnative.Scripts.Jobs.{run, lines_of, job_line, process_commandslist_setenv-lines}
use cloudnative.Scripts.Purge.{HasMachine, lines-HasMachine, HasMachine-lines}
use cloudnative.Control.Clusters.{Commands, start_clusters, stop_clusters, run_commands}
use cloudnative.Control.Clusters.Fits.{Fits, clusters-Fits}
use cloudnative.Control.Clusters.Targets.{
  Target, start_of, stop_of, targets, storage_program, server_program, proxy_program,
}

-- The hosts of some commands, in order.
abbrev ips : List Command → List String
ips = map (λ (c : Command). c.ip)

-- A program is stopped on the host on which it is started.
start_of-stop_of : (ts : List Target) → ips (map start_of ts) ≡ ips (map stop_of ts)
start_of-stop_of [] = refl
start_of-stop_of (storage_program ip port ∷ ts) = ap (λ hosts. ip ∷ hosts) (start_of-stop_of ts)
start_of-stop_of (server_program ip port ∷ ts) = ap (λ hosts. ip ∷ hosts) (start_of-stop_of ts)
start_of-stop_of (proxy_program ip port ∷ ts) = ap (λ hosts. ip ∷ hosts) (start_of-stop_of ts)

module _ (host : Host) (args : Args) (machines : Machines) where
  -- One line for each command was added to the script, and nothing else was done.
  abbrev pub WritesFor : List Command → Work → Work → Type 0
  WritesFor cs w v =
      (ls : List String) × (lines_of (job_line host args machines) (map run cs) ≡ ok ls)
      × (v ≡ record w { script = w.script ++ ls })

  process_commandslist_setenv-WritesFor :
      (cs : List Command) (w v : Work)
      → process_commandslist_setenv host args machines cs w ≡ ok v
      → WritesFor cs w v
  process_commandslist_setenv-WritesFor cs w v h =
      let (ls, e, h1) =
        >>=-eq-ok (lines_of (job_line host args machines) (map run cs)) _
          (sym (process_commandslist_setenv-lines host args machines cs w) ∙ h) in
      (ls, e, sym (ok-injective h1))

  HasMachine-ips :
      (cs ds : List Command)
      → ips cs ≡ ips ds
      → All (HasMachine host args machines) (map run cs)
      → All (HasMachine host args machines) (map run ds)
  HasMachine-ips cs [] e h = tt
  HasMachine-ips [] (d ∷ ds) e h = cc
  HasMachine-ips (c ∷ cs) (d ∷ ds) e h =
      let same : c.ip ≡ d.ip = cc in
      let rest : ips cs ≡ ips ds = cc in
      (subst (λ ip. is_some (lookup ip machines) ≡ true) same h.0, HasMachine-ips cs ds rest h.1)

  pub commands-writes :
      (cs : List Command) (w : Work)
      → All (HasMachine host args machines) (map run cs)
      → (v : Work) × (process_commandslist_setenv host args machines cs w ≡ ok v) × WritesFor cs w v
  commands-writes cs w h =
      let (ls, e, n) = lines-HasMachine host args machines (map run cs) h in
      let v = record w { script = w.script ++ ls } in
      (v, process_commandslist_setenv-lines host args machines cs w ∙ rw e refl, (ls, e, refl))

  -- What is said of a run that stops, behind a run that started.
  abbrev pub Stops : List Target → Result Work → Work → Work → Type 0
  Stops ts r w w' =
      (v : Work) × (r ≡ ok v) × WritesFor (map start_of ts) w w' × WritesFor (map stop_of ts) w v

  run_commands-Stops :
      (nodemgrs : NodeMgrs) (r s : Commands) (ts : List Target) (w w' : Work)
      → Fits r s ts
      → run_commands host args machines nodemgrs r w ≡ ok w'
      → Stops ts (run_commands host args machines nodemgrs s w) w w'
  unfolding run_commands
  run_commands-Stops nodemgrs r s ts w w' f h =
      let (starts, e, h1) = >>=-eq-ok r _ h in
      let p = f starts e in
      let same = ok-injective (sym e ∙ p.start) in
      let (ls, els, written) =
        process_commandslist_setenv-WritesFor (map start_of ts) w w'
          (subst (λ cs. process_commandslist_setenv host args machines cs w ≡ ok w') same h1) in
      let known = HasMachine-lines host args machines (map run (map start_of ts)) ls els in
      let (v, ran, stopped) =
        commands-writes (map stop_of ts) w
          (HasMachine-ips (map start_of ts) (map stop_of ts) (start_of-stop_of ts) known) in
      (
        v,
        ap (λ (x : Commands). x >>= λ list. process_commandslist_setenv host args machines list w)
              p.stop
            ∙ ran,
        (ls, els, written),
        stopped,
      )

  -- Nothing to start, and nothing to stop.
  Stops-nothing : (w w' : Work) → ok w ≡ ok w' → Stops [] (ok w) w w'
  Stops-nothing w w' h =
      let none_written : (v : Work) → w ≡ v → WritesFor [] w v =
        λ v e. ([], refl, sym e ∙ sym (ap (λ s. record w { script = s }) (append-nil w.script))) in
      (w, refl, none_written w' (ok-injective h), none_written w refl)

  if_one-Stops :
      (several : Bool) (nodemgrs : NodeMgrs) (r s : Commands) (ts : List Target) (w w' : Work)
      → Fits r s ts
      → (if several then ok w else run_commands host args machines nodemgrs r w) ≡ ok w'
      → Stops
          (if several then [] else ts)
          (if several then ok w else run_commands host args machines nodemgrs s w)
          w
          w'
  if_one-Stops true nodemgrs r s ts w w' f h = Stops-nothing w w' h
  if_one-Stops false nodemgrs r s ts w w' f h = run_commands-Stops nodemgrs r s ts w w' f h

  -- Where start_clusters returns, stop_clusters returns on the same script. Both only write lines, one
  -- for each of the same programs in the same order, the first to start it and the second to stop it.
  -- With several data centers there is none; otherwise they are, cluster by cluster, the storage nodes
  -- and the computing nodes on hosts whose node manager is skipped, and the proxy.
  pub start_clusters-stop_clusters :
      (nodemgrs : NodeMgrs) (cs : List Cluster) (w w' : Work)
      → start_clusters host args machines nodemgrs cs w ≡ ok w'
      → (v : Work) × (stop_clusters host args machines nodemgrs cs w ≡ ok v)
        × WritesFor (map start_of (if args.multipledc then [] else targets nodemgrs cs)) w w'
        × WritesFor (map stop_of (if args.multipledc then [] else targets nodemgrs cs)) w v
  unfolding start_clusters stop_clusters
  start_clusters-stop_clusters nodemgrs cs w w' h =
      if_one-Stops args.multipledc nodemgrs _ _ (targets nodemgrs cs) w w'
        (clusters-Fits nodemgrs cs) h
