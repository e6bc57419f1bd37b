-- ===== src/Control/Units.antt =====
-- The services that generate_*_service installs and start_with_config starts: each is known to systemd
-- under the name that is started, and starts and stops the program by wrappers that are shipped.
use cloudnative.Base.{
  String, ℕ, some, [], ◌∷◌, lookup, ok, need, >>=-eq-ok, ok-injective, ◌≡◌, sym, ap, subst,
}
use cloudnative.Base.Text.{show}
use cloudnative.Base.Format.{format}
use cloudnative.Config.{Args, StorageNode}
use cloudnative.Machines.{Machine, Machines, get_machine}
use cloudnative.NodeMgr.{NodeMgr}
use cloudnative.Scripts.{Work}
use cloudnative.Programs.{
  generate_storage_startstop, generate_nodemgr_startstop, generate_storage_service,
  generate_nodemgr_service,
}
use cloudnative.Programs.Wrappers.{ship_two, ship_four}
use cloudnative.Programs.Shipped.{Holds}
use cloudnative.Programs.Names.{
  start_storage-IsScript, stop_storage-IsScript, storage_scripts_differ, start_nodemgr-IsScript,
  stop_nodemgr-IsScript, nodemgr_scripts_differ,
}
use cloudnative.Control.{storage_service, nodemgr_service}
use cloudnative.Control.Startable.{
  here, here-cons, storage_unit, nodemgr_unit, known->>=, need-found, get_machine-found,
  storage_wrapper, nodemgr_wrapper, start_nodemgr_lines, IsStartable, install_service-IsStartable,
}

module _ (args : Args) (machines : Machines) where
  storage_at :
      (node : StorageNode) (idx : ℕ) (w v : Work) (port : ℕ) (mach : Machine)
      → need "port" node.port ≡ ok port
      → get_machine machines node.ip ≡ ok mach
      → generate_storage_startstop args machines node idx w ≡ ok v
      → Holds v node.ip
          (format "%d-start-storage-%d.sh" (show idx ∷ show port ∷ []))
          (here (format "start-storage-%d.sh" (show port ∷ [])))
          (storage_wrapper args mach.basedir (show port) "bash startmysql.sh %d\n")
        × Holds v node.ip
            (format "%d-stop-storage-%d.sh" (show idx ∷ show port ∷ []))
            (here (format "stop-storage-%d.sh" (show port ∷ [])))
            (storage_wrapper args mach.basedir (show port) "bash stopmysql.sh %d\n")
  unfolding generate_storage_startstop format
  storage_at node idx w v port mach given found h =
      let start : String = format "%d-start-storage-%d.sh" (show idx ∷ show port ∷ []) in
      let stop : String = format "%d-stop-storage-%d.sh" (show idx ∷ show port ∷ []) in
      let start_to : String = format "start-storage-%d.sh" (show port ∷ []) in
      let stop_to : String = format "stop-storage-%d.sh" (show port ∷ []) in
      let h1 = known->>= (need "port" node.port) _ port v given h in
      let h2 = known->>= (get_machine machines node.ip) _ mach v found h1 in
      subst
        (λ u.
          Holds u node.ip start (here start_to)
            (storage_wrapper args mach.basedir (show port) "bash startmysql.sh %d\n")
          × Holds u node.ip stop (here stop_to)
              (storage_wrapper args mach.basedir (show port) "bash stopmysql.sh %d\n"))
        (ok-injective h2)
        (ship_two node.ip start stop _ _ _ _ w _ _ (storage_scripts_differ (show idx) (show port))
          (here-cons start_to) (here-cons stop_to))

  -- Where the wrappers of a storage node were made and then its service, the node has a port p and its
  -- host a machine, and the service that start_with_config starts for the node is kunlun-storage-p. Its
  -- unit is shipped to the host, has the machine's user and base directory, and starts the node by
  -- start-storage-p.sh and stops it by stop-storage-p.sh. These are shipped to the base directory, and
  -- run startmysql.sh and stopmysql.sh with p where the programs of the node are.
  pub storage_service-IsStartable :
      (node : StorageNode) (idx j : ℕ) (w v u : Work)
      → generate_storage_startstop args machines node idx w ≡ ok v
      → generate_storage_service args machines node j v ≡ ok u
      → (port : ℕ) × (mach : Machine) × (node.port ≡ some port)
        × (lookup node.ip machines ≡ some mach)
        × (storage_service node
            ≡ ok (format "%s.service" (format "kunlun-storage-%d" (show port ∷ []) ∷ [])))
        × IsStartable u node.ip
            (format "kunlun-storage-%d" (show port ∷ []))
            mach.user
            mach.basedir
            (format "start-storage-%d.sh" (show port ∷ []))
            (format "stop-storage-%d.sh" (show port ∷ []))
            (storage_wrapper args mach.basedir (show port) "bash startmysql.sh %d\n")
            (storage_wrapper args mach.basedir (show port) "bash stopmysql.sh %d\n")
  unfolding generate_storage_service storage_service
  storage_service-IsStartable node idx j w v u made served =
      let (port, p, h1) = >>=-eq-ok (need "port" node.port) _ served in
      let (mach, m, h2) = >>=-eq-ok (get_machine machines node.ip) _ h1 in
      let (starts, stops) = storage_at node idx w v port mach p m made in
      let name = format "kunlun-storage-%d" (show port ∷ []) in
      (
        port,
        mach,
        need-found "port" node.port port p,
        get_machine-found machines node.ip mach m,
        rw p (ap ok (sym (storage_unit (show port)))),
        subst
            (λ t.
              IsStartable t node.ip name mach.user mach.basedir
                (format "start-storage-%d.sh" (show port ∷ []))
                (format "stop-storage-%d.sh" (show port ∷ []))
                (storage_wrapper args mach.basedir (show port) "bash startmysql.sh %d\n")
                (storage_wrapper args mach.basedir (show port) "bash stopmysql.sh %d\n"))
            (ok-injective h2)
            (install_service-IsStartable args machines node.ip name j mach.user mach.basedir _ _ _ _
              _ _ v (start_storage-IsScript (show idx) (show port))
              (stop_storage-IsScript (show idx) (show port)) starts stops),
      )

  nodemgr_at :
      (node : NodeMgr) (idx : ℕ) (w v : Work) (mach : Machine)
      → get_machine machines node.ip ≡ ok mach
      → generate_nodemgr_startstop args machines node idx w ≡ ok v
      → Holds v node.ip
          (format "%d-start-nodemgr-%d.sh" (show idx ∷ show node.brpc_http_port ∷ []))
          (here (format "start-nodemgr-%d.sh" (show node.brpc_http_port ∷ [])))
          (nodemgr_wrapper args mach.basedir (start_nodemgr_lines node))
        × Holds v node.ip
            (format "%d-stop-nodemgr-%d.sh" (show idx ∷ show node.brpc_http_port ∷ []))
            (here (format "stop-nodemgr-%d.sh" (show node.brpc_http_port ∷ [])))
            (nodemgr_wrapper args mach.basedir ("bash stop_node_mgr.sh\n" ∷ []))
  unfolding generate_nodemgr_startstop format
  nodemgr_at node idx w v mach found h =
      let port = show node.brpc_http_port in
      let start : String = format "%d-start-nodemgr-%d.sh" (show idx ∷ port ∷ []) in
      let stop : String = format "%d-stop-nodemgr-%d.sh" (show idx ∷ port ∷ []) in
      let start_to : String = format "start-nodemgr-%d.sh" (port ∷ []) in
      let stop_to : String = format "stop-nodemgr-%d.sh" (port ∷ []) in
      let h1 = known->>= (get_machine machines node.ip) _ mach v found h in
      subst
        (λ u.
          Holds u node.ip start (here start_to)
            (nodemgr_wrapper args mach.basedir (start_nodemgr_lines node))
          × Holds u node.ip stop (here stop_to)
              (nodemgr_wrapper args mach.basedir ("bash stop_node_mgr.sh\n" ∷ [])))
        (ok-injective h1)
        (ship_four node.ip start stop _ "./start-nodemgr.sh" _ "./stop-nodemgr.sh" _ _ w _ _
          (nodemgr_scripts_differ (show idx) port) (here-cons start_to) (here-cons stop_to))

  -- Where the wrappers of a node manager were made and then its service, its host has a machine, and
  -- the service that start_with_config starts for it is kunlun-node-manager-p, where p is its http
  -- port. Its unit is shipped to the host, has the machine's user and base directory, and starts the
  -- node manager by start-nodemgr-p.sh and stops it by stop-nodemgr-p.sh. These are shipped to the base
  -- directory, and run start_node_mgr.sh, under valgrind if the node manager asks for it, and
  -- stop_node_mgr.sh where its program is.
  pub nodemgr_service-IsStartable :
      (node : NodeMgr) (idx j : ℕ) (w v u : Work)
      → generate_nodemgr_startstop args machines node idx w ≡ ok v
      → generate_nodemgr_service args machines node j v ≡ ok u
      → (mach : Machine) × (lookup node.ip machines ≡ some mach)
        × (nodemgr_service node
            ≡ format "%s.service"
                (format "kunlun-node-manager-%d" (show node.brpc_http_port ∷ []) ∷ []))
        × IsStartable u node.ip
            (format "kunlun-node-manager-%d" (show node.brpc_http_port ∷ []))
            mach.user
            mach.basedir
            (format "start-nodemgr-%d.sh" (show node.brpc_http_port ∷ []))
            (format "stop-nodemgr-%d.sh" (show node.brpc_http_port ∷ []))
            (nodemgr_wrapper args mach.basedir (start_nodemgr_lines node))
            (nodemgr_wrapper args mach.basedir ("bash stop_node_mgr.sh\n" ∷ []))
  unfolding generate_nodemgr_service nodemgr_service
  nodemgr_service-IsStartable node idx j w v u made served =
      let (mach, m, h1) = >>=-eq-ok (get_machine machines node.ip) _ served in
      let port = show node.brpc_http_port in
      let name = format "kunlun-node-manager-%d" (port ∷ []) in
      let (starts, stops) = nodemgr_at node idx w v mach m made in
      (
        mach,
        get_machine-found machines node.ip mach m,
        sym (nodemgr_unit port),
        subst
            (λ t.
              IsStartable t node.ip name mach.user mach.basedir
                (format "start-nodemgr-%d.sh" (port ∷ [])) (format "stop-nodemgr-%d.sh" (port ∷ []))
                (nodemgr_wrapper args mach.basedir (start_nodemgr_lines node))
                (nodemgr_wrapper args mach.basedir ("bash stop_node_mgr.sh\n" ∷ [])))
            (ok-injective h1)
            (install_service-IsStartable args machines node.ip name j mach.user mach.basedir _ _ _ _
              _ _ v (start_nodemgr-IsScript (show idx) port) (stop_nodemgr-IsScript (show idx) port)
              starts stops),
      )
