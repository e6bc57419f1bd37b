-- ===== src/Programs/Services.antt =====
-- The wrappers and the services of a program: what is shipped was written, and a service starts and
-- stops the program by wrappers that are shipped.
use cloudnative.Base.{String, ℕ, List, ok, need, >>=-eq-ok, ok-injective, ◌≡◌, subst}
use cloudnative.Config.{Args, StorageNode, CompNode, ClusterMgrNode}
use cloudnative.Machines.{Machines, get_machine}
use cloudnative.NodeMgr.{NodeMgr}
use cloudnative.Scripts.{add_to_commands_list_env, Work, Step, write_file, add_to_files_list_map}
use cloudnative.Programs.{
  generate_server_startstop, generate_storage_startstop, generate_clustermgr_startstop,
  generate_nodemgr_startstop, install_service, generate_storage_service,
  generate_clustermgr_service, generate_nodemgr_service,
}
use cloudnative.Programs.Shipped.{
  AllWritten, ship-AllWritten, again-AllWritten, write_file-IsWritten,
}

module _ (args : Args) (machines : Machines) where
  install_service-AllWritten :
      (ip servname : String) (idx : ℕ) (text : List String) (w : Work)
      → AllWritten w
      → AllWritten (install_service args machines ip servname idx text w)
  unfolding install_service add_to_files_list_map add_to_commands_list_env
  install_service-AllWritten ip servname idx text w all = ship-AllWritten ip _ _ text w all

  -- A step that ships only what was written keeps it so.
  abbrev pub Keeps : Step → Type 0
  Keeps step = (w v : Work) → AllWritten w → step w ≡ ok v → AllWritten v

  generate_server_startstop-AllWritten :
      (node : CompNode) (idx : ℕ) → Keeps (generate_server_startstop args machines node idx)
  unfolding generate_server_startstop
  generate_server_startstop-AllWritten node idx w v all h =
      let (port, p, h1) = >>=-eq-ok (need "port" node.port) _ h in
      let (mach, m, h2) = >>=-eq-ok (get_machine machines node.ip) _ h1 in
      subst AllWritten (ok-injective h2)
        (ship-AllWritten node.ip _ _ _ _ (ship-AllWritten node.ip _ _ _ w all))

  generate_storage_startstop-AllWritten :
      (node : StorageNode) (idx : ℕ) → Keeps (generate_storage_startstop args machines node idx)
  unfolding generate_storage_startstop
  generate_storage_startstop-AllWritten node idx w v all h =
      let (port, p, h1) = >>=-eq-ok (need "port" node.port) _ h in
      let (mach, m, h2) = >>=-eq-ok (get_machine machines node.ip) _ h1 in
      subst AllWritten (ok-injective h2)
        (ship-AllWritten node.ip _ _ _ _ (ship-AllWritten node.ip _ _ _ w all))

  -- A wrapper that is shipped under two names.
  twice-AllWritten :
      (ip fname target other : String) (text : List String) (w : Work)
      → AllWritten w
      → AllWritten (
          add_to_files_list_map ip fname other
            (add_to_files_list_map ip fname target (write_file fname text w)))
  unfolding add_to_files_list_map
  twice-AllWritten ip fname target other text w all =
      again-AllWritten ip fname other
        (add_to_files_list_map ip fname target (write_file fname text w))
        (write_file-IsWritten fname text w) (ship-AllWritten ip fname target text w all)

  generate_clustermgr_startstop-AllWritten :
      (node : ClusterMgrNode) (idx : ℕ)
      → Keeps (generate_clustermgr_startstop args machines node idx)
  unfolding generate_clustermgr_startstop
  generate_clustermgr_startstop-AllWritten node idx w v all h =
      let (port, p, h1) = >>=-eq-ok (need "brpc_raft_port" node.brpc_raft_port) _ h in
      let (mach, m, h2) = >>=-eq-ok (get_machine machines node.ip) _ h1 in
      let (valgrind, g, h3) = >>=-eq-ok (need "valgrind" node.valgrind) _ h2 in
      subst AllWritten (ok-injective h3)
        (twice-AllWritten node.ip _ _ _ _ _ (twice-AllWritten node.ip _ _ _ _ w all))

  generate_nodemgr_startstop-AllWritten :
      (node : NodeMgr) (idx : ℕ) → Keeps (generate_nodemgr_startstop args machines node idx)
  unfolding generate_nodemgr_startstop
  generate_nodemgr_startstop-AllWritten node idx w v all h =
      let (mach, m, h1) = >>=-eq-ok (get_machine machines node.ip) _ h in
      subst AllWritten (ok-injective h1)
        (twice-AllWritten node.ip _ _ _ _ _ (twice-AllWritten node.ip _ _ _ _ w all))

  generate_storage_service-AllWritten :
      (node : StorageNode) (idx : ℕ) → Keeps (generate_storage_service args machines node idx)
  unfolding generate_storage_service
  generate_storage_service-AllWritten node idx w v all h =
      let (port, p, h1) = >>=-eq-ok (need "port" node.port) _ h in
      let (mach, m, h2) = >>=-eq-ok (get_machine machines node.ip) _ h1 in
      subst AllWritten (ok-injective h2) (install_service-AllWritten node.ip _ idx _ w all)

  generate_clustermgr_service-AllWritten :
      (node : ClusterMgrNode) (idx : ℕ) → Keeps (generate_clustermgr_service args machines node idx)
  unfolding generate_clustermgr_service
  generate_clustermgr_service-AllWritten node idx w v all h =
      let (port, p, h1) = >>=-eq-ok (need "brpc_raft_port" node.brpc_raft_port) _ h in
      let (mach, m, h2) = >>=-eq-ok (get_machine machines node.ip) _ h1 in
      subst AllWritten (ok-injective h2) (install_service-AllWritten node.ip _ idx _ w all)

  generate_nodemgr_service-AllWritten :
      (node : NodeMgr) (idx : ℕ) → Keeps (generate_nodemgr_service args machines node idx)
  unfolding generate_nodemgr_service
  generate_nodemgr_service-AllWritten node idx w v all h =
      let (mach, m, h1) = >>=-eq-ok (get_machine machines node.ip) _ h in
      subst AllWritten (ok-injective h1) (install_service-AllWritten node.ip _ idx _ w all)

  -- One of the functions made the second work from the first.
  pub data Makes : Work → Work → Type 0 where
    storage_wrappers :
        (node : StorageNode) (idx : ℕ) (w v : Work)
        → generate_storage_startstop args machines node idx w ≡ ok v
        → Makes w v
    storage_unit :
        (node : StorageNode) (idx : ℕ) (w v : Work)
        → generate_storage_service args machines node idx w ≡ ok v
        → Makes w v
    server_wrappers :
        (node : CompNode) (idx : ℕ) (w v : Work)
        → generate_server_startstop args machines node idx w ≡ ok v
        → Makes w v
    clustermgr_wrappers :
        (node : ClusterMgrNode) (idx : ℕ) (w v : Work)
        → generate_clustermgr_startstop args machines node idx w ≡ ok v
        → Makes w v
    clustermgr_unit :
        (node : ClusterMgrNode) (idx : ℕ) (w v : Work)
        → generate_clustermgr_service args machines node idx w ≡ ok v
        → Makes w v
    nodemgr_wrappers :
        (node : NodeMgr) (idx : ℕ) (w v : Work)
        → generate_nodemgr_startstop args machines node idx w ≡ ok v
        → Makes w v
    nodemgr_unit :
        (node : NodeMgr) (idx : ℕ) (w v : Work)
        → generate_nodemgr_service args machines node idx w ≡ ok v
        → Makes w v

  -- Any number of them did, one behind the other.
  pub data MakesAll : Work → Work → Type 0 where
    none_made : (w : Work) → MakesAll w w
    one_more : (w v u : Work) → Makes w v → MakesAll v u → MakesAll w u

  Makes-AllWritten : (w v : Work) → Makes w v → AllWritten w → AllWritten v
  Makes-AllWritten w v (storage_wrappers node idx _ _ h) all =
      generate_storage_startstop-AllWritten node idx w v all h
  Makes-AllWritten w v (storage_unit node idx _ _ h) all =
      generate_storage_service-AllWritten node idx w v all h
  Makes-AllWritten w v (server_wrappers node idx _ _ h) all =
      generate_server_startstop-AllWritten node idx w v all h
  Makes-AllWritten w v (clustermgr_wrappers node idx _ _ h) all =
      generate_clustermgr_startstop-AllWritten node idx w v all h
  Makes-AllWritten w v (clustermgr_unit node idx _ _ h) all =
      generate_clustermgr_service-AllWritten node idx w v all h
  Makes-AllWritten w v (nodemgr_wrappers node idx _ _ h) all =
      generate_nodemgr_startstop-AllWritten node idx w v all h
  Makes-AllWritten w v (nodemgr_unit node idx _ _ h) all =
      generate_nodemgr_service-AllWritten node idx w v all h

  -- However often and in whatever order the functions that make wrappers and services are called, from
  -- a work where every file that is shipped was written below clustermgr/, every file that is then
  -- shipped was written.
  pub MakesAll-AllWritten : (w v : Work) → MakesAll w v → AllWritten w → AllWritten v
  MakesAll-AllWritten w v (none_made _) all = all
  MakesAll-AllWritten w u (one_more _ v _ made more) all =
      MakesAll-AllWritten v u more (Makes-AllWritten w v made all)
