-- ===== src/Remote.antt =====
-- cluster/cluster_common.py: commands on a host that are run at once, for starting, stopping and
-- killing one node. A `Console` is what was printed and what was executed.
pub mod Bounds
use cloudnative.Base.{
  ℤ, pos, negsuc, Option, ltb, length, ◌-◌, suc, String, Bool, none, some, List, [], ◌∷◌, ◌++◌,
  get_elem?, or_default, Result, ok, err, index_error, need, ◌>>=◌, if◌then◌else◌,
}
use cloudnative.Base.Text.{show}
use cloudnative.Base.Format.{format, starts_with}
use cloudnative.Config.{StorageNode, CompNode, ClusterMgrNode}
use cloudnative.Machines.{Machine, Machines, get_machine}
use cloudnative.NodeMgr.{NodeMgr}

pub record Console : Type 0 where
  pub printed : List String
  pub executed : List String

-- A function that prints and runs commands, or raises.
abbrev pub Run : Type 0
Run = Console → Result Console

unfoldable pub run_command_verbose : String → Bool → Console → Console
run_command_verbose command dryrun c = record {
  printed = c.printed ++ (command ∷ []);
  executed = if dryrun then c.executed else c.executed ++ (command ∷ []);
}

-- A directory, below another one if it is relative.
abbrev below : String → String → String
below base dir = if starts_with "/" dir then dir else format "%s/%s" (base ∷ dir ∷ [])

-- The command line for a command on a host.
unfoldable pub remote_line : Machine → String → String → String → String → String
remote_line mach ip progdir targetdir command =
    let realdir = below mach.basedir progdir in
    let envstr =
      format "export PATH=%s/bin:$PATH; export LD_LIBRARY_PATH=%s/lib:%s/lib64:$LD_LIBRARY_PATH"
        (realdir ∷ realdir ∷ realdir ∷ []) in
    format "bash remote_run.sh --sshport=%d --user=%s %s '%s; cd %s || exit 1; %s' " (
      show (or_default 22 mach.sshport)
      ∷ mach.user
      ∷ ip
      ∷ envstr
      ∷ below realdir targetdir
      ∷ command
      ∷ [])

-- `nodes[idx]`: a negative position counts from the end.
unfoldable pub element_at {ℓ} : {A : Type ℓ} → List A → ℤ → Option A
element_at nodes (pos i) = get_elem? nodes i
element_at nodes (negsuc k) =
    if ltb k (length nodes) then get_elem? nodes (length nodes - suc k) else none

module _ (machines : Machines) (progdir : String) where
  unfoldable pub run_remote_command : String → String → String → Bool → Run
  unfolding run_command_verbose remote_line get_machine
  run_remote_command ip targetdir command dryrun c = do
    mach ← get_machine machines ip
    ok (run_command_verbose (remote_line mach ip progdir targetdir command) dryrun c)

  unfoldable pub stop_clustermgr_node : ClusterMgrNode → Bool → Run
  unfolding run_remote_command
  stop_clustermgr_node node = run_remote_command node.ip "bin" "bash stop_cluster_mgr.sh"

  unfoldable pub start_clustermgr_node : ClusterMgrNode → Bool → Run
  unfolding run_remote_command
  start_clustermgr_node node =
      run_remote_command node.ip "bin" "bash start_cluster_mgr.sh >& run.log"

  unfoldable pub stop_nodemgr_node : NodeMgr → Bool → Run
  unfolding run_remote_command
  stop_nodemgr_node node = run_remote_command node.ip "bin" "bash stop_node_mgr.sh"

  unfoldable pub start_nodemgr_node : NodeMgr → Bool → Run
  unfolding run_remote_command
  start_nodemgr_node node = run_remote_command node.ip "bin" "bash start_node_mgr.sh >& run.log"

  -- The programs of a storage node, which take its port.
  storage_command : String → StorageNode → Bool → Run
  unfolding run_remote_command
  storage_command pattern node dryrun c = do
    port ← need "port" node.port
    run_remote_command node.ip "dba_tools" (format pattern (show port ∷ [])) dryrun c

  unfoldable pub start_storage_node : StorageNode → Bool → Run
  unfolding storage_command
  start_storage_node = storage_command "bash startmysql.sh %s"

  unfoldable pub stop_storage_node : StorageNode → Bool → Run
  unfolding storage_command
  stop_storage_node = storage_command "bash stopmysql.sh %s"

  unfoldable pub kill_storage_node : StorageNode → Bool → Run
  unfolding storage_command
  kill_storage_node = storage_command "bash killmysql.sh %s"

  unfoldable pub start_server_node : CompNode → Bool → Run
  unfolding run_remote_command
  start_server_node node dryrun c = do
    port ← need "port" node.port
    run_remote_command node.ip "scripts" (format "python2 start_pg.py --port=%s" (show port ∷ []))
        dryrun c

  unfoldable pub stop_server_node : CompNode → Bool → Run
  unfolding run_remote_command
  stop_server_node node dryrun c = do
    datadir ← need "datadir" node.datadir
    run_remote_command node.ip "scripts" (format "pg_ctl -D %s stop -m immediate" (datadir ∷ []))
        dryrun c

  -- The functions whose name ends in `_usingidx` take the node from the list of its object.
  unfoldable pub using_index {ℓ} : {A : Type ℓ} → (A → Bool → Run) → List A → ℤ → Bool → Run
  unfolding element_at
  using_index body nodes idx dryrun c = elim (element_at nodes idx) [
    | none ↦ err index_error
    | some node ↦ body node dryrun c
  ]

  unfoldable pub stop_clustermgr_node_usingidx : List ClusterMgrNode → ℤ → Bool → Run
  unfolding using_index stop_clustermgr_node
  stop_clustermgr_node_usingidx = using_index stop_clustermgr_node

  unfoldable pub start_clustermgr_node_usingidx : List ClusterMgrNode → ℤ → Bool → Run
  unfolding using_index start_clustermgr_node
  start_clustermgr_node_usingidx = using_index start_clustermgr_node

  unfoldable pub stop_nodemgr_node_usingidx : List NodeMgr → ℤ → Bool → Run
  unfolding using_index stop_nodemgr_node
  stop_nodemgr_node_usingidx = using_index stop_nodemgr_node

  unfoldable pub start_nodemgr_node_usingidx : List NodeMgr → ℤ → Bool → Run
  unfolding using_index start_nodemgr_node
  start_nodemgr_node_usingidx = using_index start_nodemgr_node

  unfoldable pub start_storage_node_usingidx : List StorageNode → ℤ → Bool → Run
  unfolding using_index start_storage_node
  start_storage_node_usingidx = using_index start_storage_node

  unfoldable pub stop_storage_node_usingidx : List StorageNode → ℤ → Bool → Run
  unfolding using_index stop_storage_node
  stop_storage_node_usingidx = using_index stop_storage_node

  unfoldable pub kill_storage_node_usingidx : List StorageNode → ℤ → Bool → Run
  unfolding using_index kill_storage_node
  kill_storage_node_usingidx = using_index kill_storage_node

  unfoldable pub start_server_node_usingidx : List CompNode → ℤ → Bool → Run
  unfolding using_index start_server_node
  start_server_node_usingidx = using_index start_server_node

  unfoldable pub stop_server_node_usingidx : List CompNode → ℤ → Bool → Run
  unfolding using_index stop_server_node
  stop_server_node_usingidx = using_index stop_server_node
