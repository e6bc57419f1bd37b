-- ===== src/Control/Clusters.antt =====
-- `start_clusters`, `stop_clusters` and `clean_clusters`: the nodes of the clusters on hosts whose
-- node manager is skipped.
pub mod Targets
pub mod Fits
pub mod Stops
pub mod Runs
use cloudnative.Base.{
  String, ℕ, Option, none, some, List, [], ◌∷◌, ◌++◌, Result, ok, need, ◌>>=◌, if◌then◌else◌,
}
use cloudnative.Base.Text.{show}
use cloudnative.Base.Format.{format}
use cloudnative.Config.{Args, StorageNode, CompNode, Shard, Haproxy}
use cloudnative.Machines.{Machines}
use cloudnative.NodeMgr.{NodeMgrs}
use cloudnative.OneDc.{Cluster}
use cloudnative.Programs.{storagedir, serverdir}
use cloudnative.Scripts.{Host, Work, Step, Command, process_commandslist_setenv}
use cloudnative.Control.{is_skipped}

-- An item of the list of commands.
abbrev pub command_at : String → String → String → Command
command_at ip targetdir command = record {
  ip = ip;
  targetdir = targetdir;
  command = command;
  envtype = "no";
}

abbrev pub Commands : Type 0
Commands = Result (List Command)

-- The commands for each of a list, one behind the other.
unfoldable pub each_commands {ℓ} : {A : Type ℓ} → (A → Commands) → List A → Commands
each_commands body [] = ok []
each_commands body (a ∷ others) = do
  first ← body a
  rest ← each_commands body others
  ok (first ++ rest)

-- The commands for a node that no node manager cares for.
unfoldable pub if_skipped : NodeMgrs → String → Commands → Commands
unfolding is_skipped
if_skipped nodemgrs ip cmds = do skip ← is_skipped nodemgrs ip; if skip then cmds else ok []

-- A program that is run with the port of a node.
unfoldable pub port_command : NodeMgrs → String → String → Option ℕ → Commands
unfolding if_skipped
port_command nodemgrs pattern ip given =
    if_skipped nodemgrs ip
      (do port ← need "port" given; ok (command_at ip "." (format pattern (show port ∷ [])) ∷ []))

unfoldable pub start_haproxy : Option Haproxy → Commands
start_haproxy none = ok []
start_haproxy (some h) = do
  port ← need "port" h.port
  let conf = format "haproxy-%d.cfg" (show port ∷ [])
  ok (
      command_at h.ip "."
        (format "\\${HAPROXY_DIR}/sbin/haproxy -f %s >& haproxy-%d.log" (conf ∷ show port ∷ []))
      ∷ [])

unfoldable pub stop_haproxy : Option Haproxy → Commands
stop_haproxy none = ok []
stop_haproxy (some h) = do
  port ← need "port" h.port
  ok (command_at h.ip "." (format "cat haproxy-%d.pid | xargs kill -9" (show port ∷ [])) ∷ [])

-- One round of the loop of `start_clusters`.
unfoldable pub start_cluster : NodeMgrs → Cluster → Commands
unfolding port_command start_haproxy each_commands
start_cluster nodemgrs c = do
  storages ←
      each_commands
        (λ (s : Shard).
          each_commands
            (λ (n : StorageNode). port_command nodemgrs "bash start-storage-%d.sh" n.ip n.port)
            s.nodes)
        c.datas
  servers ←
      each_commands (λ (n : CompNode). port_command nodemgrs "bash start-server-%d.sh" n.ip n.port)
        c.comps
  proxies ← start_haproxy c.haproxy
  ok (storages ++ (servers ++ proxies))

-- One round of the loop of `stop_clusters`.
unfoldable pub stop_cluster : NodeMgrs → Cluster → Commands
unfolding port_command stop_haproxy each_commands
stop_cluster nodemgrs c = do
  storages ←
      each_commands
        (λ (s : Shard).
          each_commands
            (λ (n : StorageNode). port_command nodemgrs "bash stop-storage-%d.sh" n.ip n.port)
            s.nodes)
        c.datas
  servers ←
      each_commands (λ (n : CompNode). port_command nodemgrs "bash stop-server-%d.sh" n.ip n.port)
        c.comps
  proxies ← stop_haproxy c.haproxy
  ok (storages ++ (servers ++ proxies))

-- The commands of `clean_clusters`: the program is stopped and its directories go.
clean_storage : Args → NodeMgrs → StorageNode → Commands
clean_storage args nodemgrs n = if_skipped nodemgrs n.ip (do
  program_dir ← need "program_dir" n.program_dir
  port ← need "port" n.port
  data_dir ← need "data_dir_path" n.data_dir_path
  log_dir ← need "log_dir_path" n.log_dir_path
  wal_dir ← need "innodb_log_dir_path" n.innodb_log_dir_path
  let targetdir = format "%s/%s/dba_tools" (program_dir ∷ storagedir args ∷ [])
  ok (
      command_at n.ip targetdir (format "bash stopmysql.sh %d" (show port ∷ []))
      ∷ command_at n.ip "." (format "rm -fr %s" (data_dir ∷ []))
      ∷ command_at n.ip "." (format "rm -fr %s" (log_dir ∷ []))
      ∷ command_at n.ip "." (format "rm -fr %s" (wal_dir ∷ []))
      ∷ []))

clean_server : Args → NodeMgrs → CompNode → Commands
clean_server args nodemgrs n = if_skipped nodemgrs n.ip (do
  program_dir ← need "program_dir" n.program_dir
  port ← need "port" n.port
  datadir ← need "datadir" n.datadir
  let targetdir = format "%s/%s/dba_tools" (program_dir ∷ serverdir args ∷ [])
  ok (
      command_at n.ip targetdir (format "python2 stop_pg.py --port=%d" (show port ∷ []))
      ∷ command_at n.ip "." (format "rm -fr %s" (datadir ∷ []))
      ∷ []))

clean_cluster : Args → NodeMgrs → Cluster → Commands
unfolding clean_storage clean_server stop_haproxy each_commands
clean_cluster args nodemgrs c = do
  storages ←
      each_commands (λ (s : Shard). each_commands (clean_storage args nodemgrs) s.nodes) c.datas
  servers ← each_commands (clean_server args nodemgrs) c.comps
  proxies ← stop_haproxy c.haproxy
  ok (storages ++ (servers ++ proxies))

module _ (host : Host) (args : Args) (machines : Machines) (nodemgrs : NodeMgrs) where
  -- All commands of the clusters, then the lines for them.
  unfoldable pub run_commands : Commands → Step
  run_commands cmds w = do list ← cmds; process_commandslist_setenv host args machines list w

  unfoldable pub start_clusters : List Cluster → Step
  unfolding run_commands each_commands start_cluster
  start_clusters clusters w =
      if args.multipledc
      then ok w
      else run_commands (each_commands (start_cluster nodemgrs) clusters) w

  unfoldable pub stop_clusters : List Cluster → Step
  unfolding run_commands each_commands stop_cluster
  stop_clusters clusters w =
      if args.multipledc
      then ok w
      else run_commands (each_commands (stop_cluster nodemgrs) clusters) w

  cluster_names : List Cluster → Result (List String)
  cluster_names [] = ok []
  cluster_names (c ∷ cs) = do name ← need "name" c.name; names ← cluster_names cs; ok (name ∷ names)

  -- The names of the clusters that were cleaned, if they were.
  unfoldable pub clean_clusters : List Cluster → Work → Result (Option (List String) × Work)
  unfolding run_commands each_commands clean_cluster cluster_names
  clean_clusters clusters w = if args.multipledc then ok (none, w) else (do
    names ← cluster_names clusters
    w1 ← run_commands (each_commands (clean_cluster args nodemgrs) clusters) w
    ok (some names, w1))
