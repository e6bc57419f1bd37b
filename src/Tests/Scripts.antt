-- ===== src/Tests/Scripts.antt =====
-- The script of a small installation: two hosts, a cluster with a storage node and a computing node,
-- and metadata nodes in one and in several data centers.
use cloudnative.Base.{
  ◌<◌, String, ℕ, true, false, some, none, [], ◌∷◌, List, length, map, All, lookup, contains,
  Result, ok, ◌≡◌, refl, arith,
}
use cloudnative.Base.Format.{format, has_text, starts_with}
use cloudnative.Config.{StorageNode}
use cloudnative.Machines.{Machine, Machines, get_machine}
use cloudnative.NodeMgr.{NodeMgrs}
use cloudnative.OneDc.{Cluster}
use cloudnative.Scripts.{
  process_command_noenv, process_file, Host, Work, islocal, noenv_line, mkdir_command, file_line,
  setenv_line, process_dirmap, process_fileslistmap, process_commandslist_setenv,
  purge_cache_commands,
}
use cloudnative.Scripts.Jobs.{jobs, lines_of, job_line}
use cloudnative.Scripts.Purge.{
  HasMachine, cleared, purge_cache_commands-HasMachine, HasMachine-purge_cache_commands,
}
use cloudnative.Control.{is_skipped}
use cloudnative.Control.Clusters.{
  command_at, start_clusters, stop_clusters, run_commands, each_commands, start_cluster,
  start_haproxy, port_command, if_skipped,
}
use cloudnative.Base.Text.{drop_prefix, show}
use cloudnative.Control.Clusters.Targets.{targets}
use cloudnative.Control.Clusters.Stops.{Stops, start_clusters-stop_clusters}
use cloudnative.MetaNodes.{setup_metanodes_onedc, setup_metanodes_multidc, at_own_index, Progress}
use cloudnative.MetaNodes.Primary.{IsPrimaryAt, others, replica_of, setup_metanodes_onedc-primaries}
use cloudnative.MetaNodes.Replicas.{IsReplicated, setup_metanodes_multidc-IsReplicated}
use cloudnative.Tests.OneKey.{args}
use cloudnative.Tests.OneDc.{storage_on}
use cloudnative.Tests.NodeMgr.{nodemgr}

abbrev pub host : Host
host = record { hostname = "deploy"; login = "kunlun" }

abbrev pub machine_at : String → Machine
machine_at ip = record {
  ip = ip;
  user = "kunlun";
  basedir = "/kunlun";
  sshport = none;
  haspg = false;
}

abbrev pub machines : Machines
machines = ("10.0.0.1", machine_at "10.0.0.1") ∷ ("10.0.0.2", machine_at "10.0.0.2") ∷ []

abbrev pub work : Work
work = record {
  script = [];
  written = [];
  dirs = ("10.0.0.1", "/kunlun/data" ∷ "/kunlun/log" ∷ []) ∷ [];
  files = ("10.0.0.2", ("a.sh", ".") ∷ []) ∷ [];
  commands = command_at "10.0.0.1" "." "bash a.sh" ∷ [];
}

work-HasMachine : All (HasMachine host args machines) (jobs work)
unfolding lookup
work-HasMachine = (refl, (refl, (refl, (refl, tt))))

purge_cache_commands-HasMachine_example :
    (ls : List String) × (lines_of (job_line host args machines) (jobs work) ≡ ok ls)
    × (length ls ≡ 4)
    × (purge_cache_commands host args machines work ≡ ok (cleared (record work { script = ls })))
purge_cache_commands-HasMachine_example =
    purge_cache_commands-HasMachine host args machines work work-HasMachine

abbrev work_of : Result Work → Work
work_of (ok w) = w
work_of _ = work

purged : Work
unfolding purge_cache_commands
purged = work_of (purge_cache_commands host args machines work)

purged_runs : purge_cache_commands host args machines work ≡ ok purged
unfolding purged process_command_noenv process_file purge_cache_commands process_dirmap
    process_fileslistmap process_commandslist_setenv islocal mkdir_command noenv_line file_line
    setenv_line get_machine lookup contains format has_text starts_with drop_prefix show
purged_runs = refl

HasMachine-purge_cache_commands_example : All (HasMachine host args machines) (jobs work)
HasMachine-purge_cache_commands_example =
    HasMachine-purge_cache_commands host args machines work purged purged_runs

-- Both node managers leave their nodes to the scripts.
abbrev pub nodemgrs : NodeMgrs
nodemgrs = ("10.0.0.1", nodemgr) ∷ ("10.0.0.2", record nodemgr { ip = "10.0.0.2" }) ∷ []

abbrev pub cluster : Cluster
cluster = record {
  name = some "cluster1";
  ha_mode = some "no_rep";
  enable_degrade = none;
  enable_global_mvcc = none;
  max_files_per_process = none;
  degrade_time = none;
  storage_template = none;
  innodb_buffer_pool_size_mb = none;
  fullsync_level = none;
  max_connections = none;
  max_storage_size_gb = none;
  storage_cpu_cores = none;
  enable_rocksdb = none;
  dbcfg = none;
  comps =
      record {
        ip = "10.0.0.2";
        port = some 47001;
        mysql_port = none;
        datadir = none;
        program_dir = none;
      }
      ∷ [];
  datas =
      record { ha_mode = none; nodes = record (storage_on "10.0.0.1") { port = some 57001 } ∷ [] }
      ∷ [];
  haproxy = none;
}

started : Work
unfolding start_clusters
started = work_of (start_clusters host args machines nodemgrs (cluster ∷ []) work)

started_runs : start_clusters host args machines nodemgrs (cluster ∷ []) work ≡ ok started
unfolding started start_clusters run_commands each_commands start_cluster port_command start_haproxy
    if_skipped is_skipped process_commandslist_setenv islocal setenv_line lookup contains format
    has_text starts_with drop_prefix show
started_runs = refl

start_clusters-stop_clusters_example :
    Stops host args machines
      (targets nodemgrs (cluster ∷ []))
      (stop_clusters host args machines nodemgrs (cluster ∷ []) work)
      work
      started
start_clusters-stop_clusters_example =
    start_clusters-stop_clusters host args machines nodemgrs (cluster ∷ []) work started
      started_runs

-- The second of three nodes is the primary.
abbrev metas : List StorageNode
metas =
    record (storage_on "10.0.0.1") { is_primary = some false }
    ∷ record (storage_on "10.0.0.2") { is_primary = some true }
    ∷ record (storage_on "10.0.0.3") { is_primary = some false }
    ∷ []

setup_metanodes_onedc-primaries_example :
    (p : ℕ) × (p < 3)
    × IsPrimaryAt p 0 metas
    × (setup_metanodes_onedc metas
        ≡ ok (map at_own_index (p ∷ others p 0 metas), map (replica_of p) (others p 0 metas)))
setup_metanodes_onedc-primaries_example =
    setup_metanodes_onedc-primaries metas refl (refl, (refl, (refl, tt)))

-- Two nodes in each of a primary, a secondary and a standby data center.
setup_metanodes_multidc-IsReplicated_example :
    (s : Progress) × (setup_metanodes_multidc 6 (2 ∷ 3 ∷ []) ((0 ∷ 1 ∷ []) ∷ []) ((4 ∷ 5 ∷ []) ∷ [])
      ≡ ok s)
    × IsReplicated (2 ∷ 3 ∷ []) ((0 ∷ 1 ∷ []) ∷ []) ((4 ∷ 5 ∷ []) ∷ []) s
setup_metanodes_multidc-IsReplicated_example =
    setup_metanodes_multidc-IsReplicated 6 (2 ∷ 3 ∷ []) ((0 ∷ 1 ∷ []) ∷ []) ((4 ∷ 5 ∷ []) ∷ [])
      (omega arith) (omega arith) (omega arith) (omega arith, tt) (omega arith, tt)
