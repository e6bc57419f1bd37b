-- ===== src/Tests/OneDc.antt =====
-- A configuration of the installation in one data center: a metadata shard of one node and a data
-- shard of two nodes under `mgr`, placed on two node managers, whose ports are given out.
use cloudnative.Base.{String, some, none, [], ◌∷◌, Result, ok, ◌≡◌, refl, lookup, insert, contains}
use cloudnative.Claims.{add_port_to_machine, add_to_machine}
use cloudnative.NodeMgr.{
  curports, resolve_nodemgr, get_nodemgr_nextport, fix_nodemgr_nodetype, addto_usedports,
  check_dirs, first_port, get_default_nodemgr, resolve_dirs, NodeMgrItem,
}
use cloudnative.Base.Text.{
  int, first_piece, split, is_absolute, digits, drop_prefix, lstrip, replace, rstrip, show, strip,
}
use cloudnative.OneKey.{
  add_haproxy, add_shards, add_comps, add_clustermgr_nodes, add_items, add_storage_nodes,
}
use cloudnative.Machines.{
  add_ip_to_machine_map, add_machine_item, add_machine_to_map, get_machine, Machines,
}
use cloudnative.Allocate.{
  set_storage_using_nodemgr, assign_mgr_ports, assign_port, elect_first, given_or_next, nodemgr_for,
  place_storage_node, place_storage_nodes, place_comp, place_comps, set_server_using_nodemgr,
}
use cloudnative.HaMode.{check_ha_mode}
use cloudnative.OneDc.Validate.{
  check_backup, check_clustermgrs, check_elasticsearch, check_meta, check_nodemgrs, check_xpanel,
}
use cloudnative.OneDc.{add_elasticsearch, add_nodemgr_items, Cluster, OneDcConfig, setup_machines2}
use cloudnative.OneKey.Shards.{check_primary}
use cloudnative.Config.{StorageNode, ClusterMgrNode}
use cloudnative.OneDc.Clusters.{Validated, validate_and_set_config2}
use cloudnative.OneDc.Clusters.Success.{IsValidSite, validate_and_set_config2-IsValidSite}
use cloudnative.Tests.OneKey.{args}

abbrev pub storage_on : String → StorageNode
storage_on ip = record {
  ip = ip;
  port = none;
  xport = none;
  mgr_port = none;
  data_dir_path = none;
  log_dir_path = none;
  innodb_log_dir_path = none;
  innodb_buffer_pool_size = none;
  program_dir = none;
  user = none;
  election_weight = none;
  fullsync = none;
  is_primary = none;
}

abbrev pub nodemgr_on : String → NodeMgrItem
nodemgr_on ip = record {
  ip = ip;
  dc = none;
  nodetype = none;
  valgrind = none;
  skip = none;
  total_cpu_cores = none;
  total_mem = none;
  storage_portrange = none;
  server_portrange = none;
  verbose_log = none;
  storage_curport = none;
  server_curport = none;
  brpc_http_port = none;
  tcp_port = none;
  prometheus_port_start = none;
  server_datadirs = none;
  storage_datadirs = some "/disk1,/disk2";
  storage_logdirs = none;
  storage_waldirs = none;
}

abbrev pub clustermgr_on : String → ClusterMgrNode
clustermgr_on ip = record {
  ip = ip;
  dc = none;
  valgrind = none;
  brpc_raft_port = none;
  brpc_http_port = none;
  prometheus_port_start = none;
  brpc_raft_election_timeout_ms = none;
}

abbrev cluster : Cluster
cluster = record {
  name = some "cluster1";
  ha_mode = some "mgr";
  enable_degrade = none;
  enable_global_mvcc = none;
  max_files_per_process = none;
  degrade_time = none;
  storage_template = none;
  innodb_buffer_pool_size_mb = none;
  fullsync_level = none;
  max_connections = none;
  max_storage_size_gb = none;
  storage_cpu_cores = none;
  enable_rocksdb = none;
  dbcfg = none;
  comps =
      record { ip = "10.0.0.2"; port = none; mysql_port = none; datadir = none; program_dir = none }
      ∷ [];
  datas =
      record { ha_mode = none; nodes = storage_on "10.0.0.1" ∷ storage_on "10.0.0.2" ∷ [] } ∷ [];
  haproxy = some (record { ip = "10.0.0.1"; port = some 7000; mysql_port = none; maxconn = none });
}

abbrev config2 : OneDcConfig
config2 = record {
  machines = [];
  meta = record {
    ha_mode = none;
    enable_rocksdb = none;
    fullsync_level = none;
    group_seeds = none;
    nodes = storage_on "10.0.0.1" ∷ [];
  };
  cluster_manager = clustermgr_on "10.0.0.1" ∷ [];
  node_manager = nodemgr_on "10.0.0.1" ∷ nodemgr_on "10.0.0.2" ∷ [];
  backup = record { hdfs = none; ssh = none };
  xpanel = none;
  elasticsearch = none;
  clusters = cluster ∷ [];
}

-- A sample result: nothing is configured.
abbrev nothing : Validated
nothing = record {
  site = record { machines = []; ports = []; nodemgrs = [] };
  meta = config2.meta;
  cluster_manager = [];
  backup = config2.backup;
  xpanel = none;
  elasticsearch = none;
  clusters = [];
}

abbrev machines_of : Result Machines → Machines
machines_of (ok m) = m
machines_of _ = []

abbrev validated_of : Result Validated → Validated
validated_of (ok v) = v
validated_of _ = nothing

machines2 : Machines
unfolding setup_machines2
machines2 = machines_of (setup_machines2 args config2 [])

validated2 : Validated
unfolding validate_and_set_config2
validated2 = validated_of (validate_and_set_config2 args config2 machines2)

validated2_runs : validate_and_set_config2 args config2 machines2 ≡ ok validated2
unfolding validated2 machines2 setup_machines2 validate_and_set_config2 set_server_using_nodemgr
    add_port_to_machine add_to_machine contains curports resolve_nodemgr get_nodemgr_nextport
    fix_nodemgr_nodetype addto_usedports check_dirs first_port get_default_nodemgr resolve_dirs
    first_piece is_absolute digits drop_prefix lstrip replace rstrip strip add_haproxy add_shards
    add_comps add_clustermgr_nodes add_items add_storage_nodes add_ip_to_machine_map
    add_machine_item add_machine_to_map get_machine set_storage_using_nodemgr assign_mgr_ports
    assign_port elect_first given_or_next nodemgr_for place_storage_node place_storage_nodes
    place_comp place_comps check_ha_mode check_backup check_clustermgrs check_elasticsearch
    check_meta check_nodemgrs check_xpanel add_elasticsearch add_nodemgr_items check_primary int
    show split lookup insert
validated2_runs = refl

validate_and_set_config2-IsValidSite_example : IsValidSite args config2 validated2
validate_and_set_config2-IsValidSite_example =
    validate_and_set_config2-IsValidSite args config2 machines2 validated2 validated2_runs
