-- ===== src/Tests/OneKey.antt =====
-- A configuration of the one-key installation: one metadata node, one data node, one computing node.
use cloudnative.Claims.Ports.{add_port_lem}
use cloudnative.Claims.Distinct.{uses}
use cloudnative.Claims.{PortMap}
use cloudnative.Base.{
  true, duplicate_port, ◌⊎◌, ◌==◌, ◌&&◌, ◌||◌, eqb, nat_eq, String, ℕ, false, some, none, [], ◌∷◌,
  Result, ok, err, none_error, ◌≢◌, ◌≡◌, refl, lookup, insert, contains,
}
use cloudnative.Config.{Args, StorageNode, CompNode}
use cloudnative.Machines.{Machines, set_haspg, add_ip_to_machine_map, add_machine_item}
use cloudnative.Claims.{add_port_to_machine, add_dir_to_machine, add_to_machine}
use cloudnative.OneKey.{OneKeyConfig, setup_machines1}
use cloudnative.OneKey.Setup.{mentions1, lookup-setup_machines1}
use cloudnative.OneKey.Validate.Misspelt.{validate_and_set_config1-clsutermgr}
use cloudnative.OneKey.Validate.NoTypeError.{validate_and_set_config1-ne-none_error}
use cloudnative.Machines.Entries.{or_else}
use cloudnative.OneKey.Validate.{validate_and_set_config1}
use cloudnative.OneKey.Validate.Success.{IsValidCluster, validate_and_set_config1-IsValidCluster}

abbrev pub args : Args
args = record {
  defuser = "kunlun";
  defbase = "/kunlun";
  localip = "127.0.0.1";
  product_version = "1.2.1";
  sudo = false;
  cloud = false;
  verbose = false;
  setbashenv = false;
  autostart = false;
  small = false;
  multipledc = false;
  targetarch = "x86_64";
  defbrpc_raft_port = 8001;
  defbrpc_http_port = 8000;
  defbrpc_raft_port_clustermgr = 58001;
  defbrpc_http_port_clustermgr = 58000;
  defpromethes_port_start_clustermgr = 59010;
  defbrpc_http_port_nodemgr = 58002;
  deftcp_port_nodemgr = 58003;
  defprometheus_port_start_nodemgr = 58010;
  defstorage_portrange_nodemgr = "57000-58000";
  defserver_portrange_nodemgr = "47000-48000";
}

abbrev storage_node : String → ℕ → String → String → StorageNode
storage_node ip port dir logdir = record {
  ip = ip;
  port = some port;
  xport = none;
  mgr_port = none;
  data_dir_path = some dir;
  log_dir_path = some logdir;
  innodb_log_dir_path = none;
  innodb_buffer_pool_size = none;
  program_dir = none;
  user = none;
  election_weight = none;
  fullsync = none;
  is_primary = none;
}

abbrev comp_node : CompNode
comp_node = record {
  ip = "10.0.0.2";
  port = some 5401;
  mysql_port = some 5402;
  datadir = some "/pg";
  program_dir = none;
}

abbrev config : OneKeyConfig
config = record {
  machines = record { ip = "10.0.0.1"; user = some "root"; basedir = none; sshport = none } ∷ [];
  cluster = record {
    ha_mode = none;
    enable_rocksdb = none;
    meta = record {
      ha_mode = none;
      enable_rocksdb = none;
      fullsync_level = none;
      group_seeds = none;
      nodes = storage_node "10.0.0.1" 6001 "/meta" "/meta_log" ∷ [];
    };
    comps = comp_node ∷ [];
    datas =
        record { ha_mode = none; nodes = storage_node "10.0.0.1" 6002 "/data" "/data_log" ∷ [] }
        ∷ [];
    clustermgr = record {
      ip = some "10.0.0.1";
      brpc_raft_port = none;
      brpc_http_port = none;
      nodes = none;
    };
    haproxy = none;
  };
}

abbrev no_config : Result (Machines × OneKeyConfig) → Machines × OneKeyConfig
no_config (ok r) = r
no_config _ = ([], config)

validated : Machines × OneKeyConfig
unfolding validate_and_set_config1 setup_machines1
validated = no_config (validate_and_set_config1 args config (setup_machines1 args config []))

program : Unit {0}
unfolding validate_and_set_config1 setup_machines1 add_port_to_machine add_dir_to_machine
    add_to_machine lookup insert contains set_haspg
program = tt

validated_runs :
    validate_and_set_config1 args config (setup_machines1 args config [])
    ≡ ok (validated.0, validated.1)
unfolding validated program add_ip_to_machine_map add_machine_item
validated_runs = refl

validate_and_set_config1-IsValidCluster_example : IsValidCluster validated.1.cluster
validate_and_set_config1-IsValidCluster_example =
    validate_and_set_config1-IsValidCluster args config validated.1 (setup_machines1 args config [])
      validated.0 validated_runs

-- The cluster manager of the configuration with its raft port.
abbrev misspelt_config : OneKeyConfig
misspelt_config = record config {
  cluster = record config.cluster {
    clustermgr = record config.cluster.clustermgr { brpc_raft_port = some 9001 };
  };
}

validate_and_set_config1-clsutermgr_example :
    validate_and_set_config1 args misspelt_config [] ≢ ok ([], misspelt_config)
validate_and_set_config1-clsutermgr_example =
    validate_and_set_config1-clsutermgr args misspelt_config [] ([], misspelt_config) refl refl

lookup-setup_machines1_example :
    lookup "10.0.0.2" (setup_machines1 args config [])
    ≡ or_else (lookup "10.0.0.2" []) (lookup "10.0.0.2" (mentions1 args config))
lookup-setup_machines1_example = lookup-setup_machines1 args config [] "10.0.0.2"

validate_and_set_config1-ne-none_error_example :
    validate_and_set_config1 args config (setup_machines1 args config []) ≢ err none_error
validate_and_set_config1-ne-none_error_example =
    validate_and_set_config1-ne-none_error args config []

abbrev no_ports : PortMap
no_ports = []

add_port_lem_example :
    ((uses no_ports "10.0.0.1" 6001 ≡ false)
      × ((m' : PortMap) × (add_port_to_machine no_ports "10.0.0.1" 6001 ≡ ok m')
          × ((j : String) (q : ℕ)
              → uses m' j q ≡ (("10.0.0.1" == j && eqb 6001 q) || uses no_ports j q))))
    ⊎ ((uses no_ports "10.0.0.1" 6001 ≡ true)
        × (add_port_to_machine no_ports "10.0.0.1" 6001 ≡ err (duplicate_port 6001 "10.0.0.1")))
add_port_lem_example = add_port_lem no_ports "10.0.0.1" 6001
