-- ===== src/Config.antt =====
-- The JSON configuration and the command line, as the scripts of cluster/ read them. A key that a
-- script tests for, sets, or may miss is an optional field, and reading it where it is missing
-- raises `KeyError`; `ip`, the lists of nodes and the keys that every script reads first are plain.
use cloudnative.Base.{String, ℕ, Bool, Option, List}

-- One item of `machines` of a configuration.
pub record MachineItem : Type 0 where
  pub ip : String
  pub user : Option String
  pub basedir : Option String
  pub sshport : Option ℕ

-- A storage node of a metadata or data shard.
pub record StorageNode : Type 0 where
  pub ip : String
  pub port : Option ℕ
  pub xport : Option ℕ
  pub mgr_port : Option ℕ
  pub data_dir_path : Option String
  pub log_dir_path : Option String
  pub innodb_log_dir_path : Option String
  pub innodb_buffer_pool_size : Option String
  pub program_dir : Option String
  pub user : Option String
  pub election_weight : Option ℕ
  pub fullsync : Option ℕ
  pub is_primary : Option Bool

-- A computing node.
pub record CompNode : Type 0 where
  pub ip : String
  pub port : Option ℕ
  pub mysql_port : Option ℕ
  pub datadir : Option String
  pub program_dir : Option String

pub record Shard : Type 0 where
  pub ha_mode : Option String
  pub nodes : List StorageNode

-- The metadata shard.
pub record MetaShard : Type 0 where
  pub ha_mode : Option String
  pub enable_rocksdb : Option Bool
  pub fullsync_level : Option ℕ
  pub group_seeds : Option String
  pub nodes : List StorageNode

pub record Haproxy : Type 0 where
  pub ip : String
  pub port : Option ℕ
  pub mysql_port : Option ℕ
  pub maxconn : Option ℕ

-- A node of the cluster manager.
pub record ClusterMgrNode : Type 0 where
  pub ip : String
  pub dc : Option String
  pub valgrind : Option Bool
  pub brpc_raft_port : Option ℕ
  pub brpc_http_port : Option ℕ
  pub prometheus_port_start : Option ℕ
  pub brpc_raft_election_timeout_ms : Option ℕ

-- The arguments of the command line that the modelled functions read.
pub record Args : Type 0 where
  pub defuser : String
  pub defbase : String
  pub localip : String
  pub product_version : String
  pub sudo : Bool
  pub cloud : Bool
  pub verbose : Bool
  pub setbashenv : Bool
  pub autostart : Bool
  pub small : Bool
  pub multipledc : Bool
  pub targetarch : String
  pub defbrpc_raft_port : ℕ
  pub defbrpc_http_port : ℕ
  pub defbrpc_raft_port_clustermgr : ℕ
  pub defbrpc_http_port_clustermgr : ℕ
  pub defpromethes_port_start_clustermgr : ℕ
  pub defbrpc_http_port_nodemgr : ℕ
  pub deftcp_port_nodemgr : ℕ
  pub defprometheus_port_start_nodemgr : ℕ
  pub defstorage_portrange_nodemgr : String
  pub defserver_portrange_nodemgr : String
