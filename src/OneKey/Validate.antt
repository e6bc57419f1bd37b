-- ===== src/OneKey/Validate.antt =====
-- cluster/cluster_common.py: `validate_and_set_config1`, part by part.
pub mod Checked
pub mod Services
pub mod Success
pub mod NoTypeError
pub mod Misspelt
use cloudnative.Base.{
  String, ◌==◌, ℕ, ◌+◌, eqb, ltb, Bool, true, false, Option, none, some, List, [], ◌∷◌, length,
  or_default, Result, ok, err, Error, value_error, name_error, raise_if, need, ◌>>=◌, ◌>>◌,
  if◌then◌else◌,
}
use cloudnative.Base.Text.{concat, show}
use cloudnative.Config.{Args, StorageNode, CompNode, Shard, MetaShard, Haproxy, ClusterMgrNode}
use cloudnative.Machines.{Machines, set_haspg}
use cloudnative.Claims.{PortMap, add_port_to_machine, add_dir_to_machine}
use cloudnative.HaMode.{validate_ha_mode, check_ha_mode}
use cloudnative.OneKey.{ClusterMgr, Cluster, OneKeyConfig}
use cloudnative.OneKey.Shards.{Taken, add_optional_port, check_nodes, mark_last}

-- A mode that is set is validated; one that is not leaves what was there.
given_mode : Option String → String → Result String
given_mode none mode = ok mode
given_mode (some m) mode = do validate_ha_mode m; ok m

-- The modes of the metadata shard and of the data shards, the latter empty if nothing gives it.
pub resolve_modes : Cluster → Result (String × String)
unfolding given_mode validate_ha_mode
resolve_modes cluster = do
  mode ← given_mode cluster.ha_mode ""
  meta_mode ← given_mode cluster.meta.ha_mode mode
  ok (meta_mode, mode)

abbrev no_meta : Error
no_meta = value_error "Error: There must be at least one node in meta shard"

abbrev meta_many : Error
meta_many = value_error "Error: meta_ha_mode is no_rep, but there are multiple nodes in meta shard"

abbrev meta_one : Error
meta_one = value_error "Error: meta_ha_mode is mgr/rbr, but there is only one node in meta shard"

abbrev meta_two_primaries : Error
meta_two_primaries =
    value_error
      "Error: Two primaries found in meta shard, there should be one and only one Primary specified !"

abbrev meta_no_primary : Error
meta_no_primary =
    value_error
      "Error: No primary found in meta shard, there should be one and only one primary specified !"

-- The mode of the metadata shard where none is given.
pub meta_default_mode : ℕ → String → String
meta_default_mode metacnt mode =
    if mode == "" then (if ltb 1 metacnt then "mgr" else "no_rep") else mode

-- Behind the loop over the nodes: several nodes need a primary, a single one becomes it.
pub finish_primary : Error → List StorageNode → Bool → Result (List StorageNode)
finish_primary none_found nodes has_primary =
    if ltb 1 (length nodes)
    then (if has_primary then ok nodes else err none_found)
    else ok (mark_last nodes)

-- The metadata shard with its mode, its nodes and what they claim.
pub check_meta : Taken → MetaShard → String → Result (Taken × MetaShard)
unfolding meta_default_mode finish_primary check_ha_mode check_nodes
check_meta taken meta given = do
  let metacnt = length meta.nodes
  raise_if (eqb metacnt 0) no_meta
  let mode = meta_default_mode metacnt given
  check_ha_mode meta_many meta_one metacnt mode
  (taken', has_primary) ← check_nodes meta_two_primaries taken false meta.nodes
  nodes ← finish_primary meta_no_primary meta.nodes has_primary
  ok (
    taken',
    record meta {
      ha_mode = some mode;
      enable_rocksdb = some (or_default true meta.enable_rocksdb);
      nodes = nodes;
    },
  )

-- The claims of one computing node.
claim_comp : Taken → CompNode → Result Taken
claim_comp taken node = do
  port ← need "port" node.port
  ports1 ← add_port_to_machine taken.ports node.ip port
  mysql_port ← need "mysql_port" node.mysql_port
  ports2 ← add_port_to_machine ports1 node.ip mysql_port
  datadir ← need "datadir" node.datadir
  dirs ← add_dir_to_machine taken.dirs node.ip datadir
  ok (record { ports = ports2; dirs = dirs })

pub check_comps : Machines → Taken → List CompNode → Result (Machines × Taken)
unfolding claim_comp
check_comps machines taken [] = ok (machines, taken)
check_comps machines taken (node ∷ nodes) = do
  machines' ← set_haspg machines node.ip
  taken' ← claim_comp taken node
  check_comps machines' taken' nodes

pub check_haproxy : Taken → Option Haproxy → Result Taken
unfolding add_optional_port
check_haproxy taken none = ok taken
check_haproxy taken (some haproxy) = do
  port ← need "port" haproxy.port
  ports1 ← add_port_to_machine taken.ports haproxy.ip port
  ports2 ← add_optional_port ports1 haproxy.ip haproxy.mysql_port
  ok (record taken { ports = ports2 })

-- The exceptions about the `i`-th data shard.
abbrev shard_error : String → ℕ → String → Error
shard_error front i back = value_error (concat (front ∷ show i ∷ back ∷ []))

pub check_shard : Taken → ℕ → String → Shard → Result (Taken × Shard)
unfolding finish_primary check_ha_mode check_nodes
check_shard taken i mode shard = do
  let nodecnt = length shard.nodes
  raise_if (eqb nodecnt 0) (shard_error "Error: There must be at least one node in data shard" i "")
  check_ha_mode (shard_error "Error: shard_ha_mode is no_rep, but data shard" i " has two or more")
      (shard_error "Error: shard_ha_mode is mgr/rbr, but data shard" i " has only one") nodecnt mode
  (taken', has_primary) ←
      check_nodes
        (shard_error "Error: Two primaries found in shard" i
          ", there should be one and only one Primary specified !")
        taken false shard.nodes
  nodes ←
      finish_primary
        (shard_error "Error: No primary found in shard" i
          ", there should be one and only one primary specified !")
        shard.nodes has_primary
  ok (taken', record shard { nodes = nodes })

pub check_shards : Taken → ℕ → String → List Shard → Result (Taken × List Shard)
check_shards taken i mode [] = ok (taken, [])
check_shards taken i mode (shard ∷ shards) = do
  (taken1, shard') ← check_shard taken i mode shard
  (taken2, shards') ← check_shards taken1 (i + 1) mode shards
  ok (taken2, shard' ∷ shards')

-- `x in clustermgr` is followed by a read of the misspelt `clsutermgr`.
misspelt : Option ℕ → ℕ → Result ℕ
misspelt none default = ok default
misspelt (some _) default = err (name_error "clsutermgr")

pub check_clustermgr_node : Args → PortMap → ClusterMgrNode → Result (PortMap × ClusterMgrNode)
check_clustermgr_node args ports node = do
  let raft = or_default args.defbrpc_raft_port node.brpc_raft_port
  ports1 ← add_port_to_machine ports node.ip raft
  let http = or_default args.defbrpc_http_port node.brpc_http_port
  ports2 ← add_port_to_machine ports1 node.ip http
  ok (ports2, record node { brpc_raft_port = some raft; brpc_http_port = some http })

pub check_clustermgr_nodes :
    Args → PortMap → List ClusterMgrNode → Result (PortMap × List ClusterMgrNode)
check_clustermgr_nodes args ports [] = ok (ports, [])
check_clustermgr_nodes args ports (node ∷ nodes) = do
  (ports1, node') ← check_clustermgr_node args ports node
  (ports2, nodes') ← check_clustermgr_nodes args ports1 nodes
  ok (ports2, node' ∷ nodes')

-- A node that is made from the address alone.
abbrev pub bare_node : String → ℕ → ℕ → ClusterMgrNode
bare_node ip raft http = record {
  ip = ip;
  dc = none;
  valgrind = none;
  brpc_raft_port = some raft;
  brpc_http_port = some http;
  prometheus_port_start = none;
  brpc_raft_election_timeout_ms = none;
}

check_clustermgr_ip : Args → PortMap → ClusterMgr → String → Result (PortMap × ClusterMgr)
unfolding misspelt
check_clustermgr_ip args ports c ip = do
  raft ← misspelt c.brpc_raft_port args.defbrpc_raft_port
  ports1 ← add_port_to_machine ports ip raft
  http ← misspelt c.brpc_http_port args.defbrpc_http_port
  ports2 ← add_port_to_machine ports1 ip http
  ok (ports2, record c { ip = none; nodes = some (bare_node ip raft http ∷ []) })

-- By what is set of `ip` and `nodes`.
check_clustermgr_by :
    Args
    → PortMap
    → ClusterMgr
    → Option String
    → Option (List ClusterMgrNode)
    → Result (PortMap × ClusterMgr)
unfolding check_clustermgr_ip check_clustermgr_nodes check_clustermgr_node
check_clustermgr_by args ports c (some ip) (some nodes) =
    err (value_error "Error: ip or nodes can not be both set for clustermgr !")
check_clustermgr_by args ports c (some ip) none = check_clustermgr_ip args ports c ip
check_clustermgr_by args ports c none (some nodes) = do
  (ports', nodes') ← check_clustermgr_nodes args ports nodes
  ok (ports', record c { nodes = some nodes' })
check_clustermgr_by args ports c none none =
    err (value_error "Error:ip or(x-or) nodes must be set for clustermgr !")

pub check_clustermgr : Args → PortMap → ClusterMgr → Result (PortMap × ClusterMgr)
unfolding check_clustermgr_by
check_clustermgr args ports c = check_clustermgr_by args ports c c.ip c.nodes

abbrev pub nothing_taken : Taken
nothing_taken = record { ports = []; dirs = [] }

unfoldable pub validate_and_set_config1 :
    Args → OneKeyConfig → Machines → Result (Machines × OneKeyConfig)
unfolding resolve_modes check_meta check_comps check_haproxy check_shards check_shard
    check_clustermgr
validate_and_set_config1 args jscfg machines = do
  let cluster = jscfg.cluster
  (given_meta, given_shard) ← resolve_modes cluster
  (taken1, meta) ← check_meta nothing_taken cluster.meta given_meta
  (machines', taken2) ← check_comps machines taken1 cluster.comps
  taken3 ← check_haproxy taken2 cluster.haproxy
  let shard_mode = if given_shard == "" then or_default "" meta.ha_mode else given_shard
  (taken4, datas) ← check_shards taken3 1 shard_mode cluster.datas
  (ports, clustermgr) ← check_clustermgr args taken4.ports cluster.clustermgr
  ok (
    machines',
    record jscfg {
      cluster = record cluster {
        ha_mode = some shard_mode;
        enable_rocksdb = some (or_default true cluster.enable_rocksdb);
        meta = meta;
        datas = datas;
        clustermgr = clustermgr;
      };
    },
  )
