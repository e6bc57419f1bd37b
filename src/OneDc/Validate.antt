-- ===== src/OneDc/Validate.antt =====
-- cluster/cluster_common.py: `validate_and_set_config2`, part by part.
pub mod Claimed
pub mod Services
use cloudnative.Base.{
  String, ◌==◌, ℕ, ◌+◌, eqb, ltb, Bool, true, false, not, ◌&&◌, Option, none, some, is_some, List,
  [], ◌∷◌, length, or_default, contains, has_key, lookup, insert, string_eq, map, Error, Result, ok,
  err, value_error, raise_if, need, ◌>>=◌, ◌>>◌, if◌then◌else◌,
}
use cloudnative.Base.Text.{concat, show, join, replace}
use cloudnative.Config.{Args, StorageNode, CompNode, Shard, MetaShard, Haproxy, ClusterMgrNode}
use cloudnative.Machines.{Machines}
use cloudnative.Claims.{PortMap, add_port_to_machine}
use cloudnative.HaMode.{validate_ha_mode, check_ha_mode}
use cloudnative.NodeMgr.{NodeMgrItem, NodeMgr, NodeMgrs, curports, resolve_nodemgr}
use cloudnative.OneKey.Shards.{add_optional_port}
use cloudnative.Allocate.{Site, place_storage_nodes, elect_first, place_comps}
use cloudnative.OneDc.{HdfsBackup, SshBackup, Backup, Xpanel, Elasticsearch, Cluster, OneDcConfig}

-- The three ports of a cluster manager, given or default.
unfoldable pub claim_clustermgr :
    Args → PortMap → ClusterMgrNode → Result (PortMap × ClusterMgrNode)
claim_clustermgr args ports node = do
  let raft = or_default args.defbrpc_raft_port_clustermgr node.brpc_raft_port
  ports1 ← add_port_to_machine ports node.ip raft
  let http = or_default args.defbrpc_http_port_clustermgr node.brpc_http_port
  ports2 ← add_port_to_machine ports1 node.ip http
  let prometheus = or_default args.defpromethes_port_start_clustermgr node.prometheus_port_start
  ports3 ← add_port_to_machine ports2 node.ip prometheus
  ok (
    ports3,
    record node {
      valgrind = some (or_default false node.valgrind);
      brpc_raft_port = some raft;
      brpc_http_port = some http;
      prometheus_port_start = some prometheus;
    },
  )

abbrev two_clustermgrs : String → Error
two_clustermgrs ip =
    value_error
      (concat ("Error: " ∷ ip ∷ " exists, only one cluster_mgr can be run on a machine!" ∷ []))

unfoldable pub check_clustermgrs :
    Args → PortMap → List String → List ClusterMgrNode → Result (PortMap × List ClusterMgrNode)
unfolding claim_clustermgr
check_clustermgrs args ports ips [] = ok (ports, [])
check_clustermgrs args ports ips (node ∷ nodes) = do
  raise_if (contains node.ip ips) (two_clustermgrs node.ip)
  (ports1, node') ← claim_clustermgr args ports node
  (ports2, nodes') ← check_clustermgrs args ports1 (node.ip ∷ ips) nodes
  ok (ports2, node' ∷ nodes')

abbrev two_nodemgrs : String → Error
two_nodemgrs ip =
    value_error
      (concat ("Error: " ∷ ip ∷ " exists, only one node_mgr can be run on a machine!" ∷ []))

-- The node managers under their addresses, one for each.
unfoldable pub check_nodemgrs :
    Args → Machines → PortMap → NodeMgrs → List NodeMgrItem → Result (PortMap × NodeMgrs)
check_nodemgrs args machines ports nodemgrs [] = ok (ports, nodemgrs)
check_nodemgrs args machines ports nodemgrs (item ∷ items) = do
  (storage_port, server_port) ← curports args item
  raise_if (has_key item.ip nodemgrs) (two_nodemgrs item.ip)
  (ports1, n) ← resolve_nodemgr args machines ports item storage_port server_port
  check_nodemgrs args machines ports1 (insert item.ip n nodemgrs) items

abbrev set_path : String → StorageNode → Error
set_path attr node =
    value_error (concat (attr ∷ " can not be set explicitly for meta node " ∷ node.ip ∷ []))

unfoldable pub forbid_paths : StorageNode → Result StorageNode
forbid_paths node = do
  raise_if (is_some node.data_dir_path) (set_path "data_dir_path" node)
  raise_if (is_some node.log_dir_path) (set_path "log_dir_path" node)
  raise_if (is_some node.innodb_log_dir_path) (set_path "innodb_log_dir_path" node)
  ok node

abbrev no_meta : Error
no_meta = value_error "Error: There must be at least one node in meta shard"

abbrev meta_many : Error
meta_many = value_error "Error: ha_mode is no_rep, but there are multiple nodes in meta shard"

abbrev meta_one : Error
meta_one = value_error "Error: ha_mode is mgr/rbr, but there is only one node in meta shard"

abbrev meta_two_primaries : Error
meta_two_primaries =
    value_error
      "Error: Two primaries found in meta shard, there should be one and only one Primary specified !"

-- The mode of the metadata shard where none is given.
pub meta_mode : ℕ → String → String
meta_mode nodecnt given = if given == "" then (if ltb 1 nodecnt then "rbr" else "no_rep") else given

-- `'%s:%s' % (node['ip'], str(node['port']))`
unfoldable pub node_addr : StorageNode → String
node_addr node = concat (node.ip ∷ ":" ∷ show (or_default 0 node.port) ∷ [])

pub seeds : Option String → List StorageNode → Option String
unfolding node_addr
seeds given [] = given
seeds given (node ∷ nodes) = some (join "," (map node_addr (node ∷ nodes)))

unfoldable pub check_meta : Args → Site → MetaShard → Result (Site × MetaShard)
unfolding meta_mode forbid_paths seeds place_storage_nodes elect_first check_ha_mode
check_meta args site meta = do
  let nodecnt = length meta.nodes
  let mode = meta_mode nodecnt (or_default "" meta.ha_mode)
  raise_if (eqb nodecnt 0 && not (is_some meta.group_seeds)) no_meta
  check_ha_mode meta_many meta_one nodecnt mode
  (site', has_primary, nodes) ←
      place_storage_nodes forbid_paths args site mode "128MB" meta_two_primaries false meta.nodes
  ok (
    site',
    record meta {
      ha_mode = some mode;
      enable_rocksdb = some (or_default true meta.enable_rocksdb);
      fullsync_level = some (or_default 1 meta.fullsync_level);
      group_seeds = seeds meta.group_seeds nodes;
      nodes = elect_first has_primary nodes;
    },
  )

check_hdfs : PortMap → Option HdfsBackup → Result PortMap
check_hdfs ports none = ok ports
check_hdfs ports (some h) = do port ← need "port" h.port; add_port_to_machine ports h.ip port

check_ssh : PortMap → Option SshBackup → Result (PortMap × Option SshBackup)
check_ssh ports none = ok (ports, none)
check_ssh ports (some s) = do
  let port = or_default 22 s.port
  ports' ← add_port_to_machine ports s.ip port
  raise_if (not (is_some s.user)) (value_error "Error: user must be specified for ssh backup!")
  raise_if (not (is_some s.target_dir))
      (value_error "Error: targetDir must be specified for ssh backup!")
  ok (ports', some (record s { port = some port }))

unfoldable pub check_backup : PortMap → Backup → Result (PortMap × Backup)
unfolding check_hdfs check_ssh
check_backup ports b = do
  ports1 ← check_hdfs ports b.hdfs
  (ports2, ssh) ← check_ssh ports1 b.ssh
  ok (ports2, record b { ssh = ssh })

-- The image of the panel: a fixed one for a file, or the given one with the version put in.
xpanel_image : Args → Xpanel → Result String
xpanel_image args x =
    if or_default "url" x.image_type == "file"
    then ok (concat ("kunlun-xpanel:" ∷ args.product_version ∷ []))
    else (do image ← need "image" x.image; ok (replace "VERSION" args.product_version image))

unfoldable pub check_xpanel : Args → PortMap → Option Xpanel → Result (PortMap × Option Xpanel)
unfolding xpanel_image
check_xpanel args ports none = ok (ports, none)
check_xpanel args ports (some x) = do
  let port = or_default 18080 x.port
  ports' ← add_port_to_machine ports x.ip port
  image ← xpanel_image args x
  ok (
    ports',
    some (record x {
      port = some port;
      name = some (or_default (concat ("xpanel_" ∷ show port ∷ [])) x.name);
      image_type = some (or_default "url" x.image_type);
      image = some image;
      image_file = some (
          or_default (concat ("kunlun-xpanel-" ∷ args.product_version ∷ ".tar.gz" ∷ []))
            x.image_file);
    }),
  )

unfoldable pub check_elasticsearch :
    PortMap → Option Elasticsearch → Result (PortMap × Option Elasticsearch)
check_elasticsearch ports none = ok (ports, none)
check_elasticsearch ports (some e) = do
  ip ← elim e.ip [
    | none ↦ err (value_error "Error: the ip of elasticsearch must be specified!")
    | some ip ↦ ok ip
  ]
  let port = or_default 9200 e.port
  ports1 ← add_port_to_machine ports ip port
  let kibana = or_default 5601 e.kibana_port
  ports2 ← add_port_to_machine ports1 ip kibana
  ok (ports2, some (record e { port = some port; kibana_port = some kibana }))
