-- ===== src/Allocate.antt =====
-- cluster/cluster_common.py: placing storage and computing nodes on node managers, the loop bodies
-- that `validate_and_set_config2` and `validate_and_set_config3` share.
pub mod Claimed
use cloudnative.Base.{
  String, ◌==◌, ℕ, ◌+◌, Bool, true, false, Option, none, some, List, [], ◌∷◌, lookup, insert,
  or_default, Error, Result, ok, err, value_error, need, ◌>>=◌, if◌then◌else◌,
}
use cloudnative.Base.Text.{concat, show, first_piece}
use cloudnative.Config.{Args, StorageNode, CompNode}
use cloudnative.Machines.{Machine, Machines, get_machine, set_haspg}
use cloudnative.Claims.{PortMap, add_port_to_machine}
use cloudnative.NodeMgr.{
  NodeMgr, NodeMgrs, get_default_nodemgr, get_nodemgr_nextport, fix_nodemgr_nodetype,
  addto_usedports, under,
}
use cloudnative.OneKey.Shards.{check_primary}

-- What the loops change: `machines`, `portmap` and the node managers.
pub record Site : Type 0 where
  pub machines : Machines
  pub ports : PortMap
  pub nodemgrs : NodeMgrs

-- The node manager of a host, a default one if there is none, made to serve the kind. In the
-- source the new one is appended at once; here it is put back by the caller.
unfoldable pub nodemgr_for : Args → Site → String → String → Result NodeMgr
nodemgr_for args site ip addtype = do
  n ← elim (lookup ip site.nodemgrs) [
    | some n ↦ ok n
    | none ↦ get_default_nodemgr args site.machines ip
  ]
  ok (fix_nodemgr_nodetype n addtype)

-- `if key not in node: node[key] = get_nodemgr_nextport(…)`
unfoldable pub given_or_next : NodeMgr → String → ℕ → Option ℕ → ℕ × NodeMgr
given_or_next n kind incr (some port) = (port, n)
given_or_next n kind incr none = get_nodemgr_nextport n kind incr

-- One port of a node: given or next, claimed, and noted as used.
unfoldable pub assign_port :
    PortMap → NodeMgr → String → String → ℕ → Option ℕ → Result (PortMap × NodeMgr × ℕ)
unfolding given_or_next
assign_port ports n ip kind incr given = do
  let next = given_or_next n kind incr given
  ports' ← add_port_to_machine ports ip next.0
  ok (ports', addto_usedports next.1 kind next.0, next.0)

-- `'%s/%s' % (dirs.split(',')[0], str(port))`
abbrev pub port_dir : String → ℕ → String
port_dir dirs port = under (first_piece b',' dirs) (show port)

unfoldable pub set_storage_using_nodemgr :
    Machines → StorageNode → NodeMgr → String → Result StorageNode
unfolding get_machine
set_storage_using_nodemgr machines item n innodb_buf = do
  port ← need "port" item.port
  mach ← get_machine machines item.ip
  ok (record item {
    data_dir_path = some (or_default (port_dir n.storage_datadirs port) item.data_dir_path);
    log_dir_path = some (or_default (port_dir n.storage_logdirs port) item.log_dir_path);
    innodb_log_dir_path =
        some (or_default (port_dir n.storage_waldirs port) item.innodb_log_dir_path);
    program_dir = some (concat ("instance_binaries/storage/" ∷ show port ∷ []));
    user = some mach.user;
    innodb_buffer_pool_size = some (or_default innodb_buf item.innodb_buffer_pool_size);
  })

unfoldable pub set_server_using_nodemgr : CompNode → NodeMgr → Result CompNode
set_server_using_nodemgr item n = do
  port ← need "port" item.port
  ok (record item {
    datadir = some (or_default (port_dir n.server_datadirs port) item.datadir);
    program_dir = some (concat ("instance_binaries/computer/" ∷ show port ∷ []));
  })

-- The two further ports of a node under `mgr`; under another mode a node keeps what it has.
unfoldable pub assign_mgr_ports :
    PortMap → NodeMgr → String → StorageNode → Result (PortMap × NodeMgr × StorageNode)
unfolding assign_port
assign_mgr_ports ports n ha_mode node =
    if ha_mode == "mgr"
    then (do
      (ports1, n1, xport) ← assign_port ports n node.ip "storage" 1 node.xport
      (ports2, n2, mgr_port) ← assign_port ports1 n1 node.ip "storage" 1 node.mgr_port
      ok (ports2, n2, record node { xport = some xport; mgr_port = some mgr_port }))
    else ok (ports, n, node)

-- A storage node of a metadata or data shard.
unfoldable pub place_storage_node :
    Args → Site → String → String → StorageNode → Result (Site × StorageNode)
unfolding nodemgr_for assign_mgr_ports
place_storage_node args site ha_mode innodb_buf node = do
  n ← nodemgr_for args site node.ip "storage"
  (ports1, n1, port) ← assign_port site.ports n node.ip "storage" 2 node.port
  node1 ← set_storage_using_nodemgr site.machines (record node { port = some port }) n1 innodb_buf
  (ports2, n2, node2) ← assign_mgr_ports ports1 n1 ha_mode node1
  ok (
    record site { ports = ports2; nodemgrs = insert node.ip n2 site.nodemgrs },
    record node2 {
      election_weight = some (or_default 50 node2.election_weight);
      is_primary = some (or_default false node2.is_primary);
    },
  )

-- The nodes of a shard one behind the other, with the test that at most one is the primary.
-- `prepare` is what the loop of the metadata shard or of a data shard does first to a node.
unfoldable pub place_storage_nodes :
    (StorageNode → Result StorageNode)
    → Args
    → Site
    → String
    → String
    → Error
    → Bool
    → List StorageNode
    → Result (Site × Bool × List StorageNode)
unfolding place_storage_node
place_storage_nodes prepare args site ha_mode innodb_buf two has [] = ok (site, has, [])
place_storage_nodes prepare args site ha_mode innodb_buf two has (node ∷ nodes) = do
  prepared ← prepare node
  (site1, node') ← place_storage_node args site ha_mode innodb_buf prepared
  has1 ← check_primary two has node'
  (site2, has2, nodes') ← place_storage_nodes prepare args site1 ha_mode innodb_buf two has1 nodes
  ok (site2, has2, node' ∷ nodes')

-- `if not hasPrimary: nodes[0]['is_primary'] = True`
unfoldable pub elect_first : Bool → List StorageNode → List StorageNode
elect_first true nodes = nodes
elect_first false [] = []
elect_first false (node ∷ nodes) = record node { is_primary = some true } ∷ nodes

-- A computing node.
unfoldable pub place_comp : Args → Site → CompNode → Result (Site × CompNode)
unfolding set_haspg nodemgr_for assign_port
place_comp args site node = do
  machines ← set_haspg site.machines node.ip
  n ← nodemgr_for args (record site { machines = machines }) node.ip "server"
  (ports1, n1, port) ← assign_port site.ports n node.ip "server" 1 node.port
  (ports2, n2, mysql_port) ← assign_port ports1 n1 node.ip "server" 2 node.mysql_port
  node' ←
      set_server_using_nodemgr (record node { port = some port; mysql_port = some mysql_port }) n2
  ok (
    record { machines = machines; ports = ports2; nodemgrs = insert node.ip n2 site.nodemgrs },
    node',
  )

unfoldable pub place_comps : Args → Site → List CompNode → Result (Site × List CompNode)
unfolding place_comp
place_comps args site [] = ok (site, [])
place_comps args site (node ∷ nodes) = do
  (site1, node') ← place_comp args site node
  (site2, nodes') ← place_comps args site1 nodes
  ok (site2, node' ∷ nodes')
