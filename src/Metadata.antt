-- ===== src/Metadata.antt =====
-- cluster/clustermgr/modify_metadata.py: the search for the metadata server that takes writes, and
-- the statements for data centers and node managers, as the list of those that a cursor executes.
-- What a server answers is a parameter.
pub mod Master
pub mod ServerNodes
pub mod Transactions
use cloudnative.Base.{
  String, ◌==◌, ℕ, eqb, ltb, Bool, true, false, not, ◌&&◌, ◌||◌, Option, none, some, List, [], ◌∷◌,
  ◌++◌, length, or_default, Result, ok, err, value_error, index_error, ◌>>=◌, if◌then◌else◌,
}
use cloudnative.Base.Text.{concat, join, split, int}
use cloudnative.NodeMgr.{NodeMgr}
use cloudnative.MultiDc.{DataCenter}

-- What comes of asking a server for `@@super_read_only`: `none` where the connection fails, else
-- the row that it returns, if any.
abbrev pub Connect : Type 0
Connect = String → ℕ → Option (Option ℕ)

-- `row is None or int(row[0]) == 1` sends the search on.
abbrev pub writable : Option (Option ℕ) → Bool
writable none = false
writable (some none) = false
writable (some (some read_only)) = not (eqb read_only 1)

-- The parts of `host:port`, the port 3306 if there is none.
seed_parts : List String → Result (String × ℕ)
seed_parts [] = err index_error
seed_parts (host ∷ []) = ok (host, 3306)
seed_parts (host ∷ port ∷ rest) = do number ← int port; ok (host, number)

pub seed_addr : String → Result (String × ℕ)
unfolding seed_parts
seed_addr addr = seed_parts (split b':' addr)

-- The loop over the addresses; the connection is given by its address.
pub find_master : Connect → List String → Result (Option (String × ℕ))
unfolding seed_addr
find_master connect [] = ok none
find_master connect (addr ∷ addrs) = do
  (host, port) ← seed_addr addr
  if writable (connect host port) then ok (some (host, port)) else find_master connect addrs

unfoldable pub get_master_conn : Connect → String → Result (Option (String × ℕ))
unfolding find_master
get_master_conn connect metaseeds = find_master connect (split b',' metaseeds)

-- The row of `server_nodes` that a node manager gets for one type of node.
pub record ServerRow : Type 0 where
  pub hostaddr : String
  pub total_mem : ℕ
  pub total_cpu_cores : ℕ
  pub comp_datadir : String
  pub datadir : String
  pub logdir : String
  pub wal_log_dir : String
  pub machine_type : String
  pub prometheus_port : ℕ
  pub port_range : String
  pub used_port : String
  pub current_port_pos : ℕ
  pub nodemgr_port : ℕ
  pub nodemgr_tcp_port : ℕ
  pub dc : String

-- The statements, with the values that are bound.
pub data Statement : Type 0 where
  start_transaction commit : Statement
  insert_center : (name : String) (province city : Option String) → Statement
  insert_server : ServerRow → Statement
  update_server : (current_port_pos : ℕ) (used hostaddr machine_type : String) → Statement
  delete_stats delete_server : (hostaddr : String) → Statement

insert_centers : List DataCenter → List Statement
insert_centers [] = []
insert_centers (ele ∷ eles) =
    if or_default false ele.skip
    then insert_centers eles
    else insert_center ele.name ele.province ele.city ∷ insert_centers eles

unfoldable pub process_datacenters : List DataCenter → List Statement
unfolding insert_centers
process_datacenters elements = start_transaction ∷ (insert_centers elements ++ (commit ∷ []))

-- `",".join(ports) + ","`
abbrev pub used_text : List String → String
used_text ports = concat (join "," ports ∷ "," ∷ [])

storage_row : NodeMgr → ServerRow
storage_row node = record {
  hostaddr = node.ip;
  total_mem = node.total_mem;
  total_cpu_cores = node.total_cpu_cores;
  comp_datadir = node.server_datadirs;
  datadir = node.storage_datadirs;
  logdir = node.storage_logdirs;
  wal_log_dir = node.storage_waldirs;
  machine_type = "storage";
  prometheus_port = node.prometheus_port_start;
  port_range = node.storage_portrange;
  used_port = used_text node.storage_usedports;
  current_port_pos = node.storage_curport;
  nodemgr_port = node.brpc_http_port;
  nodemgr_tcp_port = node.tcp_port;
  dc = or_default "unknown" node.dc;
}

server_row : NodeMgr → ServerRow
unfolding storage_row
server_row node = record (storage_row node) {
  machine_type = "computer";
  port_range = node.server_portrange;
  used_port = used_text node.server_usedports;
  current_port_pos = node.server_curport;
}

-- The rows for one new node manager.
insert_node : NodeMgr → List Statement
unfolding storage_row server_row
insert_node node =
    if node.skip || (node.nodetype == "none")
    then []
    else (if (node.nodetype == "both") || (node.nodetype == "storage")
        then insert_server (storage_row node) ∷ []
        else [])
      ++ (if (node.nodetype == "both") || (node.nodetype == "server")
          then insert_server (server_row node) ∷ []
          else [])

-- The ports of one node manager that was there before.
update_node : NodeMgr → List Statement
update_node node =
    if (node.nodetype == "none") || not node.skip
    then []
    else (if ltb 0 (length node.storage_usedports)
        then update_server node.storage_curport (used_text node.storage_usedports) node.ip "storage"
          ∷ []
        else [])
      ++ (if ltb 0 (length node.server_usedports)
          then update_server node.server_curport (used_text node.server_usedports) node.ip
              "computer"
            ∷ []
          else [])

delete_node : NodeMgr → List Statement
delete_node node = if node.skip then [] else delete_stats node.ip ∷ delete_server node.ip ∷ []

-- A loop whose body executes statements.
abbrev pub each : (NodeMgr → List Statement) → List NodeMgr → List Statement
each body [] = []
each body (node ∷ nodes) = body node ++ each body nodes

unfoldable pub add_servernodes : List NodeMgr → List Statement
unfolding insert_node update_node
add_servernodes nodes =
    start_transaction ∷ (each insert_node nodes ++ (each update_node nodes ++ (commit ∷ [])))

unfoldable pub remove_servernodes : List NodeMgr → List Statement
unfolding delete_node
remove_servernodes nodes = start_transaction ∷ (each delete_node nodes ++ (commit ∷ []))

unfoldable pub process_servernodes : String → List NodeMgr → Result (List Statement)
process_servernodes op elements =
    if op == "add"
    then ok (add_servernodes elements)
    else if op == "remove"
    then ok (remove_servernodes elements)
    else err (value_error (concat ("invalid op for process_servernodes: " ∷ op ∷ [])))
