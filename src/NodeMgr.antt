-- ===== src/NodeMgr.antt =====
-- cluster/cluster_common.py: the node managers of a configuration, their port counters, types and
-- directories. `nodemgr['nodes']` and `nodemgrmaps` hold the same objects, one for an address, and
-- are one dictionary here, by address in the order of the list.
pub mod Counters
pub mod Types
use cloudnative.Base.{
  String, ◌==◌, ℕ, ◌+◌, Bool, true, false, not, ◌||◌, Option, none, some, List, [], ◌∷◌, ◌++◌, Dict,
  lookup, insert, or_default, contains, string_eq, Error, Result, ok, err, value_error, none_error,
  raise_if, ◌>>=◌, ◌>>◌, if◌then◌else◌,
}
use cloudnative.Base.Text.{concat, show, split, first_piece, strip, int, is_absolute}
use cloudnative.Config.{Args}
use cloudnative.Machines.{Machine, Machines, get_machine}
use cloudnative.Claims.{PortMap, add_port_to_machine}

-- An item of `node_manager` of a configuration.
pub record NodeMgrItem : Type 0 where
  pub ip : String
  pub dc : Option String
  pub nodetype : Option String
  pub valgrind : Option Bool
  pub skip : Option Bool
  pub total_cpu_cores : Option ℕ
  pub total_mem : Option ℕ
  pub storage_portrange : Option String
  pub server_portrange : Option String
  pub verbose_log : Option Bool
  pub storage_curport : Option ℕ
  pub server_curport : Option ℕ
  pub brpc_http_port : Option ℕ
  pub tcp_port : Option ℕ
  pub prometheus_port_start : Option ℕ
  pub server_datadirs : Option String
  pub storage_datadirs : Option String
  pub storage_logdirs : Option String
  pub storage_waldirs : Option String

-- A node manager with all of its keys set. One that `get_default_nodemgr` makes has no
-- `verbose_log`.
pub record NodeMgr : Type 0 where
  pub ip : String
  pub dc : Option String
  pub nodetype : String
  pub valgrind : Bool
  pub skip : Bool
  pub total_cpu_cores : ℕ
  pub total_mem : ℕ
  pub storage_portrange : String
  pub server_portrange : String
  pub verbose_log : Option Bool
  pub storage_curport : ℕ
  pub server_curport : ℕ
  pub storage_usedports : List String
  pub server_usedports : List String
  pub brpc_http_port : ℕ
  pub tcp_port : ℕ
  pub prometheus_port_start : ℕ
  pub server_datadirs : String
  pub storage_datadirs : String
  pub storage_logdirs : String
  pub storage_waldirs : String

abbrev pub NodeMgrs : Type 0
NodeMgrs = Dict NodeMgr

-- `int(range.split('-')[0]) + 1`
unfoldable pub first_port : String → Result ℕ
first_port range = do n ← int (first_piece b'-' range); ok (n + 1)

-- `'%s/%s' % (mach['basedir'], defpaths[item])`
abbrev pub under : String → String → String
under base name = concat (base ∷ "/" ∷ name ∷ [])

unfoldable pub get_default_nodemgr : Args → Machines → String → Result NodeMgr
unfolding first_port get_machine
get_default_nodemgr args machines ip = do
  storage_port ← first_port args.defstorage_portrange_nodemgr
  server_port ← first_port args.defserver_portrange_nodemgr
  mach ← get_machine machines ip
  ok (record {
    ip = ip;
    dc = none;
    nodetype = "none";
    valgrind = false;
    skip = true;
    total_cpu_cores = 0;
    total_mem = 0;
    storage_portrange = args.defstorage_portrange_nodemgr;
    server_portrange = args.defserver_portrange_nodemgr;
    verbose_log = none;
    storage_curport = storage_port;
    server_curport = server_port;
    storage_usedports = [];
    server_usedports = [];
    brpc_http_port = args.defbrpc_http_port_nodemgr;
    tcp_port = args.deftcp_port_nodemgr;
    prometheus_port_start = args.defprometheus_port_start_nodemgr;
    server_datadirs = under mach.basedir "server_datadir";
    storage_datadirs = under mach.basedir "storage_datadir";
    storage_logdirs = under mach.basedir "storage_logdir";
    storage_waldirs = under mach.basedir "storage_waldir";
  })

unfoldable pub get_nodemgr_nextport : NodeMgr → String → ℕ → ℕ × NodeMgr
get_nodemgr_nextport n nodetype incr =
    if nodetype == "storage"
    then (n.storage_curport, record n { storage_curport = n.storage_curport + incr })
    else (n.server_curport, record n { server_curport = n.server_curport + incr })

-- The type behind `fix_nodemgr_nodetype`.
fixed_type : String → String → String
fixed_type nodetype addtype =
    if (nodetype == "both") || (nodetype == addtype)
    then nodetype
    else if nodetype == "none"
    then addtype
    else "both"

unfoldable pub fix_nodemgr_nodetype : NodeMgr → String → NodeMgr
unfolding fixed_type
fix_nodemgr_nodetype n addtype = record n { nodetype = fixed_type n.nodetype addtype }

unfoldable pub addto_usedports : NodeMgr → String → ℕ → NodeMgr
addto_usedports n addtype port =
    if addtype == "storage"
    then record n { storage_usedports = n.storage_usedports ++ (show port ∷ []) }
    else record n { server_usedports = n.server_usedports ++ (show port ∷ []) }

-- The loop over the directories of one item: each absolute, and none twice.
unfoldable pub check_dirs : String → String → List String → List String → Result (Unit {0})
check_dirs ip item dirs [] = ok tt
check_dirs ip item dirs (d ∷ ds) = do
  let formald = strip d
  raise_if (not (is_absolute formald))
      (value_error (concat ("Error: the dir in " ∷ item ∷ " must be absolute path!" ∷ [])))
  raise_if (contains formald dirs)
      (value_error (concat ("Error: duplicate dir on " ∷ ip ∷ "(" ∷ item ∷ "): " ∷ d ∷ "!" ∷ [])))
  check_dirs ip item (formald ∷ dirs) ds

-- One of the four lists of directories: checked if it is set, else below the base directory.
unfoldable pub resolve_dirs : Machines → String → String → String → Option String → Result String
unfolding check_dirs
resolve_dirs machines ip item default (some text) = do
  check_dirs ip item [] (split b',' (strip text))
  ok text
resolve_dirs machines ip item default none = do
  mach ← get_machine machines ip
  ok (under mach.basedir default)

-- `curport`, from the port range where it is not set.
curport : Option ℕ → String → Result ℕ
unfolding first_port
curport (some port) range = ok port
curport none range = first_port range

abbrev pub storage_range : Args → NodeMgrItem → String
storage_range args item = or_default args.defstorage_portrange_nodemgr item.storage_portrange

abbrev pub server_range : Args → NodeMgrItem → String
server_range args item = or_default args.defserver_portrange_nodemgr item.server_portrange

-- The first ports to give out, for storage and for computing nodes.
unfoldable pub curports : Args → NodeMgrItem → Result (ℕ × ℕ)
unfolding curport
curports args item = do
  storage_port ← curport item.storage_curport (storage_range args item)
  server_port ← curport item.server_curport (server_range args item)
  ok (storage_port, server_port)

-- The defaults of an item, its three ports claimed, and its directories.
unfoldable pub resolve_nodemgr :
    Args → Machines → PortMap → NodeMgrItem → ℕ → ℕ → Result (PortMap × NodeMgr)
unfolding resolve_dirs
resolve_nodemgr args machines ports item storage_port server_port = do
  let http = or_default args.defbrpc_http_port_nodemgr item.brpc_http_port
  ports1 ← add_port_to_machine ports item.ip http
  let tcp = or_default args.deftcp_port_nodemgr item.tcp_port
  ports2 ← add_port_to_machine ports1 item.ip tcp
  let prometheus = or_default args.defprometheus_port_start_nodemgr item.prometheus_port_start
  ports3 ← add_port_to_machine ports2 item.ip prometheus
  server_datadirs ←
      resolve_dirs machines item.ip "server_datadirs" "server_datadir" item.server_datadirs
  storage_datadirs ←
      resolve_dirs machines item.ip "storage_datadirs" "storage_datadir" item.storage_datadirs
  storage_logdirs ←
      resolve_dirs machines item.ip "storage_logdirs" "storage_logdir" item.storage_logdirs
  storage_waldirs ←
      resolve_dirs machines item.ip "storage_waldirs" "storage_waldir" item.storage_waldirs
  ok (
    ports3,
    record {
      ip = item.ip;
      dc = item.dc;
      nodetype = or_default "both" item.nodetype;
      valgrind = or_default false item.valgrind;
      skip = or_default false item.skip;
      total_cpu_cores = or_default 8 item.total_cpu_cores;
      total_mem = or_default 16384 item.total_mem;
      storage_portrange = storage_range args item;
      server_portrange = server_range args item;
      verbose_log = some (or_default false item.verbose_log);
      storage_curport = storage_port;
      server_curport = server_port;
      storage_usedports = [];
      server_usedports = [];
      brpc_http_port = http;
      tcp_port = tcp;
      prometheus_port_start = prometheus;
      server_datadirs = server_datadirs;
      storage_datadirs = storage_datadirs;
      storage_logdirs = storage_logdirs;
      storage_waldirs = storage_waldirs;
    },
  )
