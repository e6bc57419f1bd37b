-- ===== src/Tests/NodeMgr.antt =====
-- The node manager that is made for a host without one.
use cloudnative.Base.{true, false, arith, none, ◌==◌, ◌||◌, ◌≡◌, refl, inl, inr, [], ◌∷◌}
use cloudnative.NodeMgr.{NodeMgr, fix_nodemgr_nodetype}
use cloudnative.NodeMgr.Counters.{counter, next_ports, Increasing, next_ports-Increasing}
use cloudnative.NodeMgr.Types.{IsNodetype, serves, serves-fix_nodemgr_nodetype}

abbrev pub nodemgr : NodeMgr
nodemgr = record {
  ip = "10.0.0.1";
  dc = none;
  nodetype = "none";
  valgrind = false;
  skip = true;
  total_cpu_cores = 0;
  total_mem = 0;
  storage_portrange = "57000-58000";
  server_portrange = "47000-48000";
  verbose_log = none;
  storage_curport = 57001;
  server_curport = 47001;
  storage_usedports = [];
  server_usedports = [];
  brpc_http_port = 58002;
  tcp_port = 58003;
  prometheus_port_start = 58010;
  server_datadirs = "/kunlun/server_datadir";
  storage_datadirs = "/kunlun/storage_datadir";
  storage_logdirs = "/kunlun/storage_logdir";
  storage_waldirs = "/kunlun/storage_waldir";
}

next_ports-Increasing_example :
    Increasing (counter "storage" nodemgr) (next_ports nodemgr "storage" (2 ∷ 1 ∷ 1 ∷ []))
next_ports-Increasing_example =
    next_ports-Increasing nodemgr "storage" (2 ∷ 1 ∷ 1 ∷ [])
      (omega arith, (omega arith, (omega arith, tt)))

serves-fix_nodemgr_nodetype_example :
    (serves (fix_nodemgr_nodetype nodemgr "storage").nodetype "server"
      ≡ (serves nodemgr.nodetype "server" || ("storage" == "server")))
    × IsNodetype (fix_nodemgr_nodetype nodemgr "storage").nodetype
serves-fix_nodemgr_nodetype_example =
    serves-fix_nodemgr_nodetype nodemgr "storage" "server" (inl refl) (inl refl) (inr refl)
