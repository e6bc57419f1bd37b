-- ===== src/Install/Managers.antt =====
-- `setup_nodemgr_commands` and `setup_clustermgr_commands`.
use cloudnative.Base.{
  String, ℕ, Bool, Option, none, some, List, [], ◌∷◌, ◌++◌, map, Result, ok, need, ◌>>=◌,
  if◌then◌else◌,
}
use cloudnative.Base.Text.{show, split, strip}
use cloudnative.Base.Format.{format}
use cloudnative.Config.{Args, ClusterMgrNode}
use cloudnative.Machines.{Machine, Machines, get_machine}
use cloudnative.NodeMgr.{NodeMgr}
use cloudnative.Packages.{get_3rdpackages_filemap, pack}
use cloudnative.Programs.{storagedir, serverdir, clustermgrdir, nodemgrdir}
use cloudnative.Scripts.{
  Work, Step, write_file, add_to_files_list_map, add_to_commands_list, add_to_commands_list_env,
}
use cloudnative.Version.{check_version_to_minor}
use cloudnative.Install.{make_dirs, ship_to, run_in, change_config}
use cloudnative.Install.Env.{setup_mgr_common}

-- The directories of one of the four lists of a node manager.
abbrev pub dirs_of : String → List String
dirs_of text = map strip (split b',' (strip text))

module _ (args : Args) (machines : Machines) where
  abbrev pub proxysqldir : String
  proxysqldir = format "kunlun-proxysql-%s" (args.product_version ∷ [])

  targz : String → String
  targz dir = format "%s.tgz" (dir ∷ [])

  untar : String → String
  untar file = format "tar -xzf %s" (file ∷ [])

  -- The packages of the program, where they are not in the image already.
  nodemgr_packages : String → Work → Work
  unfolding ship_to run_in targz untar
  nodemgr_packages ip w =
      if args.cloud
      then w
      else (let files = targz (storagedir args) ∷ targz (serverdir args) ∷ targz proxysqldir ∷ [] in
          run_in ip "program_binaries" (map untar files) (ship_to ip "program_binaries" files w))

  -- The libraries of the program.
  nodemgr_deps : String → Machine → Work → Work
  nodemgr_deps ip mach w =
      let below : String → String → String =
        λ pattern dir. format pattern ("program_binaries" ∷ dir ∷ []) in
      let clear : String = "test -d etc && echo > etc/instances_list.txt 2>/dev/null; exit 0" in
      let deps = format "bash %s/process_deps.sh" (mach.basedir ∷ []) in
      let w1 = add_to_commands_list ip (below "%s/%s" (storagedir args)) clear w in
      let w2 = add_to_commands_list ip (below "%s/%s" (serverdir args)) clear w1 in
      let w3 = add_to_commands_list ip (below "%s/%s/lib" (storagedir args)) deps w2 in
      let w4 = add_to_commands_list ip (below "%s/%s/lib" (serverdir args)) deps w3 in
      add_to_commands_list ip (below "%s/%s/lib" proxysqldir) deps w4

  -- The driver for PostgreSQL, where a computing node runs on the host.
  nodemgr_driver : String → Machine → Work → Work
  nodemgr_driver ip mach w =
      if mach.haspg
      then (let w1 = add_to_files_list_map ip "../install/build_driver_forpg.sh" "." w in
          let w2 =
            add_to_commands_list ip "."
              (format "cp -f %s/%s/resources/psycopg2-2.8.4.tar.gz ."
                ("program_binaries" ∷ serverdir args ∷ []))
              w1 in
          add_to_commands_list_env ip "."
            (format "bash %s/build_driver_forpg.sh %s 0" (mach.basedir ∷ mach.basedir ∷ []))
            "computing" w2)
      else w

  -- The packages of other projects.
  nodemgr_others : String → Step
  unfolding ship_to run_in untar
  nodemgr_others ip w = if args.cloud then ok w else (do
    fmap ← get_3rdpackages_filemap args
    hadoop ← pack fmap "hadoop"
    jdk ← pack fmap "jdk"
    filebeat ← pack fmap "filebeat"
    let files = hadoop.0 ∷ jdk.0 ∷ filebeat.0 ∷ []
    ok (run_in ip "program_binaries" (map untar files) (ship_to ip "program_binaries" files w)))

  -- What is copied in place behind the packages.
  nodemgr_copies : String → Bool → Work → Work
  unfolding run_in
  nodemgr_copies ip has_hdfs w =
      let w1 =
        if has_hdfs
        then add_to_commands_list ip "."
            "cp -f ./core-site.xml program_binaries/\\${HADOOP_DIR}/etc/hadoop" w
        else w in
      let w2 = add_to_commands_list ip (nodemgrdir args) "chmod a+x bin/util/*" w1 in
      let w3 =
        run_in ip "."
          (format "cp -f env.sh.node %s/bin/extra.env" (nodemgrdir args ∷ [])
            ∷ format "cp -f env.sh.node program_binaries/%s/dba_tools/extra.env"
                (storagedir args ∷ [])
            ∷ [])
          w2 in
      if args.setbashenv
      then add_to_commands_list ip "." "test -f env.sh.node && cat env.sh.node >> ~/.bashrc" w3
      else w3

  -- The lines for `verbose_log`.
  verbose_lines : List String
  verbose_lines =
      let template : String → String = λ name.
        change_config (format "program_binaries/%s/dba_tools/%s" (storagedir args ∷ name ∷ []))
          "general_log" "ON" in
      template "template.cnf"
      ∷ template "template-small.cnf"
      ∷ template "template-rbr.cnf"
      ∷ template "template-rbr-small.cnf"
      ∷ change_config (format "program_binaries/%s/resources/postgresql.conf" (serverdir args ∷ []))
          "enable_sql_log" "true"
      ∷ []

  -- The script that changes the configuration of a node manager.
  nodemgr_script : NodeMgr → Machine → String → Result (List String)
  unfolding verbose_lines
  nodemgr_script node mach metaseeds = do
    let set : String → String → String =
        change_config (format "%s/conf/node_mgr.cnf" (nodemgrdir args ∷ []))
    let below : String → String = λ what. format "%s/%s" (mach.basedir ∷ what ∷ [])
    has_proxysql ← check_version_to_minor args.product_version 1 1
    verbose ← need "verbose_log" node.verbose_log
    ok (
        ("#! /bin/bash\n"
          ∷ set "meta_group_seeds" metaseeds
          ∷ set "brpc_http_port" (show node.brpc_http_port)
          ∷ set "nodemgr_tcp_port" (show node.tcp_port)
          ∷ set "local_ip" node.ip
          ∷ set "program_binaries_path" (below "program_binaries")
          ∷ set "instance_binaries_path" (below "instance_binaries")
          ∷ set "prometheus_path" (below "program_binaries/${PROMETHEUS_DIR}")
          ∷ set "storage_prog_package_name" (storagedir args)
          ∷ set "computer_prog_package_name" (serverdir args)
          ∷ [])
        ++ ((if has_proxysql then set "proxysql_prog_package_name" proxysqldir ∷ [] else [])
            ++ ((set "prometheus_port_start" (show node.prometheus_port_start) ∷ [])
                ++ (if verbose then verbose_lines else []))))

  unfoldable pub setup_nodemgr_commands : ℕ → NodeMgr → String → Bool → Step
  unfolding nodemgr_packages nodemgr_deps nodemgr_driver nodemgr_others nodemgr_copies
      nodemgr_script setup_mgr_common make_dirs ship_to get_machine
  setup_nodemgr_commands idx node metaseeds has_hdfs w = do
    let ip = node.ip
    let w1 = if has_hdfs then add_to_files_list_map ip "core-site.xml" "." w else w
    mach ← get_machine machines ip
    let w2 = nodemgr_driver ip mach (nodemgr_deps ip mach (nodemgr_packages ip w1))
    w3 ← setup_mgr_common args machines ip "program_binaries" w2
    let w4 = make_dirs ip (dirs_of node.storage_waldirs) (
        make_dirs ip (dirs_of node.storage_logdirs) (
          make_dirs ip (dirs_of node.storage_datadirs)
            (make_dirs ip (dirs_of node.server_datadirs) w3)))
    w5 ← nodemgr_others ip w4
    let w6 = nodemgr_copies ip has_hdfs w5
    lines ← nodemgr_script node mach metaseeds
    let script_name : String = format "setup_nodemgr_%d.sh" (show idx ∷ [])
    ok (
        add_to_commands_list ip "." (format "bash ./%s" (script_name ∷ [])) (
          ship_to ip "." (script_name ∷ "clear_instances.sh" ∷ "clear_instance.sh" ∷ [])
            (write_file script_name lines w6)))

  -- A line for what may be left out.
  optional_line : (String → String) → Option ℕ → List String
  optional_line line none = []
  optional_line line (some n) = line (show n) ∷ []

  unfoldable pub setup_clustermgr_commands : ℕ → ClusterMgrNode → String → String → Bool → Step
  unfolding setup_mgr_common optional_line get_machine
  setup_clustermgr_commands idx node metaseeds initmember initcommon w = do
    let ip = node.ip
    mach ← get_machine machines ip
    w1 ← if initcommon then setup_mgr_common args machines ip "program_binaries" w else ok w
    raft ← need "brpc_raft_port" node.brpc_raft_port
    http ← need "brpc_http_port" node.brpc_http_port
    let set : String → String → String =
        change_config (format "%s/conf/cluster_mgr.cnf" (clustermgrdir args ∷ []))
    let script_name : String = format "setup_clustermgr_%d.sh" (show idx ∷ [])
    let lines : List String =
        ("#! /bin/bash\n"
          ∷ set "meta_group_seeds" metaseeds
          ∷ set "brpc_raft_port" (show raft)
          ∷ set "brpc_http_port" (show http)
          ∷ set "local_ip" ip
          ∷ set "raft_group_member_init_config" initmember
          ∷ set "prometheus_path"
              (format "%s/program_binaries/${PROMETHEUS_DIR}" (mach.basedir ∷ []))
          ∷ [])
        ++ (optional_line (set "prometheus_port_start") node.prometheus_port_start
            ++ optional_line (set "brpc_raft_election_timeout_ms")
                node.brpc_raft_election_timeout_ms)
    ok (
        add_to_commands_list ip "." (format "bash ./%s" (script_name ∷ []))
          (add_to_files_list_map ip script_name "." (write_file script_name lines w1)))
