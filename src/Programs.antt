-- ===== src/Programs.antt =====
-- cluster/setup_cluster_manager.py: the wrappers that start and stop a program and the files of its
-- systemd service, for computing nodes, storage nodes, cluster managers and node managers.
pub mod Shipped
pub mod Names
pub mod Wrappers
pub mod Services
use cloudnative.Base.{String, ℕ, Bool, List, [], ◌∷◌, ◌++◌, ok, need, ◌>>=◌, if◌then◌else◌}
use cloudnative.Base.Text.{show}
use cloudnative.Base.Format.{format}
use cloudnative.Config.{Args, StorageNode, CompNode, ClusterMgrNode}
use cloudnative.Machines.{Machines, get_machine}
use cloudnative.NodeMgr.{NodeMgr}
use cloudnative.Scripts.{Work, Step, write_file, add_to_files_list_map, add_to_commands_list}

-- `"<package>-%s" % args.product_version`
abbrev pub storagedir : Args → String
storagedir args = format "kunlun-storage-%s" (args.product_version ∷ [])

abbrev pub serverdir : Args → String
serverdir args = format "kunlun-server-%s" (args.product_version ∷ [])

abbrev pub clustermgrdir : Args → String
clustermgrdir args = format "kunlun-cluster-manager-%s" (args.product_version ∷ [])

abbrev pub nodemgrdir : Args → String
nodemgrdir args = format "kunlun-node-manager-%s" (args.product_version ∷ [])

-- `'%d-<name>' % (idx, port)` and the name without the index.
abbrev numbered : String → ℕ → String → String
numbered pattern idx port = format pattern (show idx ∷ port ∷ [])

-- The lines that every wrapper of a node begins with.
abbrev enter_basedir : String → List String
enter_basedir basedir =
    "#! /bin/bash\n"
    ∷ format "cd %s || exit 1\n" (basedir ∷ [])
    ∷ format "test -f %s && . ./%s\n" ("env.sh.node" ∷ "env.sh.node" ∷ [])
    ∷ []

module _ (args : Args) (machines : Machines) where
  unfoldable pub generate_server_startstop : CompNode → ℕ → Step
  generate_server_startstop node idx w = do
    number ← need "port" node.port
    let port = show number
    mach ← get_machine machines node.ip
    let startname = numbered "%d-start-server-%d.sh" idx port
    let enter =
        enter_basedir mach.basedir
        ++ (format "cd instance_binaries/computer/%s/%s/scripts || exit 1\n"
              (port ∷ serverdir args ∷ [])
            ∷ [])
    let started =
        write_file startname (enter ++ (format "python2 start_pg.py --port=%d\n" (port ∷ []) ∷ []))
          w
    let w1 =
        add_to_files_list_map node.ip startname (format "./start-server-%d.sh" (port ∷ [])) started
    let stopname = numbered "%d-stop-server-%d.sh" idx port
    let stopped =
        write_file stopname (enter ++ (format "python2 stop_pg.py --port=%d\n" (port ∷ []) ∷ [])) w1
    ok (add_to_files_list_map node.ip stopname (format "./stop-server-%d.sh" (port ∷ [])) stopped)

  unfoldable pub generate_storage_startstop : StorageNode → ℕ → Step
  generate_storage_startstop node idx w = do
    number ← need "port" node.port
    let port = show number
    mach ← get_machine machines node.ip
    let startname = numbered "%d-start-storage-%d.sh" idx port
    let enter =
        enter_basedir mach.basedir
        ++ (format "cd instance_binaries/storage/%s/%s/dba_tools || exit 1\n"
              (port ∷ storagedir args ∷ [])
            ∷ [])
    let started =
        write_file startname (enter ++ (format "bash startmysql.sh %d\n" (port ∷ []) ∷ [])) w
    let w1 =
        add_to_files_list_map node.ip startname (format "./start-storage-%d.sh" (port ∷ [])) started
    let stopname = numbered "%d-stop-storage-%d.sh" idx port
    let stopped =
        write_file stopname (enter ++ (format "bash stopmysql.sh %d\n" (port ∷ []) ∷ [])) w1
    ok (add_to_files_list_map node.ip stopname (format "./stop-storage-%d.sh" (port ∷ [])) stopped)

  -- `export USE_VALGRIND=1` where the program runs under valgrind.
  valgrind_line : Bool → List String
  valgrind_line valgrind = if valgrind then "export USE_VALGRIND=1\n" ∷ [] else []

  -- The directory is kunlun-clustermgr-manager, unlike that of the installation.
  unfoldable pub generate_clustermgr_startstop : ClusterMgrNode → ℕ → Step
  unfolding valgrind_line
  generate_clustermgr_startstop node idx w = do
    number ← need "brpc_raft_port" node.brpc_raft_port
    let port = show number
    let dir = format "kunlun-clustermgr-manager-%s" (args.product_version ∷ [])
    mach ← get_machine machines node.ip
    valgrind ← need "valgrind" node.valgrind
    let startname = numbered "%d-start-clustermgr-%d.sh" idx port
    let enter =
        "#! /bin/bash\n"
        ∷ format "cd %s || exit 1\n" (mach.basedir ∷ [])
        ∷ format "cd %s/bin || exit 1\n" (dir ∷ [])
        ∷ []
    let started =
        write_file startname
          (enter ++ (valgrind_line valgrind ++ ("bash start_cluster_mgr.sh\n" ∷ []))) w
    let w1 =
        add_to_files_list_map node.ip startname (format "./start-clustermgr-%d.sh" (port ∷ []))
          started
    let w2 = add_to_files_list_map node.ip startname "./start-clustermgr.sh" w1
    let stopname = numbered "%d-stop-clustermgr-%d.sh" idx port
    let stopped = write_file stopname (enter ++ ("bash stop_cluster_mgr.sh\n" ∷ [])) w2
    let w3 =
        add_to_files_list_map node.ip stopname (format "./stop-clustermgr-%d.sh" (port ∷ []))
          stopped
    ok (add_to_files_list_map node.ip stopname "./stop-clustermgr.sh" w3)

  unfoldable pub generate_nodemgr_startstop : NodeMgr → ℕ → Step
  unfolding valgrind_line
  generate_nodemgr_startstop node idx w = do
    let port = show node.brpc_http_port
    mach ← get_machine machines node.ip
    let startname = numbered "%d-start-nodemgr-%d.sh" idx port
    let enter =
        enter_basedir mach.basedir ++ (format "cd %s/bin || exit 1\n" (nodemgrdir args ∷ []) ∷ [])
    let started =
        write_file startname
          (enter ++ (valgrind_line node.valgrind ++ ("bash start_node_mgr.sh\n" ∷ []))) w
    let w1 =
        add_to_files_list_map node.ip startname (format "./start-nodemgr-%d.sh" (port ∷ [])) started
    let w2 = add_to_files_list_map node.ip startname "./start-nodemgr.sh" w1
    let stopname = numbered "%d-stop-nodemgr-%d.sh" idx port
    let stopped = write_file stopname (enter ++ ("bash stop_node_mgr.sh\n" ∷ [])) w2
    let w3 =
        add_to_files_list_map node.ip stopname (format "./stop-nodemgr-%d.sh" (port ∷ [])) stopped
    ok (add_to_files_list_map node.ip stopname "./stop-nodemgr.sh" w3)

  -- The file of a service, and the commands that install it; the three generators share this text.
  unfoldable pub service_file : String → String → String → String → String → List String
  service_file servname user workdir start stop =
      format "# %s systemd service file\n\n" (servname ∷ [])
      ∷ "[Unit]\n"
      ∷ format "Description=%s\n" (servname ∷ [])
      ∷ "After=network.target\n\n"
      ∷ "[Install]\n"
      ∷ "WantedBy=multi-user.target\n\n"
      ∷ "[Service]\n"
      ∷ "Type=forking\n"
      ∷ format "User=%s\n" (user ∷ [])
      ∷ "Restart=on-failure\n"
      ∷ format "WorkingDirectory=%s\n" (workdir ∷ [])
      ∷ format "ExecStart=/bin/bash %s\n" (start ∷ [])
      ∷ format "ExecStop=/bin/bash %s\n" (stop ∷ [])
      ∷ []

  unfoldable pub install_service : String → String → ℕ → List String → Work → Work
  install_service ip servname idx text w =
      let fname = format "%d-%s.service" (show idx ∷ servname ∷ []) in
      let fname_to = format "%s.service" (servname ∷ []) in
      let w1 =
        add_to_files_list_map ip fname (format "./%s" (fname_to ∷ [])) (write_file fname text w) in
      let copied =
        add_to_commands_list ip "."
          (format "sudo cp -f %s /usr/lib/systemd/system/" (fname_to ∷ [])) w1 in
      add_to_commands_list ip "." (format "sudo systemctl enable %s" (servname ∷ [])) copied

  -- The callers set `node['nodemgr']`, which is read and not used.
  unfoldable pub generate_storage_service : StorageNode → ℕ → Step
  unfolding service_file install_service
  generate_storage_service node idx w = do
    number ← need "port" node.port
    let port = show number
    mach ← get_machine machines node.ip
    let servname = format "kunlun-storage-%d" (port ∷ [])
    ok (
        install_service node.ip servname idx
          (service_file servname mach.user mach.basedir (format "start-storage-%d.sh" (port ∷ []))
            (format "stop-storage-%d.sh" (port ∷ [])))
          w)

  unfoldable pub generate_clustermgr_service : ClusterMgrNode → ℕ → Step
  unfolding service_file install_service
  generate_clustermgr_service node idx w = do
    number ← need "brpc_raft_port" node.brpc_raft_port
    let port = show number
    mach ← get_machine machines node.ip
    let servname = format "kunlun-cluster-manager-%d" (port ∷ [])
    ok (
        install_service node.ip servname idx
          (service_file servname mach.user
            (format "%s/%s/bin" (mach.basedir ∷ clustermgrdir args ∷ [])) "start_cluster_mgr.sh"
            "stop_cluster_mgr.sh")
          w)

  unfoldable pub generate_nodemgr_service : NodeMgr → ℕ → Step
  unfolding service_file install_service
  generate_nodemgr_service node idx w = do
    let port = show node.brpc_http_port
    mach ← get_machine machines node.ip
    let servname = format "kunlun-node-manager-%d" (port ∷ [])
    ok (
        install_service node.ip servname idx
          (service_file servname mach.user mach.basedir (format "start-nodemgr-%d.sh" (port ∷ []))
            (format "stop-nodemgr-%d.sh" (port ∷ [])))
          w)
