-- ===== src/Install/Env.antt =====
-- The environment of a working node, and of what runs on it.
pub mod Runs
use cloudnative.Base.{
  String, ℕ, suc, not, ◌&&◌, List, [], ◌∷◌, ok, need, contains, string_eq, ◌>>=◌, if◌then◌else◌,
}
use cloudnative.Base.Text.{show}
use cloudnative.Base.Format.{format}
use cloudnative.Config.{Args, StorageNode, CompNode}
use cloudnative.Machines.{Machine, Machines, get_machine}
use cloudnative.Packages.{Package, get_3rdpackages_filemap, pack}
use cloudnative.Programs.{storagedir, serverdir, clustermgrdir, nodemgrdir}
use cloudnative.Scripts.{
  Host, Work, Step, write_file, process_file, process_command_noenv, process_command_setenv,
  add_to_dir_map, add_to_commands_list,
}
use cloudnative.Install.{make_dirs, ship_to, run_in}

-- `clustermgr/core-site.xml`
unfoldable pub generate_hdfs_coresite_xml : String → ℕ → Work → Work
generate_hdfs_coresite_xml host port = write_file "core-site.xml" (
    "<?xml version=\"1.0\" encoding=\"UTF-8\"?>\n"
    ∷ "<?xml-stylesheet type=\"text/xsl\" href=\"configuration.xsl\"?>\n"
    ∷ "<configuration>\n"
    ∷ "<property>\n"
    ∷ "<name>fs.defaultFS</name>\n"
    ∷ format "<value>%s</value>\n" (format "hdfs://%s:%d" (host ∷ show port ∷ []) ∷ [])
    ∷ "</property>\n"
    ∷ "</configuration>\n"
    ∷ [])

module _ (args : Args) (machines : Machines) where
  -- The program goes from the binaries to the directory of the node.
  copy_program : String → Machine → String → String
  copy_program dir mach program_dir =
      format "cp -fr %s/program_binaries/%s %s" (mach.basedir ∷ dir ∷ program_dir ∷ [])

  unfoldable pub setup_meta_env : StorageNode → Step
  unfolding copy_program
  setup_meta_env node w = do
    mach ← get_machine machines node.ip
    program_dir ← need "program_dir" node.program_dir
    let w1 = add_to_dir_map node.ip (format "%s/%s" (mach.basedir ∷ program_dir ∷ [])) w
    ok (
        run_in node.ip "."
          (copy_program (storagedir args) mach program_dir
            ∷ copy_program (serverdir args) mach program_dir
            ∷ [])
          w1)

  unfoldable pub setup_storage_env : StorageNode → Step
  unfolding copy_program
  setup_storage_env node w = do
    mach ← get_machine machines node.ip
    program_dir ← need "program_dir" node.program_dir
    let w1 = add_to_dir_map node.ip (format "%s/%s" (mach.basedir ∷ program_dir ∷ [])) w
    ok (add_to_commands_list node.ip "." (copy_program (storagedir args) mach program_dir) w1)

  unfoldable pub setup_server_env : CompNode → Step
  unfolding copy_program
  setup_server_env node w = do
    mach ← get_machine machines node.ip
    program_dir ← need "program_dir" node.program_dir
    let w1 = add_to_dir_map node.ip (format "%s/%s" (mach.basedir ∷ program_dir ∷ [])) w
    ok (add_to_commands_list node.ip "." (copy_program (serverdir args) mach program_dir) w1)

  -- What every host of a manager needs, once.
  unfoldable pub setup_mgr_common : String → String → Step
  unfolding make_dirs
  setup_mgr_common ip targetdir w = do
    mach ← get_machine machines ip
    let below : String → String = λ d. format "%s/%s" (mach.basedir ∷ d ∷ [])
    let w1 =
        make_dirs ip
          (below targetdir
            ∷ format "%s/%s/util" (mach.basedir ∷ targetdir ∷ [])
            ∷ below "instance_binaries"
            ∷ below "instance_binaries/storage"
            ∷ below "instance_binaries/computer"
            ∷ [])
          w
    if args.cloud then ok w1 else (do
      fmap ← get_3rdpackages_filemap args
      prome ← pack fmap "prometheus"
      ok (
          run_in ip targetdir (format "tar -xzf %s" (prome.0 ∷ []) ∷ [])
            (ship_to ip targetdir (prome.0 ∷ []) w1)))

module _ (host : Host) (args : Args) (machines : Machines) where
  -- A package is copied to the base directory and unpacked there.
  install_package : String → Machine → Step
  install_package progname mach w = do
    w1 ←
        process_file host args machines mach.ip (format "clustermgr/%s.tgz" (progname ∷ []))
          mach.basedir w
    process_command_noenv host args machines mach.ip mach.basedir
        (format "tar -xzf %s.tgz" (progname ∷ [])) w1

  unfoldable pub install_nodemgr_env : Machine → Step
  unfolding install_package
  install_nodemgr_env = install_package (nodemgrdir args)

  unfoldable pub install_clustermgr_env : Machine → Step
  unfolding install_package
  install_clustermgr_env = install_package (clustermgrdir args)

  unfoldable pub generate_node_env : String → ℕ → Step
  unfolding get_3rdpackages_filemap pack get_machine
  generate_node_env ip idx w = do
    fmap ← get_3rdpackages_filemap args
    jdk ← pack fmap "jdk"
    hadoop ← pack fmap "hadoop"
    haproxy ← pack fmap "haproxy"
    prometheus ← pack fmap "prometheus"
    filebeat ← pack fmap "filebeat"
    es ← pack fmap "elasticsearch"
    kibana ← pack fmap "kibana"
    mysqldriver ← pack fmap "mysql-driver"
    mach ← get_machine machines ip
    let fname : String = format "%d-env.sh.node" (show idx ∷ [])
    let exported : String → String → String =
        λ name value. format "export %s=%s; #KUNLUN_SET_ENV\n" (name ∷ value ∷ [])
    let set : String → String → String =
        λ name value. format "%s=%s; #KUNLUN_SET_ENV\n" (name ∷ value ∷ [])
    let program : String → String = λ dir. format "%s/program_binaries/%s" (mach.basedir ∷ dir ∷ [])
    let marked : String → String = λ name. format "export %s; #KUNLUN_SET_ENV\n" (name ∷ [])
    let w1 =
        write_file fname
          (exported "JDK_DIR" jdk.1
            ∷ exported "HADOOP_DIR" hadoop.1
            ∷ exported "HAPROXY_DIR" haproxy.1
            ∷ exported "FILEBEAT_DIR" filebeat.1
            ∷ exported "PROMETHEUS_DIR" prometheus.1
            ∷ exported "MYSQLDRIVER_DIR" mysqldriver.1
            ∷ exported "ES_FILE" es.0
            ∷ exported "KIBANA_FILE" kibana.0
            ∷ exported "MYSQLDRIVER_FILE" mysqldriver.0
            ∷ exported "KUNLUN_VERSION" args.product_version
            ∷ set "JAVA_HOME" (program jdk.1)
            ∷ set "PATH" (format "%s/%s/bin/util:$PATH" (mach.basedir ∷ nodemgrdir args ∷ []))
            ∷ set "PATH" "$JAVA_HOME/bin:$PATH"
            ∷ set "HADOOP_HOME" (program hadoop.1)
            ∷ set "PATH" "$HADOOP_HOME/bin:$PATH"
            ∷ set "FILEBEAT_HOME" (program filebeat.1)
            ∷ set "PATH" "$FILEBEAT_HOME:$PATH"
            ∷ marked "JAVA_HOME"
            ∷ marked "HADOOP_HOME"
            ∷ marked "FILEBEAT_HOME"
            ∷ marked "PATH"
            ∷ [])
          w
    process_file host args machines ip (format "clustermgr/%s" (fname ∷ []))
        (format "%s/%s" (mach.basedir ∷ "env.sh.node" ∷ [])) w1

  -- The base directory of a working node.
  make_basedir : String → Machine → Step
  make_basedir ip mach =
      let made = format "mkdir -p %s" (mach.basedir ∷ []) in
      let owned =
        format "sudo mkdir -p %s && sudo chown -R %s:\\`id -gn %s\\` %s"
          (mach.basedir ∷ mach.user ∷ mach.user ∷ mach.basedir ∷ []) in
      process_command_noenv host args machines ip "/" (if args.sudo then owned else made)

  -- Commands in the base directory, one behind the other, and copies to it.
  run_noenv : String → String → List String → Step
  run_noenv ip dir [] w = ok w
  run_noenv ip dir (c ∷ cs) w = do
    w1 ← process_command_noenv host args machines ip dir c w
    run_noenv ip dir cs w1

  copy_to : String → String → List String → Step
  copy_to ip dir [] w = ok w
  copy_to ip dir (f ∷ fs) w = do
    w1 ← process_file host args machines ip f dir w
    copy_to ip dir fs w1

  -- What is done on a host, whose number is `idx`, with the packages that go there.
  prepare_host : List String → ℕ → String → Package → Package → Machine → Step
  unfolding make_basedir run_noenv copy_to generate_node_env
  prepare_host haproxyips idx ip driver haproxy mach w = do
    let base = mach.basedir
    w1 ← make_basedir ip mach w
    w2 ← process_file host args machines ip "clustermgr/env.sh.template" base w1
    w3 ←
        run_noenv ip base
          (format "sed -s 's#KUNLUN_BASEDIR#%s#g' env.sh.template > env.sh" (base ∷ [])
            ∷ format "sed -i 's#KUNLUN_VERSION#%s#g' env.sh" (args.product_version ∷ [])
            ∷ [])
          w2
    w4 ←
        copy_to ip base
          ("install/process_deps.sh" ∷ "install/change_config.sh"
            ∷ "install/build_driver_formysql.sh" ∷ [])
          w3
    w5 ← if args.cloud then ok w4 else (do
      v ← process_file host args machines ip (format "clustermgr/%s" (driver.0 ∷ [])) base w4
      generate_node_env ip idx v)
    w6 ←
        process_command_setenv host args machines ip base
          (format "bash ./build_driver_formysql.sh %s" (base ∷ [])) w5
    if contains ip haproxyips && not args.cloud
        then (do
          v ← process_file host args machines ip (format "clustermgr/%s" (haproxy.0 ∷ [])) base w6
          process_command_noenv host args machines ip base (format "tar -xzf %s" (haproxy.0 ∷ []))
              v)
        else ok w6

  -- One round of the loop over the working nodes.
  unfoldable pub init_worknode : List String → ℕ → String → Step
  unfolding prepare_host get_3rdpackages_filemap pack get_machine
  init_worknode haproxyips idx ip w = do
    fmap ← get_3rdpackages_filemap args
    driver ← pack fmap "mysql-driver"
    haproxy ← pack fmap "haproxy"
    mach ← get_machine machines ip
    prepare_host haproxyips idx ip driver haproxy mach w

  unfoldable pub init_worknodes : List String → ℕ → List String → Step
  unfolding init_worknode
  init_worknodes haproxyips idx [] w = ok w
  init_worknodes haproxyips idx (ip ∷ ips) w = do
    w1 ← init_worknode haproxyips idx ip w
    init_worknodes haproxyips (suc idx) ips w1
