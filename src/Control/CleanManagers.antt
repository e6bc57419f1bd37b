-- ===== src/Control/CleanManagers.antt =====
-- `clean_with_config`: what is removed with a node manager and with a cluster manager.
use cloudnative.Base.{String, Bool, not, List, [], ◌∷◌, ok, need, ◌>>=◌, if◌then◌else◌}
use cloudnative.Base.Text.{show, split, strip}
use cloudnative.Base.Format.{format}
use cloudnative.Config.{Args, ClusterMgrNode}
use cloudnative.Machines.{Machines, get_machine}
use cloudnative.NodeMgr.{NodeMgr}
use cloudnative.Programs.{clustermgrdir, nodemgrdir}
use cloudnative.Scripts.{
  Host, Work, Step, output_info, add_to_files_list_map, add_to_commands_list, purge_cache_commands,
}
use cloudnative.Control.{nodemgr_service, clustermgr_service, kill_exporter}

-- The same command pattern in the directory of the machine, once for each argument.
unfoldable pub run_all : String → List String → Work → Work
run_all ip [] w = w
run_all ip (command ∷ commands) w = run_all ip commands (add_to_commands_list ip "." command w)

-- `generate_systemctl_clean`
unfoldable pub generate_systemctl_clean : String → String → Work → Work
generate_systemctl_clean servname ip w =
    add_to_commands_list ip "/" (format "sudo rm -f /usr/lib/systemd/system/%s" (servname ∷ [])) (
      add_to_commands_list ip "/" (format "sudo systemctl disable %s" (servname ∷ []))
        (add_to_commands_list ip "/" (format "sudo systemctl stop %s" (servname ∷ [])) w))

-- What is removed below the base directory of a machine.
abbrev pub rm_below : String → String → String
rm_below basedir what = format "rm -fr %s/%s" (basedir ∷ what ∷ [])

-- The contents of each directory of a list of them.
clear_dirs : List String → List String
clear_dirs [] = []
clear_dirs (d ∷ ds) = format "rm -fr %s/*" (d ∷ []) ∷ clear_dirs ds

-- One of the four lists of directories of a node manager.
clear_all : String → String → Work → Work
unfolding run_all clear_dirs
clear_all ip dirs = run_all ip (clear_dirs (split b',' (strip dirs)))

abbrev when : Bool → (Work → Work) → Work → Work
when test change w = if test then change w else w

module _ (host : Host) (args : Args) (machines : Machines) where
  purge : Step
  purge = purge_cache_commands host args machines

  unfoldable pub clean_nodemgr : NodeMgr → Step
  unfolding purge run_all clear_all generate_systemctl_clean get_machine
  clean_nodemgr node w = do
    let ip = node.ip
    let w1 =
        add_to_commands_list ip (format "%s/bin" (nodemgrdir args ∷ [])) "bash stop_node_mgr.sh"
          (output_info (format "Cleaning node_mgr and its managed instances on %s ..." (ip ∷ [])) w)
    let w2 =
        add_to_files_list_map ip "clear_instance.sh" "."
          (add_to_files_list_map ip "clear_instances.sh" "." w1)
    mach ← get_machine machines ip
    let base = mach.basedir
    let w3 =
        run_all ip
          (format "bash ./clear_instances.sh %s %s >& clear.log || true"
              (base ∷ args.product_version ∷ [])
            ∷ kill_exporter "node_exporter" (show node.prometheus_port_start)
            ∷ rm_below base "instance_binaries"
            ∷ rm_below base "kunlun-node-manager*.service"
            ∷ rm_below base "setup_nodemgr*.sh"
            ∷ rm_below base "start-nodemgr*.sh"
            ∷ rm_below base "stop-nodemgr*.sh"
            ∷ rm_below base "kunlun_install*.log"
            ∷ rm_below base "kunlun-storage*.service"
            ∷ rm_below base "start-storage*.sh"
            ∷ rm_below base "stop-storage*.sh"
            ∷ rm_below base (nodemgrdir args)
            ∷ [])
          w2
    let w4 = clear_all ip node.server_datadirs w3
    let w5 = clear_all ip node.storage_datadirs w4
    let w6 = clear_all ip node.storage_logdirs w5
    let w7 = clear_all ip node.storage_waldirs w6
    let w8 = when args.setbashenv (run_all ip ("sed -i /KUNLUN_SET_ENV/d  ~/.bashrc" ∷ [])) w7
    let w9 = when args.autostart (generate_systemctl_clean (nodemgr_service node) ip) w8
    purge (when (not args.cloud) (run_all ip (rm_below base "program_binaries" ∷ [])) w9)

  clustermgr_autostart : ClusterMgrNode → Step
  clustermgr_autostart node w =
      if args.autostart
      then (do servname ← clustermgr_service node; ok (generate_systemctl_clean servname node.ip w))
      else ok w

  unfoldable pub clean_clustermgr : ClusterMgrNode → Step
  unfolding purge run_all clustermgr_autostart get_machine
  clean_clustermgr node w = do
    let ip = node.ip
    let w1 =
        add_to_commands_list ip (format "%s/bin" (clustermgrdir args ∷ []))
          "bash stop_cluster_mgr.sh"
          (output_info (format "Cleaning cluster_mgr on %s ..." (ip ∷ [])) w)
    port ← need "prometheus_port_start" node.prometheus_port_start
    mach ← get_machine machines ip
    let w2 =
        run_all ip
          (kill_exporter "prometheus" (show port)
            ∷ rm_below mach.basedir "instance_binaries"
            ∷ rm_below mach.basedir "kunlun-cluster-manager*.service"
            ∷ rm_below mach.basedir "setup_clustermgr*.sh"
            ∷ rm_below mach.basedir (clustermgrdir args)
            ∷ [])
          w1
    w3 ← clustermgr_autostart node w2
    purge (when (not args.cloud) (run_all ip (rm_below mach.basedir "program_binaries" ∷ [])) w3)
