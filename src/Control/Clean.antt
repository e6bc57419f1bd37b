-- ===== src/Control/Clean.antt =====
-- `clean_with_config`. The JSON text of the change to the metadata is a parameter.
use cloudnative.Base.{
  String, Bool, false, Option, none, some, is_some, List, [], ◌∷◌, Result, ok, err, need,
  none_error, lookup, ◌>>=◌, if◌then◌else◌,
}
use cloudnative.Base.Text.{show}
use cloudnative.Base.Format.{format}
use cloudnative.Config.{Args, StorageNode}
use cloudnative.Machines.{Machines, Machine, get_machine}
use cloudnative.NodeMgr.{NodeMgrs}
use cloudnative.Panel.{each_node, clean_xpanel}
use cloudnative.Search.{clean_elasticsearch}
use cloudnative.Programs.{storagedir}
use cloudnative.OneDc.{Cluster}
use cloudnative.Scripts.{
  Host, Work, Step, output_info, write_file, add_to_files_list_map, add_to_commands_list_env,
  purge_cache_commands,
}
use cloudnative.Control.{Deployment, fresh, is_skipped, each_nodemgr, storage_service}
use cloudnative.Control.Clusters.{clean_clusters}
use cloudnative.Control.CleanManagers.{
  run_all, rm_below, generate_systemctl_clean, clean_nodemgr, clean_clustermgr,
}

-- What `metadata.json` says for a removal: the node managers, and the clusters if some were cleaned.
pub record Removal : Type 0 where
  pub nodes : NodeMgrs
  pub clusters : Option (List String)

module _ (host : Host) (args : Args) (machines : Machines) (dump : Removal → String) where
  purge : Step
  purge = purge_cache_commands host args machines

  clean_all_clusters : NodeMgrs → List Cluster → Work → Result (Option (List String) × Work)
  unfolding purge clean_clusters
  clean_all_clusters nodemgrs [] w = ok (none, w)
  clean_all_clusters nodemgrs (c ∷ cs) w = do
    (names, w1) ←
        clean_clusters host args machines nodemgrs (c ∷ cs)
          (output_info "Cleaning all clusters specified in the configuration file ..." w)
    w2 ← purge w1
    ok (names, w2)

  -- The first metadata node, node manager or cluster manager.
  worknode : Deployment → Option String
  worknode d = elim d.meta.nodes [
    | node ∷ nodes ↦ some node.ip
    | [] ↦ elim d.node_manager [
      | entry ∷ entries ↦ some entry.1.ip
      | [] ↦ elim d.cluster_manager [ node ∷ nodes ↦ some node.ip | [] ↦ none ]
    ]
  ]

  -- The metadata are told of the removal where they stay, that is, where only their seeds are given.
  is_removal : Deployment → Bool
  is_removal d = elim d.node_manager [
    | [] ↦ false
    | n ∷ ns ↦ elim d.meta.nodes [ [] ↦ is_some d.meta.group_seeds | m ∷ ms ↦ false ]
  ]

  some_names : Option (List String) → Option (List String)
  some_names none = none
  some_names (some []) = none
  some_names (some (n ∷ ns)) = some (n ∷ ns)

  remove_metadata : Deployment → String → Option (List String) → String → Step
  unfolding some_names get_machine
  remove_metadata d metaseeds names ip w = do
    let removal : Removal = record { nodes = d.node_manager; clusters = some_names names }
    let w1 = write_file "metadata.json" (dump removal ∷ []) w
    let w2 =
        add_to_files_list_map ip "metadata.json" "."
          (add_to_files_list_map ip "modify_metadata.py" "." w1)
    mach ← get_machine machines ip
    ok (
        add_to_commands_list_env ip mach.basedir
          (format "python2 modify_metadata.py --config %s --seeds=%s"
            ("metadata.json" ∷ metaseeds ∷ []))
          "storage" w2)

  update_metadata : Deployment → String → Option (List String) → Step
  unfolding purge remove_metadata worknode is_removal
  update_metadata d metaseeds names w = elim (worknode d) [
    | none ↦ ok w
    | some ip ↦ do
      w1 ← if is_removal d then remove_metadata d metaseeds names ip w else ok w
      purge w1
  ]

  meta_autostart : StorageNode → Step
  meta_autostart node w =
      if args.autostart
      then (do servname ← storage_service node; ok (generate_systemctl_clean servname node.ip w))
      else ok w

  abbrev sudopfx : String
  sudopfx = if args.sudo then "sudo " else ""

  rm_path : String → String
  rm_path path = format "%srm -fr %s" (sudopfx ∷ path ∷ [])

  -- A metadata node that no node manager cares for. `mach` is the variable of the function, the
  -- machine of the first metadata node.
  remove_meta : Option Machine → StorageNode → Step
  unfolding run_all rm_path
  remove_meta mach node w = do
    program_dir ← need "program_dir" node.program_dir
    port ← need "port" node.port
    log_dir ← need "log_dir_path" node.log_dir_path
    data_dir ← need "data_dir_path" node.data_dir_path
    wal_dir ← need "innodb_log_dir_path" node.innodb_log_dir_path
    m ← elim mach [ none ↦ err none_error | some m ↦ ok m ]
    let w1 =
        add_to_commands_list_env node.ip
          (format "%s/%s/dba_tools" (program_dir ∷ storagedir args ∷ []))
          (format "bash stopmysql.sh %d" (show port ∷ [])) "storage"
          (output_info (format "Cleaning meta node on %s ..." (node.ip ∷ [])) w)
    ok (
        run_all node.ip
          (rm_path log_dir
            ∷ rm_path data_dir
            ∷ rm_path wal_dir
            ∷ rm_path program_dir
            ∷ rm_below m.basedir "kunlun-storage*.service"
            ∷ rm_below m.basedir "start-storage*.sh"
            ∷ rm_below m.basedir "stop-storage*.sh"
            ∷ [])
          w1)

  clean_meta : NodeMgrs → Option Machine → StorageNode → Step
  unfolding purge meta_autostart remove_meta is_skipped
  clean_meta nodemgrs mach node w = do
    w1 ← meta_autostart node w
    skip ← is_skipped nodemgrs node.ip
    w2 ← if skip then remove_meta mach node w1 else ok w1
    purge w2

  unfoldable pub clean_with_config : Deployment → Step
  unfolding clean_nodemgr clean_all_clusters clean_clustermgr update_metadata clean_meta each_node
      each_nodemgr clean_elasticsearch clean_xpanel worknode
  clean_with_config d w = do
    metaseeds ← need "group_seeds" d.meta.group_seeds
    w1 ← each_nodemgr (clean_nodemgr host args machines) d.node_manager (fresh w)
    (names, w2) ← clean_all_clusters d.node_manager d.clusters w1
    w3 ← clean_elasticsearch host args machines d.elasticsearch w2
    w4 ← each_node (clean_clustermgr host args machines) d.cluster_manager w3
    w5 ← update_metadata d metaseeds names w4
    let mach : Option Machine = elim (worknode d) [ none ↦ none | some ip ↦ lookup ip machines ]
    w6 ← each_node (clean_meta d.node_manager mach) d.meta.nodes w5
    clean_xpanel host args machines d.xpanel w6
