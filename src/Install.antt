-- ===== src/Install.antt =====
-- cluster/setup_cluster_manager.py: what `install_with_config` does for a working node and for each
-- manager. `generate_node_env` and the setup scripts are files below clustermgr/.
pub mod Env
pub mod Managers
use cloudnative.Base.{String, List, [], ◌∷◌}
use cloudnative.Base.Format.{format}
use cloudnative.Scripts.{Work, add_to_dir_map, add_to_files_list_map, add_to_commands_list}

-- `addToDirMap`, `addNodeToFilesListMap` and `addToCommandsList`, once for each of a list.
unfoldable pub make_dirs : String → List String → Work → Work
make_dirs ip [] w = w
make_dirs ip (d ∷ ds) w = make_dirs ip ds (add_to_dir_map ip d w)

unfoldable pub ship_to : String → String → List String → Work → Work
ship_to ip target [] w = w
ship_to ip target (f ∷ fs) w = ship_to ip target fs (add_to_files_list_map ip f target w)

unfoldable pub run_in : String → String → List String → Work → Work
run_in ip targetdir [] w = w
run_in ip targetdir (c ∷ cs) w = run_in ip targetdir cs (add_to_commands_list ip targetdir c w)

-- `cmdpat % (confpath, key, value)` of the setup scripts.
abbrev pub change_config : String → String → String → String
change_config confpath key value =
    format "bash change_config.sh %s \"%s\" \"%s\"\n" (confpath ∷ key ∷ value ∷ [])
