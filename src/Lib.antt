-- ===== src/Lib.antt =====
-- A model of the deployment tools of this repository, cluster/cluster_common.py before all: how a
-- JSON configuration of an installation is checked and completed before scripts are made from it.
--
-- The program has three kinds of installation, each with a function that collects the hosts and a
-- function that checks the configuration and fills it in:
--   OneKey    setup_machines1, validate_and_set_config1: one cluster, all ports given by hand
--   OneDc     setup_machines2, validate_and_set_config2: cluster managers, node managers and any
--             number of clusters in one data center
--   MultiDc   setup_machines3, validate_and_set_config3: the same in several data centers, with a
--             bootstrap, where metadata nodes are given
-- They share these parts, a file and its children for each:
--   Config    the items of the JSON configuration and the command line's arguments, as records
--   Version   check_version_to_major, check_version_to_minor, check_version_to_patch
--   Claims    addPortToMachine, addDirToMachine: which ports and directories of a host are taken
--   Machines  addIpToMachineMap, addMachineToMap: the map of hosts
--   HaMode    validate_ha_mode, and the number of nodes that goes with a mode
--   NodeMgr   get_default_nodemgr, get_nodemgr_nextport, fix_nodemgr_nodetype, addto_usedports and
--             the checks of a node manager: port counters, types, directories
--   Allocate  the loop bodies that place storage and computing nodes on node managers
--
-- What was validated becomes shell scripts, which cluster/setup_cluster_manager.py writes:
--   ListMaps  addToListMap, addToDirMap, addIpToFilesListMap: a map from a host to a list
--   Scripts   what a script gathers (directories, files, commands), and purge_cache_commands with the
--             functions of cluster/cluster_common.py that write the lines
--   Programs  generate_*_startstop and generate_*_service: the wrappers and the services of a program
--   Packages  get_3rdpackages_filemap: the packages of other projects
--   Panel     setup_xpanel, install_xpanel, start_xpanel, stop_xpanel, clean_xpanel
--   Search    the same for elasticsearch and kibana
--   MetaNodes setup_metanodes_onedc, setup_metanodes_multidc: the order in which metadata nodes are
--             installed, and who replicates from whom
--   Control   start_with_config, stop_with_config, service_with_config and clean_with_config, with the
--             functions on clusters that they call
--   Install   the loop of install_with_config over the working nodes, and the functions that it calls for
--             the environments, setup_nodemgr_commands and setup_clustermgr_commands
--   Actions   start_clustermgr_int, stop_clustermgr_int, service_clustermgr_int, clean_clustermgr_int,
--             for one and for several data centers
--   Remote    run_remote_command and start_*_node, stop_*_node, kill_storage_node with their variants
--             by index, of cluster/cluster_common.py
-- A script is the list of the texts written to it, and a file below clustermgr/ is one text. The name
-- of the host and of the user that runs the tool are a parameter (Scripts.Host), and so is the JSON
-- text of the change that clean_with_config makes to the metadata (`dump` of Control.Clean). The
-- patterns of Python are Base.Format.
--
-- Base has what stands for Python: dictionaries in the order of insertion, texts with split, strip,
-- int and str, and results. Tests has runs on small inputs.
--
-- Behind the installation, cluster/clustermgr/modify_metadata.py enters it into the metadata database:
--   Metadata  get_master_conn, process_datacenters, add_servernodes and remove_servernodes, as the list
--             of statements that are executed; what a server answers to a connection is a parameter
-- add_servernodes takes the node managers as the validation leaves them (NodeMgr.NodeMgr).
--
-- How the code is carried over. An object that the code changes in place is a record, and a function
-- that changes it returns the new one; `portmap`, `machines` and the node managers are threaded
-- through (Allocate.Site). A key that may be missing is an optional field, and a required one that is
-- missing raises `key_error`; Python's own exceptions are values too. A dictionary and the list of the
-- same objects are one dictionary; where a second map refers to the same objects, as dc_meta_map does,
-- it holds their positions or addresses. A set is a list, so only the choice among several errors of
-- one loop over a set can differ. All loops run over lists and are recursion on the list, without
-- fuel; numbers are unbounded, as in Python, and not negative, as ports and counts are, but for the
-- positions of Remote, which are integers, since a list takes negative ones from its end.
--
-- Not modelled: printing but for the command lines of Remote, reading the JSON text and writing
-- it, other types than the expected ones under a key, the order of the keys in an object, the downloads, the other SQL statements of
-- cluster/clustermgr/modify_metadata.py, and the scripts of cluster/traditional/, cluster_docker/ and
-- person/. Of cluster/setup_cluster_manager.py, the rest of install_with_config,
-- install_clusters, get_haproxy_ips (its result is an argument of Install.Env), get_xpanel_ips and
-- gen_cluster_config. A configuration of several data centers has no clusters in the model; the scripts
-- skip them there. A key that only a printing statement reads is left out.
pub mod Base
pub mod Config
pub mod Version
pub mod ListMaps
pub mod Claims
pub mod Machines
pub mod HaMode
pub mod NodeMgr
pub mod Allocate
pub mod OneKey
pub mod OneDc
pub mod MultiDc
pub mod Scripts
pub mod Panel
pub mod Search
pub mod MetaNodes
pub mod Programs
pub mod Control
pub mod Packages
pub mod Install
pub mod Actions
pub mod Remote
pub mod Metadata
pub mod Tests
