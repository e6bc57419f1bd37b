-- ===== src/Actions.antt =====
-- cluster/setup_cluster_manager.py: the actions of the command line but the installation. Each
-- collects the hosts, checks the configuration, and writes a script from it.
pub mod OneDc
pub mod MultiDc
use cloudnative.Base.{
  false, String, Bool, true, List, [], ◌∷◌, ◌++◌, Result, ok, ◌>>=◌, if◌then◌else◌,
}
use cloudnative.Config.{Args}
use cloudnative.Machines.{Machines}
use cloudnative.Scripts.{Host, Work, Step, output_info}
use cloudnative.Control.{Deployment}
use cloudnative.Control.Start.{start_with_config}
use cloudnative.Control.Stop.{stop_with_config}
use cloudnative.Control.Service.{service_with_config}
use cloudnative.Control.Clean.{Removal, clean_with_config}

-- The lines that every script begins with; `start.sh` stops at the first error.
script_head : Bool → Args → List String
script_head stops args =
    let traps =
      if args.verbose then "trap 'exit 1' ERR\n" else "trap 'cat lastlog; exit 1' ERR\n" in
    "#! /bin/bash\n"
    ∷ "cat /dev/null > runlog\n"
    ∷ "cat /dev/null > lastlog\n"
    ∷ (if args.verbose
        then "trap 'cat lastlog' DEBUG\n"
        else "trap 'cat lastlog >> runlog' DEBUG\n")
    ∷ (if stops then traps ∷ [] else [])

-- The script that was just opened.
opened : List String → Work
opened lines = record { script = lines; written = []; dirs = []; files = []; commands = [] }

-- What is behind `machine_func` and `validate_func`: the hosts and the validated configuration.
abbrev pub Site : Type 0
Site = Result (Machines × Deployment)

-- An action on what was validated.
abbrev Action : Type 0
Action = Host → Args → Machines → Deployment → Step

run_action : Bool → String → Action → Host → Args → Site → Result Work
unfolding script_head opened
run_action stops done action host args site = do
  (machines, d) ← site
  w ← action host args machines d (opened (script_head stops args))
  ok (output_info done w)

unfoldable pub stop_clustermgr_int : Host → Args → Site → Result Work
unfolding run_action stop_with_config
stop_clustermgr_int = run_action false "Stop action completed !" stop_with_config

unfoldable pub start_clustermgr_int : Host → Args → Site → Result Work
unfolding run_action start_with_config
start_clustermgr_int = run_action true "Start action completed !" start_with_config

unfoldable pub service_clustermgr_int : Host → Args → Site → Result Work
unfolding run_action service_with_config
service_clustermgr_int = run_action false "Service action completed !" service_with_config

unfoldable pub clean_clustermgr_int : (Removal → String) → Host → Args → Site → Result Work
unfolding run_action clean_with_config
clean_clustermgr_int dump =
    run_action false "Clean action completed !"
      (λ host args machines. clean_with_config host args machines dump)
