-- ===== src/Scripts.antt =====
-- cluster/cluster_common.py and cluster/setup_cluster_manager.py: what the installation scripts
-- gather and write. A `Work` is what the functions change together: the lines of the shell script
-- (`comf`), the files written below clustermgr/, and `dirmap`, `filesmap` and `commandslist`.
-- A dictionary is walked in the order of insertion.
pub mod Jobs
pub mod Purge
pub mod Runs
pub mod Answers
use cloudnative.Base.{
  String, ◌==◌, Bool, ◌&&◌, ◌||◌, List, [], ◌∷◌, ◌++◌, Dict, lookup, insert, or_default, contains,
  string_eq, Result, ok, need, ◌>>=◌, if◌then◌else◌,
}
use cloudnative.Base.Text.{concat, show}
use cloudnative.Base.Format.{format, has_text, starts_with}
use cloudnative.Config.{Args}
use cloudnative.ListMaps.{add_to_list_map}
use cloudnative.Machines.{Machine, Machines, get_machine}

-- `socket.gethostname()` and `getpass.getuser()`, which `islocal` asks for.
pub record Host : Type 0 where
  pub hostname : String
  pub login : String

-- An item of `commandslist`.
pub record Command : Type 0 where
  pub ip : String
  pub targetdir : String
  pub command : String
  pub envtype : String

pub record Work : Type 0 where
  pub script : List String
  pub written : Dict String
  pub dirs : Dict (List String)
  pub files : Dict (List (String × String))
  pub commands : List Command

-- A function that changes the work, or raises.
abbrev pub Step : Type 0
Step = Work → Result Work

-- `comf.write(line); comf.write("\n")`
abbrev pub write_line : String → Work → Work
write_line line w = record w { script = w.script ++ (concat (line ∷ "\n" ∷ []) ∷ []) }

unfoldable pub output_info : String → Work → Work
output_info text w = record w {
  script = w.script ++ ("cat <<EOF\n" ∷ concat (text ∷ "\n" ∷ []) ∷ "EOF\n" ∷ []);
}

-- A file below clustermgr/, opened, written and closed.
unfoldable pub write_file : String → List String → Work → Work
write_file name lines w = record w { written = insert name (concat lines) w.written }

unfoldable pub add_to_dir_map : String → String → Work → Work
add_to_dir_map ip newdir w = record w { dirs = add_to_list_map w.dirs ip newdir }

-- `addNodeToFilesListMap`, with the address of the node.
unfoldable pub add_to_files_list_map : String → String → String → Work → Work
add_to_files_list_map ip fname targetdir w = record w {
  files = add_to_list_map w.files ip (fname, targetdir);
}

unfoldable pub add_to_commands_list_env : String → String → String → String → Work → Work
add_to_commands_list_env ip targetdir command envtype w = record w {
  commands =
      w.commands
      ++ (record { ip = ip; targetdir = targetdir; command = command; envtype = envtype } ∷ []);
}

-- `addToCommandsList` with its default `envtype`.
abbrev pub add_to_commands_list : String → String → String → Work → Work
add_to_commands_list ip targetdir command = add_to_commands_list_env ip targetdir command "no"

unfoldable pub islocal : Host → Args → String → String → Bool
islocal host args ip user =
    (starts_with "127" ip || contains ip (args.localip ∷ "localhost" ∷ host.hostname ∷ []))
    && (host.login == user)

-- `--tty` for a command with `sudo` in it.
abbrev ttyopt : String → String
ttyopt command = if has_text "sudo " command then "--tty" else ""

abbrev sshport_of : Machine → String
sshport_of mach = show (or_default 22 mach.sshport)

module _ (host : Host) (args : Args) (machines : Machines) where
  -- The line that copies one file.
  unfoldable pub file_line : String → String → String → Result String
  unfolding islocal
  file_line ip source target = do
    mach ← need ip (lookup ip machines)
    ok (
        if islocal host args ip mach.user
        then format "/bin/bash -xc $\"cp -f %s %s\" >& lastlog " (source ∷ target ∷ [])
        else format "bash dist.sh --sshport=%d --hosts=%s --user=%s %s %s >& lastlog "
            (sshport_of mach ∷ ip ∷ mach.user ∷ source ∷ target ∷ []))

  unfoldable pub process_file : String → String → String → Step
  unfolding file_line
  process_file ip source target w = do line ← file_line ip source target; ok (write_line line w)

  -- The line that runs one command in a directory.
  unfoldable pub noenv_line : String → String → String → Result String
  unfolding islocal
  noenv_line ip targetdir command = do
    mach ← need ip (lookup ip machines)
    ok (
        if islocal host args ip mach.user
        then format "/bin/bash -xc $\"cd %s || exit 1; %s\" >& lastlog " (targetdir ∷ command ∷ [])
        else format
            "bash remote_run.sh --sshport=%d %s --user=%s %s $\"cd %s || exit 1; %s\" >& lastlog "
            (sshport_of mach ∷ ttyopt command ∷ mach.user ∷ ip ∷ targetdir ∷ command ∷ []))

  unfoldable pub process_command_noenv : String → String → String → Step
  unfolding noenv_line
  process_command_noenv ip targetdir command w = do
    line ← noenv_line ip targetdir command
    ok (write_line line w)

  -- The line that runs one command under the environment of its kind.
  unfoldable pub setenv_line : Command → Result String
  unfolding islocal
  setenv_line cmd = do
    mach ← need cmd.ip (lookup cmd.ip machines)
    ok (
        if islocal host args cmd.ip mach.user
        then format
            "/bin/bash -c $\"cd %s || exit 1; test -f env.sh.node && source ./env.sh.node; cd %s || exit 1; envtype=%s && source %s/env.sh; %s\" >& lastlog "
            (mach.basedir ∷ cmd.targetdir ∷ cmd.envtype ∷ mach.basedir ∷ cmd.command ∷ [])
        else format
            "bash remote_run.sh --sshport=%d %s --user=%s %s $\"cd %s || exit 1; test -f env.sh.node && source ./env.sh.node; cd %s || exit 1; envtype=%s && source %s/env.sh; %s\" >& lastlog "
            (sshport_of mach
              ∷ ttyopt cmd.command
              ∷ mach.user
              ∷ cmd.ip
              ∷ mach.basedir
              ∷ cmd.targetdir
              ∷ cmd.envtype
              ∷ mach.basedir
              ∷ cmd.command
              ∷ []))

  unfoldable pub process_commandslist_setenv : List Command → Step
  unfolding setenv_line
  process_commandslist_setenv [] w = ok w
  process_commandslist_setenv (cmd ∷ cmds) w = do
    line ← setenv_line cmd
    process_commandslist_setenv cmds (write_line line w)

  unfoldable pub process_command_setenv : String → String → String → Step
  process_command_setenv ip targetdir command =
      process_commandslist_setenv
        (record { ip = ip; targetdir = targetdir; command = command; envtype = "no" } ∷ [])

  -- The command that makes one directory.
  unfoldable pub mkdir_command : String → String → Result String
  unfolding get_machine
  mkdir_command ip d =
      if args.sudo
      then (do
        mach ← get_machine machines ip
        ok (
            format "sudo mkdir -p %s && sudo chown -R %s:\\`id -gn %s\\` %s"
              (d ∷ mach.user ∷ mach.user ∷ d ∷ [])))
      else ok (format "mkdir -p %s" (d ∷ []))

  unfoldable pub process_dirs : String → List String → Step
  unfolding mkdir_command
  process_dirs ip [] w = ok w
  process_dirs ip (d ∷ dirs) w = do
    command ← mkdir_command ip d
    w1 ← process_command_noenv ip "/" command w
    process_dirs ip dirs w1

  unfoldable pub process_dirmap : Dict (List String) → Step
  unfolding process_dirs
  process_dirmap [] w = ok w
  process_dirmap ((ip, dirs) ∷ rest) w = do w1 ← process_dirs ip dirs w; process_dirmap rest w1

  unfoldable pub process_files : String → String → List (String × String) → Step
  unfolding get_machine
  process_files prefix ip [] w = ok w
  process_files prefix ip ((fname, target) ∷ pairs) w = do
    mach ← get_machine machines ip
    w1 ←
        process_file ip (format "%s/%s" (prefix ∷ fname ∷ []))
          (format "%s/%s" (mach.basedir ∷ target ∷ [])) w
    process_files prefix ip pairs w1

  unfoldable pub process_fileslistmap : String → Dict (List (String × String)) → Step
  unfolding process_files
  process_fileslistmap prefix [] w = ok w
  process_fileslistmap prefix ((ip, pairs) ∷ rest) w = do
    w1 ← process_files prefix ip pairs w
    process_fileslistmap prefix rest w1

  -- Directories, files and commands go to the script, in this order, and are forgotten.
  unfoldable pub purge_cache_commands : Step
  unfolding process_dirmap process_fileslistmap process_commandslist_setenv
  purge_cache_commands w = do
    w1 ← process_dirmap w.dirs w
    w2 ← process_fileslistmap "clustermgr" w1.files w1
    w3 ← process_commandslist_setenv w2.commands w2
    ok (record w3 { dirs = []; files = []; commands = [] })
