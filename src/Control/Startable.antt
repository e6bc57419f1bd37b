-- ===== src/Control/Startable.antt =====
-- What a unit is to say, and what install_service does for it: see generate_*_service and the wrappers
-- of a program.
use mathlib.Core.List.{Mem}
use text.Mathlib.TextLemmas.{append-nil, cons-append}
use cloudnative.Base.{
  Result, ◌>>=◌, ◌++◌, if◌then◌else◌, Option, List, arith, String, ℕ, some, [], ◌∷◌, lookup, ok,
  need, ◌≡◌, refl, sym, ap, ◌∙◌,
}
use cloudnative.Base.Text.{show, concat}
use cloudnative.Base.Format.{format}
use cloudnative.Config.{Args}
use cloudnative.Machines.{Machine, Machines, get_machine}
use cloudnative.NodeMgr.{NodeMgr}
use cloudnative.Scripts.{Work, write_file, add_to_files_list_map, add_to_commands_list_env}
use cloudnative.Programs.{storagedir, nodemgrdir, service_file, install_service}
use cloudnative.Programs.Shipped.{
  Holds, Holds-add_to_files_list_map, Holds-write_file, files_at, mem_new, lookup-write_file,
}
use cloudnative.Programs.Names.{IsScript, script-ne-unit}

-- The name of a file in the base directory.
abbrev pub here : String → String
here name = format "./%s" (name ∷ [])

-- The pattern of a name behind `./`.
pub here-cons : (name : String) → String.◌∷◌ "." (String.◌∷◌ "/" name) ≡ here name
unfolding format
here-cons name = sym (ap (λ t. String.◌∷◌ "." (String.◌∷◌ "/" t)) (append-nil name))

-- A step that is known to have returned goes on with its value.
pub known->>= {ℓ κ} :
    {A : Type ℓ} {B : Type κ} (r : Result A) (f : A → Result B) (a : A) (b : B)
    → r ≡ ok a
    → (r >>= f) ≡ ok b
    → f a ≡ ok b
known->>= r f a b e h = sym (ap (λ x. x >>= f) e) ∙ h

pub need-found : (key : String) (o : Option ℕ) (n : ℕ) → need key o ≡ ok n → o ≡ some n
need-found key o n h = ground arith

pub get_machine-found :
    (machines : Machines) (ip : String) (mach : Machine)
    → get_machine machines ip ≡ ok mach
    → lookup ip machines ≡ some mach
unfolding get_machine
get_machine-found machines ip mach h = ground arith

pub storage_unit :
    (port : String)
    → format "%s.service" (format "kunlun-storage-%d" (port ∷ []) ∷ [])
      ≡ format "kunlun-storage-%d.service" (port ∷ [])
unfolding format
storage_unit port = rw (append-nil port) (simp cons-append refl)

pub nodemgr_unit :
    (port : String)
    → format "%s.service" (format "kunlun-node-manager-%d" (port ∷ []) ∷ [])
      ≡ format "kunlun-node-manager-%d.service" (port ∷ [])
unfolding format
nodemgr_unit port = rw (append-nil port) (simp cons-append refl)

-- What systemd is to be told about a program: its user, its directory, and the commands that start and
-- stop it.
abbrev pub unit_file : String → String → String → String → String → List String
unit_file name user workdir start stop =
    format "# %s systemd service file\n\n" (name ∷ [])
    ∷ "[Unit]\n"
    ∷ format "Description=%s\n" (name ∷ [])
    ∷ "After=network.target\n\n"
    ∷ "[Install]\n"
    ∷ "WantedBy=multi-user.target\n\n"
    ∷ "[Service]\n"
    ∷ "Type=forking\n"
    ∷ format "User=%s\n" (user ∷ [])
    ∷ "Restart=on-failure\n"
    ∷ format "WorkingDirectory=%s\n" (workdir ∷ [])
    ∷ format "ExecStart=/bin/bash %s\n" (start ∷ [])
    ∷ format "ExecStop=/bin/bash %s\n" (stop ∷ [])
    ∷ []

-- What a wrapper of a storage node does: it runs a command where the programs of the node are.
abbrev pub storage_wrapper : Args → String → String → String → List String
storage_wrapper args basedir port command =
    "#! /bin/bash\n"
    ∷ format "cd %s || exit 1\n" (basedir ∷ [])
    ∷ "test -f env.sh.node && . ./env.sh.node\n"
    ∷ format "cd instance_binaries/storage/%s/%s/dba_tools || exit 1\n"
        (port ∷ storagedir args ∷ [])
    ∷ format command (port ∷ [])
    ∷ []

-- What a wrapper of a node manager does: it runs some lines where its program is.
abbrev pub nodemgr_wrapper : Args → String → List String → List String
nodemgr_wrapper args basedir commands =
    "#! /bin/bash\n"
    ∷ format "cd %s || exit 1\n" (basedir ∷ [])
    ∷ "test -f env.sh.node && . ./env.sh.node\n"
    ∷ format "cd %s/bin || exit 1\n" (nodemgrdir args ∷ [])
    ∷ commands

-- The lines that start a node manager, which may be run under valgrind.
abbrev pub start_nodemgr_lines : NodeMgr → List String
start_nodemgr_lines node =
    (if node.valgrind then "export USE_VALGRIND=1\n" ∷ [] else [])
    ++ ("bash start_node_mgr.sh\n" ∷ [])

-- A file with that text is shipped to the host under that name.
abbrev pub Carries : Work → String → String → List String → Type 0
Carries w ip target text = (fname : String) × Holds w ip fname target text

-- The unit is shipped to the host, and tells systemd, for that user and directory, to start the
-- program by `start` and to stop it by `stop`, which are shipped to the same directory and hold these
-- texts.
pub record IsStartable (w : Work) (ip name user workdir start stop : String)
    (start_text stop_text : List String) : Type 0 where
  pub fname : String
  pub text : lookup fname w.written ≡ some (concat (unit_file name user workdir start stop))
  pub shipped : Mem (fname, here (format "%s.service" (name ∷ []))) (files_at w ip)
  pub starts : Carries w ip (here start) start_text
  pub stops : Carries w ip (here stop) stop_text

module _ (args : Args) (machines : Machines) where
  pub install_service-IsStartable :
      (ip name : String) (idx : ℕ) (user workdir start stop startname stopname : String)
      (start_text stop_text : List String) (w : Work)
      → IsScript startname
      → IsScript stopname
      → Holds w ip startname (here start) start_text
      → Holds w ip stopname (here stop) stop_text
      → IsStartable
          (install_service args machines ip name idx
            (service_file args machines name user workdir start stop)
            w)
          ip
          name
          user
          workdir
          start
          stop
          start_text
          stop_text
  unfolding install_service add_to_commands_list_env add_to_files_list_map
  install_service-IsStartable ip name idx user workdir start stop startname stopname start_text
        stop_text w p q s t =
      let fname = format "%d-%s.service" (show idx ∷ name ∷ []) in
      let text = service_file args machines name user workdir start stop in
      let same : text ≡ unit_file name user workdir start stop = unfold service_file in refl in
      let w1 = write_file fname text w in
      let target = here (format "%s.service" (name ∷ [])) in
      record {
        fname = fname;
        text = lookup-write_file fname text w ∙ ap (λ lines. some (concat lines)) same;
        shipped = mem_new ip fname target w1;
        starts = (
          startname,
          Holds-add_to_files_list_map ip fname target w1 ip startname (here start) start_text (
              Holds-write_file fname text w ip startname (here start) start_text
                (script-ne-unit startname (show idx) name p) s),
        );
        stops = (
          stopname,
          Holds-add_to_files_list_map ip fname target w1 ip stopname (here stop) stop_text (
              Holds-write_file fname text w ip stopname (here stop) stop_text
                (script-ne-unit stopname (show idx) name q) t),
        );
      }
