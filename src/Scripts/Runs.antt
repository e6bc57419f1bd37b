-- ===== src/Scripts/Runs.antt =====
-- The steps of the scripts: each returns, where the hosts that it names are known.
use cloudnative.Base.{
  String, ◌==◌, true, false, Bool, Option, Option-cases, inl, inr, none, some, is_some, List, [],
  ◌∷◌, map, All, All-append, Dict, lookup, insert, Result, ok, need, ◌>>=◌, ◌≡◌, refl, sym, ap, ◌∙◌,
  subst, Returns, Returns->>=, need-Returns, if◌then◌else◌,
}
use cloudnative.Config.{Args}
use cloudnative.Machines.{Machine, Machines, get_machine}
use cloudnative.ListMaps.Members.{add_to_list_map-insert}
use cloudnative.Scripts.{
  file_line, setenv_line, Host, Work, Command, Step, output_info, add_to_files_list_map,
  add_to_commands_list_env, process_command_noenv, noenv_line, purge_cache_commands, write_line,
}
use cloudnative.Scripts.Jobs.{Job, host_of, flat, make_dir, copy_pair, run}
use cloudnative.Scripts.Purge.{HasMachine, purge_cache_commands-HasMachine}

-- The key has an entry.
abbrev pub IsKnown {ℓ} : {V : Type ℓ} → Dict V → String → Type 0
IsKnown map key = is_some (lookup key map) ≡ true

module _ (host : Host) (args : Args) (machines : Machines) where
  -- The host of everything that was gathered has a machine.
  pub record AllKnown (w : Work) : Type 0 where
    pub dirs : All (λ (e : String × List String). IsKnown machines e.0) w.dirs
    pub files : All (λ (e : String × List (String × String)). IsKnown machines e.0) w.files
    pub commands : All (λ (c : Command). IsKnown machines c.ip) w.commands

  -- A step that returns, and keeps it so.
  abbrev pub Runs : Step → Type 0
  Runs step = (w : Work) → AllKnown w → (v : Work) × (step w ≡ ok v) × AllKnown v

  pub Runs-ok :
      (f : Work → Work) → ((w : Work) → AllKnown w → AllKnown (f w)) → Runs (λ w. ok (f w))
  Runs-ok f h w k = (f w, refl, h w k)

  pub Runs->>= : (f g : Step) → Runs f → Runs g → Runs (λ w. f w >>= g)
  Runs->>= f g p q w k =
      let (v, e, k1) = p w k in
      let (u, e1, k2) = q v k1 in (u, ap (λ (r : Result Work). r >>= g) e ∙ e1, k2)

  flat-HasMachine {ℓ} :
      {A : Type ℓ} (job : String → A → Job) (m : Dict (List A))
      → ((ip : String) (a : A) → host_of (job ip a) ≡ ip)
      → All (λ (e : String × List A). IsKnown machines e.0) m
      → All (HasMachine host args machines) (flat job m)
  flat-HasMachine job [] same h = tt
  flat-HasMachine job ((ip, xs) ∷ m) same h =
      All-append (HasMachine host args machines) (map (job ip) xs) (flat job m) (each xs)
        (flat-HasMachine job m same h.1)
    where
      each : (ys : List _) → All (HasMachine host args machines) (map (job ip) ys)
      each [] = tt
      each (y ∷ ys) = (subst (IsKnown machines) (sym (same ip y)) h.0, each ys)

  pub runs-HasMachine :
      (cs : List Command)
      → All (λ (c : Command). IsKnown machines c.ip) cs
      → All (HasMachine host args machines) (map run cs)
  runs-HasMachine [] h = tt
  runs-HasMachine (c ∷ cs) h = (h.0, runs-HasMachine cs h.1)

  pub purge-Runs : Runs (purge_cache_commands host args machines)
  purge-Runs w k =
      let known =
        All-append (HasMachine host args machines) (flat make_dir w.dirs) _
          (flat-HasMachine make_dir w.dirs (λ ip d. refl) k.dirs)
          (All-append (HasMachine host args machines) (flat copy_pair w.files) (map run w.commands)
            (flat-HasMachine copy_pair w.files (λ ip f. refl) k.files)
            (runs-HasMachine w.commands k.commands)) in
      let (ls, e, n, purged) = purge_cache_commands-HasMachine host args machines w known in
      (_, purged, record { dirs = tt; files = tt; commands = tt })

  pub output_info-AllKnown : (text : String) (w : Work) → AllKnown w → AllKnown (output_info text w)
  unfolding output_info
  output_info-AllKnown text w k = record { dirs = k.dirs; files = k.files; commands = k.commands }

  pub add_to_commands_list_env-AllKnown :
      (ip dir command env : String) (w : Work)
      → IsKnown machines ip
      → AllKnown w
      → AllKnown (add_to_commands_list_env ip dir command env w)
  unfolding add_to_commands_list_env
  add_to_commands_list_env-AllKnown ip dir command env w h k = record {
    dirs = k.dirs;
    files = k.files;
    commands = All-append (λ (c : Command). IsKnown machines c.ip) w.commands _ k.commands (h, tt);
  }

  All-if {ℓ κ} :
      {A : Type ℓ} (b : Bool) (P : A → Type κ) (xs ys : List A)
      → All P xs
      → All P ys
      → All P (if b then xs else ys)
  All-if true P xs ys h k = h
  All-if false P xs ys h k = k

  All-insert {ℓ} :
      {V : Type ℓ} (key : String) (v : V) (m : Dict V)
      → IsKnown machines key
      → All (λ (e : String × V). IsKnown machines e.0) m
      → All (λ (e : String × V). IsKnown machines e.0) (insert key v m)
  unfolding insert
  All-insert key v [] h k = (h, tt)
  All-insert key v ((j, x) ∷ m) h k =
      All-if (j == key) _ _ _ (k.0, k.1) (k.0, All-insert key v m h k.1)

  pub add_to_files_list_map-AllKnown :
      (ip fname target : String) (w : Work)
      → IsKnown machines ip
      → AllKnown w
      → AllKnown (add_to_files_list_map ip fname target w)
  unfolding add_to_files_list_map
  add_to_files_list_map-AllKnown ip fname target w h k = record {
    dirs = k.dirs;
    files =
        subst (All (λ (e : String × List (String × String)). IsKnown machines e.0))
          (sym (add_to_list_map-insert w.files ip (fname, target)))
          (All-insert ip _ w.files h k.files);
    commands = k.commands;
  }

  pub noenv_line-Returns :
      (ip dir command : String)
      → IsKnown machines ip
      → Returns (noenv_line host args machines ip dir command)
  unfolding noenv_line
  noenv_line-Returns ip dir command h =
      Returns->>= (need ip (lookup ip machines)) _ (need-Returns ip (lookup ip machines) h)
        (λ m. (_, refl))

  pub process_command_noenv-Runs :
      (ip dir command : String)
      → IsKnown machines ip
      → Runs (process_command_noenv host args machines ip dir command)
  unfolding process_command_noenv
  process_command_noenv-Runs ip dir command h w k =
      let (line, e) = noenv_line-Returns ip dir command h in
      (
        write_line line w,
        ap (λ (r : Result String). r >>= λ l. ok (write_line l w)) e,
        record { dirs = k.dirs; files = k.files; commands = k.commands },
      )

  pub get_machine-known : (ip : String) → IsKnown machines ip → Returns (get_machine machines ip)
  unfolding get_machine
  get_machine-known ip h = elim (Option-cases (lookup ip machines)) [
    | inl e ↦ cc
    | inr (m, e) ↦ (m, rw (e, get_machine) refl)
  ]

  -- What is read first is there.
  pub Runs-need {ℓ} :
      {A : Type ℓ} (key : String) (o : Option A) (rest : A → Step)
      → is_some o ≡ true
      → ((a : A) → Runs (rest a))
      → Runs (λ w. need key o >>= λ a. rest a w)
  Runs-need key none rest h r w k = cc
  Runs-need key (some a) rest h r w k = r a w k

  pub Runs-get_machine :
      (ip : String) (rest : Machine → Step)
      → IsKnown machines ip
      → ((m : Machine) → Runs (rest m))
      → Runs (λ w. get_machine machines ip >>= λ m. rest m w)
  Runs-get_machine ip rest h r w k =
      let (m, e) = get_machine-known ip h in
      let (v, e1, k1) = r m w k in (v, ap (λ (x : Result Machine). x >>= λ m. rest m w) e ∙ e1, k1)

  pub Runs-if : (b : Bool) (f g : Step) → Runs f → Runs g → Runs (λ w. if b then f w else g w)
  Runs-if true f g p q = p
  Runs-if false f g p q = q

  pub file_line-Returns :
      (ip source target : String)
      → IsKnown machines ip
      → Returns (file_line host args machines ip source target)
  unfolding file_line
  file_line-Returns ip source target h =
      Returns->>= (need ip (lookup ip machines)) _ (need-Returns ip (lookup ip machines) h)
        (λ m. (_, refl))

  pub setenv_line-Returns :
      (cmd : Command) → IsKnown machines cmd.ip → Returns (setenv_line host args machines cmd)
  unfolding setenv_line
  setenv_line-Returns cmd h =
      Returns->>= (need cmd.ip (lookup cmd.ip machines)) _
        (need-Returns cmd.ip (lookup cmd.ip machines) h) (λ m. (_, refl))
