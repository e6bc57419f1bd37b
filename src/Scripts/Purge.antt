-- ===== src/Scripts/Purge.antt =====
-- `purge_cache_commands`: which lines it writes, and when it raises.
use cloudnative.Base.{
  Returns, Returns-if, Returns->>=, need-Returns, inr, suc, inl, Option-cases, String, Option, none,
  some, is_some, true, List, [], ◌∷◌, ◌++◌, map, length, All, lookup, Result, ok, err, need, ◌>>=◌,
  ◌≡◌, refl, sym, ap, ◌∙◌, >>=-eq-ok, >>=-assoc,
}
use cloudnative.Config.{Args}
use cloudnative.Machines.{Machines, get_machine}
use cloudnative.Scripts.{
  Host, Work, Step, file_line, noenv_line, setenv_line, mkdir_command, process_fileslistmap,
  process_commandslist_setenv, purge_cache_commands,
}
use cloudnative.Scripts.Jobs.{
  ended, Job, make_dir, copy_file, run, host_of, flat, copy_pair, jobs, Lines, lines_of,
  append_lines, lines_of-append, job_line, process_dirmap-lines, process_fileslistmap-lines,
  process_commandslist_setenv-lines,
}

-- Nothing gathered is left.
abbrev pub cleared : Work → Work
cleared w = record w { dirs = []; files = []; commands = [] }

-- What follows the lines may use that they change the script only.
append_lines-cong :
    (lines : Lines) (w : Work) (rest other : Step)
    → ((s : List String) → rest (record w { script = s }) ≡ other (record w { script = s }))
    → (append_lines lines w >>= rest) ≡ (append_lines lines w >>= other)
append_lines-cong (err e) w rest other same = refl
append_lines-cong (ok ls) w rest other same = same (w.script ++ ls)

get_machine-Returns :
    (machines : Machines) (ip : String)
    → is_some (lookup ip machines) ≡ true
    → Returns (get_machine machines ip)
unfolding get_machine
get_machine-Returns machines ip h = elim (Option-cases (lookup ip machines)) [
  | inl e ↦ cc
  | inr (m, e) ↦ (m, rw (e, get_machine) refl)
]

finish : Step
finish v = ok (cleared v)

module _ (host : Host) (args : Args) (machines : Machines) where
  -- The three passes of `purge_cache_commands` from the end.
  commands_pass : Step
  unfolding finish
  commands_pass u = process_commandslist_setenv host args machines u.commands u >>= finish

  files_pass : Step
  unfolding commands_pass
  files_pass v = process_fileslistmap host args machines "clustermgr" v.files v >>= commands_pass

  lines : List Job → Lines
  lines = lines_of (job_line host args machines)

  -- One pass over these jobs, from the end too.
  then_finish : List Job → Step
  unfolding lines finish
  then_finish js v = append_lines (lines js) v >>= finish

  then_both : List Job → List Job → Step
  unfolding lines then_finish
  then_both js ks v = append_lines (lines js) v >>= then_finish ks

  then_both-append : (js ks : List Job) (w : Work) → then_both js ks w ≡ then_finish (js ++ ks) w
  unfolding then_both then_finish lines
  then_both-append js ks w = sym (
      ap (λ (r : Result Work). r >>= finish) (lines_of-append (job_line host args machines) js ks w)
      ∙ >>=-assoc (append_lines (lines js) w) _ _)

  commands_pass-jobs : (w : Work) → commands_pass w ≡ then_finish (map run w.commands) w
  unfolding commands_pass then_finish lines
  commands_pass-jobs w =
      ap (λ (r : Result Work). r >>= finish)
        (process_commandslist_setenv-lines host args machines w.commands w)

  files_pass-jobs :
      (w : Work) → files_pass w ≡ then_finish (flat copy_pair w.files ++ map run w.commands) w
  unfolding files_pass then_both lines
  files_pass-jobs w =
      ap (λ (r : Result Work). r >>= commands_pass)
        (process_fileslistmap-lines host args machines w.files w)
      ∙ append_lines-cong (lines (flat copy_pair w.files)) w commands_pass
          (then_finish (map run w.commands)) (λ s. commands_pass-jobs (record w { script = s }))
      ∙ then_both-append (flat copy_pair w.files) (map run w.commands) w

  purge_cache_commands-jobs :
      (w : Work) → purge_cache_commands host args machines w ≡ then_finish (jobs w) w
  unfolding purge_cache_commands files_pass commands_pass finish then_both lines
  purge_cache_commands-jobs w =
      ap (λ (r : Result Work). r >>= files_pass) (process_dirmap-lines host args machines w.dirs w)
      ∙ append_lines-cong (lines (flat make_dir w.dirs)) w files_pass
          (then_finish (flat copy_pair w.files ++ map run w.commands))
          (λ s. files_pass-jobs (record w { script = s }))
      ∙ then_both-append (flat make_dir w.dirs) (flat copy_pair w.files ++ map run w.commands) w

  -- The host of a job has an entry.
  abbrev pub HasMachine : Job → Type 0
  HasMachine j = is_some (lookup (host_of j) machines) ≡ true

  mkdir_command-Returns :
      (ip d : String)
      → is_some (lookup ip machines) ≡ true
      → Returns (mkdir_command host args machines ip d)
  unfolding mkdir_command
  mkdir_command-Returns ip d h =
      Returns-if args.sudo _ _
        (Returns->>= (get_machine machines ip) _ (get_machine-Returns machines ip h)
          (λ m. (_, refl)))
        (_, refl)

  job_line-HasMachine : (j : Job) → HasMachine j → Returns (job_line host args machines j)
  unfolding noenv_line file_line setenv_line
  job_line-HasMachine (make_dir ip d) h =
      Returns->>= (mkdir_command host args machines ip d) _ (mkdir_command-Returns ip d h) (λ c.
        Returns->>= (need ip (lookup ip machines)) _ (need-Returns ip (lookup ip machines) h)
          (λ m. (_, refl)))
  job_line-HasMachine (copy_file ip f t) h =
      Returns->>= (get_machine machines ip) _ (get_machine-Returns machines ip h) (λ c.
        Returns->>= (need ip (lookup ip machines)) _ (need-Returns ip (lookup ip machines) h)
          (λ m. (_, refl)))
  job_line-HasMachine (run cmd) h =
      Returns->>= (need cmd.ip (lookup cmd.ip machines)) _
        (need-Returns cmd.ip (lookup cmd.ip machines) h) (λ m. (_, refl))

  need-is_some {ℓ} :
      {A : Type ℓ} (key : String) (o : Option A) {a : A} → need key o ≡ ok a → is_some o ≡ true
  need-is_some key none h = cc
  need-is_some key (some a) h = refl

  HasMachine-job_line :
      (j : Job) (line : String) → job_line host args machines j ≡ ok line → HasMachine j
  unfolding noenv_line file_line setenv_line
  HasMachine-job_line (make_dir ip d) line h =
      let (c, made, h1) = >>=-eq-ok (mkdir_command host args machines ip d) _ h in
      let (m, found, h2) = >>=-eq-ok (need ip (lookup ip machines)) _ h1 in
      need-is_some ip (lookup ip machines) found
  HasMachine-job_line (copy_file ip f t) line h =
      let (c, made, h1) = >>=-eq-ok (get_machine machines ip) _ h in
      let (m, found, h2) = >>=-eq-ok (need ip (lookup ip machines)) _ h1 in
      need-is_some ip (lookup ip machines) found
  HasMachine-job_line (run cmd) line h =
      let (m, found, h2) = >>=-eq-ok (need cmd.ip (lookup cmd.ip machines)) _ h in
      need-is_some cmd.ip (lookup cmd.ip machines) found

  pub lines-HasMachine :
      (js : List Job)
      → All HasMachine js
      → (ls : List String) × (lines_of (job_line host args machines) js ≡ ok ls)
        × (length ls ≡ length js)
  lines-HasMachine [] h = ([], refl, refl)
  lines-HasMachine (j ∷ js) h =
      let (l, e) = job_line-HasMachine j h.0 in
      let (ls, es, n) = lines-HasMachine js h.1 in (ended l ∷ ls, rw e (rw es refl), ap suc n)

  pub HasMachine-lines :
      (js : List Job) (ls : List String)
      → lines_of (job_line host args machines) js ≡ ok ls
      → All HasMachine js
  HasMachine-lines [] ls h = tt
  HasMachine-lines (j ∷ js) ls h =
      let (l, e, h1) = >>=-eq-ok (job_line host args machines j) _ h in
      let (ls2, es, h2) = >>=-eq-ok (lines_of (job_line host args machines) js) _ h1 in
      (HasMachine-job_line j l e, HasMachine-lines js ls2 es)

  -- Where the host of everything that was gathered has an entry in `machines`, the purge succeeds: it
  -- writes one line for each directory, file and command, in this order, at the end of the script,
  -- and nothing that was gathered is left.
  pub purge_cache_commands-HasMachine :
      (w : Work)
      → All HasMachine (jobs w)
      → (ls : List String) × (lines_of (job_line host args machines) (jobs w) ≡ ok ls)
        × (length ls ≡ length (jobs w))
        × (purge_cache_commands host args machines w
            ≡ ok (cleared (record w { script = w.script ++ ls })))
  unfolding lines then_finish finish
  purge_cache_commands-HasMachine w h =
      let (ls, e, n) = lines-HasMachine (jobs w) h in
      (ls, e, n, purge_cache_commands-jobs w ∙ rw e refl)

  -- A purge that returns has found an entry for the host of everything that was gathered; so with a
  -- host that is not known it raises.
  pub HasMachine-purge_cache_commands :
      (w v : Work) → purge_cache_commands host args machines w ≡ ok v → All HasMachine (jobs w)
  unfolding then_finish lines
  HasMachine-purge_cache_commands w v h =
      let (u, e, h1) =
        >>=-eq-ok (append_lines (lines (jobs w)) w) finish
          (sym (purge_cache_commands-jobs w) ∙ h) in
      let (ls, es, h2) = >>=-eq-ok (lines (jobs w)) _ e in HasMachine-lines (jobs w) ls es
