-- ===== src/Scripts/Jobs.antt =====
-- `purge_cache_commands` as one pass over everything that was gathered.
use mathlib.Core.List.{append_assoc, append-nil}
use cloudnative.Base.{
  >>=-assoc, >>=-cong, String, List, [], ◌∷◌, ◌++◌, map, Dict, Result, ok, err, ◌>>=◌, ◌≡◌, refl,
  sym, ap, ◌∙◌,
}
use cloudnative.Base.Text.{concat}
use cloudnative.Base.Format.{format}
use cloudnative.Config.{Args}
use cloudnative.Machines.{Machines, get_machine}
use cloudnative.Scripts.{
  Host, Work, Command, Step, write_line, file_line, noenv_line, setenv_line, mkdir_command,
  process_file, process_command_noenv, process_commandslist_setenv, process_dirs, process_dirmap,
  process_files, process_fileslistmap,
}

-- One thing that the script does to a host.
pub data Job : Type 0 where
  make_dir : (ip d : String) → Job
  copy_file : (ip fname target : String) → Job
  run : (cmd : Command) → Job

abbrev pub host_of : Job → String
host_of (make_dir ip d) = ip
host_of (copy_file ip fname target) = ip
host_of (run cmd) = cmd.ip

-- What a map from a host to a list holds, with the host at each item.
abbrev pub flat {ℓ} : {A : Type ℓ} → (String → A → Job) → Dict (List A) → List Job
flat job [] = []
flat job ((ip, xs) ∷ rest) = map (job ip) xs ++ flat job rest

abbrev pub copy_pair : String → String × String → Job
copy_pair ip f = copy_file ip f.0 f.1

-- All jobs of the work: directories, then files, then commands.
abbrev pub jobs : Work → List Job
jobs w = flat make_dir w.dirs ++ (flat copy_pair w.files ++ map run w.commands)

abbrev pub Lines : Type 0
Lines = Result (List String)

abbrev pub ended : String → String
ended line = concat (line ∷ "\n" ∷ [])

-- The lines for the jobs, in order; the first one that fails decides.
abbrev pub lines_of : (Job → Result String) → List Job → Lines
lines_of f [] = ok []
lines_of f (j ∷ js) = do line ← f j; lines ← lines_of f js; ok (ended line ∷ lines)

-- Lines at the end of the script.
abbrev pub append_lines : Lines → Step
append_lines lines w = do ls ← lines; ok (record w { script = w.script ++ ls })

append_lines-nil : (w : Work) → append_lines (ok []) w ≡ ok w
append_lines-nil w = ap (λ s. ok (record w { script = s })) (append-nil w.script)

-- A line in front is written before the others.
write_then_append :
    (line : Result String) (lines : Lines) (w : Work)
    → append_lines (line >>= λ l. lines >>= λ ls. ok (ended l ∷ ls)) w
      ≡ (line >>= λ l. append_lines lines (write_line l w))
write_then_append (err e) lines w = refl
write_then_append (ok l) (err e) w = refl
write_then_append (ok l) (ok ls) w =
    ap (λ s. ok (record w { script = s })) (sym (append_assoc w.script (ended l ∷ []) ls))

pub lines_of-append :
    (f : Job → Result String) (js ks : List Job) (w : Work)
    → append_lines (lines_of f (js ++ ks)) w
      ≡ (append_lines (lines_of f js) w >>= append_lines (lines_of f ks))
lines_of-append f [] ks w =
    ap (λ s. append_lines (lines_of f ks) (record w { script = s })) (sym (append-nil w.script))
lines_of-append f (j ∷ js) ks w =
    write_then_append (f j) (lines_of f (js ++ ks)) w
    ∙ >>=-cong (f j) (λ line. lines_of-append f js ks (write_line line w))
    ∙ sym (>>=-assoc (f j) (λ line. append_lines (lines_of f js) (write_line line w)) _)
    ∙ ap (λ (r : Result Work). r >>= append_lines (lines_of f ks))
        (sym (write_then_append (f j) (lines_of f js) w))

module _ (host : Host) (args : Args) (machines : Machines) where
  abbrev pub job_line : Job → Result String
  job_line (make_dir ip d) = do
    command ← mkdir_command host args machines ip d
    noenv_line host args machines ip "/" command
  job_line (copy_file ip fname target) = do
    mach ← get_machine machines ip
    file_line host args machines ip (format "%s/%s" ("clustermgr" ∷ fname ∷ []))
        (format "%s/%s" (mach.basedir ∷ target ∷ []))
  job_line (run cmd) = setenv_line host args machines cmd

  pub process_dirs-lines :
      (ip : String) (ds : List String) (w : Work)
      → process_dirs host args machines ip ds w
        ≡ append_lines (lines_of job_line (map (make_dir ip) ds)) w
  unfolding process_dirs process_command_noenv
  process_dirs-lines ip [] w = sym (append_lines-nil w)
  process_dirs-lines ip (d ∷ ds) w =
      >>=-cong (mkdir_command host args machines ip d) (λ command.
        >>=-assoc (noenv_line host args machines ip "/" command) _ _
        ∙ >>=-cong (noenv_line host args machines ip "/" command)
            (λ line. process_dirs-lines ip ds (write_line line w)))
      ∙ sym (>>=-assoc (mkdir_command host args machines ip d) _ _)
      ∙ sym (
          write_then_append (job_line (make_dir ip d)) (lines_of job_line (map (make_dir ip) ds)) w)

  pub process_dirmap-lines :
      (m : Dict (List String)) (w : Work)
      → process_dirmap host args machines m w ≡ append_lines (lines_of job_line (flat make_dir m)) w
  unfolding process_dirmap
  process_dirmap-lines [] w = sym (append_lines-nil w)
  process_dirmap-lines ((ip, ds) ∷ rest) w =
      ap (λ (r : Result Work). r >>= process_dirmap host args machines rest)
        (process_dirs-lines ip ds w)
      ∙ >>=-cong (append_lines (lines_of job_line (map (make_dir ip) ds)) w)
          (process_dirmap-lines rest)
      ∙ sym (lines_of-append job_line (map (make_dir ip) ds) (flat make_dir rest) w)

  pub process_files-lines :
      (ip : String) (fs : List (String × String)) (w : Work)
      → process_files host args machines "clustermgr" ip fs w
        ≡ append_lines (lines_of job_line (map (copy_pair ip) fs)) w
  unfolding process_files process_file
  process_files-lines ip [] w = sym (append_lines-nil w)
  process_files-lines ip ((f, t) ∷ fs) w =
      >>=-cong (get_machine machines ip) (λ mach.
        >>=-assoc (file_line host args machines ip _ _) _ _
        ∙ >>=-cong (file_line host args machines ip _ _)
            (λ line. process_files-lines ip fs (write_line line w)))
      ∙ sym (>>=-assoc (get_machine machines ip) _ _)
      ∙ sym (
          write_then_append (job_line (copy_file ip f t))
            (lines_of job_line (map (copy_pair ip) fs)) w)

  pub process_fileslistmap-lines :
      (m : Dict (List (String × String))) (w : Work)
      → process_fileslistmap host args machines "clustermgr" m w
        ≡ append_lines (lines_of job_line (flat copy_pair m)) w
  unfolding process_fileslistmap
  process_fileslistmap-lines [] w = sym (append_lines-nil w)
  process_fileslistmap-lines ((ip, fs) ∷ rest) w =
      ap (λ (r : Result Work). r >>= process_fileslistmap host args machines "clustermgr" rest)
        (process_files-lines ip fs w)
      ∙ >>=-cong (append_lines (lines_of job_line (map (copy_pair ip) fs)) w)
          (process_fileslistmap-lines rest)
      ∙ sym (lines_of-append job_line (map (copy_pair ip) fs) (flat copy_pair rest) w)

  pub process_commandslist_setenv-lines :
      (cs : List Command) (w : Work)
      → process_commandslist_setenv host args machines cs w
        ≡ append_lines (lines_of job_line (map run cs)) w
  unfolding process_commandslist_setenv
  process_commandslist_setenv-lines [] w = sym (append_lines-nil w)
  process_commandslist_setenv-lines (c ∷ cs) w =
      >>=-cong (setenv_line host args machines c)
        (λ line. process_commandslist_setenv-lines cs (write_line line w))
      ∙ sym (write_then_append (job_line (run c)) (lines_of job_line (map run cs)) w)
