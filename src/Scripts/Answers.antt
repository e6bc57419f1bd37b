-- ===== src/Scripts/Answers.antt =====
-- The steps that only write lines: each returns, whatever the script holds, where the host that it
-- names is known.
use cloudnative.Base.{
  String, Bool, true, false, Result, ok, ◌>>=◌, ◌≡◌, refl, Returns, Returns->>=, subst, sym,
  if◌then◌else◌,
}
use cloudnative.Config.{Args}
use cloudnative.Machines.{Machine, Machines, get_machine}
use cloudnative.Scripts.{
  Host, Work, Step, process_file, process_command_noenv, process_command_setenv,
  process_commandslist_setenv,
}
use cloudnative.Scripts.Runs.{
  IsKnown, get_machine-known, file_line-Returns, noenv_line-Returns, setenv_line-Returns,
}

-- A step that returns on every script.
abbrev pub Answers : Step → Type 0
Answers step = (w : Work) → Returns (step w)

pub Answers->>= : (f g : Step) → Answers f → Answers g → Answers (λ w. f w >>= g)
Answers->>= f g p q w = Returns->>= (f w) g (p w) q

pub Answers-if :
    (b : Bool) (f g : Step) → Answers f → Answers g → Answers (λ w. if b then f w else g w)
Answers-if true f g p q = p
Answers-if false f g p q = q

-- A step that returned this value goes on with it.
pub Answers-eq {ℓ} :
    {A : Type ℓ} (r : Result A) (a : A) (rest : A → Step)
    → r ≡ ok a
    → Answers (rest a)
    → Answers (λ w. r >>= λ x. rest x w)
Answers-eq r a rest e h w = subst (λ x. Returns (x >>= λ y. rest y w)) (sym e) (h w)

module _ (host : Host) (args : Args) (machines : Machines) where
  pub Answers-get_machine :
      (ip : String) (rest : Machine → Step)
      → IsKnown machines ip
      → ((m : Machine) → Answers (rest m))
      → Answers (λ w. get_machine machines ip >>= λ m. rest m w)
  Answers-get_machine ip rest h r w =
      Returns->>= (get_machine machines ip) _ (get_machine-known host args machines ip h) λ m. r m w

  pub process_file-Answers :
      (ip source target : String)
      → IsKnown machines ip
      → Answers (process_file host args machines ip source target)
  unfolding process_file
  process_file-Answers ip source target h w =
      Returns->>= _ _ (file_line-Returns host args machines ip source target h) (λ l. (_, refl))

  pub process_command_noenv-Answers :
      (ip dir command : String)
      → IsKnown machines ip
      → Answers (process_command_noenv host args machines ip dir command)
  unfolding process_command_noenv
  process_command_noenv-Answers ip dir command h w =
      Returns->>= _ _ (noenv_line-Returns host args machines ip dir command h) (λ l. (_, refl))

  pub process_command_setenv-Answers :
      (ip dir command : String)
      → IsKnown machines ip
      → Answers (process_command_setenv host args machines ip dir command)
  unfolding process_command_setenv process_commandslist_setenv
  process_command_setenv-Answers ip dir command h w =
      Returns->>= _ _
        (setenv_line-Returns host args machines
          (record { ip = ip; targetdir = dir; command = command; envtype = "no" }) h)
        (λ l. (_, refl))
