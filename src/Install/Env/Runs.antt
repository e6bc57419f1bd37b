-- ===== src/Install/Env/Runs.antt =====
-- The loop over the working nodes returns where their hosts are known and the packages are.
use cloudnative.Base.{
  eq_iff, Dict, String, ◌==◌, ℕ, suc, true, not, ◌&&◌, List, [], ◌∷◌, All, lookup, insert, contains,
  string_eq, ok, ◌>>=◌, ◌≡◌, refl,
}
use cloudnative.Config.{Args}
use cloudnative.Machines.{Machine, Machines, get_machine}
use cloudnative.Packages.{
  Package, update, pack, get_common_3rd_packages_filemap, get_x86_64_3rdpackages_filemap,
  get_arch_3rdpackages_filemap, get_3rdpackages_filemap,
}
use cloudnative.Scripts.{Host, Work, Step, process_file, process_command_noenv}
use cloudnative.Scripts.Runs.{IsKnown}
use cloudnative.Scripts.Answers.{
  Answers, Answers->>=, Answers-if, Answers-eq, Answers-get_machine, process_file-Answers,
  process_command_noenv-Answers, process_command_setenv-Answers,
}
use cloudnative.Base.Format.{format}
use cloudnative.Install.Env.{
  prepare_host, make_basedir, run_noenv, copy_to, generate_node_env, init_worknode, init_worknodes,
}

-- All packages of the one architecture that is supported.
packages : Dict Package
packages = update get_common_3rd_packages_filemap get_x86_64_3rdpackages_filemap

get_3rdpackages_filemap-x86_64 :
    (args : Args)
    → (args.targetarch == "x86_64") ≡ true
    → get_3rdpackages_filemap args ≡ ok packages
unfolding get_3rdpackages_filemap get_arch_3rdpackages_filemap packages
get_3rdpackages_filemap-x86_64 args h = rw h refl

module _ (host : Host) (args : Args) (machines : Machines) where
  run_noenv-Answers :
      (ip dir : String) (cs : List String)
      → IsKnown machines ip
      → Answers (run_noenv host args machines ip dir cs)
  unfolding run_noenv
  run_noenv-Answers ip dir [] h w = (w, refl)
  run_noenv-Answers ip dir (c ∷ cs) h w =
      Answers->>= _ _ (process_command_noenv-Answers host args machines ip dir c h)
        (run_noenv-Answers ip dir cs h) w

  copy_to-Answers :
      (ip dir : String) (fs : List String)
      → IsKnown machines ip
      → Answers (copy_to host args machines ip dir fs)
  unfolding copy_to
  copy_to-Answers ip dir [] h w = (w, refl)
  copy_to-Answers ip dir (f ∷ fs) h w =
      Answers->>= _ _ (process_file-Answers host args machines ip f dir h)
        (copy_to-Answers ip dir fs h) w

  with_packages :
      (rest : Dict Package → Step)
      → (args.targetarch == "x86_64") ≡ true
      → Answers (rest packages)
      → Answers (λ w. get_3rdpackages_filemap args >>= λ fmap. rest fmap w)
  with_packages rest arch h =
      Answers-eq _ packages rest (get_3rdpackages_filemap-x86_64 args arch) h

  generate_node_env-Answers :
      (ip : String) (idx : ℕ)
      → (args.targetarch == "x86_64") ≡ true
      → IsKnown machines ip
      → Answers (generate_node_env host args machines ip idx)
  unfolding generate_node_env pack packages update get_common_3rd_packages_filemap
      get_x86_64_3rdpackages_filemap lookup insert
  generate_node_env-Answers ip idx arch h = with_packages _ arch (
      Answers-get_machine host args machines ip _ h
        (λ mach w. process_file-Answers host args machines ip _ _ h _))

  prepare_host-Answers :
      (haproxyips : List String) (idx : ℕ) (ip : String) (driver haproxy : Package) (mach : Machine)
      → (args.targetarch == "x86_64") ≡ true
      → IsKnown machines ip
      → Answers (prepare_host host args machines haproxyips idx ip driver haproxy mach)
  unfolding prepare_host make_basedir
  prepare_host-Answers haproxyips idx ip driver haproxy mach arch h =
      let file : (source target : String)
          → Answers (process_file host args machines ip source target) =
        λ source target. process_file-Answers host args machines ip source target h in
      let noenv : (dir c : String) → Answers (process_command_noenv host args machines ip dir c) =
        λ dir c. process_command_noenv-Answers host args machines ip dir c h in
      let base = mach.basedir in
      let edits : List String =
        format "sed -s 's#KUNLUN_BASEDIR#%s#g' env.sh.template > env.sh" (base ∷ [])
        ∷ format "sed -i 's#KUNLUN_VERSION#%s#g' env.sh" (args.product_version ∷ [])
        ∷ [] in
      let helpers : List String =
        "install/process_deps.sh" ∷ "install/change_config.sh" ∷ "install/build_driver_formysql.sh"
        ∷ [] in
      let unpack : String = format "tar -xzf %s" (haproxy.0 ∷ []) in
      let build : String = format "bash ./build_driver_formysql.sh %s" (base ∷ []) in
      let shipped : Package → String = λ p. format "clustermgr/%s" (p.0 ∷ []) in
      let proxy =
        Answers-if (contains ip haproxyips && not args.cloud) _ ok
          (Answers->>= _ _ (file (shipped haproxy) base) (noenv base unpack)) (λ w. (w, refl)) in
      let env =
        Answers-if args.cloud ok _ (λ w. (w, refl))
          (Answers->>= _ _ (file (shipped driver) base)
            (generate_node_env-Answers ip idx arch h)) in
      Answers->>= _ _ (noenv "/" _) (
        Answers->>= _ _ (file "clustermgr/env.sh.template" base) (
          Answers->>= _ _ (run_noenv-Answers ip base edits h) (
            Answers->>= _ _ (copy_to-Answers ip base helpers h) (
              Answers->>= _ _ env (
                Answers->>= _ _ (process_command_setenv-Answers host args machines ip base build h)
                  proxy)))))

  init_worknode-Answers :
      (haproxyips : List String) (idx : ℕ) (ip : String)
      → (args.targetarch == "x86_64") ≡ true
      → IsKnown machines ip
      → Answers (init_worknode host args machines haproxyips idx ip)
  unfolding init_worknode pack packages update get_common_3rd_packages_filemap
      get_x86_64_3rdpackages_filemap lookup insert
  init_worknode-Answers haproxyips idx ip arch h =
      let file : (source target : String)
          → Answers (process_file host args machines ip source target) =
        λ source target. process_file-Answers host args machines ip source target h in
      let noenv : (dir c : String) → Answers (process_command_noenv host args machines ip dir c) =
        λ dir c. process_command_noenv-Answers host args machines ip dir c h in
      let driver : Package =
        ("mysql-connector-python-2.1.3.tar.gz", "mysql-connector-python-2.1.3") in
      let haproxy : Package = ("haproxy-2.5.0-bin.tar.gz", "haproxy-2.5.0-bin") in
      let last : Package → Package → Step = λ x y w. get_machine machines ip >>= λ mach.
      prepare_host host args machines haproxyips idx ip x y mach w in
      let second : Package → Step = λ x w. pack packages "haproxy" >>= λ y. last x y w in
      with_packages _ arch (
        Answers-eq (pack packages "mysql-driver") driver second refl (
          Answers-eq (pack packages "haproxy") haproxy (last driver) refl (
            Answers-get_machine host args machines ip _ h
              (λ mach. prepare_host-Answers haproxyips idx ip driver haproxy mach arch h))))

  init_worknodes-Answers :
      (haproxyips : List String) (idx : ℕ) (ips : List String)
      → (args.targetarch == "x86_64") ≡ true
      → All (IsKnown machines) ips
      → Answers (init_worknodes host args machines haproxyips idx ips)
  unfolding init_worknodes
  init_worknodes-Answers haproxyips idx [] arch h w = (w, refl)
  init_worknodes-Answers haproxyips idx (ip ∷ ips) arch h w =
      Answers->>= _ _ (init_worknode-Answers haproxyips idx ip arch h.0)
        (init_worknodes-Answers haproxyips (suc idx) ips arch h.1) w

  -- Where the architecture is the one that is supported and the working nodes have machines, the loop
  -- of install_with_config over them returns, whatever the script holds before and whoever is to have
  -- haproxy.
  pub init_worknodes-IsKnown :
      (haproxyips : List String) (idx : ℕ) (ips : List String) (w : Work)
      → args.targetarch ≡ "x86_64"
      → All (IsKnown machines) ips
      → (v : Work) × (init_worknodes host args machines haproxyips idx ips w ≡ ok v)
  init_worknodes-IsKnown haproxyips idx ips w arch h =
      init_worknodes-Answers haproxyips idx ips ((eq_iff args.targetarch "x86_64").1 arch) h w
