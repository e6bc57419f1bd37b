-- ===== src/Remote/Bounds.antt =====
-- `start_storage_node_usingidx`: which positions it takes, and what it runs.
use cloudnative.Base.{
  false, true, ℤ, pos, negsuc, ltb, ◌+◌, ◌-◌, Bool-cases, Option, String, ℕ, zero, suc, ◌≤◌, ◌<◌,
  Bool, is_some, none, some, List, [], ◌∷◌, ◌++◌, length, All, get_elem?, lookup, Result, ok, err,
  index_error, need, ◌>>=◌, ◌≡◌, refl, ap, ◌∙◌, arith, ◌⊎◌, inl, inr, Option-cases, if◌then◌else◌,
}
use cloudnative.Base.Text.{show}
use cloudnative.Base.Format.{format}
use cloudnative.Config.{StorageNode}
use cloudnative.Machines.{Machine, Machines, get_machine}
use cloudnative.Remote.{
  element_at, Console, remote_line, run_command_verbose, run_remote_command, storage_command,
  start_storage_node, using_index, start_storage_node_usingidx,
}

-- A node with a port, on a host with a machine.
abbrev pub IsReachable : Machines → StorageNode → Type 0
IsReachable machines n = (is_some n.port ≡ true) × (is_some (lookup n.ip machines) ≡ true)

-- `i` is the place in a list of that length that the position stands for.
abbrev pub IsPosition : ℕ → ℤ → ℕ → Type 0
IsPosition len (pos p) i = (i ≡ p) × (i < len)
IsPosition len (negsuc k) i = i + suc k ≡ len

-- The position is not below the length, or is below minus the length.
abbrev pub IsOutside : ℕ → ℤ → Type 0
IsOutside len (pos p) = len ≤ p
IsOutside len (negsuc k) = len < suc k

module _ (machines : Machines) (progdir : String) where
  -- One command line was printed, and executed unless it is a dry run.
  pub record RunsOne (n : StorageNode) (dryrun : Bool) (c d : Console) : Type 0 where
    pub port : ℕ
    pub given : n.port ≡ some port
    pub mach : Machine
    pub found : lookup n.ip machines ≡ some mach
    pub line : String
    pub named :
        line
        ≡ remote_line mach n.ip progdir "dba_tools"
            (format "bash startmysql.sh %s" (show port ∷ []))
    pub printed : d.printed ≡ c.printed ++ (line ∷ [])
    pub executed : d.executed ≡ (if dryrun then c.executed else c.executed ++ (line ∷ []))

  -- What is read is there.
  need-some :
      (key : String) (o : Option ℕ)
      → is_some o ≡ true
      → (a : ℕ) × (o ≡ some a) × (need key o ≡ ok a)
  need-some key none h = cc
  need-some key (some a) h = (a, refl, refl)

  machine-some :
      (ip : String)
      → is_some (lookup ip machines) ≡ true
      → (m : Machine) × (lookup ip machines ≡ some m) × (get_machine machines ip ≡ ok m)
  unfolding get_machine
  machine-some ip h = elim (Option-cases (lookup ip machines)) [
    | inl e ↦ cc
    | inr (m, e) ↦ (m, e, rw (e, get_machine) refl)
  ]

  start_storage_node-RunsOne :
      (n : StorageNode) (dryrun : Bool) (c : Console)
      → IsReachable machines n
      → (d : Console) × (start_storage_node machines progdir n dryrun c ≡ ok d)
        × RunsOne n dryrun c d
  unfolding start_storage_node storage_command run_remote_command run_command_verbose
  start_storage_node-RunsOne n dryrun c h =
      let (port, given, e) = need-some "port" n.port h.0 in
      let (mach, found, e1) = machine-some n.ip h.1 in
      let command : String = format "bash startmysql.sh %s" (show port ∷ []) in
      let line : String = remote_line mach n.ip progdir "dba_tools" command in
      let d : Console = run_command_verbose line dryrun c in
      (
        d,
        ap
              (λ (r : Result ℕ). r >>= λ p.
                run_remote_command machines progdir n.ip "dba_tools"
                  (format "bash startmysql.sh %s" (show p ∷ [])) dryrun c)
              e
            ∙ ap
                (λ (r : Result Machine). r >>= λ m.
                  ok
                    (run_command_verbose (remote_line m n.ip progdir "dba_tools" command) dryrun c))
                e1,
        record {
          port = port;
          given = given;
          mach = mach;
          found = found;
          line = line;
          named = refl;
          printed = refl;
          executed = refl;
        },
      )

  -- A position below the number of nodes has a node, and no other one.
  position :
      (nodes : List StorageNode) (i : ℕ)
      → All (IsReachable machines) nodes
      → ((i < length nodes)
          × (n : StorageNode) × (get_elem? nodes i ≡ some n)
          × IsReachable machines n)
        ⊎ ((length nodes ≤ i) × (get_elem? nodes i ≡ none))
  position [] i h = inr (omega arith, refl)
  position (n ∷ ns) zero h = inl (omega arith, n, refl, h.0)
  position (n ∷ ns) (suc i) h = elim (position ns i h.1) [
    | inl (l, m, e, r) ↦ inl (omega arith, m, e, r)
    | inr (l, e) ↦ inr (omega arith, e)
  ]

  ltb-true : (a b : ℕ) → ltb a b ≡ true → a < b
  ltb-true a b h = ground arith

  ltb-false : (a b : ℕ) → ltb a b ≡ false → b ≤ a
  ltb-false a b h = ground arith

  element_at-cases :
      (nodes : List StorageNode) (idx : ℤ)
      → All (IsReachable machines) nodes
      → ((i : ℕ) × IsPosition (length nodes) idx i
          × (n : StorageNode) × (get_elem? nodes i ≡ some n)
          × (element_at nodes idx ≡ some n)
          × IsReachable machines n)
        ⊎ (IsOutside (length nodes) idx × (element_at nodes idx ≡ none))
  unfolding element_at
  element_at-cases nodes (pos i) h = elim (position nodes i h) [
    | inl (l, n, e, r) ↦ inl (i, (refl, l), n, e, e, r)
    | inr (l, e) ↦ inr (l, e)
  ]
  element_at-cases nodes (negsuc k) h = elim (Bool-cases (ltb k (length nodes))) [
    | inl b ↦ elim (position nodes (length nodes - suc k) h) [
      | inl (l, n, e, r) ↦
          inl (length nodes - suc k, omega (arith, ltb-true k (length nodes) b), n, e, rw b e, r)
      | inr (l, e) ↦ absurd (omega (arith, ltb-true k (length nodes) b, l))
    ]
    | inr b ↦ inr (omega (arith, ltb-false k (length nodes) b), rw b refl)
  ]

  -- Where every node of the group has a port and a host with a machine, start_storage_node_usingidx
  -- takes exactly the positions from minus the number of nodes up to, but not including, that number:
  -- at one of them it prints one command line, which starts the node at that position, counted from
  -- the end of the list if it is negative, and executes it unless it is a dry run; at any other it
  -- raises IndexError.
  pub start_storage_node_usingidx-Bounds :
      (nodes : List StorageNode) (idx : ℤ) (dryrun : Bool) (c : Console)
      → All (IsReachable machines) nodes
      → ((i : ℕ) × IsPosition (length nodes) idx i
          × (n : StorageNode) × (d : Console) × (get_elem? nodes i ≡ some n)
          × (start_storage_node_usingidx machines progdir nodes idx dryrun c ≡ ok d)
          × RunsOne n dryrun c d)
        ⊎ (IsOutside (length nodes) idx
            × (start_storage_node_usingidx machines progdir nodes idx dryrun c ≡ err index_error))
  unfolding start_storage_node_usingidx using_index
  start_storage_node_usingidx-Bounds nodes idx dryrun c h = elim (element_at-cases nodes idx h) [
    | inl (i, is, n, at, found, reachable) ↦
        let (d, ran, one) = start_storage_node-RunsOne n dryrun c reachable in
        inl (i, is, n, d, at, rw (found, using_index) ran, one)
    | inr (l, found) ↦ inr (l, rw (found, using_index) refl)
  ]
