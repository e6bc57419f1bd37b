-- ===== src/Machines.antt =====
-- cluster/cluster_common.py: the map of machines, `addIpToMachineMap` and `addMachineToMap`.
pub mod Entries
use cloudnative.Base.{
  String, ℕ, Bool, true, false, Option, none, some, List, [], ◌∷◌, Dict, lookup, insert, has_key,
  if◌then◌else◌, or_default, Result, ok, err, none_error, ◌>>=◌,
}
use cloudnative.Config.{Args, MachineItem}

-- An entry that `addIpToMachineMap` makes has no `sshport`.
pub record Machine : Type 0 where
  pub ip : String
  pub user : String
  pub basedir : String
  pub sshport : Option ℕ
  pub haspg : Bool

abbrev pub Machines : Type 0
Machines = Dict Machine

-- The entry that stands for a host of which only the address is known.
abbrev pub default_machine : Args → Bool → String → Machine
default_machine args haspg ip = record {
  ip = ip;
  user = args.defuser;
  basedir = args.defbase;
  sshport = none;
  haspg = haspg;
}

unfoldable pub add_ip_to_machine_map : Args → Bool → Machines → String → Machines
add_ip_to_machine_map args haspg machines ip =
    if has_key ip machines then machines else insert ip (default_machine args haspg ip) machines

unfoldable pub add_machine_to_map : Machines → String → String → String → ℕ → Bool → Machines
add_machine_to_map machines ip user basedir sshport haspg =
    if has_key ip machines
    then machines
    else insert ip
        (record { ip = ip; user = user; basedir = basedir; sshport = some sshport; haspg = haspg })
        machines

-- One round of the loop over `machines` of the configuration, the same in the three set-ups.
unfoldable pub add_machine_item : Args → Machines → MachineItem → Machines
unfolding add_machine_to_map
add_machine_item args machines item =
    add_machine_to_map machines item.ip (or_default args.defuser item.user)
      (or_default args.defbase item.basedir) (or_default 22 item.sshport) false

-- `machines.get(ip)` where the result is then subscripted.
unfoldable pub get_machine : Machines → String → Result Machine
get_machine machines ip = elim (lookup ip machines) [ none ↦ err none_error | some m ↦ ok m ]

-- `mach = machines.get(ip); mach['haspg'] = True`
unfoldable pub set_haspg : Machines → String → Result Machines
unfolding get_machine
set_haspg machines ip = do
  mach ← get_machine machines ip
  ok (insert ip (record mach { haspg = true }) machines)
