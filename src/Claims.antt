-- ===== src/Claims.antt =====
-- cluster/cluster_common.py: `addPortToMachine` and `addDirToMachine`, the maps from a host to the
-- ports and directories that are taken on it.
pub mod Distinct
pub mod Ports
use cloudnative.Base.{
  String, ℕ, Bool, true, false, Option, none, some, List, [], ◌∷◌, Dict, lookup, insert, Eq, nat_eq,
  string_eq, contains, Error, duplicate_port, duplicate_directory, Result, ok, err, ◌>>=◌,
  if◌then◌else◌, need,
}

-- A Python set is a list here. What is added goes to the front.
abbrev pub ClaimMap {ℓ} : Type ℓ → Type ℓ
ClaimMap V = Dict (List V)

module _ {ℓ} {V : Type ℓ} ⦃e : Eq V⦄ (clash : V → String → Error) where
  -- The body that the two functions share, `clash` being the exception of each.
  unfoldable pub add_to_machine : ClaimMap V → String → V → Result (ClaimMap V)
  add_to_machine taken ip v = elim (lookup ip taken) [
    | none ↦ ok (insert ip (v ∷ []) taken)
    | some set ↦ if contains v set then err (clash v ip) else ok (insert ip (v ∷ set) taken)
  ]

abbrev pub PortMap : Type 0
PortMap = ClaimMap ℕ

abbrev pub DirMap : Type 0
DirMap = ClaimMap String

unfoldable pub add_port_to_machine : PortMap → String → ℕ → Result PortMap
add_port_to_machine = add_to_machine duplicate_port

unfoldable pub add_dir_to_machine : DirMap → String → String → Result DirMap
add_dir_to_machine = add_to_machine duplicate_directory
