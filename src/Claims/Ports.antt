-- ===== src/Claims/Ports.antt =====
-- `addPortToMachine` and `addDirToMachine` against the set of taken (host, value) pairs.
use cloudnative.Base.{
  String, ◌==◌, ℕ, eqb, true, false, ◌&&◌, ◌||◌, ok, err, duplicate_port, duplicate_directory, ◌≡◌,
  Bool-cases, ◌⊎◌, inl, inr, nat_eq, string_eq,
}
use cloudnative.Claims.{PortMap, DirMap, add_port_to_machine, add_dir_to_machine}
use cloudnative.Claims.Distinct.{uses, add_free, add_clash, uses-add}

-- A port that is free on a host is added, and exactly that pair becomes taken; a port that is
-- taken raises the duplicate error.
pub add_port_lem :
    (m : PortMap) (ip : String) (port : ℕ)
    → ((uses m ip port ≡ false)
        × ((m' : PortMap) × (add_port_to_machine m ip port ≡ ok m')
            × ((j : String) (q : ℕ) → uses m' j q ≡ ((ip == j && eqb port q) || uses m j q))))
      ⊎ ((uses m ip port ≡ true) × (add_port_to_machine m ip port ≡ err (duplicate_port port ip)))
unfolding add_port_to_machine
add_port_lem m ip port = elim (Bool-cases (uses m ip port)) [
  | inl taken ↦ inr (taken, add_clash duplicate_port m ip port taken)
  | inr free ↦
      let (m', added) = add_free duplicate_port m ip port free in
      inl (free, (m', added, λ j q. uses-add duplicate_port m m' ip j port q added))
]

-- A directory that is free on a host is added, and exactly that pair becomes taken; a directory
-- that is taken raises the duplicate error.
pub add_dir_lem :
    (m : DirMap) (ip dir : String)
    → ((uses m ip dir ≡ false)
        × ((m' : DirMap) × (add_dir_to_machine m ip dir ≡ ok m')
            × ((j q : String) → uses m' j q ≡ ((ip == j && dir == q) || uses m j q))))
      ⊎ ((uses m ip dir ≡ true) × (add_dir_to_machine m ip dir ≡ err (duplicate_directory dir ip)))
unfolding add_dir_to_machine
add_dir_lem m ip dir = elim (Bool-cases (uses m ip dir)) [
  | inl taken ↦ inr (taken, add_clash duplicate_directory m ip dir taken)
  | inr free ↦
      let (m', added) = add_free duplicate_directory m ip dir free in
      inl (free, (m', added, λ j q. uses-add duplicate_directory m m' ip j dir q added))
]
