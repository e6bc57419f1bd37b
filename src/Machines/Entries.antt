-- ===== src/Machines/Entries.antt =====
-- What a series of additions leaves in the map: under each address the first entry given for it.
use cloudnative.Base.{
  true, String, ◌==◌, eq_iff, Bool, false, Option, none, some, List, [], ◌∷◌, ◌++◌, lookup, insert,
  has_key, lookup-insert, if◌then◌else◌, or_default, ◌≡◌, refl, arith, Option-cases, inl, inr,
  insert, ok,
}
use cloudnative.Config.{Args, MachineItem}
use cloudnative.Machines.{
  get_machine, set_haspg, Machine, Machines, default_machine, add_ip_to_machine_map,
  add_machine_item,
}

-- An address in the configuration, with the entry that is made for it.
abbrev pub Mention : Type 0
Mention = String × Machine

abbrev pub or_else {ℓ} : {A : Type ℓ} → Option A → Option A → Option A
or_else none o = o
or_else (some a) o = some a

pub add_mention : Machines → Mention → Machines
add_mention machines (ip, m) = if has_key ip machines then machines else insert ip m machines

unfoldable pub add_mentions : Machines → List Mention → Machines
add_mentions machines [] = machines
add_mentions machines (m ∷ ms) = add_mentions (add_mention machines m) ms

lookup-add_mention :
    (d : Machines) (m : Mention) (ip : String)
    → lookup ip (add_mention d m) ≡ or_else (lookup ip d) (if m.0 == ip then some m.1 else none)
unfolding add_mention
lookup-add_mention d m ip = ground (arith, lookup-insert m.0 ip m.1 d, eq_iff m.0 ip)

pub lookup-add_mentions :
    (d : Machines) (ms : List Mention) (ip : String)
    → lookup ip (add_mentions d ms) ≡ or_else (lookup ip d) (lookup ip ms)
unfolding add_mentions lookup
lookup-add_mentions d [] ip = ground arith
lookup-add_mentions d (m ∷ ms) ip =
    ground (arith, lookup-add_mentions (add_mention d m) ms ip, lookup-add_mention d m ip)

pub add_mentions-append :
    (d : Machines) (ms ns : List Mention)
    → add_mentions d (ms ++ ns) ≡ add_mentions (add_mentions d ms) ns
unfolding add_mentions
add_mentions-append d [] ns = refl
add_mentions-append d (m ∷ ms) ns = add_mentions-append (add_mention d m) ms ns

-- The entry that an item of `machines` gives.
abbrev pub item_mention : Args → MachineItem → Mention
item_mention args item = (
  item.ip,
  record {
    ip = item.ip;
    user = or_default args.defuser item.user;
    basedir = or_default args.defbase item.basedir;
    sshport = some (or_default 22 item.sshport);
    haspg = false;
  },
)

abbrev pub ip_mention : Args → Bool → String → Mention
ip_mention args haspg ip = (ip, default_machine args haspg ip)

pub add_machine_item_lem :
    (args : Args) (d : Machines) (item : MachineItem)
    → add_machine_item args d item ≡ add_mention d (item_mention args item)
unfolding add_machine_item add_mention
add_machine_item_lem args d item = refl

pub add_ip_lem :
    (args : Args) (haspg : Bool) (d : Machines) (ip : String)
    → add_ip_to_machine_map args haspg d ip ≡ add_mention d (ip_mention args haspg ip)
unfolding add_ip_to_machine_map add_mention
add_ip_lem args haspg d ip = refl

pub lookup-append :
    (ip : String) (ms ns : List Mention)
    → lookup ip (ms ++ ns) ≡ or_else (lookup ip ms) (lookup ip ns)
unfolding lookup
lookup-append ip [] ns = ground arith
lookup-append ip (m ∷ ms) ns = ground (arith, lookup-append ip ms ns)

-- A machine that is there can be marked, and then the same addresses have one.
pub set_haspg-eq-ok :
    (d : Machines) (ip : String)
    → has_key ip d ≡ true
    → (d' : Machines) × (set_haspg d ip ≡ ok d')
      × ((j : String) → has_key j d ≡ true → has_key j d' ≡ true)
unfolding set_haspg
set_haspg-eq-ok d ip h = elim (Option-cases (lookup ip d)) [
  | inl e ↦ absurd (ground arith)
  | inr (m, e) ↦
      let m' : Machine = record m { haspg = true } in
      (insert ip m' d, rw (e, get_machine), λ j k. ground (arith, lookup-insert ip j m' d))
]
