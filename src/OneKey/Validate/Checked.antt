-- ===== src/OneKey/Validate/Checked.antt =====
-- What the checks of `validate_and_set_config1` establish about each part that they pass.
use cloudnative.Base.{
  String, ℕ, ◌+◌, ◌<◌, eqb, Bool, false, Option, List, [], ◌∷◌, ◌++◌, length, or_default, Error, ok,
  raise_if, >>=-eq-ok, ok-injective, raise_if-false, ◌≡◌, subst, arith, All, nat_eq, string_eq,
}
use cloudnative.Config.{StorageNode, Shard, MetaShard}
use cloudnative.HaMode.{Fits, check_ha_mode, check_ha_mode-Fits}
use cloudnative.OneKey.Shards.{Taken, check_nodes}
use cloudnative.OneKey.Shards.Claimed.{
  Claimed, Claimed-append, Claimed-nil, nodes_ports, nodes_dirs, check_nodes-Claimed,
  mark_last-ports, mark_last-dirs,
}
use cloudnative.OneKey.Shards.Primary.{
  bit, primaries, check_nodes-primaries, mark_last-primaries, mark_last-length,
}
use cloudnative.OneKey.Validate.{
  meta_default_mode, finish_primary, check_meta, check_shard, check_shards,
}

-- The nodes of a shard as validated under a mode: their claims went through, exactly one is the
-- primary, and their number goes with the mode.
pub record Checked (t : Taken) (mode : String) (nodes : List StorageNode) (u : Taken) : Type 0 where
  pub claimed : Claimed t (nodes_ports nodes) (nodes_dirs nodes) u
  pub one_primary : primaries nodes ≡ 1
  pub some_node : 0 < length nodes
  pub fits : Fits (length nodes) mode

-- The nodes of a shard that passed, without what they claimed.
pub record IsSound (mode : String) (nodes : List StorageNode) : Type 0 where
  pub one_primary : primaries nodes ≡ 1
  pub some_node : 0 < length nodes
  pub fits : Fits (length nodes) mode

pub Checked-IsSound :
    {t u : Taken} {mode : String} {nodes : List StorageNode}
    → Checked t mode nodes u
    → IsSound mode nodes
Checked-IsSound c = record { one_primary = c.one_primary; some_node = c.some_node; fits = c.fits }

module _ (none_found : Error) (nodes nodes' : List StorageNode) (has : Bool)
    (finished : finish_primary none_found nodes has ≡ ok nodes') where
  finish-ports : nodes_ports nodes' ≡ nodes_ports nodes
  unfolding finish_primary
  finish-ports = ground (arith, mark_last-ports nodes)

  finish-dirs : nodes_dirs nodes' ≡ nodes_dirs nodes
  unfolding finish_primary
  finish-dirs = ground (arith, mark_last-dirs nodes)

  finish-length : length nodes' ≡ length nodes
  unfolding finish_primary
  finish-length = ground (arith, mark_last-length nodes)

finish-one :
    (none_found : Error) (nodes nodes' : List StorageNode) (has : Bool)
    → finish_primary none_found nodes has ≡ ok nodes'
    → 0 < length nodes
    → bit has ≡ primaries nodes
    → primaries nodes' ≡ 1
unfolding finish_primary
finish-one none_found [] nodes' has f l p = elim l [ ]
finish-one none_found (n ∷ []) nodes' has f l p = ground (arith, mark_last-primaries n)
finish-one none_found (n ∷ m ∷ ns) nodes' has f l p = ground arith

-- The checks that a metadata shard and a data shard share.
shard-Checked :
    (t u : Taken) (mode : String) (nodes nodes' : List StorageNode) (has : Bool)
    (many one two none_found : Error)
    → 0 < length nodes
    → check_ha_mode many one (length nodes) mode ≡ ok tt
    → check_nodes two t false nodes ≡ ok (u, has)
    → finish_primary none_found nodes has ≡ ok nodes'
    → Checked t mode nodes' u
shard-Checked t u mode nodes nodes' has many one two none_found l m c f = record {
  claimed =
      rw (finish-ports none_found nodes nodes' has f, finish-dirs none_found nodes nodes' has f)
        (check_nodes-Claimed two t u false has nodes c);
  one_primary =
      finish-one none_found nodes nodes' has f l
        (omega (arith, check_nodes-primaries two t u false has nodes c));
  some_node = rw (finish-length none_found nodes nodes' has f) l;
  fits =
      rw (finish-length none_found nodes nodes' has f)
        (check_ha_mode-Fits many one (length nodes) mode m);
}

-- The mode of a metadata shard or cluster behind the checks, where it is always set.
abbrev pub set_mode : Option String → String
set_mode mode = or_default "" mode

nonempty→pos : (n : ℕ) → eqb n 0 ≡ false → 0 < n
nonempty→pos n h = ground arith

pub check_meta-Checked :
    (t u : Taken) (meta meta' : MetaShard) (given : String)
    → check_meta t meta given ≡ ok (u, meta')
    → Checked t (set_mode meta'.ha_mode) meta'.nodes u
unfolding check_meta
check_meta-Checked t u meta meta' given h =
    let (_, nonempty, h1) = >>=-eq-ok (raise_if (eqb (length meta.nodes) 0) _) _ h in
    let (_, mode, h2) = >>=-eq-ok (check_ha_mode _ _ (length meta.nodes) _) _ h1 in
    let ((u1, has), nodes, h3) = >>=-eq-ok (check_nodes _ t false meta.nodes) _ h2 in
    let (ns, finished, h4) = >>=-eq-ok (finish_primary _ meta.nodes has) _ h3 in
    subst (λ (p : Taken × MetaShard). Checked t (set_mode p.1.ha_mode) p.1.nodes p.0)
      (ok-injective h4)
      (shard-Checked t u1 (meta_default_mode (length meta.nodes) given) meta.nodes ns has _ _ _ _
        (nonempty→pos _ (raise_if-false _ _ nonempty)) mode nodes finished)

pub check_shard-Checked :
    (t u : Taken) (i : ℕ) (mode : String) (shard shard' : Shard)
    → check_shard t i mode shard ≡ ok (u, shard')
    → Checked t mode shard'.nodes u
unfolding check_shard
check_shard-Checked t u i mode shard shard' h =
    let (_, nonempty, h1) = >>=-eq-ok (raise_if (eqb (length shard.nodes) 0) _) _ h in
    let (_, fits, h2) = >>=-eq-ok (check_ha_mode _ _ (length shard.nodes) mode) _ h1 in
    let ((u1, has), nodes, h3) = >>=-eq-ok (check_nodes _ t false shard.nodes) _ h2 in
    let (ns, finished, h4) = >>=-eq-ok (finish_primary _ shard.nodes has) _ h3 in
    subst (λ (p : Taken × Shard). Checked t mode p.1.nodes p.0) (ok-injective h4)
      (shard-Checked t u1 mode shard.nodes ns has _ _ _ _
        (nonempty→pos _ (raise_if-false _ _ nonempty)) fits nodes finished)

abbrev pub shards_ports : List Shard → List (String × ℕ)
shards_ports [] = []
shards_ports (s ∷ ss) = nodes_ports s.nodes ++ shards_ports ss

abbrev pub shards_dirs : List Shard → List (String × String)
shards_dirs [] = []
shards_dirs (s ∷ ss) = nodes_dirs s.nodes ++ shards_dirs ss

-- The data shards together: what they claim, and that each is sound.
pub record ShardsChecked (t : Taken) (mode : String) (shards : List Shard) (u : Taken)
    : Type 0 where
  pub claimed : Claimed t (shards_ports shards) (shards_dirs shards) u
  pub sound : All (λ (s : Shard). IsSound mode s.nodes) shards

pub check_shards-Checked :
    (t u : Taken) (i : ℕ) (mode : String) (shards shards' : List Shard)
    → check_shards t i mode shards ≡ ok (u, shards')
    → ShardsChecked t mode shards' u
unfolding check_shards
check_shards-Checked t u i mode [] shards' h =
    subst (λ (p : Taken × List Shard). ShardsChecked t mode p.1 p.0) (ok-injective h)
      (record { claimed = Claimed-nil t; sound = tt })
check_shards-Checked t u i mode (s ∷ ss) shards' h =
    let ((t1, s'), first, h1) = >>=-eq-ok (check_shard t i mode s) _ h in
    let ((t2, ss'), others, h2) = >>=-eq-ok (check_shards t1 (i + 1) mode ss) _ h1 in
    let c = check_shard-Checked t t1 i mode s s' first in
    let cs = check_shards-Checked t1 t2 (i + 1) mode ss ss' others in
    subst (λ (p : Taken × List Shard). ShardsChecked t mode p.1 p.0) (ok-injective h2)
      (record {
        claimed = Claimed-append t t1 t2 _ _ _ _ c.claimed cs.claimed;
        sound = (Checked-IsSound c, cs.sound);
      })
