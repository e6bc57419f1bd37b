-- ===== src/OneDc/Clusters/Claimed.antt =====
-- What the clusters claim in `validate_and_set_config2`.
use cloudnative.Base.{
  String, ℕ, ◌+◌, ◌<◌, eqb, Option, none, some, List, [], ◌∷◌, ◌++◌, length, or_default, All, ok,
  raise_if, >>=-eq-ok, ok-injective, ◌≡◌, refl, subst, arith, nat_eq, false,
}
use cloudnative.Config.{Args, Shard, Haproxy, StorageNode}
use cloudnative.Claims.{PortMap, add_port_to_machine}
use cloudnative.Claims.Distinct.{claim_all}
use cloudnative.HaMode.{Fits, check_ha_mode, validate_ha_mode, IsHaMode, validate_ha_mode-IsHaMode}
use cloudnative.OneKey.Shards.Claimed.{optional_claim}
use cloudnative.OneKey.Shards.Primary.{primaries}
use cloudnative.Allocate.{Site, place_storage_nodes, place_comps}
use cloudnative.Allocate.Claimed.{
  PortsClaimed, PortsClaimed-append, placed_nodes_ports, placed_comps_ports, place_comps-claim,
}
use cloudnative.OneDc.{Cluster}
use cloudnative.OneDc.Validate.Claimed.{Placed, place-Placed}
use cloudnative.OneDc.Clusters.{
  set_fullsync, check_shard, check_shards, check_haproxy, cluster_name, cluster_defaults,
  check_cluster, check_clusters,
}

-- A shard is sound: exactly one primary, and a number of nodes that goes with the mode.
pub record IsSound (mode : String) (nodes : List StorageNode) : Type 0 where
  pub one_primary : 0 < length nodes → primaries nodes ≡ 1
  pub fits : Fits (length nodes) mode

pub check_shard-Placed :
    (args : Args) (s s' : Site) (name mode buf : String) (i : ℕ) (shard shard' : Shard)
    → check_shard args s name mode buf i shard ≡ ok (s', shard')
    → Placed s.ports mode shard'.nodes s'.ports
unfolding check_shard
check_shard-Placed args s s' name mode buf i shard shard' h =
    let (_, nonempty, h0) = >>=-eq-ok (raise_if (eqb (length shard.nodes) 0) _) _ h in
    let (_, fits, h1) = >>=-eq-ok (check_ha_mode _ _ (length shard.nodes) mode) _ h0 in
    let ((s1, has, ns), placed, h2) =
      >>=-eq-ok (place_storage_nodes set_fullsync args s mode buf _ false shard.nodes) _ h1 in
    subst (λ (r : Site × Shard). Placed s.ports mode r.1.nodes r.0.ports) (ok-injective h2)
      (place-Placed set_fullsync args s s1 mode buf _ _ _ has shard.nodes ns fits placed)

abbrev pub shards_ports : String → List Shard → List (String × ℕ)
shards_ports mode [] = []
shards_ports mode (s ∷ ss) = placed_nodes_ports mode s.nodes ++ shards_ports mode ss

pub record ShardsPlaced (p : PortMap) (mode : String) (shards : List Shard) (q : PortMap)
    : Type 0 where
  pub claimed : PortsClaimed p (shards_ports mode shards) q
  pub sound : All (λ (s : Shard). IsSound mode s.nodes) shards

check_shards-Placed :
    (args : Args) (s s' : Site) (name mode buf : String) (i : ℕ) (shards shards' : List Shard)
    → check_shards args s name mode buf i shards ≡ ok (s', shards')
    → ShardsPlaced s.ports mode shards' s'.ports
unfolding check_shards
check_shards-Placed args s s' name mode buf i [] shards' h =
    subst (λ (r : Site × List Shard). ShardsPlaced s.ports mode r.1 r.0.ports) (ok-injective h)
      (record { claimed = unfold claim_all in refl; sound = tt })
check_shards-Placed args s s' name mode buf i (x ∷ xs) shards' h =
    let ((s1, x'), first, h1) = >>=-eq-ok (check_shard args s name mode buf i x) _ h in
    let ((s2, xs'), others, h2) = >>=-eq-ok (check_shards args s1 name mode buf (i + 1) xs) _ h1 in
    let p = check_shard-Placed args s s1 name mode buf i x x' first in
    let ps = check_shards-Placed args s1 s2 name mode buf (i + 1) xs xs' others in
    subst (λ (r : Site × List Shard). ShardsPlaced s.ports mode r.1 r.0.ports) (ok-injective h2)
      (record {
        claimed = PortsClaimed-append s.ports s1.ports s2.ports _ _ p.claimed ps.claimed;
        sound = (record { one_primary = p.one_primary; fits = p.fits }, ps.sound);
      })

abbrev pub haproxy_ports : Option Haproxy → List (String × ℕ)
haproxy_ports none = []
haproxy_ports (some h) = optional_claim h.ip h.port ++ optional_claim h.ip h.mysql_port

check_haproxy-claim :
    (p q : PortMap) (h : Option Haproxy)
    → check_haproxy p h ≡ ok q
    → PortsClaimed p (haproxy_ports h) q
unfolding check_haproxy claim_all add_port_to_machine
check_haproxy-claim p q none e = ground arith
check_haproxy-claim p q (some h) e = ground arith

-- The mode of a cluster behind the defaults.
abbrev pub cluster_mode : Cluster → String
cluster_mode c = or_default "rbr" c.ha_mode

abbrev pub cluster_ports : Cluster → List (String × ℕ)
cluster_ports c =
    placed_comps_ports c.comps ++ (shards_ports (cluster_mode c) c.datas ++ haproxy_ports c.haproxy)

-- A cluster behind the validation.
pub record ClusterPlaced (p : PortMap) (c : Cluster) (q : PortMap) : Type 0 where
  pub claimed : PortsClaimed p (cluster_ports c) q
  pub mode_known : IsHaMode (cluster_mode c)
  pub sound : All (λ (s : Shard). IsSound (cluster_mode c) s.nodes) c.datas

pub check_cluster-Placed :
    (args : Args) (s s' : Site) (c c' : Cluster)
    → check_cluster args s c ≡ ok (s', c')
    → ClusterPlaced s.ports c' s'.ports
unfolding check_cluster cluster_defaults
check_cluster-Placed args s s' c c' h =
    let (name, named, h0) = >>=-eq-ok (cluster_name c.name) _ h in
    let (_, known, h1) = >>=-eq-ok (validate_ha_mode (cluster_mode c)) _ h0 in
    let ((s1, comps), placed, h2) = >>=-eq-ok (place_comps args s c.comps) _ h1 in
    let ((s2, datas), shards, h3) =
      >>=-eq-ok (check_shards args s1 name (cluster_mode c) _ 1 c.datas) _ h2 in
    let (q, proxy, h4) = >>=-eq-ok (check_haproxy s2.ports c.haproxy) _ h3 in
    let ps = check_shards-Placed args s1 s2 name (cluster_mode c) _ 1 c.datas datas shards in
    subst (λ (r : Site × Cluster). ClusterPlaced s.ports r.1 r.0.ports) (ok-injective h4)
      (record {
        claimed =
            PortsClaimed-append s.ports s1.ports q _ _
              (place_comps-claim args s s1 c.comps comps placed)
              (PortsClaimed-append s1.ports s2.ports q _ _ ps.claimed
                (check_haproxy-claim s2.ports q c.haproxy proxy));
        mode_known = validate_ha_mode-IsHaMode (cluster_mode c) known;
        sound = ps.sound;
      })

abbrev pub clusters_ports : List Cluster → List (String × ℕ)
clusters_ports [] = []
clusters_ports (c ∷ cs) = cluster_ports c ++ clusters_ports cs

-- What the validation says of one cluster but for its claims.
pub record IsValidCluster (c : Cluster) : Type 0 where
  pub mode_known : IsHaMode (cluster_mode c)
  pub sound : All (λ (s : Shard). IsSound (cluster_mode c) s.nodes) c.datas

pub record ClustersPlaced (p : PortMap) (cs : List Cluster) (q : PortMap) : Type 0 where
  pub claimed : PortsClaimed p (clusters_ports cs) q
  pub valid : All IsValidCluster cs

pub check_clusters-Placed :
    (args : Args) (s s' : Site) (cs cs' : List Cluster)
    → check_clusters args s cs ≡ ok (s', cs')
    → ClustersPlaced s.ports cs' s'.ports
unfolding check_clusters
check_clusters-Placed args s s' [] cs' h =
    subst (λ (r : Site × List Cluster). ClustersPlaced s.ports r.1 r.0.ports) (ok-injective h)
      (record { claimed = unfold claim_all in refl; valid = tt })
check_clusters-Placed args s s' (c ∷ cs) cs' h =
    let ((s1, c'), first, h1) = >>=-eq-ok (check_cluster args s c) _ h in
    let ((s2, cs1), others, h2) = >>=-eq-ok (check_clusters args s1 cs) _ h1 in
    let p = check_cluster-Placed args s s1 c c' first in
    let ps = check_clusters-Placed args s1 s2 cs cs1 others in
    subst (λ (r : Site × List Cluster). ClustersPlaced s.ports r.1 r.0.ports) (ok-injective h2)
      (record {
        claimed = PortsClaimed-append s.ports s1.ports s2.ports _ _ p.claimed ps.claimed;
        valid = (record { mode_known = p.mode_known; sound = p.sound }, ps.valid);
      })
