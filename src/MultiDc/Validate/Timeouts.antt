-- ===== src/MultiDc/Validate/Timeouts.antt =====
-- The timeouts of the cluster managers change no port or host of theirs, and a bootstrap asks for two of
-- them in each data center.
use cloudnative.Base.{
  String, ◌==◌, ℕ, Bool, true, false, List, [], ◌∷◌, All, map, Dict, lookup, some, need, ok,
  >>=-eq-ok, ok-injective, ◌≡◌, refl, subst, arith, ◌∙◌, if◌then◌else◌, Option,
}
use cloudnative.Config.{Args, ClusterMgrNode}
use cloudnative.Version.{check_version_to_minor}
use cloudnative.OneDc.Validate.Claimed.{mgr_ports, mgrs_ports}
use cloudnative.MultiDc.{DataCenter}
use cloudnative.MultiDc.Managers.{too_few, need_two, set_timeout, set_timeouts}
use cloudnative.MultiDc.Managers.Claimed.{need_two-enough}
use cloudnative.MultiDc.Located.Managers.{mgr_hosts}
use cloudnative.MultiDc.Meta.{primary_name}
use cloudnative.MultiDc.Validate.{few_clustermgrs, boot_clustermgrs}

-- The rewriting of the node with an address.
abbrev with_timeout : ℕ → String → ClusterMgrNode → ClusterMgrNode
with_timeout ms ip n =
    if n.ip == ip then record n { brpc_raft_election_timeout_ms = some ms } else n

with_timeout-ports :
    (ms : ℕ) (ip : String) (n : ClusterMgrNode) → mgr_ports (with_timeout ms ip n) ≡ mgr_ports n
with_timeout-ports ms ip n = ground arith

mgrs_ports-map :
    (ms : ℕ) (ip : String) (ns : List ClusterMgrNode)
    → mgrs_ports (map (with_timeout ms ip) ns) ≡ mgrs_ports ns
mgrs_ports-map ms ip [] = refl
mgrs_ports-map ms ip (n ∷ ns) = rw (with_timeout-ports ms ip n, mgrs_ports-map ms ip ns) refl

mgr_hosts-map :
    (ms : ℕ) (ip : String) (ns : List ClusterMgrNode)
    → mgr_hosts (map (with_timeout ms ip) ns) ≡ mgr_hosts ns
mgr_hosts-map ms ip [] = refl
mgr_hosts-map ms ip (n ∷ ns) =
    let same : (with_timeout ms ip n).ip ≡ n.ip = ground arith in
    rw (same, mgr_hosts-map ms ip ns) refl

-- What the timeout of one node leaves alone, all timeouts do.
module _ {ℓ} {C : Type ℓ} (read : List ClusterMgrNode → C)
    (stable : (ms : ℕ) (ip : String) (ns : List ClusterMgrNode)
      → read (map (with_timeout ms ip) ns) ≡ read ns) where
  read-if :
      (new : Bool) (ms : ℕ) (ip : String) (ns : List ClusterMgrNode)
      → read (if new then map (with_timeout ms ip) ns else ns) ≡ read ns
  read-if true ms ip ns = stable ms ip ns
  read-if false ms ip ns = refl

  set_timeout-read :
      (args : Args) (ms : ℕ) (ips : List String) (ns ns' : List ClusterMgrNode)
      → set_timeout args ms ips ns ≡ ok ns'
      → read ns' ≡ read ns
  unfolding set_timeout
  set_timeout-read args ms [] ns ns' h =
      subst (λ (r : List ClusterMgrNode). read r ≡ read ns) (ok-injective h) refl
  set_timeout-read args ms (ip ∷ ips) ns ns' h =
      let (new, checked, h1) = >>=-eq-ok (check_version_to_minor args.product_version 1 2) _ h in
      set_timeout-read args ms ips _ ns' h1 ∙ read-if new ms ip ns

  set_timeouts-read :
      (args : Args) (ms : ℕ) (m : Dict (List String)) (dcs : List DataCenter)
      (ns ns' : List ClusterMgrNode)
      → set_timeouts args ms m dcs ns ≡ ok ns'
      → read ns' ≡ read ns
  unfolding set_timeouts
  set_timeouts-read args ms m [] ns ns' h =
      subst (λ (r : List ClusterMgrNode). read r ≡ read ns) (ok-injective h) refl
  set_timeouts-read args ms m (dc ∷ dcs) ns ns' h =
      let (ips, found, h1) = >>=-eq-ok (need dc.name (lookup dc.name m)) _ h in
      let (ns1, first, others) = >>=-eq-ok (set_timeout args ms ips ns) _ h1 in
      set_timeouts-read args ms m dcs ns1 ns' others ∙ set_timeout-read args ms ips ns ns1 first

  boot_clustermgrs-read :
      (args : Args) (firstboot : Bool) (names : List String) (p : Option DataCenter)
      (others : List DataCenter × List DataCenter) (m : Dict (List String))
      (ns ns' : List ClusterMgrNode)
      → boot_clustermgrs args firstboot names p others m ns ≡ ok ns'
      → read ns' ≡ read ns
  unfolding boot_clustermgrs
  boot_clustermgrs-read args false names p others m ns ns' h =
      subst (λ (r : List ClusterMgrNode). read r ≡ read ns) (ok-injective h) refl
  boot_clustermgrs-read args true names p others m ns ns' h =
      let (_, two, h1) = >>=-eq-ok (need_two few_clustermgrs m names) _ h in
      let (local, found, h2) = >>=-eq-ok (need (primary_name p) (lookup (primary_name p) m)) _ h1 in
      let (ns1, first, h3) = >>=-eq-ok (set_timeout args 3000 local ns) _ h2 in
      let (ns2, second, third) = >>=-eq-ok (set_timeouts args 6000 m others.0 ns1) _ h3 in
      set_timeouts-read args 9000 m others.1 ns2 ns' third
      ∙ set_timeouts-read args 6000 m others.0 ns1 ns2 second
      ∙ set_timeout-read args 3000 local ns ns1 first

boot_clustermgrs-two :
    (args : Args) (names : List String) (p : Option DataCenter)
    (others : List DataCenter × List DataCenter) (m : Dict (List String))
    (ns ns' : List ClusterMgrNode)
    → boot_clustermgrs args true names p others m ns ≡ ok ns'
    → All (λ dc. too_few m dc ≡ false) names
unfolding boot_clustermgrs
boot_clustermgrs-two args names p others m ns ns' h =
    let (_, two, h1) = >>=-eq-ok (need_two few_clustermgrs m names) _ h in
    need_two-enough few_clustermgrs m names two

-- What `boot_clustermgrs` keeps, and what it makes sure of.
pub boot_clustermgrs-keeps :
    (args : Args) (firstboot : Bool) (names : List String) (p : Option DataCenter)
    (others : List DataCenter × List DataCenter) (m : Dict (List String))
    (ns ns' : List ClusterMgrNode)
    → boot_clustermgrs args firstboot names p others m ns ≡ ok ns'
    → (mgrs_ports ns' ≡ mgrs_ports ns)
      × (mgr_hosts ns' ≡ mgr_hosts ns)
      × (firstboot ≡ true → All (λ dc. too_few m dc ≡ false) names)
boot_clustermgrs-keeps args firstboot names p others m ns ns' h = (
  boot_clustermgrs-read mgrs_ports mgrs_ports-map args firstboot names p others m ns ns' h,
  boot_clustermgrs-read mgr_hosts mgr_hosts-map args firstboot names p others m ns ns' h,
  λ yes.
      boot_clustermgrs-two args names p others m ns ns'
        (subst (λ fb. boot_clustermgrs args fb names p others m ns ≡ ok ns') yes h),
)
