-- ===== src/OneDc/Validate/Services.antt =====
-- The metadata shard and the single services in `validate_and_set_config2`.
use cloudnative.Base.{
  String, ℕ, eqb, ◌&&◌, false, Option, none, some, List, [], ◌++◌, length, or_default, ok, raise_if,
  >>=-eq-ok, ok-injective, ◌≡◌, subst, arith, nat_eq,
}
use cloudnative.Config.{Args, MetaShard}
use cloudnative.Claims.{PortMap, add_port_to_machine}
use cloudnative.Claims.Distinct.{claim_all}
use cloudnative.HaMode.{check_ha_mode}
use cloudnative.OneKey.Shards.Claimed.{optional_claim}
use cloudnative.Allocate.{Site, place_storage_nodes}
use cloudnative.Allocate.Claimed.{PortsClaimed, PortsClaimed-append}
use cloudnative.OneDc.{HdfsBackup, SshBackup, Backup, Xpanel, Elasticsearch}
use cloudnative.OneDc.Validate.{
  forbid_paths, check_meta, check_hdfs, check_ssh, check_backup, check_xpanel, check_elasticsearch,
}
use cloudnative.OneDc.Validate.Claimed.{Placed, place-Placed}

pub check_meta-Placed :
    (args : Args) (s s' : Site) (meta meta' : MetaShard)
    → check_meta args s meta ≡ ok (s', meta')
    → Placed s.ports (or_default "" meta'.ha_mode) meta'.nodes s'.ports
unfolding check_meta
check_meta-Placed args s s' meta meta' h =
    let (_, nonempty, h0) = >>=-eq-ok (raise_if (eqb (length meta.nodes) 0 && _) _) _ h in
    let (_, fits, h1) = >>=-eq-ok (check_ha_mode _ _ (length meta.nodes) _) _ h0 in
    let ((s1, has, ns), placed, h2) =
      >>=-eq-ok (place_storage_nodes forbid_paths args s _ "128MB" _ false meta.nodes) _ h1 in
    subst (λ (r : Site × MetaShard). Placed s.ports (or_default "" r.1.ha_mode) r.1.nodes r.0.ports)
      (ok-injective h2)
      (place-Placed forbid_paths args s s1 _ "128MB" _ _ _ has meta.nodes ns fits placed)

abbrev pub hdfs_ports : Option HdfsBackup → List (String × ℕ)
hdfs_ports none = []
hdfs_ports (some h) = optional_claim h.ip h.port

abbrev pub ssh_ports : Option SshBackup → List (String × ℕ)
ssh_ports none = []
ssh_ports (some s) = optional_claim s.ip s.port

abbrev pub backup_ports : Backup → List (String × ℕ)
backup_ports b = hdfs_ports b.hdfs ++ ssh_ports b.ssh

check_hdfs-claim :
    (p q : PortMap) (h : Option HdfsBackup)
    → check_hdfs p h ≡ ok q
    → PortsClaimed p (hdfs_ports h) q
unfolding check_hdfs claim_all add_port_to_machine
check_hdfs-claim p q none h = ground arith
check_hdfs-claim p q (some b) h = ground arith

check_ssh-claim :
    (p q : PortMap) (s s' : Option SshBackup)
    → check_ssh p s ≡ ok (q, s')
    → PortsClaimed p (ssh_ports s') q
unfolding check_ssh claim_all add_port_to_machine
check_ssh-claim p q none s' h = ground arith
check_ssh-claim p q (some b) s' h = ground arith

pub check_backup-claim :
    (p q : PortMap) (b b' : Backup)
    → check_backup p b ≡ ok (q, b')
    → PortsClaimed p (backup_ports b') q
unfolding check_backup
check_backup-claim p q b b' h =
    let (p1, hdfs, h1) = >>=-eq-ok (check_hdfs p b.hdfs) _ h in
    let ((p2, s), ssh, h2) = >>=-eq-ok (check_ssh p1 b.ssh) _ h1 in
    subst (λ (r : PortMap × Backup). PortsClaimed p (backup_ports r.1) r.0) (ok-injective h2)
      (PortsClaimed-append p p1 p2 _ _ (check_hdfs-claim p p1 b.hdfs hdfs)
        (check_ssh-claim p1 p2 b.ssh s ssh))

abbrev pub xpanel_ports : Option Xpanel → List (String × ℕ)
xpanel_ports none = []
xpanel_ports (some x) = optional_claim x.ip x.port

pub check_xpanel-claim :
    (args : Args) (p q : PortMap) (x x' : Option Xpanel)
    → check_xpanel args p x ≡ ok (q, x')
    → PortsClaimed p (xpanel_ports x') q
unfolding check_xpanel claim_all add_port_to_machine
check_xpanel-claim args p q none x' h = ground arith
check_xpanel-claim args p q (some x) x' h = ground arith

abbrev pub elasticsearch_ports : Option Elasticsearch → List (String × ℕ)
elasticsearch_ports none = []
elasticsearch_ports (some e) =
    optional_claim (or_default "" e.ip) e.port ++ optional_claim (or_default "" e.ip) e.kibana_port

pub check_elasticsearch-claim :
    (p q : PortMap) (e e' : Option Elasticsearch)
    → check_elasticsearch p e ≡ ok (q, e')
    → PortsClaimed p (elasticsearch_ports e') q
unfolding check_elasticsearch claim_all add_port_to_machine
check_elasticsearch-claim p q none e' h = ground arith
check_elasticsearch-claim p q (some e) e' h = ground arith
