-- ===== src/Control/Clusters/Fits.antt =====
-- The loops of `start_clusters` and `stop_clusters` start and stop the programs that are described.
use cloudnative.Control.Clusters.Targets.{
  Target, storage_program, server_program, start_of, stop_of, is_unmanaged, with_port,
  storage_targets, shard_targets, server_targets, proxy_targets, targets,
}
use cloudnative.Base.{
  String, ℕ, Option, none, some, Bool, true, false, List, [], ◌∷◌, ◌++◌, map, ok, err, ◌>>=◌,
  >>=-eq-ok, ◌≡◌, refl, ap, if◌then◌else◌, Option-cases, inl, inr, arith,
}
use mathlib.Core.List.{map-append}
use cloudnative.Base.Text.{show}
use cloudnative.Base.Format.{format}
use cloudnative.Config.{StorageNode, CompNode, Shard, Haproxy}
use cloudnative.NodeMgr.{NodeMgrs}
use cloudnative.OneDc.{Cluster}
use cloudnative.Scripts.{Command}
use cloudnative.Control.{is_skipped}
use cloudnative.Control.Clusters.{
  Commands, command_at, each_commands, if_skipped, port_command, start_haproxy, stop_haproxy,
  start_cluster, stop_cluster,
}

-- The first commands start the targets, if they are given, and then the second ones stop them.
pub record IsFor (r s : Commands) (ts : List Target) : Type 0 where
  pub start : r ≡ ok (map start_of ts)
  pub stop : s ≡ ok (map stop_of ts)

abbrev pub Fits : Commands → Commands → List Target → Type 0
Fits r s ts = (cs : List Command) → r ≡ ok cs → IsFor r s ts

-- Commands, and others behind them.
both : Commands → Commands → Commands
both r s = r >>= λ cs. s >>= λ ds. ok (cs ++ ds)

both-Fits :
    (r r' s s' : Commands) (ts us : List Target)
    → Fits r r' ts
    → Fits s s' us
    → Fits (both r s) (both r' s') (ts ++ us)
unfolding both
both-Fits r r' s s' ts us f g cs h =
    let (xs, e, h1) = >>=-eq-ok r _ h in
    let (ys, e1, h2) = >>=-eq-ok s _ h1 in
    let p = f xs e in
    let q = g ys e1 in
    record {
      start = rw (p.start, q.start, map-append start_of ts us) refl;
      stop = rw (p.stop, q.stop, map-append stop_of ts us) refl;
    }

both-both :
    (r s t : Commands) → (r >>= λ a. s >>= λ b. t >>= λ c. ok (a ++ (b ++ c))) ≡ both r (both s t)
unfolding both
both-both (err e) s t = refl
both-both (ok a) (err e) t = refl
both-both (ok a) (ok b) (err e) = refl
both-both (ok a) (ok b) (ok c) = refl

three-Fits :
    (r r' s s' t t' : Commands) (ts us vs : List Target)
    → Fits r r' ts
    → Fits s s' us
    → Fits t t' vs
    → Fits
        (r >>= λ a. s >>= λ b. t >>= λ c. ok (a ++ (b ++ c)))
        (r' >>= λ a. s' >>= λ b. t' >>= λ c. ok (a ++ (b ++ c)))
        (ts ++ (us ++ vs))
three-Fits r r' s s' t t' ts us vs f g h =
    rw (both-both r s t, both-both r' s' t')
      (both-Fits r r' (both s t) (both s' t') ts (us ++ vs) f (both-Fits s s' t t' us vs g h))

nothing-Fits : Fits (ok []) (ok []) []
nothing-Fits cs h = record { start = refl; stop = refl }

chosen-Fits :
    (b : Bool) (r s : Commands) (ts : List Target)
    → Fits r s ts
    → Fits (if b then r else ok []) (if b then s else ok []) (if b then ts else [])
chosen-Fits true r s ts f = f
chosen-Fits false r s ts f = nothing-Fits

is_skipped-is_unmanaged :
    (nodemgrs : NodeMgrs) (ip : String) (skip : Bool)
    → is_skipped nodemgrs ip ≡ ok skip
    → is_unmanaged nodemgrs ip ≡ skip
unfolding is_skipped is_unmanaged
is_skipped-is_unmanaged nodemgrs ip skip h = ground arith

if_skipped-Fits :
    (nodemgrs : NodeMgrs) (ip : String) (r s : Commands) (ts : List Target)
    → Fits r s ts
    → Fits
        (if_skipped nodemgrs ip r)
        (if_skipped nodemgrs ip s)
        (if is_unmanaged nodemgrs ip then ts else [])
unfolding if_skipped
if_skipped-Fits nodemgrs ip r s ts f cs h =
    let (skip, e, h1) = >>=-eq-ok (is_skipped nodemgrs ip) _ h in
    let same = is_skipped-is_unmanaged nodemgrs ip skip e in
    let p = chosen-Fits skip r s ts f cs h1 in
    record { start = rw (e, same) p.start; stop = rw (e, same) p.stop }

module _ (nodemgrs : NodeMgrs) where
  port_command-Fits :
      (start stop ip : String) (target : ℕ → Target) (port : Option ℕ)
      → ((p : ℕ) → command_at ip "." (format start (show p ∷ [])) ≡ start_of (target p))
      → ((p : ℕ) → command_at ip "." (format stop (show p ∷ [])) ≡ stop_of (target p))
      → Fits
          (port_command nodemgrs start ip port)
          (port_command nodemgrs stop ip port)
          (if is_unmanaged nodemgrs ip then with_port target port else [])
  unfolding port_command
  port_command-Fits start stop ip target none f g = if_skipped-Fits nodemgrs ip _ _ [] (λ cs h. cc)
  port_command-Fits start stop ip target (some p) f g =
      if_skipped-Fits nodemgrs ip _ _ (target p ∷ [])
        (λ cs h. record { start = ap (λ c. ok (c ∷ [])) (f p); stop = ap (λ c. ok (c ∷ [])) (g p) })

  storages-Fits :
      (ns : List StorageNode)
      → Fits
          (each_commands
            (λ (n : StorageNode). port_command nodemgrs "bash start-storage-%d.sh" n.ip n.port)
            ns)
          (each_commands
            (λ (n : StorageNode). port_command nodemgrs "bash stop-storage-%d.sh" n.ip n.port)
            ns)
          (storage_targets nodemgrs ns)
  unfolding each_commands storage_targets both
  storages-Fits [] = nothing-Fits
  storages-Fits (n ∷ ns) =
      both-Fits _ _ _ _ _ _
        (port_command-Fits _ _ n.ip (storage_program n.ip) n.port (λ p. refl) (λ p. refl))
        (storages-Fits ns)

  shards-Fits :
      (ss : List Shard)
      → Fits
          (each_commands
            (λ (s : Shard).
              each_commands
                (λ (n : StorageNode). port_command nodemgrs "bash start-storage-%d.sh" n.ip n.port)
                s.nodes)
            ss)
          (each_commands
            (λ (s : Shard).
              each_commands
                (λ (n : StorageNode). port_command nodemgrs "bash stop-storage-%d.sh" n.ip n.port)
                s.nodes)
            ss)
          (shard_targets nodemgrs ss)
  unfolding each_commands shard_targets both
  shards-Fits [] = nothing-Fits
  shards-Fits (s ∷ ss) = both-Fits _ _ _ _ _ _ (storages-Fits s.nodes) (shards-Fits ss)

  servers-Fits :
      (ns : List CompNode)
      → Fits
          (each_commands
            (λ (n : CompNode). port_command nodemgrs "bash start-server-%d.sh" n.ip n.port)
            ns)
          (each_commands
            (λ (n : CompNode). port_command nodemgrs "bash stop-server-%d.sh" n.ip n.port)
            ns)
          (server_targets nodemgrs ns)
  unfolding each_commands server_targets both
  servers-Fits [] = nothing-Fits
  servers-Fits (n ∷ ns) =
      both-Fits _ _ _ _ _ _
        (port_command-Fits _ _ n.ip (server_program n.ip) n.port (λ p. refl) (λ p. refl))
        (servers-Fits ns)

  proxy-Fits : (o : Option Haproxy) → Fits (start_haproxy o) (stop_haproxy o) (proxy_targets o)
  unfolding start_haproxy stop_haproxy
  proxy-Fits none cs e = nothing-Fits cs e
  proxy-Fits (some h) cs e = elim (Option-cases h.port) [
    | inl missing ↦ ground arith
    | inr (port, given) ↦ record { start = rw given refl; stop = rw given refl }
  ]

  cluster-Fits :
      (c : Cluster)
      → Fits (start_cluster nodemgrs c) (stop_cluster nodemgrs c) (
          shard_targets nodemgrs c.datas
          ++ (server_targets nodemgrs c.comps ++ proxy_targets c.haproxy))
  unfolding start_cluster stop_cluster
  cluster-Fits c =
      three-Fits _ _ _ _ _ _ _ _ _ (shards-Fits c.datas) (servers-Fits c.comps)
        (proxy-Fits c.haproxy)

  pub clusters-Fits :
      (cs : List Cluster)
      → Fits
          (each_commands (start_cluster nodemgrs) cs)
          (each_commands (stop_cluster nodemgrs) cs)
          (targets nodemgrs cs)
  unfolding each_commands targets both
  clusters-Fits [] = nothing-Fits
  clusters-Fits (c ∷ cs) = both-Fits _ _ _ _ _ _ (cluster-Fits c) (clusters-Fits cs)
