-- ===== src/Search/Runs.antt =====
-- Starting and stopping the search service: it returns where its host is known.
use cloudnative.Base.{
  String, true, Option, none, some, is_some, [], ◌∷◌, Result, ok, ◌>>=◌, ◌≡◌, refl, ap, ◌∙◌,
  need-Returns,
}
use cloudnative.Base.Text.{show}
use cloudnative.Base.Format.{format}
use cloudnative.Config.{Args}
use cloudnative.Machines.{Machines}
use cloudnative.OneDc.{Elasticsearch}
use cloudnative.Scripts.{Host, Step}
use cloudnative.Scripts.Runs.{
  get_machine-known, IsKnown, Runs, Runs->>=, output_info-AllKnown, process_command_noenv-Runs,
}
use cloudnative.Panel.Runs.{OnGiven}
use cloudnative.Search.{
  Service, service_of, noenv, both_containers, start_elasticsearch, stop_elasticsearch,
}

-- The address and the ports of the service are given, and its host has a machine.
pub record IsSearchReady (machines : Machines) (e : Elasticsearch) : Type 0 where
  pub ip : String
  pub given : e.ip ≡ some ip
  pub known : IsKnown machines ip
  pub port : is_some e.port ≡ true
  pub kibana_port : is_some e.kibana_port ≡ true

module _ (host : Host) (args : Args) (machines : Machines) where
  both_containers-Runs :
      (info verb : String) (s : Service)
      → IsKnown machines s.ip
      → Runs host args machines (both_containers host args machines info verb s)
  unfolding both_containers noenv
  both_containers-Runs info verb s h w k =
      Runs->>= host args machines _ _
        (process_command_noenv-Runs host args machines s.ip s.mach.basedir _ h)
        (process_command_noenv-Runs host args machines s.ip s.mach.basedir _ h) _
        (output_info-AllKnown host args machines (format info (s.ip ∷ [])) w k)

  service_of-IsSearchReady :
      (e : Elasticsearch)
      → IsSearchReady machines e
      → (s : Service) × (service_of machines e ≡ ok s) × IsKnown machines s.ip
  unfolding service_of
  service_of-IsSearchReady e r =
      let (es, e1) = need-Returns "port" e.port r.port in
      let (k, e2) = need-Returns "kibana_port" e.kibana_port r.kibana_port in
      let (mach, e3) = get_machine-known host args machines r.ip r.known in
      (
        record { ip = r.ip; es_port = show es; k_port = show k; mach = mach },
        rw r.given (rw e1 (rw e2 (rw e3 refl))),
        r.known,
      )

  with_service :
      (e : Elasticsearch) (body : Service → Step)
      → IsSearchReady machines e
      → ((s : Service) → IsKnown machines s.ip → Runs host args machines (body s))
      → Runs host args machines (λ w. service_of machines e >>= λ s. body s w)
  with_service e body r h w k =
      let (s, found, known) = service_of-IsSearchReady e r in
      let (v, e1, k1) = h s known w k in
      (v, ap (λ (x : Result Service). x >>= λ s. body s w) found ∙ e1, k1)

  pub start_elasticsearch-Runs :
      (o : Option Elasticsearch)
      → OnGiven (IsSearchReady machines) o
      → Runs host args machines (start_elasticsearch host args machines o)
  unfolding start_elasticsearch
  start_elasticsearch-Runs none r w k = (w, refl, k)
  start_elasticsearch-Runs (some e) r w k = with_service e _ r (both_containers-Runs _ _) w k

  pub stop_elasticsearch-Runs :
      (o : Option Elasticsearch)
      → OnGiven (IsSearchReady machines) o
      → Runs host args machines (stop_elasticsearch host args machines o)
  unfolding stop_elasticsearch
  stop_elasticsearch-Runs none r w k = (w, refl, k)
  stop_elasticsearch-Runs (some e) r w k = with_service e _ r (both_containers-Runs _ _) w k
