-- ===== src/Search.antt =====
-- cluster/setup_cluster_manager.py: the search service, elasticsearch and kibana as containers, and
-- its address in the configuration of each node manager.
pub mod Runs
use cloudnative.Base.{String, Option, [], ◌∷◌, Result, ok, need, ◌>>=◌, if◌then◌else◌}
use cloudnative.Base.Text.{show}
use cloudnative.Base.Format.{format}
use cloudnative.Config.{Args}
use cloudnative.Machines.{Machine, Machines, get_machine}
use cloudnative.NodeMgr.{NodeMgrs}
use cloudnative.OneDc.{Elasticsearch}
use cloudnative.Scripts.{
  Host, Step, output_info, process_file, process_command_noenv, process_command_setenv,
}
use cloudnative.Packages.{get_3rdpackages_filemap, pack}
use cloudnative.Panel.{if_given, restart}

-- The address and ports of a service whose configuration is complete, and its machine.
pub record Service : Type 0 where
  pub ip : String
  pub es_port : String
  pub k_port : String
  pub mach : Machine

unfoldable pub service_of : Machines → Elasticsearch → Result Service
unfolding get_machine
service_of machines e = do
  ip ← need "ip" e.ip
  es ← need "port" e.port
  k ← need "kibana_port" e.kibana_port
  mach ← get_machine machines ip
  ok (record { ip = ip; es_port = show es; k_port = show k; mach = mach })

module _ (host : Host) (args : Args) (machines : Machines) where
  noenv : String → String → String → Step
  noenv = process_command_noenv host args machines

  setenv : String → String → String → Step
  setenv = process_command_setenv host args machines

  transfer : String → Machine → String → String → Step
  unfolding noenv
  transfer ip mach es_pack k_pack w = do
    w1 ←
        noenv ip "/"
          (format "sudo mkdir -p %s && sudo chown -R %s:\\`id -gn %s\\` %s"
            (mach.basedir ∷ mach.user ∷ mach.user ∷ mach.basedir ∷ []))
          (output_info (format "transfering elasticsearch and kibana package to %s ..." (ip ∷ []))
            w)
    w2 ← process_file host args machines ip (format "clustermgr/%s" (es_pack ∷ [])) mach.basedir w1
    process_file host args machines ip (format "clustermgr/%s" (k_pack ∷ [])) mach.basedir w2

  unfoldable pub setup_elasticsearch : Option Elasticsearch → Step
  unfolding transfer get_3rdpackages_filemap pack get_machine
  setup_elasticsearch = if_given λ e w. do
    ip ← need "ip" e.ip
    fmap ← get_3rdpackages_filemap args
    es_pack ← pack fmap "elasticsearch"
    k_pack ← pack fmap "kibana"
    if args.cloud
        then ok w
        else (do mach ← get_machine machines ip; transfer ip mach es_pack.0 k_pack.0 w)

  -- The filebeat of a node manager is told both addresses.
  filebeat : String → String → String → Step
  unfolding setenv get_machine
  filebeat es_host k_host ip w = do
    mach ← get_machine machines ip
    let targetdir = format "%s/program_binaries/\\${FILEBEAT_DIR}" (mach.basedir ∷ [])
    w1 ← setenv ip targetdir (format "sed -i 's/localhost:9200/%s/g' filebeat.yml" (es_host ∷ [])) w
    w2 ← setenv ip targetdir "sed -i '/localhost:5601/s/#host/host/g' filebeat.yml" w1
    setenv ip targetdir (format "sed -i 's/localhost:5601/%s/g' filebeat.yml" (k_host ∷ [])) w2

  filebeats : String → String → NodeMgrs → Step
  unfolding filebeat
  filebeats es_host k_host [] w = ok w
  filebeats es_host k_host ((ip, node) ∷ nodes) w = do
    w1 ← filebeat es_host k_host node.ip w
    filebeats es_host k_host nodes w1

  unfoldable pub install_elasticsearch : NodeMgrs → Option Elasticsearch → Step
  unfolding noenv setenv filebeats service_of get_3rdpackages_filemap pack
  install_elasticsearch nodemgrs = if_given λ e w. do
    fmap ← get_3rdpackages_filemap args
    es_pack ← pack fmap "elasticsearch"
    k_pack ← pack fmap "kibana"
    s ← service_of machines e
    let load : String = "sudo docker inspect %s >& /dev/null || ( gzip -cd %s | sudo docker load )"
    let base = s.mach.basedir
    w1 ←
        setenv s.ip base (format load (es_pack.1 ∷ "\\${ES_FILE}" ∷ []))
          (output_info (format "install elasticsearch and kibana on %s ..." (s.ip ∷ [])) w)
    w2 ← setenv s.ip base (format load (k_pack.1 ∷ "\\${KIBANA_FILE}" ∷ [])) w1
    w3 ←
        noenv s.ip base
          (format
            "sudo docker run -itd --restart=%s --name elasticsearch_%d  -p %d:9200 -e discovery.type=single-node %s"
            (restart args ∷ s.es_port ∷ s.es_port ∷ es_pack.1 ∷ []))
          w2
    w4 ←
        noenv s.ip base
          (format
            "sudo docker run -itd --restart=%s --name kibana_%d  -p %d:5601 -e ELASTICSEARCH_HOSTS=http://%s:%d %s"
            (restart args ∷ s.k_port ∷ s.k_port ∷ s.ip ∷ s.es_port ∷ k_pack.1 ∷ []))
          w3
    filebeats (format "%s:%d" (s.ip ∷ s.es_port ∷ [])) (format "%s:%d" (s.ip ∷ s.k_port ∷ []))
        nodemgrs w4

  -- The two containers of the service, kibana first.
  both_containers : String → String → Service → Step
  unfolding noenv
  both_containers info verb s w = do
    w1 ←
        noenv s.ip s.mach.basedir
          (format "sudo docker container %s kibana_%d" (verb ∷ s.k_port ∷ []))
          (output_info (format info (s.ip ∷ [])) w)
    noenv s.ip s.mach.basedir
        (format "sudo docker container %s elasticsearch_%d" (verb ∷ s.es_port ∷ [])) w1

  unfoldable pub start_elasticsearch : Option Elasticsearch → Step
  unfolding service_of both_containers
  start_elasticsearch = if_given λ e w. do
    s ← service_of machines e
    both_containers "start elasticsearch and kibana on %s ..." "start" s w

  unfoldable pub stop_elasticsearch : Option Elasticsearch → Step
  unfolding service_of both_containers
  stop_elasticsearch = if_given λ e w. do
    s ← service_of machines e
    both_containers "stop elasticsearch and kibana on %s ..." "stop" s w

  unfoldable pub clean_elasticsearch : Option Elasticsearch → Step
  unfolding noenv service_of both_containers get_3rdpackages_filemap pack
  clean_elasticsearch = if_given λ e w. do
    fmap ← get_3rdpackages_filemap args
    es_pack ← pack fmap "elasticsearch"
    k_pack ← pack fmap "kibana"
    s ← service_of machines e
    w1 ← both_containers "clean elasticsearch and kibana on %s ..." "rm -f" s w
    w2 ← noenv s.ip s.mach.basedir (format "sudo docker image rm -f %s" (k_pack.1 ∷ [])) w1
    noenv s.ip s.mach.basedir (format "sudo docker image rm -f %s" (es_pack.1 ∷ [])) w2
