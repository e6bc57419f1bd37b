-- ===== src/Tests/Units.antt =====
-- The wrappers and the service of a storage node and of a node manager.
use cloudnative.Base.Text.{show}
use cloudnative.Base.Format.{format}
use cloudnative.Machines.{Machine, get_machine}
use cloudnative.Base.{◌∷◌, ℕ, some, [], lookup, Result, ok, ◌≡◌, refl}
use cloudnative.Config.{StorageNode}
use cloudnative.Scripts.{Work}
use cloudnative.Programs.{
  generate_storage_startstop, generate_storage_service, generate_nodemgr_startstop,
  generate_nodemgr_service,
}
use cloudnative.Programs.Shipped.{AllWritten}
use cloudnative.Programs.Services.{
  MakesAll, none_made, one_more, storage_wrappers, storage_unit, MakesAll-AllWritten,
}
use cloudnative.Control.{storage_service, nodemgr_service}
use cloudnative.Control.Startable.{
  storage_wrapper, nodemgr_wrapper, start_nodemgr_lines, IsStartable,
}
use cloudnative.Control.Units.{storage_service-IsStartable, nodemgr_service-IsStartable}
use cloudnative.Tests.OneKey.{args}
use cloudnative.Tests.OneDc.{storage_on}
use cloudnative.Tests.NodeMgr.{nodemgr}
use cloudnative.Tests.Scripts.{machines}

abbrev empty : Work
empty = record { script = []; written = []; dirs = []; files = []; commands = [] }

abbrev result_of : Result Work → Work
result_of (ok w) = w
result_of _ = empty

abbrev node : StorageNode
node = record (storage_on "10.0.0.1") { port = some 57001 }

wrapped : Work
unfolding generate_storage_startstop
wrapped = result_of (generate_storage_startstop args machines node 0 empty)

wrapped_runs : generate_storage_startstop args machines node 0 empty ≡ ok wrapped
unfolding wrapped generate_storage_startstop get_machine lookup
wrapped_runs = refl

served : Work
unfolding generate_storage_service
served = result_of (generate_storage_service args machines node 0 wrapped)

served_runs : generate_storage_service args machines node 0 wrapped ≡ ok served
unfolding served generate_storage_service get_machine lookup
served_runs = refl

storage_service-IsStartable_example :
    (port : ℕ) × (mach : Machine) × (some 57001 ≡ some port)
    × (lookup "10.0.0.1" machines ≡ some mach)
    × (storage_service node
        ≡ ok (format "%s.service" (format "kunlun-storage-%d" (show port ∷ []) ∷ [])))
    × IsStartable served "10.0.0.1"
        (format "kunlun-storage-%d" (show port ∷ []))
        mach.user
        mach.basedir
        (format "start-storage-%d.sh" (show port ∷ []))
        (format "stop-storage-%d.sh" (show port ∷ []))
        (storage_wrapper args mach.basedir (show port) "bash startmysql.sh %d\n")
        (storage_wrapper args mach.basedir (show port) "bash stopmysql.sh %d\n")
storage_service-IsStartable_example =
    storage_service-IsStartable args machines node 0 0 empty wrapped served wrapped_runs served_runs

both_made : MakesAll args machines empty served
both_made = one_more empty wrapped served (storage_wrappers node 0 empty wrapped wrapped_runs) (
    one_more wrapped served served (storage_unit node 0 wrapped served served_runs)
      (none_made served))

empty-AllWritten : AllWritten empty
unfolding lookup
empty-AllWritten key files h = cc

MakesAll-AllWritten_example : AllWritten served
MakesAll-AllWritten_example =
    MakesAll-AllWritten args machines empty served both_made empty-AllWritten

managed : Work
unfolding generate_nodemgr_startstop
managed = result_of (generate_nodemgr_startstop args machines nodemgr 0 empty)

managed_runs : generate_nodemgr_startstop args machines nodemgr 0 empty ≡ ok managed
unfolding managed generate_nodemgr_startstop get_machine lookup
managed_runs = refl

installed : Work
unfolding generate_nodemgr_service
installed = result_of (generate_nodemgr_service args machines nodemgr 0 managed)

installed_runs : generate_nodemgr_service args machines nodemgr 0 managed ≡ ok installed
unfolding installed generate_nodemgr_service get_machine lookup
installed_runs = refl

nodemgr_service-IsStartable_example :
    (mach : Machine) × (lookup "10.0.0.1" machines ≡ some mach)
    × (nodemgr_service nodemgr
        ≡ format "%s.service"
            (format "kunlun-node-manager-%d" (show nodemgr.brpc_http_port ∷ []) ∷ []))
    × IsStartable installed "10.0.0.1"
        (format "kunlun-node-manager-%d" (show nodemgr.brpc_http_port ∷ []))
        mach.user
        mach.basedir
        (format "start-nodemgr-%d.sh" (show nodemgr.brpc_http_port ∷ []))
        (format "stop-nodemgr-%d.sh" (show nodemgr.brpc_http_port ∷ []))
        (nodemgr_wrapper args mach.basedir (start_nodemgr_lines nodemgr))
        (nodemgr_wrapper args mach.basedir ("bash stop_node_mgr.sh\n" ∷ []))
nodemgr_service-IsStartable_example =
    nodemgr_service-IsStartable args machines nodemgr 0 0 empty managed installed managed_runs
      installed_runs
