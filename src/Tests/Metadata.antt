-- ===== src/Tests/Metadata.antt =====
-- Two metadata servers, of which the second takes writes, and two node managers.
use cloudnative.Base.{
  none, ◌==◌, true, false, some, List, [], ◌∷◌, All, contains, string_eq, ok, ◌≡◌, refl,
  if◌then◌else◌,
}
use cloudnative.Base.Text.{split, int, strip, lstrip, rstrip, digits}
use cloudnative.NodeMgr.{NodeMgr}
use cloudnative.MultiDc.{DataCenter}
use cloudnative.Metadata.Transactions.{IsTransaction, process_servernodes-IsTransaction}
use cloudnative.Metadata.{
  process_servernodes, process_datacenters, Connect, get_master_conn, add_servernodes,
  remove_servernodes,
}
use cloudnative.Metadata.Master.{IsMaster, get_master_conn-IsMaster}
use cloudnative.Metadata.ServerNodes.{inserted, deleted, wanted, new_hosts, add_servernodes-Inserts}
use cloudnative.Tests.NodeMgr.{nodemgr}

-- The servers answer by their name.
abbrev connect : Connect
connect host port = if host == "second" then some (some 0) else some (some 1)

master_runs : get_master_conn connect "first:6001,second:6002" ≡ ok (some ("second", 6002))
unfolding get_master_conn split int strip lstrip rstrip digits
master_runs = refl

get_master_conn-IsMaster_example :
    IsMaster connect (split b',' "first:6001,second:6002") (some ("second", 6002))
get_master_conn-IsMaster_example =
    get_master_conn-IsMaster connect "first:6001,second:6002" (some ("second", 6002)) master_runs

abbrev nodes : List NodeMgr
nodes = record nodemgr { nodetype = "both"; skip = false } ∷ nodemgr ∷ []

add_servernodes-Inserts_example :
    (inserted (add_servernodes nodes) ≡ wanted nodes)
    × (deleted (remove_servernodes nodes) ≡ new_hosts nodes)
    × All
        (λ row. contains row.0 (deleted (remove_servernodes nodes)) ≡ true)
        (inserted (add_servernodes nodes))
add_servernodes-Inserts_example = add_servernodes-Inserts nodes

abbrev center : DataCenter
center = record {
  name = "dc1";
  province = none;
  city = none;
  is_primary = some true;
  skip = some false;
}

process_runs : process_servernodes "remove" nodes ≡ ok (remove_servernodes nodes)
unfolding process_servernodes
process_runs = refl

process_servernodes-IsTransaction_example :
    IsTransaction (remove_servernodes nodes) × IsTransaction (process_datacenters (center ∷ []))
process_servernodes-IsTransaction_example =
    process_servernodes-IsTransaction "remove" nodes (center ∷ []) (remove_servernodes nodes)
      process_runs
