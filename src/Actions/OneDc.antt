-- ===== src/Actions/OneDc.antt =====
-- The hosts and the validated configuration in one data center.
use cloudnative.Base.{Option, none, some, [], ◌∷◌, ok, ◌>>=◌}
use cloudnative.Config.{Args}
use cloudnative.OneDc.{OneDcConfig, Xpanel, setup_machines2}
use cloudnative.OneDc.Clusters.{Validated, validate_and_set_config2}
use cloudnative.MultiDc.{Xpanel as Panel}
use cloudnative.Control.{Deployment}
use cloudnative.Actions.{Site}

-- The validation puts the panel into a list of one node.
abbrev pub one_panel : Option Xpanel → Option Panel
one_panel none = none
one_panel (some x) = some (record {
  image_type = x.image_type;
  image = x.image;
  image_file = x.image_file;
  nodes = some (record { ip = x.ip; port = x.port; name = x.name } ∷ []);
})

-- The scripts read this of it.
abbrev pub deployment_of : Validated → Deployment
deployment_of v = record {
  meta = v.meta;
  cluster_manager = v.cluster_manager;
  node_manager = v.site.nodemgrs;
  clusters = v.clusters;
  xpanel = one_panel v.xpanel;
  elasticsearch = v.elasticsearch;
}

unfoldable pub site_onedc : Args → OneDcConfig → Site
unfolding setup_machines2 validate_and_set_config2
site_onedc args jscfg = do
  machines ← setup_machines2 args jscfg []
  v ← validate_and_set_config2 args jscfg machines
  ok (v.site.machines, deployment_of v)
