-- ===== src/Actions/MultiDc.antt =====
-- The hosts and the validated configuration in several data centers, which has no clusters.
use cloudnative.Base.{[], ok, ◌>>=◌}
use cloudnative.Config.{Args}
use cloudnative.MultiDc.{MultiDcConfig, setup_machines3}
use cloudnative.MultiDc.Validate.{Validated, validate_and_set_config3}
use cloudnative.Control.{Deployment}
use cloudnative.Actions.{Site}

abbrev pub deployment_of : Validated → Deployment
deployment_of v = record {
  meta = v.meta;
  cluster_manager = v.cluster_manager;
  node_manager = v.site.nodemgrs;
  clusters = [];
  xpanel = v.xpanel;
  elasticsearch = v.elasticsearch;
}

unfoldable pub site_multidc : Args → MultiDcConfig → Site
unfolding setup_machines3 validate_and_set_config3
site_multidc args jscfg = do
  machines ← setup_machines3 args jscfg []
  v ← validate_and_set_config3 args jscfg machines
  ok (v.site.machines, deployment_of v)
