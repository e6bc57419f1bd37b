-- ===== src/Packages.antt =====
-- cluster/setup_cluster_manager.py: the packages of other projects that an installation ships.
use cloudnative.Base.{
  String, ◌==◌, [], ◌∷◌, Dict, insert, lookup, Result, ok, err, value_error, need, ◌>>=◌,
  if◌then◌else◌,
}
use cloudnative.Base.Format.{format}
use cloudnative.Config.{Args}

-- A file, and what it holds: the directory in it, or the name of the image.
abbrev pub Package : Type 0
Package = String × String

unfoldable pub get_common_3rd_packages_filemap : Dict Package
get_common_3rd_packages_filemap =
    ("mysql-driver", ("mysql-connector-python-2.1.3.tar.gz", "mysql-connector-python-2.1.3")) ∷ []

unfoldable pub get_x86_64_3rdpackages_filemap : Dict Package
get_x86_64_3rdpackages_filemap =
    ("filebeat", ("filebeat-7.10.1-linux-x86_64.tar.gz", "filebeat-7.10.1-linux-x86_64"))
    ∷ ("elasticsearch", ("elasticsearch-7.10.1.tar.gz", "elasticsearch:7.10.1"))
    ∷ ("kibana", ("kibana-7.10.1.tar.gz", "kibana:7.10.1"))
    ∷ ("haproxy", ("haproxy-2.5.0-bin.tar.gz", "haproxy-2.5.0-bin"))
    ∷ ("jdk", ("jdk-8u131-linux-x64.tar.gz", "jdk1.8.0_131"))
    ∷ ("hadoop", ("hadoop-3.3.1.tar.gz", "hadoop-3.3.1"))
    ∷ ("prometheus", ("prometheus.tgz", "prometheus"))
    ∷ []

unfoldable pub get_arch_3rdpackages_filemap : Args → Result (Dict Package)
get_arch_3rdpackages_filemap args =
    if args.targetarch == "x86_64"
    then ok get_x86_64_3rdpackages_filemap
    else err (value_error (format "bad arch: %s" (args.targetarch ∷ [])))

-- `d.update(e)`
unfoldable pub update {ℓ} : {V : Type ℓ} → Dict V → Dict V → Dict V
update d [] = d
update d ((k, v) ∷ e) = update (insert k v d) e

unfoldable pub get_3rdpackages_filemap : Args → Result (Dict Package)
unfolding get_arch_3rdpackages_filemap update
get_3rdpackages_filemap args = do
  arch ← get_arch_3rdpackages_filemap args
  ok (update get_common_3rd_packages_filemap arch)

-- `filemap[name]`
unfoldable pub pack : Dict Package → String → Result Package
pack filemap name = need name (lookup name filemap)
