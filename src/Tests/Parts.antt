-- ===== src/Tests/Parts.antt =====
-- The theorems about the parts of the reconciler, at work in the sample cluster.
use csr.Base.Order.{IsSorted}
use csr.Base.{String, ◌↔◌, ◌==◌, ◌||◌, ◌&&◌, not, ◌≡◌, some, [], ok, err, contains, string_eq}
use csr.Api.Meta.{ObjectReference}
use csr.Platform.{Env}
use csr.Reconciler.Finalizers.{finalizer_name, add_finalizer, remove_finalizer}
use csr.Reconciler.Finalizers.Laws.{finalizers, finalizer_laws}
use csr.Reconciler.Sinks.{get_sink_uri, http_uri}
use csr.Reconciler.Sinks.Laws.{Resolves, get_sink_uri-ok_iff}
use csr.Reconciler.Services.{reconcile_service}
use csr.Reconciler.Services.Laws.{ServiceRun, reconcile_service-ServiceRun}
use csr.Reconciler.Jobs.{create_job_proto, reconcile_job, remove_job}
use csr.Reconciler.Jobs.Calls.{JobRun, reconcile_job-JobRun}
use csr.Reconciler.Jobs.Removal.{RemovalRun, remove_job-RemovalRun}
use csr.Reconciler.Updates.{update}
use csr.Reconciler.Updates.Laws.{UpdateRun, update-UpdateRun}
use csr.Tests.Vendor.{sample, gone, sample-AreSets}
use csr.Tests.Cluster.{cluster_env, clock_job, clock_spec}
use csr.Tests.Runs.{new_source, fresh, old_source, doomed, calm_source}

abbrev clock_uri : String
clock_uri = "http://clock.example.com/"

reconcile_job-JobRun_example :
    JobRun
      (cluster_env fresh)
      "projects/p/locations/l"
      clock_job
      (create_job_proto sample clock_job clock_spec clock_uri)
      []
      (reconcile_job (cluster_env fresh) "clock" clock_spec clock_uri [])
reconcile_job-JobRun_example =
    reconcile_job-JobRun (cluster_env fresh) "clock" clock_spec clock_uri []

remove_job-RemovalRun_example :
    RemovalRun (cluster_env doomed) clock_job [] (remove_job (cluster_env doomed) old_source [])
remove_job-RemovalRun_example = remove_job-RemovalRun (cluster_env doomed) old_source []

abbrev channel : ObjectReference
channel = record {
  kind = "Channel";
  namespace = "";
  name = "out";
  uid = "";
  api_version = "v1";
  resource_version = "";
  field_path = "";
}

-- A cluster with no service yet.
abbrev bare : Env sample
bare = cluster_env (record fresh { service = err gone })

update-UpdateRun_example :
    UpdateRun (cluster_env fresh) calm_source [] (update (cluster_env fresh) calm_source [])
update-UpdateRun_example = update-UpdateRun (cluster_env fresh) calm_source []

get_sink_uri-ok_iff_example :
    ((get_sink_uri (cluster_env fresh) (some channel) "default" []).0
      ≡ ok "http://sink.example.com/")
    ↔ ((host : String) × Resolves (cluster_env fresh) channel "default" [] host
        × (◌≡◌ {A = String} "http://sink.example.com/" (http_uri host)))
get_sink_uri-ok_iff_example =
    get_sink_uri-ok_iff (cluster_env fresh) channel "default" [] "http://sink.example.com/"

reconcile_service-ServiceRun_example :
    ServiceRun bare "image" new_source [] (reconcile_service bare "image" new_source [])
reconcile_service-ServiceRun_example = reconcile_service-ServiceRun bare "image" new_source []

finalizer_laws_example :
    (contains (finalizers (add_finalizer sample old_source)) "other"
      ≡ ("other" == finalizer_name || contains (finalizers old_source) "other"))
    × (contains (finalizers (remove_finalizer sample old_source)) "other"
        ≡ (not ("other" == finalizer_name) && contains (finalizers old_source) "other"))
    × IsSorted (finalizers (add_finalizer sample old_source))
    × IsSorted (finalizers (remove_finalizer sample old_source))
    × (add_finalizer sample (add_finalizer sample old_source) ≡ add_finalizer sample old_source)
    × (remove_finalizer sample (add_finalizer sample old_source)
        ≡ remove_finalizer sample old_source)
finalizer_laws_example = finalizer_laws sample sample-AreSets old_source "other"
