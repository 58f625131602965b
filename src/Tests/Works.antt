-- ===== src/Tests/Works.antt =====
-- A cluster in which every call succeeds, and the theorem about it.
use mathlib.Core.Bool.{false≢true}
use text.Mathlib.TextEquality.{eq_iff}
use csr.Base.{◌≡◌, refl, [], true, ok, err, string_eq}
use csr.Api.Meta.{ObjectReference}
use csr.Platform.{Env}
use csr.Reconciler.Jobs.{is_missing}
use csr.Reconciler.Loop.{reconcile}
use csr.Reconciler.Loop.Works.{IsWorking, reconcile-works}
use csr.Tests.Vendor.{sample, status}
use csr.Tests.Cluster.{cluster_env, adapter}
use csr.Tests.Runs.{run, new_source, fresh, key_splits, has_domain}

abbrev pub channel : ObjectReference
channel = record {
  kind = "Channel";
  namespace = "";
  name = "out";
  uid = "";
  api_version = "v1";
  resource_version = "";
  field_path = "";
}

-- Cloud Scheduler has no job for whomever asks.
abbrev willing : Env sample
willing = record (cluster_env fresh) { get_job = λ h n. err (status 5); delete_job = λ h n. ok tt }

missing_5 : is_missing sample (status 5) ≡ true
unfolding run
missing_5 = refl

willing-IsWorking : IsWorking willing new_source
unfolding run
willing-IsWorking = record {
  caches = λ h. refl;
  sink = channel;
  host = "sink.example.com";
  has_sink = refl;
  resolves = λ h. record {
    has_client = refl;
    object = "sink.example.com";
    answer = refl;
    address = refl;
    not_empty = λ p. false≢true ((eq_iff "sink.example.com" "").1 p);
  };
  service = adapter;
  serves = λ h. refl;
  has_domain = has_domain;
  dials = λ h e p. cc;
  reads = λ h n e p. cc missing_5;
  targets = λ h n job p. cc;
  creates = λ h parent job e p. cc;
  updates = λ h job e p. cc;
  deletes = λ h n e p. cc;
  writes = λ h namespace s e p. cc;
}

reconcile-works_example : (reconcile willing "image" "default/clock" []).0 ≡ ok tt
reconcile-works_example =
    reconcile-works willing "image" new_source willing-IsWorking "default/clock" [] key_splits
