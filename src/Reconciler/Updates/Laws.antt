-- ===== src/Reconciler/Updates/Laws.antt =====
-- The ways through `update`.
use csr.Base.{String, ◌≡◌, ◌≢◌, Option, Result, ok, err, ◌∷◌, inl, inr, ◌⊎◌, Result-cases, arith}
use csr.Api.{CloudSchedulerSource, status_eq}
use csr.Api.Meta.{meta_eq}
use csr.Lister.{cache_key}
use csr.Lister.Laws.{cached, get_lem}
use csr.Platform.{Vendor, Env, History, looked_up, updated_source}
use csr.Platform.Jobs.{JobTable, jobs}
use csr.Reconciler.Updates.{merged, update}

abbrev Outcome : Vendor → Type 0
Outcome V = Result V.Error CloudSchedulerSource × History V

module _ {V : Vendor} (env : Env V) (desired : CloudSchedulerSource) (h : History V) where
  abbrev namespace : String
  namespace = desired.object_meta.namespace

  abbrev name : String
  name = desired.object_meta.name

  abbrev answer : Result V.Error (Option CloudSchedulerSource)
  answer = env.get_by_key h (cache_key namespace name)

  abbrev pub looked : History V
  looked = looked_up (cache_key namespace name) answer ∷ h

  abbrev sent : CloudSchedulerSource → Result V.Error CloudSchedulerSource
  sent existing = env.update_source looked namespace (merged existing desired)

-- The run `out` of `update` from `h`.
pub data UpdateRun {V : Vendor} (env : Env V) (desired : CloudSchedulerSource) (h : History V)
    (out : Outcome V) : Type 0 where
  uncached :
      (e : V.Error)
      → cached V (name env desired h) (answer env desired h) ≡ err e
      → out ≡ (err e, looked env desired h)
      → UpdateRun env desired h out
  same :
      (existing : CloudSchedulerSource)
      → cached V (name env desired h) (answer env desired h) ≡ ok existing
      → existing.status ≡ desired.status
      → existing.object_meta ≡ desired.object_meta
      → out ≡ (ok existing, looked env desired h)
      → UpdateRun env desired h out
  sent_merged :
      (existing : CloudSchedulerSource)
      → cached V (name env desired h) (answer env desired h) ≡ ok existing
      → (existing.status ≢ desired.status) ⊎ (existing.object_meta ≢ desired.object_meta)
      → out ≡ (
        sent env desired h existing,
        updated_source
              (namespace env desired h)
              (merged existing desired)
              (sent env desired h existing)
            ∷ looked env desired h,
      )
      → UpdateRun env desired h out

module _ {V : Vendor} (env : Env V) (desired : CloudSchedulerSource) (h : History V) where
  -- Every run of `update` is one of these: the source is read from the cache, and written exactly
  -- if its status or its metadata is not the desired one; what is written is the cached source with
  -- the desired status and finalizers.
  pub update-UpdateRun : UpdateRun env desired h (update env desired h)
  unfolding update
  update-UpdateRun =
      rw get_lem (elim (Result-cases (cached V (name env desired h) (answer env desired h))) [
        | inr (e, p) ↦ uncached e p (rw p)
        | inl (existing, p) ↦ elim (status_eq.dec existing.status desired.status) [
          | no s ↦ sent_merged existing p (inl s) (rw p (ground arith))
          | yes s ↦ elim (meta_eq.dec existing.object_meta desired.object_meta) [
            | no m ↦ sent_merged existing p (inr m) (rw p (ground arith))
            | yes m ↦ same existing p s m (rw p (ground arith))
          ]
        ]
      ])

  UpdateRun-jobs :
      (initial : JobTable) (out : Outcome V)
      → UpdateRun env desired h out
      → jobs initial out.1 ≡ jobs initial h
  UpdateRun-jobs initial out (uncached e _ p) = rw p
  UpdateRun-jobs initial out (same _ _ _ _ p) = rw p
  UpdateRun-jobs initial out (sent_merged _ _ _ p) = rw p

  -- It touches no job.
  pub update-jobs : (initial : JobTable) → jobs initial (update env desired h).1 ≡ jobs initial h
  update-jobs initial = UpdateRun-jobs initial _ update-UpdateRun
