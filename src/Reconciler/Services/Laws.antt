-- ===== src/Reconciler/Services/Laws.antt =====
-- The ways through `reconcileService`.
use csr.Base.{String, ◌≡◌, true, false, Result, ok, err, ◌∷◌, inl, inr, Result-cases, Bool-cases}
use csr.Api.{CloudSchedulerSource}
use csr.Api.Serving.{Service}
use csr.Platform.{Vendor, Env, History, got_service, created_service}
use csr.Platform.Jobs.{JobTable, jobs}
use csr.Reconciler.Services.{make_service, reconcile_service}

abbrev Outcome : Vendor → Type 0
Outcome V = Result V.Error Service × History V

module _ {V : Vendor} (env : Env V) (ra_image : String) (csr : CloudSchedulerSource)
    (h : History V) where
  abbrev namespace : String
  namespace = csr.object_meta.namespace

  abbrev name : String
  name = csr.object_meta.name

  -- The answer to the creation of the service that the source describes.
  abbrev pub creation : V.Error → Result V.Error Service
  creation e =
      env.create_service (got_service namespace name (err e) ∷ h) namespace
        (make_service V csr ra_image)

  abbrev pub after_creation : V.Error → Outcome V
  after_creation e = (
    creation e,
    created_service namespace (make_service V csr ra_image) (creation e)
        ∷ got_service namespace name (err e)
        ∷ h,
  )

  -- An existing service is returned as it is, by one call and whatever the source asks for now.
  pub reconcile_service-of_existing :
      (existing : Service)
      → env.get_service h namespace name ≡ ok existing
      → reconcile_service env ra_image csr h
        ≡ (ok existing, got_service namespace name (ok existing) ∷ h)
  unfolding reconcile_service
  reconcile_service-of_existing existing found = rw found

  -- Where there is none, the service of the source is created, once, and the answer returned.
  pub reconcile_service-of_missing :
      (e : V.Error)
      → env.get_service h namespace name ≡ err e
      → V.is_not_found e ≡ true
      → reconcile_service env ra_image csr h ≡ after_creation e
  unfolding reconcile_service
  reconcile_service-of_missing e failed missing = rw (failed, missing)

  -- Any other error of the lookup is returned, and nothing is created.
  pub reconcile_service-of_error :
      (e : V.Error)
      → env.get_service h namespace name ≡ err e
      → V.is_not_found e ≡ false
      → reconcile_service env ra_image csr h ≡ (err e, got_service namespace name (err e) ∷ h)
  unfolding reconcile_service
  reconcile_service-of_error e failed other = rw (failed, other)

  -- It touches no job.
  pub reconcile_service-jobs :
      (initial : JobTable) → jobs initial (reconcile_service env ra_image csr h).1 ≡ jobs initial h
  unfolding reconcile_service
  reconcile_service-jobs initial = elim (Result-cases (env.get_service h namespace name)) [
    | inl (existing, p) ↦ rw p
    | inr (e, p) ↦ elim (Bool-cases (V.is_not_found e)) [
      | inl missing ↦ rw (p, missing)
      | inr other ↦ rw (p, other)
    ]
  ]

-- The runs `out` of `reconcileService`.
pub data ServiceRun {V : Vendor} (env : Env V) (ra_image : String) (csr : CloudSchedulerSource)
    (h : History V) (out : Outcome V) : Type 0 where
  existing :
      (found : Service)
      → env.get_service h csr.object_meta.namespace csr.object_meta.name ≡ ok found
      → out ≡ (ok found, got_service csr.object_meta.namespace csr.object_meta.name (ok found) ∷ h)
      → ServiceRun env ra_image csr h out
  created :
      (e : V.Error)
      → env.get_service h csr.object_meta.namespace csr.object_meta.name ≡ err e
      → V.is_not_found e ≡ true
      → out ≡ after_creation env ra_image csr h e
      → ServiceRun env ra_image csr h out
  failed :
      (e : V.Error)
      → env.get_service h csr.object_meta.namespace csr.object_meta.name ≡ err e
      → V.is_not_found e ≡ false
      → out ≡ (err e, got_service csr.object_meta.namespace csr.object_meta.name (err e) ∷ h)
      → ServiceRun env ra_image csr h out

module _ {V : Vendor} (env : Env V) (ra_image : String) (csr : CloudSchedulerSource)
    (h : History V) where
  -- Every run of `reconcileService` is one of these: a service that exists is returned as it is, by
  -- one call and whatever the source asks for now; where there is none, the service of the source is
  -- created, once, and the answer returned; another error is returned and nothing is created.
  pub reconcile_service-ServiceRun :
      ServiceRun env ra_image csr h (reconcile_service env ra_image csr h)
  reconcile_service-ServiceRun =
      elim (Result-cases (env.get_service h csr.object_meta.namespace csr.object_meta.name)) [
        | inl (found, p) ↦
            existing found p (reconcile_service-of_existing env ra_image csr h found p)
        | inr (e, p) ↦ elim (Bool-cases (V.is_not_found e)) [
          | inl missing ↦
              created e p missing (reconcile_service-of_missing env ra_image csr h e p missing)
          | inr other ↦ failed e p other (reconcile_service-of_error env ra_image csr h e p other)
        ]
      ]
