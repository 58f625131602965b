-- ===== src/Reconciler/Loop/Workers.antt =====
-- Two workers of the controller (cmd/controller/main.go runs it with two, `threadsPerController`), each in a call of `Reconcile`, their calls of the services in any order.
use csr.Base.{String, ◌≡◌, ◌≢◌, refl, ◌∙◌, sym, Result, ok, err, [], ◌∷◌, All, arith, string_eq}
use csr.Api.{CloudSchedulerSource}
use csr.Api.Job.{Job}
use csr.Platform.{
  Vendor, Env, Event, History, created_job, updated_job, deleted_job, handled, looked_up, fetched,
  got_service, created_service, dialled, got_job, updated_source,
}
use csr.Platform.Jobs.{JobTable, if_stored, if_deleted, apply, jobs}
use csr.Reconciler.Jobs.Frame.{if_stored-ne}
use csr.Reconciler.Jobs.Removal.{job_name}
use csr.Reconciler.Loop.{reconcile}
use csr.Reconciler.Loop.Events.{IsAbout, reconcile-AreOwn}
use csr.Lister.{cache_key}
use csr.Lister.Laws.{cached}

-- The history `m` has the events of `l` and of `r`, each in its own order, the last one first.
pub data Interleaving {V : Vendor} : History V → History V → History V → Type 0 where
  start : Interleaving [] [] []
  then_left :
      {l r m : History V} (e : Event V) → Interleaving l r m → Interleaving (e ∷ l) r (e ∷ m)
  then_right :
      {l r m : History V} (e : Event V) → Interleaving l r m → Interleaving l (e ∷ r) (e ∷ m)

flip : {V : Vendor} {l r m : History V} → Interleaving l r m → Interleaving r l m
flip start = start
flip (then_left e i) = then_right e (flip i)
flip (then_right e i) = then_left e (flip i)

if_stored-same :
    {E : Type 0} (job : Job) (answer : Result E Job) (t u : JobTable) (n : String)
    → t n ≡ u n
    → if_stored job answer t n ≡ if_stored job answer u n
if_stored-same job (ok _) t u n same = ground arith
if_stored-same job (err _) t u n same = same

if_deleted-same :
    {E A : Type 0} (name : String) (answer : Result E A) (t u : JobTable) (n : String)
    → t n ≡ u n
    → if_deleted name answer t n ≡ if_deleted name answer u n
if_deleted-same name (ok _) t u n same = ground arith
if_deleted-same name (err _) t u n same = same

if_deleted-other :
    {E A : Type 0} (name : String) (answer : Result E A) (t : JobTable) (n : String)
    → n ≢ name
    → if_deleted name answer t n ≡ t n
if_deleted-other name (ok _) t n differs = ground arith
if_deleted-other name (err _) t n differs = refl

-- What an event makes of a job depends on that job alone.
apply-same :
    {V : Vendor} (e : Event V) (t u : JobTable) (n : String) → t n ≡ u n → apply e t n ≡ apply e u n
apply-same (created_job _ job answer) t u n same = if_stored-same job answer t u n same
apply-same (updated_job job answer) t u n same = if_stored-same job answer t u n same
apply-same (deleted_job name answer) t u n same = if_deleted-same name answer t u n same
apply-same (handled _) t u n same = same
apply-same (looked_up _ _) t u n same = same
apply-same (fetched _ _ _ _) t u n same = same
apply-same (got_service _ _ _) t u n same = same
apply-same (created_service _ _ _) t u n same = same
apply-same (dialled _) t u n same = same
apply-same (got_job _ _) t u n same = same
apply-same (updated_source _ _ _) t u n same = same

pub apply-other :
    {V : Vendor} (e : Event V) (t : JobTable) (n b : String)
    → n ≢ b
    → IsAbout b e
    → apply e t n ≡ t n
apply-other (created_job _ job answer) t n b differs about =
    if_stored-ne job answer t n λ p. differs (p ∙ about)
apply-other (updated_job job answer) t n b differs about =
    if_stored-ne job answer t n λ p. differs (p ∙ about)
apply-other (deleted_job name answer) t n b differs about =
    if_deleted-other name answer t n λ p. differs (p ∙ about)
apply-other (handled _) t n b differs about = refl
apply-other (looked_up _ _) t n b differs about = refl
apply-other (fetched _ _ _ _) t n b differs about = refl
apply-other (got_service _ _ _) t n b differs about = refl
apply-other (created_service _ _ _) t n b differs about = refl
apply-other (dialled _) t n b differs about = refl
apply-other (got_job _ _) t n b differs about = refl
apply-other (updated_source _ _ _) t n b differs about = refl

module _ {V : Vendor} (initial : JobTable) where
  -- The other worker's events, all about the job `b`, change nothing of what the first one's have
  -- made of another job.
  jobs-interleaved :
      (n b : String)
      → n ≢ b
      → {l r m : History V} → Interleaving l r m
      → All (IsAbout b) r
      → jobs initial m n ≡ jobs initial l n
  jobs-interleaved n b differs start a = refl
  jobs-interleaved n b differs (then_left e i) a =
      apply-same e _ _ n (jobs-interleaved n b differs i a)
  jobs-interleaved n b differs (then_right {l} {r} {m} e i) a =
      apply-other e (jobs initial m) n b differs a.0 ∙ jobs-interleaved n b differs i a.1

  jobs-own :
      (n b : String) → n ≢ b → (h : History V) → All (IsAbout b) h → jobs initial h n ≡ initial n
  jobs-own n b differs [] a = refl
  jobs-own n b differs (e ∷ h) a =
      apply-other e (jobs initial h) n b differs a.0 ∙ jobs-own n b differs h a.1

module _ {V : Vendor} (left_env right_env : Env V) (ra : String) (initial : JobTable)
    (key namespace name : String) (source : CloudSchedulerSource)
    (other_key other_namespace other_name : String) (other : CloudSchedulerSource) (m : History V)
    (split : V.split_meta_namespace_key key ≡ ok (namespace, name))
    (held : cached V name (left_env.get_by_key [] (cache_key namespace name)) ≡ ok source)
    (other_split : V.split_meta_namespace_key other_key ≡ ok (other_namespace, other_name))
    (other_held : cached V other_name
        (right_env.get_by_key [] (cache_key other_namespace other_name))
      ≡ ok other)
    (i : Interleaving
      (reconcile left_env ra key []).1
      (reconcile right_env ra other_key []).1
      m) where
  left_own : All (IsAbout (job_name source)) (reconcile left_env ra key []).1
  left_own = reconcile-AreOwn left_env ra source key namespace name split held

  right_own : All (IsAbout (job_name other)) (reconcile right_env ra other_key []).1
  right_own =
      reconcile-AreOwn right_env ra other other_key other_namespace other_name other_split
        other_held

  -- Two workers that reconcile cached sources with different job names do not disturb one another:
  -- however their calls of the services are interleaved, whatever the services answer to either,
  -- and whether or not either fails, in the end each of the two jobs is as the calls of its own
  -- worker alone would have left it.
  pub reconcile-interleaved :
      job_name source ≢ job_name other
      → (jobs initial m (job_name source)
          ≡ jobs initial (reconcile left_env ra key []).1 (job_name source))
        × (jobs initial m (job_name other)
            ≡ jobs initial (reconcile right_env ra other_key []).1 (job_name other))
  reconcile-interleaved differs = (
    jobs-interleaved initial _ _ differs i right_own,
    jobs-interleaved initial _ _ (λ p. differs (sym p)) (flip i) left_own,
  )

  -- Every job with neither name is as it was at the start.
  interleaved-frame :
      (n : String) → n ≢ job_name source → n ≢ job_name other → jobs initial m n ≡ initial n
  interleaved-frame n d d' =
      jobs-interleaved initial n _ d' i right_own ∙ jobs-own initial n _ d _ left_own
