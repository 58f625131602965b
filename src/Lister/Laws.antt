-- ===== src/Lister/Laws.antt =====
-- What the lister's `Get` returns for each answer of the cache.
use csr.Base.{String, ◌≡◌, refl, Option, none, some, Result, ok, err, ◌∷◌}
use csr.Api.{CloudSchedulerSource, resource}
use csr.Platform.{Vendor, Env, History, looked_up}
use csr.Lister.{cache_key, get}

-- An object that is not in the cache is a NotFound error.
abbrev pub cached :
    (V : Vendor)
    → String
    → Result V.Error (Option CloudSchedulerSource)
    → Result V.Error CloudSchedulerSource
cached V name (ok (some original)) = ok original
cached V name (ok none) = err (V.new_not_found (resource "cloudschedulersource") name)
cached V name (err e) = err e

module _ {V : Vendor} (env : Env V) (namespace name : String) (h : History V) where
  answered :
      Result V.Error (Option CloudSchedulerSource) → Result V.Error CloudSchedulerSource × History V
  answered r = (cached V name r, looked_up (cache_key namespace name) r ∷ h)

  -- `Get` looks the key up once, in the cache, and gives the object, NotFound, or the cache's error.
  pub get_lem : get env namespace name h ≡ (
    cached V name (env.get_by_key h (cache_key namespace name)),
    looked_up (cache_key namespace name) (env.get_by_key h (cache_key namespace name)) ∷ h,
  )
  unfolding get answered
  get_lem = at_answer _ refl
    where
      at_answer :
          (r : Result V.Error (Option CloudSchedulerSource))
          → env.get_by_key h (cache_key namespace name) ≡ r
          → get env namespace name h ≡ answered r
      at_answer (ok (some original)) p = rw p
      at_answer (ok none) p = rw p
      at_answer (err e) p = rw p

pub cached-eq-ok :
    (V : Vendor) (name : String) (answer : Result V.Error (Option CloudSchedulerSource))
    {csr : CloudSchedulerSource}
    → cached V name answer ≡ ok csr
    → answer ≡ ok (some csr)
cached-eq-ok V name (ok (some original)) p = cc
cached-eq-ok V name (ok none) p = cc
cached-eq-ok V name (err e) p = cc
