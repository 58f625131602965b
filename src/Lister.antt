-- ===== src/Lister.antt =====
-- The lister of the resource's informer, which reads the local cache:
-- pkg/client/listers/cloudschedulersource/v1alpha1/cloudschedulersource.go.
pub mod Laws
pub mod Listing
use csr.Base.{String, ◌<>◌, Option, none, some, pure, fail, ◌>>=◌}
use csr.Api.{CloudSchedulerSource, resource}
use csr.Platform.{Vendor, Env, Run, get_by_key}

-- The key of an object in the cache.
abbrev pub cache_key : String → String → String
cache_key namespace name = namespace <> ("/" <> name)

module _ {V : Vendor} (env : Env V) where
  found_or_not : String → Option CloudSchedulerSource → Run V CloudSchedulerSource
  found_or_not name none = fail (V.new_not_found (resource "cloudschedulersource") name)
  found_or_not name (some obj) = pure obj

  -- `CloudSchedulerSources(namespace).Get(name)`
  unfoldable pub get : String → String → Run V CloudSchedulerSource
  unfolding found_or_not
  get namespace name = do
    exists ← get_by_key env (cache_key namespace name)
    found_or_not name exists
