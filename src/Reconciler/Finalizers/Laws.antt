-- ===== src/Reconciler/Finalizers/Laws.antt =====
-- `addFinalizer` and `removeFinalizer` as operations on the set of finalizers.
use csr.Base.{String, ◌≡◌, ap, not, ◌&&◌, ◌||◌, List, arith, contains, ◌==◌, string_eq}
use csr.Base.Order.{IsSorted, sorted_ext}
use csr.Api.{CloudSchedulerSource}
use csr.Api.Meta.{items_of}
use csr.Platform.{Vendor}
use csr.Platform.Sets.{AreSets}
use csr.Reconciler.Finalizers.{finalizer_name, add_finalizer, remove_finalizer, set_finalizers}

abbrev pub finalizers : CloudSchedulerSource → List String
finalizers csr = items_of csr.object_meta.finalizers

module _ (V : Vendor) (S : AreSets V) (csr : CloudSchedulerSource) where
  pub contains-add_finalizer :
      (x : String)
      → contains (finalizers (add_finalizer V csr)) x
        ≡ (x == finalizer_name || contains (finalizers csr) x)
  unfolding add_finalizer
  contains-add_finalizer x = ground (
    arith,
    S.contains-insert (V.new_string (finalizers csr)) finalizer_name x,
    S.contains-new_string (finalizers csr) x,
  )

  pub contains-remove_finalizer :
      (x : String)
      → contains (finalizers (remove_finalizer V csr)) x
        ≡ (not (x == finalizer_name) && contains (finalizers csr) x)
  unfolding remove_finalizer
  contains-remove_finalizer x = ground (
    arith,
    S.contains-delete (V.new_string (finalizers csr)) finalizer_name x,
    S.contains-new_string (finalizers csr) x,
  )

  pub add_finalizer-IsSorted : IsSorted (finalizers (add_finalizer V csr))
  unfolding add_finalizer
  add_finalizer-IsSorted = S.list-IsSorted _

  pub remove_finalizer-IsSorted : IsSorted (finalizers (remove_finalizer V csr))
  unfolding remove_finalizer
  remove_finalizer-IsSorted = S.list-IsSorted _

module _ (V : Vendor) (S : AreSets V) (csr : CloudSchedulerSource) where
  pub finalizers-add-add :
      finalizers (add_finalizer V (add_finalizer V csr)) ≡ finalizers (add_finalizer V csr)
  finalizers-add-add =
      sorted_ext _ _ (add_finalizer-IsSorted V S (add_finalizer V csr))
        (add_finalizer-IsSorted V S csr)
        λ x. ground (
          arith,
          contains-add_finalizer V S (add_finalizer V csr) x,
          contains-add_finalizer V S csr x,
        )

  finalizers-remove-add :
      finalizers (remove_finalizer V (add_finalizer V csr)) ≡ finalizers (remove_finalizer V csr)
  finalizers-remove-add =
      sorted_ext _ _ (remove_finalizer-IsSorted V S (add_finalizer V csr))
        (remove_finalizer-IsSorted V S csr)
        λ x. ground (
          arith,
          contains-remove_finalizer V S (add_finalizer V csr) x,
          contains-remove_finalizer V S csr x,
          contains-add_finalizer V S csr x,
        )

  -- On the set of finalizers `addFinalizer` adds the controller's and `removeFinalizer` takes it
  -- away, and both write the set in order, so that adding it twice is adding it once, and removing
  -- it after adding it leaves what removing it alone leaves, in the whole source.
  pub finalizer_laws :
      (x : String)
      → (contains (finalizers (add_finalizer V csr)) x
          ≡ (x == finalizer_name || contains (finalizers csr) x))
        × (contains (finalizers (remove_finalizer V csr)) x
            ≡ (not (x == finalizer_name) && contains (finalizers csr) x))
        × IsSorted (finalizers (add_finalizer V csr))
        × IsSorted (finalizers (remove_finalizer V csr))
        × (add_finalizer V (add_finalizer V csr) ≡ add_finalizer V csr)
        × (remove_finalizer V (add_finalizer V csr) ≡ remove_finalizer V csr)
  unfolding add_finalizer remove_finalizer
  finalizer_laws x = (
    contains-add_finalizer V S csr x,
    contains-remove_finalizer V S csr x,
    add_finalizer-IsSorted V S csr,
    remove_finalizer-IsSorted V S csr,
    ap (set_finalizers csr) finalizers-add-add,
    ap (set_finalizers csr) finalizers-remove-add,
  )
