-- ===== src/Platform/Sets.antt =====
-- What is assumed of sets of texts (k8s.io/apimachinery/pkg/util/sets): `List` is the sorted list
-- of the members, each once.
use csr.Base.{String, ◌≡◌, not, ◌&&◌, ◌||◌, List, ◌==◌, string_eq, contains}
use csr.Base.Order.{IsSorted}
use csr.Platform.{Vendor}

pub record AreSets (V : Vendor) : Type 0 where
  pub contains-new_string :
      (xs : List String) (x : String) → contains (V.list (V.new_string xs)) x ≡ contains xs x
  pub contains-insert :
      (s : V.StringSet) (a x : String)
      → contains (V.list (V.insert s a)) x ≡ (x == a || contains (V.list s) x)
  pub contains-delete :
      (s : V.StringSet) (a x : String)
      → contains (V.list (V.delete s a)) x ≡ (not (x == a) && contains (V.list s) x)
  pub list-IsSorted : (s : V.StringSet) → IsSorted (V.list s)
