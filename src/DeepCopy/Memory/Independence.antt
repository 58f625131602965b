-- ===== src/DeepCopy/Memory/Independence.antt =====
-- `DeepCopy` of a pointer, of pkg/apis/cloudschedulersource/v1alpha1/zz_generated.deepcopy.go: the
-- original and the copy after later writes.
use csr.Base.{ℕ, ◌≡◌, sym, ◌∙◌, Option, arith}
use csr.DeepCopy.Memory.{Pointed, Memory, copy_source, copy_list}
use csr.DeepCopy.Memory.Laws.{IsMetaCopying, SameOn, SameOn-trans}
use csr.DeepCopy.Memory.Pointers.{
  IsPointerWithin, IsListWithin, view_pointer, view_list_pointer, view_pointer-SameOn,
  view_list_pointer-SameOn, copy_source-IsCopy, copy_list-IsCopy,
}

module _ (P : Pointed) (L : IsMetaCopying P) (m : Memory P) (p : Option ℕ) where
  -- A copy of a source reads as the original, also in a memory `written` in which only the addresses
  -- from before the copy have changed; and the original reads as before in a memory `copy_written`
  -- in which those have not changed, whatever was written through the copy.
  pub copy_source-independent :
      (written copy_written : Memory P)
      → IsPointerWithin P m 0 m.next p
      → SameOn P m.next (copy_source P p m).1.next (copy_source P p m).1 written
      → SameOn P 0 m.next (copy_source P p m).1 copy_written
      → (view_pointer P written (copy_source P p m).0 ≡ view_pointer P m p)
        × (view_pointer P copy_written p ≡ view_pointer P m p)
  copy_source-independent written copy_written w s t =
      let c = copy_source-IsCopy P L m p w in
      (
        sym (
              view_pointer-SameOn P L m.next (copy_source P p m).1.next (copy_source P p m).1
                written (copy_source P p m).0 c.fresh s)
            ∙ c.same,
        sym (
            view_pointer-SameOn P L 0 m.next m copy_written p w (
              SameOn-trans P 0 m.next 0 m.next m (copy_source P p m).1 copy_written (omega arith)
                (omega arith) c.keeps t)),
      )

  -- The same of a list of sources, with the array and the sources in it.
  copy_list-independent :
      (written copy_written : Memory P)
      → IsListWithin P m 0 m.next p
      → SameOn P m.next (copy_list P p m).1.next (copy_list P p m).1 written
      → SameOn P 0 m.next (copy_list P p m).1 copy_written
      → (view_list_pointer P written (copy_list P p m).0 ≡ view_list_pointer P m p)
        × (view_list_pointer P copy_written p ≡ view_list_pointer P m p)
  copy_list-independent written copy_written w s t =
      let c = copy_list-IsCopy P L m p w in
      (
        sym (
              view_list_pointer-SameOn P L m.next (copy_list P p m).1.next (copy_list P p m).1
                written (copy_list P p m).0 c.fresh s)
            ∙ c.same,
        sym (
            view_list_pointer-SameOn P L 0 m.next m copy_written p w (
              SameOn-trans P 0 m.next 0 m.next m (copy_list P p m).1 copy_written (omega arith)
                (omega arith) c.keeps t)),
      )
