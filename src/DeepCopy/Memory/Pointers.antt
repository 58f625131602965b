-- ===== src/DeepCopy/Memory/Pointers.antt =====
-- `DeepCopy` of a pointer to a source and of a pointer to a list: the copy reads as the original,
-- and neither sees a later write through the other.
use csr.Base.{ℕ, suc, ◌≡◌, ◌≤◌, ◌<◌, nat_eq, refl, ap, ◌∙◌, Option, none, some, arith}
use csr.Api.{CloudSchedulerSource, CloudSchedulerSourceList}
use csr.Api.Meta.{Slice, nil_slice, slice}
use csr.DeepCopy.Memory.{
  Pointed, Memory, ListCell, put, source_into, items_into, array_into, list_into, copy_source,
  copy_list,
}
use csr.DeepCopy.Memory.Laws.{
  IsMetaCopying, SameOn, view_source, view_items, IsSourceWithin, AreWithin, IsCopy,
}
use csr.DeepCopy.Memory.Sources.{
  AreWithin-widen, IsSourceWithin-widen, view_source-SameOn, view_items-SameOn, source_into-IsCopy,
  items_into-IsCopy,
}

put_same {ℓ} : {A : Type ℓ} (f : ℕ → A) (p : ℕ) (v : A) → put f p v p ≡ v
put_same f p v = ground arith

put_other {ℓ} : {A : Type ℓ} (f : ℕ → A) (p : ℕ) (v : A) (q : ℕ) → q < p → f q ≡ put f p v q
put_other f p v q h = ground arith

module _ (P : Pointed) where
  -- A pointer to a source, and all that the source leads to.
  abbrev pub IsPointerWithin : Memory P → ℕ → ℕ → Option ℕ → Type 0
  IsPointerWithin m lo hi none = Unit
  IsPointerWithin m lo hi (some p) = ((lo ≤ p) × (p < hi)) × IsSourceWithin P lo hi (m.sources p)

  abbrev pub view_pointer : Memory P → Option ℕ → Option CloudSchedulerSource
  view_pointer m none = none
  view_pointer m (some p) = some (view_source P m (m.sources p))

  abbrev pub IsArrayWithin : Memory P → ℕ → ℕ → Option ℕ → Type 0
  IsArrayWithin m lo hi none = Unit
  IsArrayWithin m lo hi (some a) = ((lo ≤ a) × (a < hi)) × AreWithin P lo hi (m.arrays a)

  abbrev pub view_array : Memory P → Option ℕ → Slice CloudSchedulerSource
  view_array m none = nil_slice
  view_array m (some a) = slice (view_items P m (m.arrays a))

  abbrev pub IsListWithin : Memory P → ℕ → ℕ → Option ℕ → Type 0
  IsListWithin m lo hi none = Unit
  IsListWithin m lo hi (some p) = ((lo ≤ p) × (p < hi)) × IsArrayWithin m lo hi (m.lists p).items

  abbrev pub view_list : Memory P → ListCell → CloudSchedulerSourceList
  view_list m list = record {
    type_meta = list.type_meta;
    resource_version = list.resource_version;
    items = view_array m list.items;
  }

  abbrev pub view_list_pointer : Memory P → Option ℕ → Option CloudSchedulerSourceList
  view_list_pointer m none = none
  view_list_pointer m (some p) = some (view_list m (m.lists p))

module _ (P : Pointed) (L : IsMetaCopying P) where
  pub view_pointer-SameOn :
      (lo hi : ℕ) (m m' : Memory P) (p : Option ℕ)
      → IsPointerWithin P m lo hi p
      → SameOn P lo hi m m'
      → view_pointer P m p ≡ view_pointer P m' p
  view_pointer-SameOn lo hi m m' none w s = refl
  view_pointer-SameOn lo hi m m' (some p) w s = ap some (
      view_source-SameOn P L lo hi m m' (m.sources p) w.1 s
      ∙ ap (view_source P m') (s p w.0.0 w.0.1).2)

  view_array-SameOn :
      (lo hi : ℕ) (m m' : Memory P) (a : Option ℕ)
      → IsArrayWithin P m lo hi a
      → SameOn P lo hi m m'
      → view_array P m a ≡ view_array P m' a
  view_array-SameOn lo hi m m' none w s = refl
  view_array-SameOn lo hi m m' (some a) w s = ap slice (
      view_items-SameOn P L lo hi m m' (m.arrays a) w.1 s
      ∙ ap (view_items P m') (s a w.0.0 w.0.1).3)

  pub view_list_pointer-SameOn :
      (lo hi : ℕ) (m m' : Memory P) (p : Option ℕ)
      → IsListWithin P m lo hi p
      → SameOn P lo hi m m'
      → view_list_pointer P m p ≡ view_list_pointer P m' p
  view_list_pointer-SameOn lo hi m m' none w s = refl
  view_list_pointer-SameOn lo hi m m' (some p) w s = ap some (
      ap
        (λ i. record {
          type_meta = (m.lists p).type_meta;
          resource_version = (m.lists p).resource_version;
          items = i;
        })
        (view_array-SameOn lo hi m m' (m.lists p).items w.1 s)
      ∙ ap (view_list P m') (s p w.0.0 w.0.1).4)

  pub copy_source-IsCopy :
      (m : Memory P) (p : Option ℕ)
      → IsPointerWithin P m 0 m.next p
      → IsCopy P (view_pointer P) (IsPointerWithin P) m (view_pointer P m p) (copy_source P p m)
  unfolding copy_source
  copy_source-IsCopy m none w = record {
    grows = omega arith;
    keeps = λ a p q. (refl, refl, refl, refl, refl, refl, refl);
    fresh = tt;
    same = refl;
  }
  copy_source-IsCopy m (some p) w =
      let inner =
        source_into-IsCopy P L (record m { next = suc m.next }) (m.sources p)
          (IsSourceWithin-widen P L 0 m.next 0 (suc m.next) (m.sources p) (omega arith)
            (omega arith) w.1) in
      let (source, m1) = source_into P (m.sources p) (record m { next = suc m.next }) in
      record {
        grows = omega (arith, inner.grows);
        keeps = λ a l h.
            let k = inner.keeps a l (omega arith) in
            (k.0, k.1, k.2 ∙ put_other m1.sources m.next source a h, k.3, k.4, k.5, k.6);
        fresh = (
          (omega arith, omega (arith, inner.grows)),
          rw (put_same m1.sources m.next source) (
              IsSourceWithin-widen P L (suc m.next) m1.next m.next m1.next source (omega arith)
                (omega arith) inner.fresh),
        );
        same = ap some (ap (view_source P m1) (put_same m1.sources m.next source) ∙ inner.same);
      }

  array_into-IsCopy :
      (m : Memory P) (a : Option ℕ)
      → IsArrayWithin P m 0 m.next a
      → IsCopy P (view_array P) (IsArrayWithin P) m (view_array P m a) (array_into P a m)
  unfolding array_into
  array_into-IsCopy m none w = record {
    grows = omega arith;
    keeps = λ a p q. (refl, refl, refl, refl, refl, refl, refl);
    fresh = tt;
    same = refl;
  }
  array_into-IsCopy m (some a) w =
      let inner =
        items_into-IsCopy P L (record m { next = suc m.next }) (m.arrays a)
          (AreWithin-widen P L 0 m.next 0 (suc m.next) (m.arrays a) (omega arith) (omega arith)
            w.1) in
      let (items, m1) = items_into P (m.arrays a) (record m { next = suc m.next }) in
      record {
        grows = omega (arith, inner.grows);
        keeps = λ x l h.
            let k = inner.keeps x l (omega arith) in
            (k.0, k.1, k.2, k.3 ∙ put_other m1.arrays m.next items x h, k.4, k.5, k.6);
        fresh = (
          (omega arith, omega (arith, inner.grows)),
          rw (put_same m1.arrays m.next items) (
              AreWithin-widen P L (suc m.next) m1.next m.next m1.next items (omega arith)
                (omega arith) inner.fresh),
        );
        same = ap slice (ap (view_items P m1) (put_same m1.arrays m.next items) ∙ inner.same);
      }

  IsArrayWithin-widen :
      (m : Memory P) (lo hi lo' hi' : ℕ) (a : Option ℕ)
      → lo' ≤ lo
      → hi ≤ hi'
      → IsArrayWithin P m lo hi a
      → IsArrayWithin P m lo' hi' a
  IsArrayWithin-widen m lo hi lo' hi' none l h w = tt
  IsArrayWithin-widen m lo hi lo' hi' (some a) l h w =
      ((omega arith, omega arith), AreWithin-widen P L lo hi lo' hi' (m.arrays a) l h w.1)

  pub copy_list-IsCopy :
      (m : Memory P) (p : Option ℕ)
      → IsListWithin P m 0 m.next p
      → IsCopy P
          (view_list_pointer P)
          (IsListWithin P)
          m
          (view_list_pointer P m p)
          (copy_list P p m)
  unfolding copy_list list_into
  copy_list-IsCopy m none w = record {
    grows = omega arith;
    keeps = λ a p q. (refl, refl, refl, refl, refl, refl, refl);
    fresh = tt;
    same = refl;
  }
  copy_list-IsCopy m (some p) w =
      let list = m.lists p in
      let inner =
        array_into-IsCopy (record m { next = suc m.next }) list.items
          (IsArrayWithin-widen (record m { next = suc m.next }) 0 m.next 0 (suc m.next) list.items
            (omega arith) (omega arith) w.1) in
      let (items, m1) = array_into P list.items (record m { next = suc m.next }) in
      let list' : ListCell = record list { items = items } in
      record {
        grows = omega (arith, inner.grows);
        keeps = λ x l h.
            let k = inner.keeps x l (omega arith) in
            (k.0, k.1, k.2, k.3, k.4 ∙ put_other m1.lists m.next list' x h, k.5, k.6);
        fresh = (
          (omega arith, omega (arith, inner.grows)),
          rw (put_same m1.lists m.next list') (
              IsArrayWithin-widen m1 (suc m.next) m1.next m.next m1.next items (omega arith)
                (omega arith) inner.fresh),
        );
        same = ap some (
            ap (view_list P m1) (put_same m1.lists m.next list')
            ∙ ap
                (λ i. record {
                  type_meta = list.type_meta;
                  resource_version = list.resource_version;
                  items = i;
                })
                inner.same);
      }
