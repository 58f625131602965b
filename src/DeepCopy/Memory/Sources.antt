-- ===== src/DeepCopy/Memory/Sources.antt =====
-- The copies of a source and of a list of sources, as cells: what they read as, and what they leave
-- alone.
use mathlib.Core.Option.{map}
use mathlib.Core.Path.{ap₂}
use csr.Base.{ℕ, ◌≡◌, ◌≤◌, nat_eq, refl, sym, ◌∙◌, Option, none, some, List, [], ◌∷◌, arith}
use csr.DeepCopy.Memory.{
  Pointed, Memory, SourceCell, sink_into, spec_into, meta_into, source_into, items_into,
}
use csr.DeepCopy.Memory.Laws.{
  IsMetaCopying, IsWithin, SameOn, SameOn-trans, view_source, view_items, IsSourceWithin, AreWithin,
  IsCopy, view_sink-SameOn, sink_into-IsCopy,
}

module _ (P : Pointed) (L : IsMetaCopying P) where
  IsWithin-widen :
      (lo hi lo' hi' : ℕ) (p : Option ℕ)
      → lo' ≤ lo
      → hi ≤ hi'
      → IsWithin lo hi p
      → IsWithin lo' hi' p
  IsWithin-widen lo hi lo' hi' none l h w = tt
  IsWithin-widen lo hi lo' hi' (some p) l h w = (omega arith, omega arith)

  pub IsSourceWithin-widen :
      (lo hi lo' hi' : ℕ) (source : SourceCell P)
      → lo' ≤ lo
      → hi ≤ hi'
      → IsSourceWithin P lo hi source
      → IsSourceWithin P lo' hi' source
  IsSourceWithin-widen lo hi lo' hi' source l h w = (
    L.widen lo hi lo' hi' source.object_meta l h w.0,
    IsWithin-widen lo hi lo' hi' source.spec.sink l h w.1,
  )

  -- What a source reads as depends on the addresses in it alone.
  pub view_source-SameOn :
      (lo hi : ℕ) (m m' : Memory P) (source : SourceCell P)
      → IsSourceWithin P lo hi source
      → SameOn P lo hi m m'
      → view_source P m source ≡ view_source P m' source
  view_source-SameOn lo hi m m' source w s =
      let metas : P.view m.blocks source.object_meta ≡ P.view m'.blocks source.object_meta =
        L.reads lo hi m.blocks m'.blocks source.object_meta w.0 (λ a p q. (s a p q).0) in
      rw (metas, view_sink-SameOn P lo hi m m' source.spec.sink w.1 s)

  meta_into-IsCopy :
      (m : Memory P) (meta : P.Meta)
      → P.Within 0 m.next meta
      → IsCopy P
          (λ m' c. P.view m'.blocks c)
          (λ m'. P.Within)
          m
          (P.view m.blocks meta)
          (meta_into P meta m)
  unfolding meta_into
  meta_into-IsCopy m meta w = record {
    grows = L.grows meta m.next m.blocks;
    keeps = λ a p q. (L.keeps meta m.next m.blocks a q, refl, refl, refl, refl, refl, refl);
    fresh = L.fresh meta m.next m.blocks;
    same = L.same meta m.next m.blocks w;
  }

  -- `DeepCopyInto` of a source.
  pub source_into-IsCopy :
      (m : Memory P) (source : SourceCell P)
      → IsSourceWithin P 0 m.next source
      → IsCopy P
          (view_source P)
          (λ m'. IsSourceWithin P)
          m
          (view_source P m source)
          (source_into P source m)
  unfolding source_into spec_into
  source_into-IsCopy m source w =
      let metas = meta_into-IsCopy m source.object_meta w.0 in
      let (meta, m1) = meta_into P source.object_meta m in
      let sinks = sink_into-IsCopy P m1 source.spec.sink in
      let (sink, m2) = sink_into P source.spec.sink m1 in
      let meta_reads : P.view m2.blocks meta ≡ P.view m.blocks source.object_meta =
        sym (
          L.reads m.next m1.next m1.blocks m2.blocks meta metas.fresh
            (λ a p q. (sinks.keeps a (omega arith) q).0))
        ∙ metas.same in
      let sink_reads : map m2.references sink ≡ map m.references source.spec.sink =
        sinks.same ∙ sym (view_sink-SameOn P 0 m.next m m1 source.spec.sink w.1 metas.keeps) in
      record {
        grows = omega (arith, metas.grows, sinks.grows);
        keeps =
            SameOn-trans P 0 m.next 0 m1.next m m1 m2 (omega arith) metas.grows metas.keeps
              sinks.keeps;
        fresh = (
          L.widen m.next m1.next m.next m2.next meta (omega arith) sinks.grows metas.fresh,
          IsWithin-widen m1.next m2.next m.next m2.next sink metas.grows (omega arith) sinks.fresh,
        );
        same = rw (meta_reads, sink_reads);
      }

  pub AreWithin-widen :
      (lo hi lo' hi' : ℕ) (sources : List (SourceCell P))
      → lo' ≤ lo
      → hi ≤ hi'
      → AreWithin P lo hi sources
      → AreWithin P lo' hi' sources
  AreWithin-widen lo hi lo' hi' [] l h w = tt
  AreWithin-widen lo hi lo' hi' (source ∷ sources) l h w = (
    IsSourceWithin-widen lo hi lo' hi' source l h w.0,
    AreWithin-widen lo hi lo' hi' sources l h w.1,
  )

  pub view_items-SameOn :
      (lo hi : ℕ) (m m' : Memory P) (sources : List (SourceCell P))
      → AreWithin P lo hi sources
      → SameOn P lo hi m m'
      → view_items P m sources ≡ view_items P m' sources
  view_items-SameOn lo hi m m' [] w s = refl
  view_items-SameOn lo hi m m' (source ∷ sources) w s =
      ap₂ (λ x xs. x ∷ xs) (view_source-SameOn lo hi m m' source w.0 s)
        (view_items-SameOn lo hi m m' sources w.1 s)

  -- The loop over the items copies each of them, in order.
  pub items_into-IsCopy :
      (m : Memory P) (sources : List (SourceCell P))
      → AreWithin P 0 m.next sources
      → IsCopy P
          (view_items P)
          (λ m'. AreWithin P)
          m
          (view_items P m sources)
          (items_into P sources m)
  unfolding items_into
  items_into-IsCopy m [] w = record {
    grows = omega arith;
    keeps = λ a p q. (refl, refl, refl, refl, refl, refl, refl);
    fresh = tt;
    same = refl;
  }
  items_into-IsCopy m (source ∷ sources) w =
      let head = source_into-IsCopy m source w.0 in
      let (source', m1) = source_into P source m in
      let tail =
        items_into-IsCopy m1 sources
          (AreWithin-widen 0 m.next 0 m1.next sources (omega arith) head.grows w.1) in
      let (sources', m2) = items_into P sources m1 in
      record {
        grows = omega (arith, head.grows, tail.grows);
        keeps =
            SameOn-trans P 0 m.next 0 m1.next m m1 m2 (omega arith) head.grows head.keeps
              tail.keeps;
        fresh = (
          IsSourceWithin-widen m.next m1.next m.next m2.next source' (omega arith) tail.grows
              head.fresh,
          AreWithin-widen m1.next m2.next m.next m2.next sources' head.grows (omega arith)
              tail.fresh,
        );
        same =
            ap₂ (λ x xs. x ∷ xs)
              (sym (
                  view_source-SameOn m.next m1.next m1 m2 source' head.fresh
                    (λ a p q. tail.keeps a (omega arith) q))
                ∙ head.same)
              (tail.same ∙ sym (view_items-SameOn 0 m.next m m1 sources w.1 head.keeps));
      }
