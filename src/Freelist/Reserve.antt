-- ===== src/Freelist/Reserve.antt =====
-- The objects with which a freelist begins.
use gce.Prelude.{
  ℕ, ◌^◌, ◌<◌, ◌≡◌, refl, sym, subst, ◌∙◌, false, List, [], ◌∷◌, none, some, ◌==◌, arith, length,
}
use gce.Freelist.{Heap, Freelist, write, new_freelist, link_new, reserve}
use gce.Freelist.Chains.{mem, Chain, write-same, write-other}
use gce.Freelist.Frees.{Distinct, Pools}

link_new-other :
    (a : ℕ) (objs : List ℕ) (curr : ℕ) (fl : Freelist)
    → (a == curr) ≡ false
    → mem a objs ≡ false
    → (link_new objs (some curr) fl).heap a ≡ fl.heap a
unfolding link_new
link_new-other a [] curr fl n m = refl
link_new-other a (obj ∷ objs) curr fl n m =
    link_new-other a objs obj
      (record fl { heap = write curr (some (some obj)) (write obj (some none) fl.heap) })
      (ground (arith)) (ground (arith))
    ∙ write-other curr a (some (some obj)) (write obj (some none) fl.heap) n
    ∙ write-other obj a (some none) fl.heap (ground (arith))

link_new-Chain :
    (objs : List ℕ) (curr : ℕ) (fl : Freelist)
    → mem curr objs ≡ false
    → Distinct objs
    → fl.heap curr ≡ some none
    → Chain (link_new objs (some curr) fl).heap (some curr) (curr ∷ objs)
unfolding link_new
link_new-Chain [] curr fl m d e = (refl, (none, e, tt))
link_new-Chain (obj ∷ objs) curr fl m (n, k, d) e =
    let gl : Freelist = record fl {
      heap = write curr (some (some obj)) (write obj (some none) fl.heap);
    } in
    let apart : (obj == curr) ≡ false = ground (arith) in
    (
      refl,
      (
        some obj,
        link_new-other curr objs obj gl (ground (arith)) (ground (arith))
            ∙ write-same curr (some (some obj)) (write obj (some none) fl.heap),
        link_new-Chain objs obj gl n d (
            write-other curr obj (some (some obj)) (write obj (some none) fl.heap) apart
            ∙ write-same obj (some none) fl.heap),
      ),
    )

link_new-fields :
    (objs : List ℕ) (curr : ℕ) (fl : Freelist)
    → ((link_new objs (some curr) fl).head ≡ fl.head)
      × ((link_new objs (some curr) fl).size ≡ fl.size)
unfolding link_new
link_new-fields [] curr fl = (refl, refl)
link_new-fields (obj ∷ objs) curr fl =
    link_new-fields objs obj
      (record fl { heap = write curr (some (some obj)) (write obj (some none) fl.heap) })

-- When the allocator gives different objects, fewer than 2^64, a new freelist has them all, in their
-- order, whatever its bound is.
pub reserve-Pools :
    (objs : List ℕ) (cache_size : ℕ) (heap : Heap)
    → Distinct objs
    → length objs < 2 ^ 64
    → Pools (reserve objs (new_freelist cache_size heap)) objs
unfolding reserve new_freelist link_new
reserve-Pools [] cache_size heap d small = record {
  chain = tt;
  distinct = tt;
  size = omega arith;
  small = small;
}
reserve-Pools (obj ∷ objs) cache_size heap (n, k, d) small =
    let fl : Freelist = record {
      cache_size = cache_size;
      size = 0;
      head = some obj;
      heap = write obj (some none) heap;
    } in
    let (h, s) = link_new-fields objs obj fl in
    let c = link_new-Chain objs obj fl n d (write-same obj (some none) heap) in
    record {
      chain = subst (λ o. Chain (link_new objs (some obj) fl).heap o (obj ∷ objs)) (sym h) c;
      distinct = (n, k, d);
      size = omega arith;
      small = small;
    }
