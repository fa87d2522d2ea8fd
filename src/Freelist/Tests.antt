-- ===== src/Freelist/Tests.antt =====
-- A freelist of three objects that lie at 10, 11 and 12, bounded by four; 20 and 21 are in use, linked.
use gce.Prelude.{
  ℕ, ◌≡◌, ◌<◌, ◌^◌, refl, List, [], ◌∷◌, none, some, arith, if◌then◌else◌, ◌==◌, length,
}
use gce.Freelist.{Heap, Freelist, new_freelist, link_new, reserve, get, free, clear_pool}
use gce.Freelist.Chains.{mem, Chain, Apart}
use gce.Freelist.Frees.{Distinct, Pools, refill, Gets, get-Gets, free-refill, clear_pool-empty}
use gce.Freelist.Reserve.{reserve-Pools}

abbrev pooled : List ℕ
pooled = 10 ∷ 11 ∷ 12 ∷ []

abbrev in_use : Heap
in_use = λ a. if a == 20 then some (some 21) else if a == 21 then some none else none

abbrev pool : Freelist
pool = reserve pooled (new_freelist 4 in_use)

pooled-Distinct : Distinct pooled
pooled-Distinct = (refl, refl, (refl, refl, (refl, refl, tt)))

few_pooled : length pooled < 2 ^ 64
few_pooled = omega arith

reserve-Pools_example : Pools (reserve pooled (new_freelist 4 in_use)) pooled
reserve-Pools_example = reserve-Pools pooled 4 in_use pooled-Distinct few_pooled

pool-Pools : Pools pool pooled
pool-Pools = reserve-Pools pooled 4 in_use pooled-Distinct few_pooled

get-Gets_example : Gets 30 pooled pool (get 30 pool)
get-Gets_example = get-Gets 30 pooled pool pool-Pools

abbrev returned : List ℕ
returned = 20 ∷ 21 ∷ []

returned-Chain : Chain pool.heap (some 20) returned
unfolding reserve new_freelist link_new
returned-Chain = (refl, (some 21, refl, (refl, (none, refl, tt))))

returned-Apart : Apart returned pooled
returned-Apart = (refl, refl, (refl, refl, tt))

small_pool : pool.cache_size < 2 ^ 64
unfolding reserve new_freelist link_new
small_pool = omega arith

free-refill_example :
    (g : Freelist) × (free 2 (some 20) pool ≡ some g)
    × Pools g (refill pool.cache_size returned pooled)
    × (g.cache_size ≡ pool.cache_size)
free-refill_example =
    free-refill 2 returned pooled (some 20) pool pool-Pools returned-Chain returned-Apart small_pool
      (omega arith)

clear_pool-empty_example :
    (g : Freelist) × (clear_pool 3 pool ≡ some g)
    × Pools g []
    × ((a : ℕ) → g.heap a ≡ (if mem a pooled then none else pool.heap a))
clear_pool-empty_example = clear_pool-empty 3 pooled pool pool-Pools (omega arith)
