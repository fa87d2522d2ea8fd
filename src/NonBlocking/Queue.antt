-- ===== src/NonBlocking/Queue.antt =====
-- The queues of libs/actor/src/nonblocking_actor.cpp between the threads that send and the one that
-- polls. A pointer to a pack is the number of its cache queue and its `cache_index_`, and its use after
-- the pack is gone is `none`, as is a failed BOOST_ASSERT. `pack_queue_` is a queue of
-- boost.lockfree, first in, first out, and the atomic operations on it and on `garbage_tail_` are the
-- steps that interleave.
pub mod Segment
pub mod Trim
pub mod Order
pub mod Invariant
pub mod Receive
pub mod Release
pub mod Fifo
mod Tests
use gce.Prelude.{
  ℕ, zero, suc, ◌+◌, ◌-◌, ◌%◌, ◌^◌, Bool, true, false, not, ◌&&◌, List, [], ◌∷◌, ◌++◌, Option, none,
  some, leb, ltb, if◌then◌else◌, ◌==◌, ◌>>=◌, length, get_or, set, replicate,
}
use gce.Message.{Pack}

abbrev pub u64_nil : ℕ
u64_nil = 2 ^ 64 - 1

-- `struct cache_queue`
pub record CacheQueue : Type 0 where
  pub que : List Pack
  pub index_base : ℕ
  pub head : ℕ
  pub garbage_tail : ℕ

-- `cache_queue()`
abbrev pub new_queue : CacheQueue
new_queue = record { que = []; index_base = 0; head = 0; garbage_tail = u64_nil }

abbrev pub drop : ℕ → List Pack → List Pack
drop zero ps = ps
drop (suc n) [] = []
drop (suc n) (p ∷ ps) = drop n ps

-- `cac_que.head_` after the garbage is gone.
unfoldable pub head_of : List Pack → ℕ → ℕ
head_of [] index_base = index_base
head_of (pk ∷ _) index_base = pk.cache_index

-- The first part of `on_recv`: the packs up to `garbage_tail_` are dropped.
unfoldable pub trim : CacheQueue → Option CacheQueue
unfolding head_of
trim q =
    if not (q.garbage_tail == u64_nil) && leb q.head q.garbage_tail
    then (let size = (q.garbage_tail - q.head) + 1 in
        let rest = drop size q.que in
        if leb size (length q.que)
        then some (record q { que = rest; head = head_of rest q.index_base })
        else none)
    else some q

-- The rest of it.
unfoldable pub append : Pack → CacheQueue → CacheQueue
append pk q = record q {
  que = q.que ++ (record pk { cache_index = q.index_base } ∷ []);
  index_base = (q.index_base + 1) % 2 ^ 64;
}

-- The queues, the pointers in `pack_queue_`, and `gc_`.
pub record Queues : Type 0 where
  pub cache_queue_list : List CacheQueue
  pub pack_queue : List (ℕ × ℕ)
  pub gc : List (Option (ℕ × ℕ))

abbrev pub no_garbage : ℕ → List (Option (ℕ × ℕ))
no_garbage size = replicate size none

abbrev pub queue_at : ℕ → Queues → CacheQueue
queue_at i s = get_or s.cache_queue_list i new_queue

unfoldable pub new_queues : ℕ → Queues
new_queues size = record {
  cache_queue_list = replicate size new_queue;
  pack_queue = [];
  gc = no_garbage size;
}

-- `on_recv`
unfoldable pub on_recv : Pack → Queues → Option Queues
on_recv pk s =
    let i = pk.cache_queue_index in
    if ltb i (length s.cache_queue_list)
    then (do
      q ← trim (queue_at i s)
      some (record s {
        cache_queue_list = set s.cache_queue_list i (append pk q);
        pack_queue = s.pack_queue ++ ((i, q.index_base) ∷ []);
      }))
    else none

abbrev pub lookup : ℕ → List Pack → Option Pack
lookup k [] = none
lookup k (p ∷ ps) = if p.cache_index == k then some p else lookup k ps

-- `*pk`
unfoldable pub deref : ℕ × ℕ → Queues → Option Pack
deref (i, k) s = lookup k (queue_at i s).que

-- One turn of the loop of `move_pack`, with the pack that goes to `handle_recv`.
unfoldable pub pop_from : List (ℕ × ℕ) → Queues → Option (Option Pack × Queues)
pop_from [] s = some (none, s)
pop_from (ptr ∷ rest) s = do
  pk ← deref ptr s
  some (some pk, record s { pack_queue = rest; gc = set s.gc pk.cache_queue_index (some ptr) })

unfoldable pub pop_pack : Queues → Option (Option Pack × Queues)
pop_pack s = pop_from s.pack_queue s

-- The loop of `release_pack`, from the queue `i` on.
unfoldable pub release_from : ℕ → List (Option (ℕ × ℕ)) → Queues → Option Queues
release_from i [] s = some s
release_from i (none ∷ rest) s = release_from (suc i) rest s
release_from i (some ptr ∷ rest) s = do
  pk ← deref ptr s
  release_from (suc i) rest (record s {
    cache_queue_list =
        set s.cache_queue_list i (record (queue_at i s) { garbage_tail = pk.cache_index });
  })

unfoldable pub release_pack : Queues → Option Queues
release_pack s = release_from 0 s.gc s

-- The first lines of `move_pack`: `gc_.clear(); gc_.resize(...)`.
unfoldable pub clear_gc : Queues → Queues
clear_gc s = record s { gc = no_garbage (length s.cache_queue_list) }
