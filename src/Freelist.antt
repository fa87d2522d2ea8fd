-- ===== src/Freelist.antt =====
-- gce/detail/freelist.hpp: the pool of objects that gce/actor/detail/object_pool.hpp keeps, linked by their
-- `next_obj_`. A pointer is a number, the heap says which objects live and what each `next_obj_` is, and
-- the allocator gives the address of a new object. `none` is the use of an object that does not live. The
-- loops run on fuel. The `on_free` of the objects is that of their own classes.
pub mod Chains
pub mod Frees
pub mod Reserve
mod Tests
use gce.Prelude.{
  ℕ, zero, suc, ◌+◌, ◌-◌, ◌%◌, ◌^◌, Bool, true, false, List, [], ◌∷◌, Option, none, some,
  if◌then◌else◌, ltb, ◌==◌, ◌>>=◌, length,
}

abbrev pub Heap : Type 0
Heap = ℕ → Option (Option ℕ)

-- `class freelist`
pub record Freelist : Type 0 where
  pub cache_size : ℕ
  pub size : ℕ
  pub head : Option ℕ
  pub heap : Heap

-- `object_access::set_next`, a new object, or one that is deallocated.
abbrev pub write : ℕ → Option (Option ℕ) → Heap → Heap
write a v h = λ b. if b == a then v else h b

-- A freelist before `reserve`.
unfoldable pub new_freelist : ℕ → Heap → Freelist
new_freelist cache_size heap = record {
  cache_size = cache_size;
  size = 0;
  head = none;
  heap = heap;
}

-- `get`, by what `head_` is; `obj` is the address that the allocator gives.
unfoldable pub get_from : ℕ → Option ℕ → Freelist → Option (ℕ × Freelist)
get_from obj none fl = some (obj, record fl { heap = write obj (some none) fl.heap })
get_from obj (some a) fl = do
  next ← fl.heap a
  some (
    a,
    record fl {
      head = next;
      heap = write a (some none) fl.heap;
      size = (fl.size + (2 ^ 64 - 1)) % 2 ^ 64;
    },
  )

unfoldable pub get : ℕ → Freelist → Option (ℕ × Freelist)
get obj fl = get_from obj fl.head fl

-- The body of the loop of `free`, past `get_next`.
unfoldable pub keep_or_drop : ℕ → Freelist → Freelist
keep_or_drop curr fl =
    if ltb fl.size fl.cache_size
    then record fl {
      heap = write curr (some fl.head) fl.heap;
      head = some curr;
      size = (fl.size + 1) % 2 ^ 64;
    }
    else record fl { heap = write curr none fl.heap }

unfoldable pub free : ℕ → Option ℕ → Freelist → Option Freelist
free fuel none fl = some fl
free zero (some curr) fl = none
free (suc fuel) (some curr) fl = do next ← fl.heap curr; free fuel next (keep_or_drop curr fl)

-- The loop of `clear_pool`.
unfoldable pub drop_all : ℕ → Option ℕ → Heap → Option Heap
drop_all fuel none h = some h
drop_all zero (some curr) h = none
drop_all (suc fuel) (some curr) h = do next ← h curr; drop_all fuel next (write curr none h)

unfoldable pub clear_pool : ℕ → Freelist → Option Freelist
clear_pool fuel fl = do
  h ← drop_all fuel fl.head fl.heap
  some (record fl { heap = h; head = none; size = 0 })

-- The loop of `reserve`; `objs` are the addresses that the allocator gives.
unfoldable pub link_new : List ℕ → Option ℕ → Freelist → Freelist
link_new [] curr fl = fl
link_new (obj ∷ objs) none fl =
    link_new objs (some obj) (record fl { heap = write obj (some none) fl.heap; head = some obj })
link_new (obj ∷ objs) (some curr) fl =
    link_new objs (some obj)
      (record fl { heap = write curr (some (some obj)) (write obj (some none) fl.heap) })

-- `reserve`, which the constructors call.
unfoldable pub reserve : List ℕ → Freelist → Freelist
unfolding link_new
reserve objs fl =
    let gl = link_new objs fl.head fl in record gl { size = (gl.size + length objs) % 2 ^ 64 }
