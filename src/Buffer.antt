-- ===== src/Buffer.antt =====
-- The buffer of a message: `reserve`, `make_large`, `operator<<` and the copy of a message in
-- gce/actor/message.hpp, over gce/actor/detail/buffer.hpp. Messages that are copied share a large buffer, which
-- is a cell of a store at an address, with the number of messages that have it. Only the bytes up to a
-- write position are ever read, so that a cell ends where the last write ended. `none` is the use of a
-- buffer that is gone, or the exception of `buffer_ref::write`.
pub mod Holds
pub mod Writes
pub mod CopyOnWrite
mod Tests
use gce.Prelude.{
  ℕ, ◌+◌, ◌-◌, ◌%◌, ◌^◌, Bool, true, false, List, [], ◌∷◌, ◌++◌, Option, none, some, if◌then◌else◌,
  ltb, ◌==◌, ◌>>=◌, length,
}
use gce.Message.Tags.{front}

-- `class buffer`, with its `ref_count`
pub record Cell : Type 0 where
  pub count : ℕ
  pub size : ℕ
  pub bytes : List ℕ

abbrev pub Store : Type 0
Store = ℕ → Option Cell

abbrev pub put : ℕ → Option Cell → Store → Store
put a c h = λ b. if b == a then c else h b

-- `small_`, or the address of `large_`.
pub data Place : Type 0 where
  small : List ℕ → Place
  large : ℕ → Place

-- The part of `class message` that holds bytes: `capacity` is `buf_.size()`.
pub record Buffer : Type 0 where
  pub place : Place
  pub capacity : ℕ
  pub write_size : ℕ

-- `message()`; `small_size` is `GCE_SMALL_MSG_SIZE`.
unfoldable pub new_buffer : ℕ → Buffer
new_buffer small_size = record { place = small []; capacity = small_size; write_size = 0 }

-- The capacity that `reserve` asks for; `min_grow` is `GCE_MSG_MIN_GROW_SIZE`.
unfoldable pub grown : ℕ → ℕ → Buffer → ℕ
grown min_grow size m =
    let new_size = (m.write_size + size) % 2 ^ 64 in
    if ltb m.capacity new_size
    then (let diff = new_size - m.capacity in
        (m.capacity + (if ltb diff min_grow then min_grow else diff)) % 2 ^ 64)
    else m.capacity

-- `reserve`, with `make_large`; `addr` is the address that a new buffer gets.
unfoldable pub reserve_in : ℕ → ℕ → Place → Buffer → Store → Option (Buffer × Store)
reserve_in addr capacity (small bytes) m h =
    if ltb m.capacity capacity
    then some (
      record m { place = large addr; capacity = capacity },
      put addr (some (record { count = 1; size = capacity; bytes = front m.write_size bytes })) h,
    )
    else some (m, h)
reserve_in addr capacity (large x) m h = do
  cell ← h x
  if ltb 1 cell.count
      then some (
        record m { place = large addr; capacity = capacity },
        put addr
            (some (record { count = 1; size = capacity; bytes = front m.write_size cell.bytes }))
            (put x (some (record cell { count = cell.count - 1 })) h),
      )
      else some (
        record m { capacity = capacity },
        put x (some (record cell { size = if ltb cell.size capacity then capacity else cell.size }))
            h,
      )

unfoldable pub reserve : ℕ → ℕ → ℕ → Buffer → Store → Option (Buffer × Store)
reserve min_grow addr size m h = reserve_in addr (grown min_grow size m) m.place m h

-- The bytes that `amsg::write` leaves after `get_write_data()`.
unfoldable pub fill_in : Place → List ℕ → Buffer → Store → Option (Buffer × Store)
fill_in (small bytes) added m h =
    some (record m { place = small (front m.write_size bytes ++ added) }, h)
fill_in (large x) added m h = do
  cell ← h x
  some (m, put x (some (record cell { bytes = front m.write_size cell.bytes ++ added })) h)

-- `operator<<` of a value that amsg writes as `bytes`.
unfoldable pub write_bytes : ℕ → ℕ → List ℕ → Buffer → Store → Option (Buffer × Store)
write_bytes min_grow addr added m h = do
  (n, g) ← reserve min_grow addr (length added) m h
  (o, f) ← fill_in n.place added n g
  let end = (o.write_size + length added) % 2 ^ 64
  if ltb o.capacity end then none else some (record o { write_size = end }, f)

-- `message(message const&)`, past `is_small`: `small_size` is `GCE_SMALL_MSG_SIZE`, the size of `small_`, and
-- `buf_.write` throws where the bytes are more than the buffer that it was reset to.
unfoldable pub copy_in : ℕ → Place → Buffer → Store → Option (Buffer × Store)
copy_in small_size (small bytes) m h =
    if ltb small_size m.write_size
    then none
    else some (record m { place = small (front m.write_size bytes); capacity = small_size }, h)
copy_in small_size (large x) m h = do
  cell ← h x
  if ltb cell.size m.write_size
      then none
      else some (
        record m { capacity = cell.size },
        put x (some (record cell { count = cell.count + 1 })) h,
      )

unfoldable pub copy : ℕ → Buffer → Store → Option (Buffer × Store)
copy small_size m h = copy_in small_size m.place m h

-- The bytes of a message.
abbrev pub bytes_in : Place → ℕ → Store → Option (List ℕ)
bytes_in (small bytes) n h = some (front n bytes)
bytes_in (large x) n h = do cell ← h x; some (front n cell.bytes)

abbrev pub bytes_of : Buffer → Store → Option (List ℕ)
bytes_of m h = bytes_in m.place m.write_size h
