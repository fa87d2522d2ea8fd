-- ===== src/BufferRef.antt =====
-- gce/actor/detail/buffer_ref.hpp: a buffer with a read and a write position. Sizes are 64 bits wide. A
-- pointer is its address, and an exception is a value beside the state that it leaves.
pub mod Bounds
mod Tests
use gce.Prelude.{ℕ, ◌+◌, ◌-◌, ◌%◌, ◌^◌, ltb, if◌then◌else◌, Option, none, some}

-- `class buffer_ref`
pub record BufferRef : Type 0 where
  pub buf : ℕ
  pub size : ℕ
  pub write_size : ℕ
  pub read_size : ℕ

-- `runtime_error("read buffer overflow")` and `runtime_error("write buffer overflow")`
pub data Overflow : Type 0 where
  read_overflow write_overflow : Overflow

abbrev pub Result : Type 0
Result = Option Overflow × BufferRef

-- `buffer_ref(byte_t*, size_t)`
unfoldable pub new_buffer : ℕ → ℕ → BufferRef
new_buffer buf size = record { buf = buf; size = size; write_size = 0; read_size = 0 }

unfoldable pub remain_write_size : BufferRef → ℕ
remain_write_size b = (b.size + 2 ^ 64 - b.write_size) % 2 ^ 64

unfoldable pub remain_read_size : BufferRef → ℕ
remain_read_size b = (b.write_size + 2 ^ 64 - b.read_size) % 2 ^ 64

unfoldable pub clear : BufferRef → BufferRef
clear b = record b { write_size = 0; read_size = 0 }

unfoldable pub reset : ℕ → ℕ → BufferRef → Result
reset buf size b =
    let c = record b { buf = buf; size = size } in
    if ltb size c.read_size
    then (some read_overflow, c)
    else if ltb size c.write_size
    then (some write_overflow, c)
    else (none, c)

unfoldable pub read : ℕ → BufferRef → Result
read size b =
    let end = (b.read_size + size) % 2 ^ 64 in
    if ltb b.write_size end then (some read_overflow, b) else (none, record b { read_size = end })

unfoldable pub write : ℕ → BufferRef → Result
write size b =
    let end = (b.write_size + size) % 2 ^ 64 in
    if ltb b.size end then (some write_overflow, b) else (none, record b { write_size = end })
