-- ===== src/BufferRef/Bounds.antt =====
-- The positions of a buffer stay inside it.
use gce.Prelude.{
  ℕ, ◌+◌, ◌%◌, ◌^◌, ◌≤◌, ◌<◌, ◌≡◌, refl, leb, ltb, if◌then◌else◌, none, some, arith, Bool-cases,
  inl, inr, true, false,
}
use gce.BufferRef.{
  BufferRef, read_overflow, write_overflow, Result, read, write, remain_read_size,
  remain_write_size,
}

pub record Within (b : BufferRef) : Type 0 where
  pub read : b.read_size ≤ b.write_size
  pub write : b.write_size ≤ b.size
  pub size : b.size < 2 ^ 63

abbrev pub Reads : ℕ → BufferRef → Result → Type 0
Reads n b out =
    if leb n (remain_read_size b)
    then ((c : BufferRef) × (out ≡ (none, c))
        × Within c
        × (remain_read_size c + n ≡ remain_read_size b)
        × (remain_write_size c ≡ remain_write_size b))
    else (out ≡ (some read_overflow, b))

abbrev pub Writes : ℕ → BufferRef → Result → Type 0
Writes n b out =
    if leb n (remain_write_size b)
    then ((c : BufferRef) × (out ≡ (none, c))
        × Within c
        × (remain_write_size c + n ≡ remain_write_size b)
        × (remain_read_size c ≡ remain_read_size b + n))
    else (out ≡ (some write_overflow, b))

-- In a buffer of less than 2^63 bytes whose positions are in order, a read of a size below 2^63 succeeds
-- if that much is left to be read: it takes it from what is left to be read, leaves what is left to be
-- written, and keeps the order. Otherwise it throws and changes nothing.
pub read-Reads : (n : ℕ) (b : BufferRef) → Within b → n < 2 ^ 63 → Reads n b (read n b)
unfolding read remain_read_size remain_write_size
read-Reads n b v small =
    let r = v.read in
    let w = v.write in
    let s = v.size in
    elim (Bool-cases (leb n (remain_read_size b))) [
      | inl fits ↦
          let ok : ltb b.write_size ((b.read_size + n) % 2 ^ 64) ≡ false = ground arith in
          rw (fits, if◌then◌else◌)
            (
              record b { read_size = (b.read_size + n) % 2 ^ 64 },
              rw (ok, if◌then◌else◌) refl,
              record { read = ground arith; write = w; size = s },
              ground arith,
              refl,
            )
      | inr over ↦
          let bad : ltb b.write_size ((b.read_size + n) % 2 ^ 64) ≡ true = ground arith in
          rw (over, if◌then◌else◌) (rw (bad, if◌then◌else◌) refl)
    ]

-- In a buffer of less than 2^63 bytes whose positions are in order, a write of a size below 2^63
-- succeeds if that much is left to be written: it moves it to what is left to be read, and keeps the
-- order. Otherwise it throws and changes nothing.
pub write-Writes : (n : ℕ) (b : BufferRef) → Within b → n < 2 ^ 63 → Writes n b (write n b)
unfolding write remain_read_size remain_write_size
write-Writes n b v small =
    let r = v.read in
    let w = v.write in
    let s = v.size in
    elim (Bool-cases (leb n (remain_write_size b))) [
      | inl fits ↦
          let ok : ltb b.size ((b.write_size + n) % 2 ^ 64) ≡ false = ground arith in
          rw (fits, if◌then◌else◌)
            (
              record b { write_size = (b.write_size + n) % 2 ^ 64 },
              rw (ok, if◌then◌else◌) refl,
              record { read = ground arith; write = ground arith; size = s },
              ground arith,
              ground arith,
            )
      | inr over ↦
          let bad : ltb b.size ((b.write_size + n) % 2 ^ 64) ≡ true = ground arith in
          rw (over, if◌then◌else◌) (rw (bad, if◌then◌else◌) refl)
    ]
