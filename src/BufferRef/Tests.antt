-- ===== src/BufferRef/Tests.antt =====
-- A buffer of 16 bytes, 10 of them written and 4 read.
use gce.Prelude.{arith}
use gce.BufferRef.{BufferRef, read, write}
use gce.BufferRef.Bounds.{Within, Reads, Writes, read-Reads, write-Writes}

abbrev half_full : BufferRef
half_full = record { buf = 4096; size = 16; write_size = 10; read_size = 4 }

half_full-Within : Within half_full
half_full-Within = record { read = omega arith; write = omega arith; size = omega arith }

read-Reads_example : Reads 6 half_full (read 6 half_full)
read-Reads_example = read-Reads 6 half_full half_full-Within (omega arith)

write-Writes_example : Writes 7 half_full (write 7 half_full)
write-Writes_example = write-Writes 7 half_full half_full-Within (omega arith)
