-- ===== src/Message/Codec.antt =====
-- What gce/actor/message.hpp asks of amsg: to write a number or an id after the bytes of a buffer, and to
-- read it back from the front of what is left. A read is `none` if the bytes do not hold a value.
use gce.Prelude.{ℕ, ◌≡◌, ◌<◌, ◌^◌, List, ◌++◌, Option, some, length}
use gce.Ids.{ActorId, ServiceId}

pub record Codec : Type 0 where
  pub write_u16 : ℕ → List ℕ
  pub read_u16 : List ℕ → Option (ℕ × List ℕ)
  pub write_u32 : ℕ → List ℕ
  pub read_u32 : List ℕ → Option (ℕ × List ℕ)
  pub write_u64 : ℕ → List ℕ
  pub read_u64 : List ℕ → Option (ℕ × List ℕ)
  pub write_aid : ActorId → List ℕ
  pub read_aid : List ℕ → Option (ActorId × List ℕ)
  pub write_svc : ServiceId → List ℕ
  pub read_svc : List ℕ → Option (ServiceId × List ℕ)

-- An id whose fields have the widths of the C++ types.
pub record IsSvc (s : ServiceId) : Type 0 where
  pub ctxid : s.ctxid < 2 ^ 64
  pub name : s.name < 2 ^ 64

pub record IsAid (a : ActorId) : Type 0 where
  pub ctxid : a.ctxid < 2 ^ 64
  pub timestamp : a.timestamp < 2 ^ 64
  pub uintptr : a.uintptr < 2 ^ 64
  pub sid : a.sid < 2 ^ 32
  pub svc : IsSvc a.svc

-- A value that was written is read, and nothing of what follows it; a 64-bit number takes a byte at
-- least.
pub record Faithful (c : Codec) : Type 0 where
  pub u16 :
      (n : ℕ) (rest : List ℕ) → n < 2 ^ 16 → c.read_u16 (c.write_u16 n ++ rest) ≡ some (n, rest)
  pub u32 :
      (n : ℕ) (rest : List ℕ) → n < 2 ^ 32 → c.read_u32 (c.write_u32 n ++ rest) ≡ some (n, rest)
  pub u64 :
      (n : ℕ) (rest : List ℕ) → n < 2 ^ 64 → c.read_u64 (c.write_u64 n ++ rest) ≡ some (n, rest)
  pub aid :
      (a : ActorId) (rest : List ℕ) → IsAid a → c.read_aid (c.write_aid a ++ rest) ≡ some (a, rest)
  pub svc :
      (s : ServiceId) (rest : List ℕ)
      → IsSvc s
      → c.read_svc (c.write_svc s ++ rest) ≡ some (s, rest)
  pub byte : (n : ℕ) → 0 < length (c.write_u64 n)
