-- ===== src/Ids.antt =====
-- gce/actor/actor_id.hpp, gce/actor/service_id.hpp and the numbers of gce/actor/config.hpp.
-- A pointer is its address. `match_t`, `ctxid_t` and `timestamp_t` are 64 bits wide, `sid_t` 32.
pub mod Order
mod Tests
use gce.Prelude.{ℕ, Bool, true, false, not, ◌&&◌, ◌-◌, ◌^◌, ltb, ◌==◌, if◌then◌else◌}

abbrev pub sid_nil : ℕ
sid_nil = 2 ^ 32 - 1

abbrev pub match_nil : ℕ
match_nil = 2 ^ 64 - 1

abbrev pub ctxid_nil : ℕ
ctxid_nil = 2 ^ 64 - 1

-- `class service_id`
pub record ServiceId : Type 0 where
  pub ctxid : ℕ
  pub name : ℕ

abbrev pub nil_svcid : ServiceId
nil_svcid = record { ctxid = ctxid_nil; name = match_nil }

-- `class actor_id`
pub record ActorId : Type 0 where
  pub ctxid : ℕ
  pub timestamp : ℕ
  pub uintptr : ℕ
  pub sid : ℕ
  pub svc : ServiceId

abbrev pub nil_aid : ActorId
nil_aid = record { ctxid = ctxid_nil; timestamp = 0; uintptr = 0; sid = sid_nil; svc = nil_svcid }

-- `actor_id(ctxid, timestamp, ptr, sid)`
abbrev pub new_aid : ℕ → ℕ → ℕ → ℕ → ActorId
new_aid ctxid timestamp ptr sid = record {
  ctxid = ctxid;
  timestamp = timestamp;
  uintptr = ptr;
  sid = sid;
  svc = nil_svcid;
}

-- `operator bool`
abbrev pub aid_ok : ActorId → Bool
aid_ok a = not (a.uintptr == 0)

abbrev pub svc_ok : ServiceId → Bool
svc_ok s = not (s.name == match_nil)

-- `operator==`
unfoldable pub aid_eq : ActorId → ActorId → Bool
aid_eq a b =
    a.ctxid == b.ctxid && (a.timestamp == b.timestamp && (a.uintptr == b.uintptr && a.sid == b.sid))

unfoldable pub svc_eq : ServiceId → ServiceId → Bool
svc_eq a b = a.ctxid == b.ctxid && a.name == b.name

-- `operator<`: two tests for each field, as the code writes them.
abbrev then_by : ℕ → ℕ → Bool → Bool
then_by a b rest = if ltb a b then true else if ltb b a then false else rest

unfoldable pub aid_lt : ActorId → ActorId → Bool
aid_lt a b =
    then_by a.ctxid b.ctxid
      (then_by a.timestamp b.timestamp (then_by a.uintptr b.uintptr (then_by a.sid b.sid false)))

unfoldable pub svc_lt : ServiceId → ServiceId → Bool
svc_lt a b = then_by a.ctxid b.ctxid (then_by a.name b.name false)
