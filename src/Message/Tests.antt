-- ===== src/Message/Tests.antt =====
-- A request that carries its tag over the network, with a codec that writes a number as one digit.
use gce.Prelude.{ℕ, ◌≡◌, refl, false, List, [], ◌∷◌, Option, none, some, arith, ◌>>=◌, length, ◌<◌}
use gce.Ids.{ActorId, ServiceId, new_aid, nil_aid, nil_svcid}
use gce.Message.{Message, Tag, u32_nil}
use gce.Message.Codec.{Codec, Faithful, IsAid, IsSvc}
use gce.Message.Tags.{Address, push_tag, pop_tag}
use gce.Message.TagTrip.{Carried, IsAddress, pop_tag-push_tag}

abbrev write_digit : ℕ → List ℕ
write_digit n = n ∷ []

abbrev read_digit : List ℕ → Option (ℕ × List ℕ)
read_digit [] = none
read_digit (n ∷ rest) = some (n, rest)

abbrev write_svcid : ServiceId → List ℕ
write_svcid s = s.ctxid ∷ s.name ∷ []

abbrev read_svcid : List ℕ → Option (ServiceId × List ℕ)
read_svcid (ctxid ∷ name ∷ rest) = some (record { ctxid = ctxid; name = name }, rest)
read_svcid _ = none

abbrev write_actor : ActorId → List ℕ
write_actor a = a.ctxid ∷ a.timestamp ∷ a.uintptr ∷ a.sid ∷ write_svcid a.svc

abbrev read_actor : List ℕ → Option (ActorId × List ℕ)
read_actor (ctxid ∷ timestamp ∷ uintptr ∷ sid ∷ domain ∷ name ∷ rest) = some (
  record {
    ctxid = ctxid;
    timestamp = timestamp;
    uintptr = uintptr;
    sid = sid;
    svc = record { ctxid = domain; name = name };
  },
  rest,
)
read_actor _ = none

abbrev digits : Codec
digits = record {
  write_u16 = write_digit;
  read_u16 = read_digit;
  write_u32 = write_digit;
  read_u32 = read_digit;
  write_u64 = write_digit;
  read_u64 = read_digit;
  write_aid = write_actor;
  read_aid = read_actor;
  write_svc = write_svcid;
  read_svc = read_svcid;
}

digits-Faithful : Faithful digits
digits-Faithful = record {
  u16 = λ n rest b. refl;
  u32 = λ n rest b. refl;
  u64 = λ n rest b. refl;
  aid = λ a rest b. refl;
  svc = λ s rest b. refl;
  byte = λ n. omega arith;
}

abbrev asker : ActorId
asker = new_aid 1 2 3 4

abbrev question : Tag
question = Tag.request (record { id = 9; aid = asker })

abbrev route : Address
route = record { recver = new_aid 5 6 7 8; svc = nil_svcid; skt = nil_aid; is_err_ret = false }

nil_svcid-IsSvc : IsSvc nil_svcid
nil_svcid-IsSvc = record { ctxid = omega arith; name = omega arith }

asker-IsAid : IsAid asker
asker-IsAid = record {
  ctxid = omega arith;
  timestamp = omega arith;
  uintptr = omega arith;
  sid = omega arith;
  svc = nil_svcid-IsSvc;
}

question-Carried : Carried question
question-Carried = (omega arith, asker-IsAid)

route-IsAddress : IsAddress route
route-IsAddress = record {
  recver = record {
    ctxid = omega arith;
    timestamp = omega arith;
    uintptr = omega arith;
    sid = omega arith;
    svc = nil_svcid-IsSvc;
  };
  svc = nil_svcid-IsSvc;
  skt = record {
    ctxid = omega arith;
    timestamp = omega arith;
    uintptr = omega arith;
    sid = omega arith;
    svc = nil_svcid-IsSvc;
  };
}

abbrev letter : Message
letter = record { type = 7; tag_offset = u32_nil; body = 104 ∷ 105 ∷ [] }

short_letter : length letter.body < u32_nil
short_letter = omega arith

pop_tag-push_tag_example :
    (push_tag digits question route letter >>= pop_tag digits)
    ≡ some (some (question, route), record letter { tag_offset = 2 })
pop_tag-push_tag_example =
    pop_tag-push_tag digits digits-Faithful question route letter question-Carried route-IsAddress
      short_letter
