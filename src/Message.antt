-- ===== src/Message.antt =====
-- The values that actors exchange: gce/actor/message.hpp, response.hpp and detail/request.hpp,
-- link.hpp, exit.hpp, spawn.hpp, pack.hpp, mailbox_fwd.hpp. The body of a message is the bytes that
-- were written to its buffer; copying a message does not copy its `req_`, so that field is an
-- argument of the operations that read it.
pub mod Codec
pub mod Tags
pub mod TagTrip
mod Tests
use gce.Prelude.{ℕ, Bool, not, List, [], ◌-◌, ◌^◌, ◌==◌}
use gce.Ids.{ActorId, ServiceId, nil_aid, nil_svcid, sid_nil, match_nil}

-- `class message`
pub record Message : Type 0 where
  pub type : ℕ
  pub tag_offset : ℕ
  pub body : List ℕ

abbrev pub u32_nil : ℕ
u32_nil = 2 ^ 32 - 1

-- `message(match_t)`
abbrev pub new_message : ℕ → Message
new_message type = record { type = type; tag_offset = u32_nil; body = [] }

abbrev pub nil_message : Message
nil_message = new_message match_nil

-- `class request_t`
pub record Request : Type 0 where
  pub id : ℕ
  pub aid : ActorId

abbrev pub nil_request : Request
nil_request = record { id = sid_nil; aid = nil_aid }

-- `request_t::valid`
abbrev pub request_ok : Request → Bool
request_ok r = not (r.id == sid_nil)

-- `class response_t`
pub record Response : Type 0 where
  pub id : ℕ
  pub aid : ActorId
  pub recver : ActorId
  pub svc : ServiceId

-- `response_t(sid_t, aid_t)`
abbrev pub new_response : ℕ → ActorId → Response
new_response id aid = record { id = id; aid = aid; recver = nil_aid; svc = nil_svcid }

-- `response_t::valid`
abbrev pub response_ok : Response → Bool
response_ok r = not (r.id == sid_nil)

abbrev pub nil_response : Response
nil_response = new_response sid_nil nil_aid

-- `enum link_type`
pub data LinkType : Type 0 where
  no_link linked monitored : LinkType

-- `class link_t`
pub record Link : Type 0 where
  pub type : LinkType
  pub aid : ActorId

-- `class fwd_link_t`
pub record FwdLink : Type 0 where
  pub type : LinkType
  pub aid : ActorId
  pub skt : ActorId

-- `class exit_t`
pub record Exit : Type 0 where
  pub code : ℕ
  pub aid : ActorId

-- `class fwd_exit_t`
pub record FwdExit : Type 0 where
  pub code : ℕ
  pub aid : ActorId
  pub skt : ActorId

-- `enum spawn_type`
pub data SpawnType : Type 0 where
  spw_nil spw_stacked spw_evented : SpawnType

-- `class spawn_t`
pub record Spawn : Type 0 where
  pub type : SpawnType
  pub func : ℕ
  pub ctxid : ℕ
  pub stack_size : ℕ
  pub sid : ℕ
  pub aid : ActorId

-- `enum spawn_error`
pub data SpawnError : Type 0 where
  spawn_ok spawn_no_socket spawn_func_not_found : SpawnError

-- `class spawn_ret_t`
pub record SpawnRet : Type 0 where
  pub error : SpawnError
  pub id : ℕ
  pub aid : ActorId

-- `tag_t`
pub data Tag : Type 0 where
  from_aid : ActorId → Tag
  request : Request → Tag
  response : Response → Tag
  link : Link → Tag
  exit : Exit → Tag
  fwd_link : FwdLink → Tag
  fwd_exit : FwdExit → Tag
  spawn : Spawn → Tag
  spawn_ret : SpawnRet → Tag

-- `recv_t`
pub data Recv : Type 0 where
  from_aid : ActorId → Recv
  request : Request → Recv
  exit : Exit → Recv

-- `struct pack`
pub record Pack : Type 0 where
  pub tag : Tag
  pub recver : ActorId
  pub skt : ActorId
  pub svc : ServiceId
  pub is_err_ret : Bool
  pub msg : Message
  pub cache_queue_index : ℕ
  pub cache_index : ℕ
