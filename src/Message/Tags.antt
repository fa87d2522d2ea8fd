-- ===== src/Message/Tags.antt =====
-- `push_tag` and `pop_tag` of gce/actor/message.hpp: the tag that a message carries over the network behind
-- its body. `none` is an exception of the reads, a failed BOOST_ASSERT, or a number that is no value of
-- its enumeration.
use gce.Prelude.{
  ℕ, zero, suc, ◌%◌, ◌^◌, Bool, true, false, not, List, [], ◌∷◌, ◌++◌, Option, none, some, ltb,
  if◌then◌else◌, ◌==◌, ◌>>=◌, length,
}
use gce.Ids.{ActorId, ServiceId}
use gce.Atom.{atom}
use gce.Message.{
  Message, Tag, LinkType, no_link, linked, monitored, SpawnType, spw_nil, spw_stacked, spw_evented,
  SpawnError, spawn_ok, spawn_no_socket, spawn_func_not_found, new_response, u32_nil,
}
use gce.Message.Codec.{Codec}

-- The kinds of tags that are written.
pub data TagKind : Type 0 where
  tag_aid tag_request tag_link tag_exit tag_response tag_spawn tag_spawn_ret : TagKind

-- `tag_aid_t` and the constants that follow it: `gce_aid_t`, `gce_request_t`, `gce_link_t`, `gce_exit_t`, `gce_response_t`, `gce_spw_t`, `gce_spw_ret_t`
unfoldable pub tag_code : TagKind → ℕ
unfolding atom gce.Atom.encode_from gce.Atom.encoding_table
tag_code tag_aid = atom (103 ∷ 99 ∷ 101 ∷ 95 ∷ 97 ∷ 105 ∷ 100 ∷ 95 ∷ 116 ∷ [])
tag_code tag_request =
    atom (103 ∷ 99 ∷ 101 ∷ 95 ∷ 114 ∷ 101 ∷ 113 ∷ 117 ∷ 101 ∷ 115 ∷ 116 ∷ 95 ∷ 116 ∷ [])
tag_code tag_link = atom (103 ∷ 99 ∷ 101 ∷ 95 ∷ 108 ∷ 105 ∷ 110 ∷ 107 ∷ 95 ∷ 116 ∷ [])
tag_code tag_exit = atom (103 ∷ 99 ∷ 101 ∷ 95 ∷ 101 ∷ 120 ∷ 105 ∷ 116 ∷ 95 ∷ 116 ∷ [])
tag_code tag_response =
    atom (103 ∷ 99 ∷ 101 ∷ 95 ∷ 114 ∷ 101 ∷ 115 ∷ 112 ∷ 111 ∷ 110 ∷ 115 ∷ 101 ∷ 95 ∷ 116 ∷ [])
tag_code tag_spawn = atom (103 ∷ 99 ∷ 101 ∷ 95 ∷ 115 ∷ 112 ∷ 119 ∷ 95 ∷ 116 ∷ [])
tag_code tag_spawn_ret =
    atom (103 ∷ 99 ∷ 101 ∷ 95 ∷ 115 ∷ 112 ∷ 119 ∷ 95 ∷ 114 ∷ 101 ∷ 116 ∷ 95 ∷ 116 ∷ [])

-- The tests of `pop_tag` on the kind, in its order.
unfoldable pub kind_of : ℕ → Option TagKind
kind_of code =
    if code == tag_code tag_aid
    then some tag_aid
    else if code == tag_code tag_request
    then some tag_request
    else if code == tag_code tag_link
    then some tag_link
    else if code == tag_code tag_exit
    then some tag_exit
    else if code == tag_code tag_response
    then some tag_response
    else if code == tag_code tag_spawn
    then some tag_spawn
    else if code == tag_code tag_spawn_ret
    then some tag_spawn_ret
    else none

abbrev pub link_number : LinkType → ℕ
link_number no_link = 0
link_number linked = 1
link_number monitored = 2

abbrev pub link_type_of : ℕ → Option LinkType
link_type_of n =
    if n == 0
    then some no_link
    else if n == 1
    then some linked
    else if n == 2
    then some monitored
    else none

abbrev pub spawn_number : SpawnType → ℕ
spawn_number spw_nil = 0
spawn_number spw_stacked = 1
spawn_number spw_evented = 2

abbrev pub spawn_type_of : ℕ → Option SpawnType
spawn_type_of n =
    if n == 0
    then some spw_nil
    else if n == 1
    then some spw_stacked
    else if n == 2
    then some spw_evented
    else none

abbrev pub error_number : SpawnError → ℕ
error_number spawn_ok = 0
error_number spawn_no_socket = 1
error_number spawn_func_not_found = 2

abbrev pub spawn_error_of : ℕ → Option SpawnError
spawn_error_of n =
    if n == 0
    then some spawn_ok
    else if n == 1
    then some spawn_no_socket
    else if n == 2
    then some spawn_func_not_found
    else none

-- `operator<<(bool)` and `operator>>(bool&)`
abbrev pub bool_number : Bool → ℕ
bool_number true = 1
bool_number false = 0

abbrev pub bool_of : ℕ → Bool
bool_of n = not (n == 0)

-- What `pop_tag` gives beside the message.
pub record Address : Type 0 where
  pub recver : ActorId
  pub svc : ServiceId
  pub skt : ActorId
  pub is_err_ret : Bool

abbrev pub skip : ℕ → List ℕ → List ℕ
skip zero bs = bs
skip (suc n) [] = []
skip (suc n) (b ∷ bs) = skip n bs

abbrev pub front : ℕ → List ℕ → List ℕ
front zero bs = []
front (suc n) [] = []
front (suc n) (b ∷ bs) = b ∷ front n bs

module _ (c : Codec) where
  -- The branches of `push_tag`.
  unfoldable pub write_tag : Tag → Option (List ℕ)
  write_tag (Tag.from_aid aid) = some (c.write_u64 (tag_code tag_aid) ++ c.write_aid aid)
  write_tag (Tag.request req) =
      some (c.write_u64 (tag_code tag_request) ++ (c.write_u32 req.id ++ c.write_aid req.aid))
  write_tag (Tag.link l) =
      some
        (c.write_u64 (tag_code tag_link) ++ (c.write_u16 (link_number l.type) ++ c.write_aid l.aid))
  write_tag (Tag.exit ex) =
      some (c.write_u64 (tag_code tag_exit) ++ (c.write_u64 ex.code ++ c.write_aid ex.aid))
  write_tag (Tag.response res) =
      some (c.write_u64 (tag_code tag_response) ++ (c.write_u32 res.id ++ c.write_aid res.aid))
  write_tag (Tag.spawn spw) = some (
      c.write_u64 (tag_code tag_spawn)
      ++ (c.write_u16 (spawn_number spw.type)
          ++ (c.write_u64 spw.func
              ++ (c.write_u64 spw.ctxid
                  ++ (c.write_u64 spw.stack_size
                      ++ (c.write_u32 spw.sid ++ c.write_aid spw.aid))))))
  write_tag (Tag.spawn_ret spr) = some (
      c.write_u64 (tag_code tag_spawn_ret)
      ++ (c.write_u16 (error_number spr.error) ++ (c.write_u32 spr.id ++ c.write_aid spr.aid)))
  write_tag (Tag.fwd_link _) = none
  write_tag (Tag.fwd_exit _) = none

  -- The last line of `push_tag`.
  unfoldable pub write_address : Address → List ℕ
  write_address a =
      c.write_aid a.recver
      ++ (c.write_svc a.svc ++ (c.write_aid a.skt ++ c.write_u16 (bool_number a.is_err_ret)))

  unfoldable pub push_tag : Tag → Address → Message → Option Message
  push_tag tag a m = do
    bytes ← write_tag tag
    some (record m {
      tag_offset = length m.body % 2 ^ 32;
      body = m.body ++ (bytes ++ write_address a);
    })

  -- The branches of `pop_tag`.
  unfoldable pub read_kind : TagKind → List ℕ → Option (Tag × List ℕ)
  read_kind tag_aid bs = do (aid, rest) ← c.read_aid bs; some (Tag.from_aid aid, rest)
  read_kind tag_request bs = do
    (id, bs1) ← c.read_u32 bs
    (aid, rest) ← c.read_aid bs1
    some (Tag.request (record { id = id; aid = aid }), rest)
  read_kind tag_link bs = do
    (n, bs1) ← c.read_u16 bs
    (aid, rest) ← c.read_aid bs1
    type ← link_type_of n
    some (Tag.link (record { type = type; aid = aid }), rest)
  read_kind tag_exit bs = do
    (code, bs1) ← c.read_u64 bs
    (aid, rest) ← c.read_aid bs1
    some (Tag.exit (record { code = code; aid = aid }), rest)
  read_kind tag_response bs = do
    (id, bs1) ← c.read_u32 bs
    (aid, rest) ← c.read_aid bs1
    some (Tag.response (new_response id aid), rest)
  read_kind tag_spawn bs = do
    (n, bs1) ← c.read_u16 bs
    (func, bs2) ← c.read_u64 bs1
    (ctxid, bs3) ← c.read_u64 bs2
    (stack_size, bs4) ← c.read_u64 bs3
    (sid, bs5) ← c.read_u32 bs4
    (aid, rest) ← c.read_aid bs5
    type ← spawn_type_of n
    some (
      Tag.spawn (record {
        type = type;
        func = func;
        ctxid = ctxid;
        stack_size = stack_size;
        sid = sid;
        aid = aid;
      }),
      rest,
    )
  read_kind tag_spawn_ret bs = do
    (n, bs1) ← c.read_u16 bs
    (sid, bs2) ← c.read_u32 bs1
    (aid, rest) ← c.read_aid bs2
    error ← spawn_error_of n
    some (Tag.spawn_ret (record { error = error; id = sid; aid = aid }), rest)

  unfoldable pub read_tag : List ℕ → Option (Tag × List ℕ)
  read_tag bs = do (code, rest) ← c.read_u64 bs; kind ← kind_of code; read_kind kind rest

  unfoldable pub read_address : List ℕ → Option (Address × List ℕ)
  read_address bs = do
    (recver, bs1) ← c.read_aid bs
    (svc, bs2) ← c.read_svc bs1
    (skt, bs3) ← c.read_aid bs2
    (n, rest) ← c.read_u16 bs3
    some (record { recver = recver; svc = svc; skt = skt; is_err_ret = bool_of n }, rest)

  -- `pop_tag` of a message of which nothing has been read: no tag, or the tag and the message that is
  -- left when its buffer is cut back to the offset.
  unfoldable pub pop_tag : Message → Option (Option (Tag × Address) × Message)
  pop_tag m =
      if m.tag_offset == u32_nil
      then some (none, m)
      else if ltb m.tag_offset (length m.body)
      then (do
        (tag, bs) ← read_tag (skip m.tag_offset m.body)
        (a, rest) ← read_address bs
        some (some (tag, a), record m { body = front m.tag_offset m.body }))
      else none
