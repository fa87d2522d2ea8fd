-- ===== src/BasicActor/Requests.antt =====
-- Sending to an actor of the same context, in the functions of libs/actor/src/basic_actor.cpp.
use gce.Prelude.{ℕ, ◌≡◌, true, false, [], ◌∷◌, some, if◌then◌else◌, ◌==◌, ◌&&◌, ◌>>=◌, ==_refl}
use gce.Ids.{ActorId, nil_aid, aid_ok, aid_eq}
use gce.Ids.Order.{aid_key}
use gce.Atom.{exit_type}
use gce.Message.{Message, Response, Tag, Pack, new_response, new_message}
use gce.BasicActor.{
  BasicActor, SendHint, nil_pack, hint_of, send, filter_aid, send_to, WriteExit, get_actor_ptr,
  check_local, check_local_valid, check, exit_already, already_exited,
}
use gce.BasicActor.Sends.{send_already_exited, pri_request}

-- An id of the context and the run of the process that `b` is in.
pub record Here (aid : ActorId) (b : BasicActor) : Type 0 where
  pub ctxid : aid.ctxid ≡ b.ctxid
  pub timestamp : aid.timestamp ≡ b.timestamp
  pub ok : aid_ok aid ≡ true

abbrev pub stamped : BasicActor → Pack → Pack
stamped b pk = record pk { cache_queue_index = b.cache_queue_index }

module _ (t : ActorId) (b : BasicActor) (h : Here t b) where
  pub filter-Here : filter_aid t b ≡ some (t, b)
  unfolding filter_aid check_local check_local_valid
  filter-Here = rw (h.ctxid, h.timestamp, ==_refl b.ctxid, ==_refl b.timestamp, if◌then◌else◌)

  pub ptr-Here : get_actor_ptr t b.ctxid b.timestamp ≡ some t.uintptr
  unfolding get_actor_ptr
  ptr-Here = rw (h.ctxid, h.timestamp, h.ok, ==_refl b.ctxid, ==_refl b.timestamp, if◌then◌else◌)

  pub send-Here :
      (pk : Pack) (hint : SendHint)
      → send t pk hint b ≡ some (record { to = t; pk = stamped b pk; hint = hint } ∷ [], b)
  unfolding send
  send-Here pk hint = rw (ptr-Here, ◌>>=◌)

  pub check-Here :
      (aid_at : ℕ → ActorId) → check aid_at t b.ctxid b.timestamp ≡ aid_eq (aid_at t.uintptr) t
  unfolding check
  check-Here aid_at = rw (h.ctxid, h.timestamp, h.ok, ==_refl b.ctxid, ==_refl b.timestamp, ◌&&◌)

-- The pack of a request, and that of the answer for a receiver that has exited.
abbrev pub request_pack : Response → ActorId → Message → BasicActor → Pack
request_pack res t m b = stamped b (record nil_pack {
  tag = Tag.request (record { id = res.id; aid = b.aid });
  recver = t;
  skt = t;
  msg = m;
})

abbrev pub obituary : WriteExit → Message
obituary write_exit = write_exit exit_already already_exited (new_message exit_type)

abbrev pub exited_pack : WriteExit → ActorId → Tag → BasicActor → Pack
exited_pack write_exit t tag b = stamped b (record nil_pack {
  tag = tag;
  recver = t;
  skt = t;
  msg = obituary write_exit;
  is_err_ret = true;
})

pub exited-Here :
    (write_exit : WriteExit) (t : ActorId) (tag : Tag) (b : BasicActor)
    → Here t b
    → send_already_exited write_exit t tag b
      ≡ some (record { to = t; pk = exited_pack write_exit t tag b; hint = SendHint.async } ∷ [], b)
unfolding send_already_exited
exited-Here write_exit t tag b h =
    rw (filter-Here t b h, ◌>>=◌, h.ok, if◌then◌else◌) (send-Here t b h _ SendHint.async)

pub request-Here :
    (write_exit : WriteExit) (res : Response) (t : ActorId) (m : Message) (hint : SendHint)
    (b : BasicActor)
    → Here t b
    → pri_request write_exit res t m hint b
      ≡ some (record { to = t; pk = request_pack res t m b; hint = hint_of b hint } ∷ [], b)
unfolding pri_request send_to
request-Here write_exit res t m hint b h =
    rw (filter-Here t b h, ◌>>=◌, h.ok, if◌then◌else◌) (send-Here t b h _ (hint_of b hint))

-- An id of an earlier run of the process.
pub filter_aid-stale :
    (t : ActorId) (b : BasicActor)
    → t.ctxid ≡ b.ctxid
    → (t.timestamp == b.timestamp) ≡ false
    → filter_aid t b ≡ some (nil_aid, b)
unfolding filter_aid check_local check_local_valid
filter_aid-stale t b e f = rw (e, f, ==_refl b.ctxid, if◌then◌else◌)

pub request-stale :
    (write_exit : WriteExit) (res : Response) (t : ActorId) (m : Message) (hint : SendHint)
    (b : BasicActor)
    → t.ctxid ≡ b.ctxid
    → (t.timestamp == b.timestamp) ≡ false
    → pri_request write_exit res t m hint b
      ≡ send_already_exited write_exit b.aid (Tag.response (new_response res.id t)) b
unfolding pri_request
request-stale write_exit res t m hint b e f = rw (filter_aid-stale t b e f, ◌>>=◌)
