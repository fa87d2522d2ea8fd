-- ===== src/Mailbox/Pop.antt =====
-- The `pop` operations of libs/actor/src/mailbox.cpp.
use gce.Prelude.{ℕ, ◌&&◌, List, [], ◌∷◌, Option, none, some, ◌==◌, if◌then◌else◌, ◌>>=◌}
use gce.OrdMap.{find, assign, erase}
use gce.Ids.{ActorId, nil_aid, aid_ok, svc_ok}
use gce.Ids.Order.{aid_key, svc_key}
use gce.Key.{nat_key}
use gce.Atom.{exit_type}
use gce.Message.{Message, Recv, Request, Response, new_response}
use gce.Mailbox.{Mailbox, Cell, deref, erase_cell, queue_of, pop_queue}

-- The sender of an exit message, as `fetch_match_msg` reads it from `src`.
unfoldable pub sender_of : Recv → ActorId
sender_of (Recv.from_aid aid) = aid
sender_of (Recv.exit ex) = ex.aid
sender_of (Recv.request req) = nil_aid

-- The erasure of an exit message that is fetched from `exit_list_` or `svc_exit_list_`.
unfoldable pub forget_exit : ℕ → Recv → Mailbox → Mailbox
forget_exit type src mb =
    let sender = sender_of src in
    if type == exit_type && aid_ok sender
    then (if svc_ok sender.svc
        then record mb { svc_exit_list = erase sender.svc mb.svc_exit_list }
        else record mb { exit_list = erase sender mb.exit_list })
    else mb

-- `fetch_match_msg` past its test: `itr` is the front of the queue and `rest` what follows it.
unfoldable pub take_front : ℕ → ℕ → List ℕ → Mailbox → Option ((Recv × Message) × Mailbox)
take_front type itr rest mb = do
  cell ← deref itr mb.recv_que
  que ← erase_cell itr mb.recv_que
  some (
    (cell.src, cell.msg),
    record (forget_exit type cell.src (pop_queue type rest mb)) { recv_que = que },
  )

abbrev pub Fetched : Type 0
Fetched = Option (Recv × Message) × Mailbox

-- `fetch_match_msg`: `none` beside the mailbox is the result `false`.
unfoldable pub fetch_match_msg : ℕ → Mailbox → Option Fetched
fetch_match_msg type mb = elim (queue_of type mb) [
  | [] ↦ some (none, mb)
  | itr ∷ rest ↦ do (found, left) ← take_front type itr rest mb; some (some found, left)
]

-- The loop of `pop` over the match list.
unfoldable pub fetch_first : List ℕ → Mailbox → Option Fetched
fetch_first [] mb = some (none, mb)
fetch_first (type ∷ types) mb = do
  (found, left) ← fetch_match_msg type mb
  elim found [ some m ↦ some (some m, left) | none ↦ fetch_first types left ]

-- The tests of `pop`, given what is in `recv_que_`.
unfoldable pub pop_from : List Cell → List ℕ → Mailbox → Option Fetched
pop_from [] match_list mb = some (none, mb)
pop_from (front ∷ _) [] mb = fetch_match_msg front.msg.type mb
pop_from (front ∷ _) (type ∷ types) mb = fetch_first (type ∷ types) mb

-- `pop(recv_t&, message&, match_list_t const&)`
unfoldable pub pop_recv : List ℕ → Mailbox → Option Fetched
pop_recv match_list mb = pop_from mb.recv_que match_list mb

-- The part of `pop(response_t&, message&)` that answers for a receiver that has exited.
unfoldable pub pop_exited : Response → Mailbox → Option (Option (Response × Message))
pop_exited res mb =
    if aid_ok res.recver
    then (elim (find res.recver mb.exit_list) [
      | none ↦ some none
      | some itr ↦ do
        cell ← deref itr mb.recv_que
        some (some (new_response res.id res.recver, cell.msg))
    ])
    else (elim (find res.svc mb.svc_exit_list) [
      | none ↦ some none
      | some (aid, itr) ↦ do
        cell ← deref itr mb.recv_que
        some (some (new_response res.id aid, cell.msg))
    ])

-- `pop(response_t&, message&)`
unfoldable pub pop_response : Response → Mailbox → Option (Option (Response × Message) × Mailbox)
pop_response res mb = elim (find res.id mb.res_msg_list) [
  | some found ↦ some (some found, record mb { res_msg_list = erase res.id mb.res_msg_list })
  | none ↦ do found ← pop_exited res mb; some (found, mb)
]

-- `pop(aid_t, request_t&)`
unfoldable pub pop_request : ActorId → Mailbox → Option Request × Mailbox
pop_request aid mb = elim (find aid mb.wait_reply_list) [
  | none ↦ (none, mb)
  | some [] ↦ (none, mb)
  | some (req ∷ rest) ↦
      (some req, record mb { wait_reply_list = assign aid rest mb.wait_reply_list })
]
