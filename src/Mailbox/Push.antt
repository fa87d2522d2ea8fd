-- ===== src/Mailbox/Push.antt =====
-- The `push` operations of libs/actor/src/mailbox.cpp.
use gce.Prelude.{ℕ, suc, ◌&&◌, [], ◌∷◌, ◌++◌, Option, none, some, ◌==◌, if◌then◌else◌, ◌>>=◌}
use mathlib.Core.Option
use gce.OrdMap.{find, insert, insert_or}
use gce.Ids.{ActorId, nil_aid, aid_ok, svc_ok}
use gce.Ids.Order.{aid_key, svc_key}
use gce.Key.{nat_key}
use gce.Atom.{exit_type}
use gce.Message.{Message, Recv, Request, Response, Exit}
use gce.Mailbox.{Mailbox, erase_cell, erase_itr, queue_of, put_queue}

-- `recv_que_.erase(...)` and `match_que->erase(...)` for an exit message that is superseded.
unfoldable pub drop_old : Option ℕ → ℕ → Mailbox → Option Mailbox
unfolding queue_of put_queue erase_itr erase_cell
drop_old none type mb = some mb
drop_old (some old) type mb = do
  que ← erase_cell old mb.recv_que
  q ← erase_itr old (queue_of type mb)
  some (put_queue type q (record mb { recv_que = que }))

-- The node and its entry in a match queue.
unfoldable pub append_cell : Recv → Message → Mailbox → Mailbox
unfolding queue_of put_queue
append_cell rcv msg mb = put_queue msg.type (queue_of msg.type mb ++ (mb.next ∷ [])) (record mb {
  recv_que = mb.recv_que ++ (record { addr = mb.next; src = rcv; msg = msg } ∷ []);
  next = suc mb.next;
})

-- `add_match_msg`
unfoldable pub add_match_msg : Recv → ActorId → Message → Mailbox → Option Mailbox
add_match_msg rcv sender msg mb =
    let mtr = mb.next in
    let added = append_cell rcv msg mb in
    if aid_ok sender && msg.type == exit_type
    then (if svc_ok sender.svc
        then (do
          kept ←
              drop_old (Option.map (λ (p : ActorId × ℕ). p.1) (find sender.svc added.svc_exit_list))
                msg.type added
          some (record kept {
            svc_exit_list =
                insert_or sender.svc (sender, mtr) (λ _. (sender, mtr)) kept.svc_exit_list;
          }))
        else (do
          kept ← drop_old (find sender added.exit_list) msg.type added
          some (record kept { exit_list = insert_or sender mtr (λ _. mtr) kept.exit_list })))
    else some added

-- `push(aid_t, message const&)`
unfoldable pub push_aid : ActorId → Message → Mailbox → Option Mailbox
push_aid sender msg mb = add_match_msg (Recv.from_aid sender) sender msg mb

-- `push(exit_t, message const&)`
unfoldable pub push_exit : Exit → Message → Mailbox → Option Mailbox
push_exit ex msg mb = add_match_msg (Recv.exit ex) ex.aid msg mb

-- `push(request_t, message const&)`
unfoldable pub push_request : Request → Message → Mailbox → Option Mailbox
push_request req msg mb = do
  added ← add_match_msg (Recv.request req) nil_aid msg mb
  some (record added {
    wait_reply_list = insert_or req.aid [] (λ que. que ++ (req ∷ [])) added.wait_reply_list;
  })

-- `push(response_t, message const&)`
unfoldable pub push_response : Response → Message → Mailbox → Mailbox
push_response res msg mb = record mb { res_msg_list = insert res.id (res, msg) mb.res_msg_list }
