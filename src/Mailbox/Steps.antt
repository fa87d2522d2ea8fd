-- ===== src/Mailbox/Steps.antt =====
-- The parts of `add_match_msg`: a new node, and the removal of a superseded one.
use gce.Prelude.{
  ℕ, suc, ◌≡◌, refl, true, List, [], ◌∷◌, ◌++◌, some, arith, ◌==◌, Bool-cases, inl, inr,
}
use gce.Message.{Recv, Message}
use gce.Mailbox.{Mailbox, Cell, deref, queue_of, put_queue, pop_queue}
use gce.Mailbox.Queues.{queue_of-put_queue}
use gce.Mailbox.Cells.{
  addrs_of, del, addrs_of-append, erase_cell-del, erase_itr-addrs_of, addrs_of-del_ne,
}
use gce.Mailbox.Push.{append_cell, drop_old}

-- The match queues list the nodes.
abbrev pub Listed : Mailbox → Type 0
Listed mb = (t : ℕ) → queue_of t mb ≡ addrs_of t mb.recv_que

-- What a write to a match queue, or to `recv_que_`, leaves alone.
pub record Keeps (new old : Mailbox) : Type 0 where
  pub exits : new.exit_list ≡ old.exit_list
  pub svc_exits : new.svc_exit_list ≡ old.svc_exit_list
  pub replies : new.res_msg_list ≡ old.res_msg_list
  pub waiting : new.wait_reply_list ≡ old.wait_reply_list

pub put_queue-Keeps :
    (t : ℕ) (q : List ℕ) (mb : Mailbox)
    → Keeps (put_queue t q mb) mb
      × ((put_queue t q mb).recv_que ≡ mb.recv_que)
      × ((put_queue t q mb).next ≡ mb.next)
unfolding put_queue
put_queue-Keeps t q mb = ground arith

pub pop_queue-Keeps :
    (t : ℕ) (q : List ℕ) (mb : Mailbox)
    → Keeps (pop_queue t q mb) mb
      × ((pop_queue t q mb).recv_que ≡ mb.recv_que)
      × ((pop_queue t q mb).next ≡ mb.next)
unfolding pop_queue
pop_queue-Keeps t (a ∷ q) mb = put_queue-Keeps t (a ∷ q) mb
pop_queue-Keeps t [] mb = ground arith

-- `queue_of` reads the two tables of queues, and no other field.
pub queue_of-congr :
    (t : ℕ) (mb : Mailbox) (que : List Cell) (n : ℕ)
    → queue_of t (record mb { recv_que = que; next = n }) ≡ queue_of t mb
unfolding queue_of
queue_of-congr t mb que n = refl

abbrev pub new_cell : Recv → Message → Mailbox → Cell
new_cell rcv msg mb = record { addr = mb.next; src = rcv; msg = msg }

module _ (rcv : Recv) (msg : Message) (mb : Mailbox) where
  pub append_cell-Keeps :
      Keeps (append_cell rcv msg mb) mb
      × ((append_cell rcv msg mb).recv_que ≡ mb.recv_que ++ (new_cell rcv msg mb ∷ []))
      × ((append_cell rcv msg mb).next ≡ suc mb.next)
  unfolding append_cell
  append_cell-Keeps = ground (
    arith,
    put_queue-Keeps msg.type (queue_of msg.type mb ++ (mb.next ∷ []))
        (record mb { recv_que = mb.recv_que ++ (new_cell rcv msg mb ∷ []); next = suc mb.next }),
  )

  pub append_cell-Listed : Listed mb → Listed (append_cell rcv msg mb)
  unfolding append_cell
  append_cell-Listed h t =
      rw
        (
          append_cell-Keeps.1,
          addrs_of-append t mb.recv_que (new_cell rcv msg mb),
          queue_of-put_queue msg.type t (queue_of msg.type mb ++ (mb.next ∷ [])) _,
          queue_of-congr t mb _ _,
        )
        (ground (arith, h msg.type, h t))

module _ (a t : ℕ) (c : Cell) (mb : Mailbox) (h : Listed mb) (at : deref a mb.recv_que ≡ some c)
    (typed : (c.msg.type == t) ≡ true) where
  pub dropped : Mailbox
  dropped =
      put_queue t (addrs_of t (del a mb.recv_que)) (record mb { recv_que = del a mb.recv_que })

  pub drop_old-dropped : drop_old (some a) t mb ≡ some dropped
  unfolding drop_old dropped
  drop_old-dropped =
      rw (erase_cell-del a mb.recv_que c at, h t, erase_itr-addrs_of t a mb.recv_que c at typed)

  pub dropped-Keeps :
      Keeps dropped mb × (dropped.recv_que ≡ del a mb.recv_que) × (dropped.next ≡ mb.next)
  unfolding dropped
  dropped-Keeps = ground (
    arith,
    put_queue-Keeps t (addrs_of t (del a mb.recv_que)) (record mb { recv_que = del a mb.recv_que }),
  )

  pub dropped-Listed : Listed dropped
  unfolding dropped
  dropped-Listed u =
      rw
        (
          queue_of-put_queue t u (addrs_of t (del a mb.recv_que)) _,
          queue_of-congr u mb (del a mb.recv_que) mb.next,
          dropped-Keeps.1,
        )
        (elim (Bool-cases (t == u)) [
          | inl e ↦ rw e (ground (arith))
          | inr e ↦ rw e (ground (arith, h u, addrs_of-del_ne u a mb.recv_que c at))
        ])
