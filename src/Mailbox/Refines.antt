-- ===== src/Mailbox/Refines.antt =====
-- The mailbox implements the specification, and no call on it is undefined behaviour.
use mathlib.Core.Option
use gce.Prelude.{
  ℕ, zero, suc, ◌≡◌, refl, List, [], ◌∷◌, ◌++◌, Option, some, arith, Bool-cases, Option-cases, inl,
  inr, ◌>>=◌, get_or, length,
}
use gce.OrdMap.{OrdMap, find, insert, insert_or, erase, assign}
use gce.Key.{nat_key}
use gce.Ids.{ActorId, aid_ok}
use gce.Ids.Order.{aid_key, svc_key}
use gce.Message.{Message, Recv, Request, Response}
use gce.Mailbox.{Mailbox, queue_of, new_mailbox, empty_queues, clear}
use gce.Mailbox.Inbox.{actor, service, arrive}
use gce.Mailbox.Cells.{view, holder, deref-holder, exit_of-view}
use gce.Mailbox.Push.{add_match_msg, push_aid, push_exit, push_request, push_response}
use gce.Mailbox.Pop.{sender_of, pop_exited, pop_response, pop_request}
use gce.Mailbox.Invariant.{Inv}
use gce.Mailbox.PushRefines.{add-Adds}
use gce.Mailbox.PopRefines.{pop_recv-Takes}
use gce.Mailbox.Calls.{
  Call, pushes, pushes_exit, pushes_request, pushes_response, pops, pops_response, pops_request,
  clears, Reply, done, step, run, Inbox, empty, exited, spec_step, spec_run,
}

abbrev pub inbox_of : Mailbox → Inbox
inbox_of mb = record {
  arrivals = view mb.recv_que;
  replies = mb.res_msg_list;
  waiting = mb.wait_reply_list;
}

abbrev pub Refines : Option (Reply × Mailbox) → Reply × Inbox → Type 0
Refines out spec = (mb : Mailbox) × (out ≡ some (spec.0, mb)) × Inv mb × (inbox_of mb ≡ spec.1)

get_or-empty_queues : (n i : ℕ) → get_or (empty_queues n) i [] ≡ []
get_or-empty_queues zero i = refl
get_or-empty_queues (suc n) zero = refl
get_or-empty_queues (suc n) (suc i) = get_or-empty_queues n i

-- A mailbox with nothing in it.
bare-Inv :
    (k n : ℕ)
    → Inv (record {
      recv_que = [];
      cache_match_list = empty_queues k;
      match_queue_list = [];
      res_msg_list = [];
      wait_reply_list = [];
      exit_list = [];
      svc_exit_list = [];
      next = n;
    })
unfolding queue_of find
bare-Inv k n = record {
  span = omega arith;
  twins = tt;
  queues = λ t. ground (arith, get_or-empty_queues k t);
  exits = λ a. refl;
  svc_exits = λ s. refl;
}

pub new_mailbox-Inv : (k : ℕ) → Inv (new_mailbox k)
unfolding new_mailbox
new_mailbox-Inv k = bare-Inv k 0

-- An exit index answers as the sequence does.
pop_exited-exited :
    (res : Response) (mb : Mailbox) → Inv mb → pop_exited res mb ≡ some (exited res (inbox_of mb))
unfolding pop_exited exited
pop_exited-exited res mb v = elim (Bool-cases (aid_ok res.recver)) [
  | inl e ↦ elim (Option-cases (holder (actor res.recver) mb.recv_que)) [
    | inl n ↦ rw (e, v.exits res.recver, exit_of-view (actor res.recver) mb.recv_que, n)
    | inr (c, n) ↦ rw (
      e,
      v.exits res.recver,
      exit_of-view (actor res.recver) mb.recv_que,
      n,
      (deref-holder 0 mb.next (actor res.recver) mb.recv_que c v.span n).0,
    )
  ]
  | inr e ↦ elim (Option-cases (holder (service res.svc) mb.recv_que)) [
    | inl n ↦ rw (e, v.svc_exits res.svc, exit_of-view (service res.svc) mb.recv_que, n)
    | inr (c, n) ↦ rw (
      e,
      v.svc_exits res.svc,
      exit_of-view (service res.svc) mb.recv_que,
      n,
      (deref-holder 0 mb.next (service res.svc) mb.recv_que c v.span n).0,
    )
  ]
]

-- The responses and the waiting requests do not enter the invariant.
pub other-Inv :
    (mb : Mailbox) (rs : OrdMap ℕ (Response × Message)) (ws : OrdMap ActorId (List Request))
    → Inv mb
    → Inv (record mb { res_msg_list = rs; wait_reply_list = ws })
unfolding queue_of
other-Inv mb rs ws v = record {
  span = v.span;
  twins = v.twins;
  queues = v.queues;
  exits = v.exits;
  svc_exits = v.svc_exits;
}

push-Refines :
    (rcv : Recv) (msg : Message) (mb : Mailbox)
    → Inv mb
    → Refines
        (Option.map (λ m. (done, m)) (add_match_msg rcv (sender_of rcv) msg mb))
        (done, record (inbox_of mb) { arrivals = arrive rcv msg (view mb.recv_que) })
push-Refines rcv msg mb v =
    let (m, e, w, que, replies, waiting) = add-Adds rcv msg mb v in
    (m, rw e, w, λ i. record { arrivals = que i; replies = replies i; waiting = waiting i })

pops_response-Refines :
    (res : Response) (mb : Mailbox)
    → Inv mb
    → Refines (step (pops_response res) mb) (spec_step (pops_response res) (inbox_of mb))
unfolding step spec_step pop_response
pops_response-Refines res mb v = elim (Option-cases (find res.id mb.res_msg_list)) [
  | inl n ↦ rw (n, spec_step) (mb, rw (n, pop_response, pop_exited-exited res mb v, ◌>>=◌), v, refl)
  | inr (found, n) ↦
      let left = erase res.id mb.res_msg_list in
      rw (n, spec_step)
        (
          record mb { res_msg_list = left },
          rw (n, pop_response),
          other-Inv mb left mb.wait_reply_list v,
          refl,
        )
]

pub pop_response-Inv :
    (res : Response) (mb : Mailbox)
    → Inv mb
    → (found : Option (Response × Message)) × (m : Mailbox) × (pop_response res mb
        ≡ some (found, m))
      × Inv m
unfolding pop_response
pop_response-Inv res mb v = elim (Option-cases (find res.id mb.res_msg_list)) [
  | inl n ↦
      (exited res (inbox_of mb), mb, rw (pop_response, n, pop_exited-exited res mb v, ◌>>=◌), v)
  | inr (found, n) ↦
      let left = erase res.id mb.res_msg_list in
      (
        some found,
        record mb { res_msg_list = left },
        rw (pop_response, n),
        other-Inv mb left mb.wait_reply_list v,
      )
]

pops_request-Refines :
    (aid : ActorId) (mb : Mailbox)
    → Inv mb
    → Refines (step (pops_request aid) mb) (spec_step (pops_request aid) (inbox_of mb))
unfolding step spec_step pop_request
pops_request-Refines aid mb v = elim (Option-cases (find aid mb.wait_reply_list)) [
  | inl n ↦ rw (n, spec_step) (mb, rw (n, pop_request), v, refl)
  | inr ([], n) ↦ rw (n, spec_step) (mb, rw (n, pop_request), v, refl)
  | inr (req ∷ rest, n) ↦
      let left = assign aid rest mb.wait_reply_list in
      rw (n, spec_step)
        (
          record mb { wait_reply_list = left },
          rw (n, pop_request),
          other-Inv mb mb.res_msg_list left v,
          refl,
        )
]

-- In a mailbox that satisfies the invariant, each call is free of undefined behaviour, replies as the
-- specification does in the inbox that the mailbox stands for, and leaves a mailbox that satisfies the
-- invariant and stands for the inbox that the specification leaves.
step-Refines : (c : Call) (mb : Mailbox) → Inv mb → Refines (step c mb) (spec_step c (inbox_of mb))
unfolding step spec_step push_aid push_exit push_request push_response sender_of
step-Refines (pushes sender msg) mb v = push-Refines (Recv.from_aid sender) msg mb v
step-Refines (pushes_exit ex msg) mb v = push-Refines (Recv.exit ex) msg mb v
step-Refines (pushes_request req msg) mb v =
    let (m, e, w, que, replies, waiting) = add-Adds (Recv.request req) msg mb v in
    let add = insert_or req.aid [] (λ que. que ++ (req ∷ [])) in
    (
      record m { wait_reply_list = add m.wait_reply_list },
      rw (e, ◌>>=◌),
      other-Inv m m.res_msg_list (add m.wait_reply_list) w,
      λ i. record { arrivals = que i; replies = replies i; waiting = add (waiting i) },
    )
step-Refines (pushes_response res msg) mb v = (
  push_response res msg mb,
  refl,
  other-Inv mb (insert res.id (res, msg) mb.res_msg_list) mb.wait_reply_list v,
  refl,
)
step-Refines (pops types) mb v =
    let (m, e, w, que, replies, waiting) = pop_recv-Takes types mb v in
    (m, rw e, w, λ i. record { arrivals = que i; replies = replies i; waiting = waiting i })
step-Refines (pops_response res) mb v = pops_response-Refines res mb v
step-Refines (pops_request aid) mb v = pops_request-Refines aid mb v
step-Refines clears mb v = (
  clear mb,
  refl,
  unfold clear in bare-Inv (length mb.cache_match_list) mb.next,
  unfold clear in refl,
)

run_from : (cs : List Call) (mb : Mailbox) → Inv mb → run cs mb ≡ some (spec_run cs (inbox_of mb))
unfolding run spec_run
run_from [] mb v = refl
run_from (c ∷ cs) mb v = let (m, e, w, b) = step-Refines c mb v in rw (e, ◌>>=◌, run_from cs m w, b)

-- Whatever calls are made of a new mailbox, none of them is undefined behaviour, and together they
-- give what the specification gives from an empty inbox.
pub run_refines :
    (cache_match_size : ℕ) (cs : List Call)
    → run cs (new_mailbox cache_match_size) ≡ some (spec_run cs empty)
run_refines n cs = unfold new_mailbox in run_from cs (new_mailbox n) (new_mailbox-Inv n)
