-- ===== src/Mailbox/Calls.antt =====
-- A mailbox and its specification as seen by their caller: calls, and what each gives back.
use gce.Prelude.{ℕ, List, [], ◌∷◌, ◌++◌, Option, none, some, if◌then◌else◌, ◌>>=◌}
use mathlib.Core.Option
use gce.OrdMap.{OrdMap, find, insert, insert_or, assign, erase}
use gce.Key.{nat_key}
use gce.Ids.{ActorId, aid_ok}
use gce.Ids.Order.{aid_key}
use gce.Message.{Message, Recv, Request, Response, Exit, new_response}
use gce.Mailbox.{Mailbox, clear}
use gce.Mailbox.Inbox.{Entry, actor, service, arrive, take_match, exit_of}
use gce.Mailbox.Push.{push_aid, push_exit, push_request, push_response}
use gce.Mailbox.Pop.{sender_of, pop_recv, pop_response, pop_request}

pub data Call : Type 0 where
  pushes : ActorId → Message → Call
  pushes_exit : Exit → Message → Call
  pushes_request : Request → Message → Call
  pushes_response : Response → Message → Call
  pops : List ℕ → Call
  pops_response : Response → Call
  pops_request : ActorId → Call
  clears : Call

pub data Reply : Type 0 where
  done : Reply
  received : Option Entry → Reply
  answered : Option (Response × Message) → Reply
  requested : Option Request → Reply

-- One call of the code; `none` is undefined behaviour.
unfoldable pub step : Call → Mailbox → Option (Reply × Mailbox)
step (pushes sender msg) mb = Option.map (λ m. (done, m)) (push_aid sender msg mb)
step (pushes_exit ex msg) mb = Option.map (λ m. (done, m)) (push_exit ex msg mb)
step (pushes_request req msg) mb = Option.map (λ m. (done, m)) (push_request req msg mb)
step (pushes_response res msg) mb = some (done, push_response res msg mb)
step (pops types) mb =
    Option.map (λ (r : Option Entry × Mailbox). (received r.0, r.1)) (pop_recv types mb)
step (pops_response res) mb =
    Option.map (λ (r : Option (Response × Message) × Mailbox). (answered r.0, r.1))
      (pop_response res mb)
step (pops_request aid) mb = let (r, m) = pop_request aid mb in some (requested r, m)
step clears mb = some (done, clear mb)

unfoldable pub run : List Call → Mailbox → Option (List Reply)
run [] mb = some []
run (c ∷ cs) mb = do (reply, mb') ← step c mb; replies ← run cs mb'; some (reply ∷ replies)

-- The specification: the sequence of messages, the responses by id, and the requests that wait for
-- a reply, oldest first, by actor.
pub record Inbox : Type 0 where
  pub arrivals : List Entry
  pub replies : OrdMap ℕ (Response × Message)
  pub waiting : OrdMap ActorId (List Request)

abbrev pub empty : Inbox
empty = record { arrivals = []; replies = []; waiting = [] }

-- What a response is, when its receiver has exited in place of answering.
unfoldable pub exited : Response → Inbox → Option (Response × Message)
exited res b =
    if aid_ok res.recver
    then Option.map (λ (e : Entry). (new_response res.id res.recver, e.1))
        (exit_of (actor res.recver) b.arrivals)
    else Option.map (λ (e : Entry). (new_response res.id (sender_of e.0), e.1))
        (exit_of (service res.svc) b.arrivals)

unfoldable pub spec_step : Call → Inbox → Reply × Inbox
spec_step (pushes sender msg) b =
    (done, record b { arrivals = arrive (Recv.from_aid sender) msg b.arrivals })
spec_step (pushes_exit ex msg) b =
    (done, record b { arrivals = arrive (Recv.exit ex) msg b.arrivals })
spec_step (pushes_request req msg) b = (
  done,
  record b {
    arrivals = arrive (Recv.request req) msg b.arrivals;
    waiting = insert_or req.aid [] (λ que. que ++ (req ∷ [])) b.waiting;
  },
)
spec_step (pushes_response res msg) b =
    (done, record b { replies = insert res.id (res, msg) b.replies })
spec_step (pops types) b =
    let (found, left) = take_match types b.arrivals in
    (received found, record b { arrivals = left })
spec_step (pops_response res) b = elim (find res.id b.replies) [
  | some found ↦ (answered (some found), record b { replies = erase res.id b.replies })
  | none ↦ (answered (exited res b), b)
]
spec_step (pops_request aid) b = elim (find aid b.waiting) [
  | none ↦ (requested none, b)
  | some [] ↦ (requested none, b)
  | some (req ∷ rest) ↦ (requested (some req), record b { waiting = assign aid rest b.waiting })
]
spec_step clears b = (done, empty)

unfoldable pub spec_run : List Call → Inbox → List Reply
spec_run [] b = []
spec_run (c ∷ cs) b = let (reply, b') = spec_step c b in reply ∷ spec_run cs b'
