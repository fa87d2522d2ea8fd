-- ===== src/Mailbox/PopRefines.antt =====
-- `fetch_match_msg` never faults, keeps the invariant, and takes the oldest message of its type.
use gce.Prelude.{
  ℕ, ◌≡◌, refl, sym, ap, subst, ◌∙◌, true, List, [], ◌∷◌, Option, none, some, arith, ◌==◌, ==_refl,
  if◌then◌else◌, Bool-cases, Option-cases, inl, inr, ◌>>=◌,
}
use gce.OrdMap.{find, find-erase}
use gce.Ids.{ActorId, ServiceId}
use gce.Ids.Order.{aid_key, svc_key}
use gce.Message.{Recv, Message}
use gce.Mailbox.{Mailbox, Cell, deref, queue_of, pop_queue}
use gce.Mailbox.Inbox.{actor, service, Entry, key_of, same, take_type, take_any, take_match}
use gce.Mailbox.Pop.{
  sender_of, forget_exit, take_front, fetch_match_msg, fetch_first, pop_from, pop_recv,
}
use gce.Mailbox.Cells.{
  view, entry, cell_key, addrs_of, del, Span-del, NoTwins-del, holder-del, erase_cell-del,
  addrs_of-del_ne, take_type-view, take_type-view-none,
}
use gce.Mailbox.Invariant.{Inv}
use gce.Mailbox.Queues.{queue_of-pop_queue}
use gce.Mailbox.Steps.{pop_queue-Keeps, queue_of-congr}

-- The erasure of a key from the exit indices.
module _ (t : ℕ) (c : Cell) (mb : Mailbox) (typed : (c.msg.type == t) ≡ true) where
  forget_exit-exits :
      (a : ActorId)
      → find a (forget_exit t c.src mb).exit_list
        ≡ (if same (cell_key c) (actor a) then none else find a mb.exit_list)
  unfolding forget_exit same key_of
  forget_exit-exits a = ground (arith, find-erase a (sender_of c.src) mb.exit_list)

  forget_exit-svc_exits :
      (s : ServiceId)
      → find s (forget_exit t c.src mb).svc_exit_list
        ≡ (if same (cell_key c) (service s) then none else find s mb.svc_exit_list)
  unfolding forget_exit same key_of
  forget_exit-svc_exits s = ground (arith, find-erase s (sender_of c.src).svc mb.svc_exit_list)

  forget_exit-rest :
      ((forget_exit t c.src mb).next ≡ mb.next)
      × ((forget_exit t c.src mb).res_msg_list ≡ mb.res_msg_list)
      × ((forget_exit t c.src mb).wait_reply_list ≡ mb.wait_reply_list)
  unfolding forget_exit
  forget_exit-rest = ground arith

  forget_exit-queue : (u : ℕ) → queue_of u (forget_exit t c.src mb) ≡ queue_of u mb
  unfolding forget_exit queue_of
  forget_exit-queue u = ground arith

module _ (t a : ℕ) (rest : List ℕ) (c : Cell) (mb : Mailbox) (v : Inv mb)
    (at : deref a mb.recv_que ≡ some c) (typed : (c.msg.type == t) ≡ true)
    (left : addrs_of t (del a mb.recv_que) ≡ rest) where
  taken : Mailbox
  taken = record (forget_exit t c.src (pop_queue t rest mb)) { recv_que = del a mb.recv_que }

  take_front-taken : take_front t a rest mb ≡ some (entry c, taken)
  unfolding take_front taken
  take_front-taken = rw (at, ◌>>=◌, erase_cell-del a mb.recv_que c at, ◌>>=◌)

  taken-rest :
      (taken.next ≡ mb.next)
      × (taken.res_msg_list ≡ mb.res_msg_list)
      × (taken.wait_reply_list ≡ mb.wait_reply_list)
  unfolding taken
  taken-rest =
      ground (arith, forget_exit-rest t c (pop_queue t rest mb) typed, pop_queue-Keeps t rest mb)

  taken-queue : (u : ℕ) → queue_of u taken ≡ (if t == u then rest else queue_of u mb)
  unfolding taken
  taken-queue u =
      queue_of-congr u (forget_exit t c.src popped) (del a mb.recv_que)
        (forget_exit t c.src popped).next
      ∙ forget_exit-queue t c popped typed u
      ∙ queue_of-pop_queue t u rest mb
    where
      popped : Mailbox
      popped = pop_queue t rest mb

  taken-queues : (u : ℕ) → queue_of u taken ≡ addrs_of u (del a mb.recv_que)
  taken-queues u = elim (Bool-cases (t == u)) [
    | inl e ↦ rw (taken-queue u, e, ← left) (ground arith)
    | inr e ↦
        rw (taken-queue u, e) (ground (arith, v.queues u, addrs_of-del_ne u a mb.recv_que c at))
  ]

  taken-Inv : Inv taken
  unfolding taken
  taken-Inv = record {
    span = rw taken-rest.0 (Span-del 0 mb.next a mb.recv_que v.span);
    twins = NoTwins-del a mb.recv_que v.twins;
    queues = taken-queues;
    exits = λ k.
        rw
          (
            forget_exit-exits t c (pop_queue t rest mb) typed k,
            (pop_queue-Keeps t rest mb).0.exits,
            v.exits k,
            holder-del a (actor k) mb.recv_que c v.twins at,
          )
          (ground arith);
    svc_exits = λ s.
        rw
          (
            forget_exit-svc_exits t c (pop_queue t rest mb) typed s,
            (pop_queue-Keeps t rest mb).0.svc_exits,
            v.svc_exits s,
            holder-del a (service s) mb.recv_que c v.twins at,
          )
          (ground arith);
  }

-- What a call that takes a message gives: no fault, the invariant, and a result of the sequence.
abbrev pub Takes : Mailbox → Option (Option Entry × Mailbox) → Option Entry × List Entry → Type 0
Takes mb out spec =
    (mb' : Mailbox) × (out ≡ some (spec.0, mb'))
    × Inv mb'
    × (view mb'.recv_que ≡ spec.1)
    × (mb'.res_msg_list ≡ mb.res_msg_list)
    × (mb'.wait_reply_list ≡ mb.wait_reply_list)

-- The oldest message of one type.
abbrev pub take_one : ℕ → List Entry → Option Entry × List Entry
take_one t q = elim (take_type t q) [ some (e, r) ↦ (some e, r) | none ↦ (none, q) ]

fetch_cases :
    (t : ℕ) (mb : Mailbox) (q : List ℕ)
    → Inv mb
    → queue_of t mb ≡ q
    → Takes mb (fetch_match_msg t mb) (take_one t (view mb.recv_que))
unfolding fetch_match_msg
fetch_cases t mb [] v e =
    let spec = take_type-view-none t mb.recv_que (ground (arith, v.queues t)) in
    rw (spec, take_one) (mb, rw (e, fetch_match_msg), v, refl, refl, refl)
fetch_cases t mb (a ∷ rest) v e =
    let (c, at, typed, left, spec) =
      take_type-view 0 mb.next t a rest mb.recv_que v.span (ground (arith, v.queues t)) in
    let (_, replies, waiting) = taken-rest t a rest c mb v at typed left in
    rw (spec, take_one)
      (
        taken t a rest c mb v at typed left,
        rw (e, fetch_match_msg, take_front-taken t a rest c mb v at typed left, ◌>>=◌),
        taken-Inv t a rest c mb v at typed left,
        unfold taken in refl,
        replies,
        waiting,
      )

pub fetch-Takes :
    (t : ℕ) (mb : Mailbox)
    → Inv mb
    → Takes mb (fetch_match_msg t mb) (take_one t (view mb.recv_que))
fetch-Takes t mb v = fetch_cases t mb (queue_of t mb) v refl

fetch_none :
    (t : ℕ) (mb : Mailbox)
    → Inv mb
    → take_type t (view mb.recv_que) ≡ none
    → Takes mb (fetch_match_msg t mb) (none, view mb.recv_que)
fetch_none t mb v n = rw (n, take_one) at (fetch-Takes t mb v)

fetch_some :
    (t : ℕ) (mb : Mailbox) (m : Entry) (r : List Entry)
    → Inv mb
    → take_type t (view mb.recv_que) ≡ some (m, r)
    → Takes mb (fetch_match_msg t mb) (some m, r)
fetch_some t mb m r v n = rw (n, take_one) at (fetch-Takes t mb v)

fetch_first-Takes :
    (ts : List ℕ) (mb : Mailbox)
    → Inv mb
    → Takes mb (fetch_first ts mb) (take_any ts (view mb.recv_que))
unfolding fetch_first take_any
fetch_first-Takes [] mb v = (mb, refl, v, refl, refl, refl)
fetch_first-Takes (t ∷ ts) mb v = elim (Option-cases (take_type t (view mb.recv_que))) [
  | inl n ↦
      let (one, e, w, que, replies, waiting) = fetch_none t mb v n in
      let (two, e', w', que', replies', waiting') = fetch_first-Takes ts one w in
      rw (n, take_any, e, ◌>>=◌)
        (two, rw que at e', w', rw que at que', replies' ∙ replies, waiting' ∙ waiting)
  | inr ((m, r), n) ↦
      let (one, e, w, que, replies, waiting) = fetch_some t mb m r v n in
      rw (n, take_any, e, ◌>>=◌) (one, refl, w, que, replies, waiting)
]

take_type-head :
    (src : Recv) (msg : Message) (q : List Entry)
    → take_type msg.type ((src, msg) ∷ q) ≡ some ((src, msg), q)
unfolding take_type
take_type-head src msg q = rw (==_refl msg.type)

take_any-nil : (ts : List ℕ) → take_any ts [] ≡ (none, [])
unfolding take_any take_type
take_any-nil [] = refl
take_any-nil (t ∷ ts) = take_any-nil ts

pop_cases :
    (ts : List ℕ) (mb : Mailbox) (q : List Cell)
    → Inv mb
    → mb.recv_que ≡ q
    → Takes mb (pop_recv ts mb) (take_match ts (view q))
unfolding pop_recv pop_from take_match
pop_cases [] mb [] v e = (mb, ap (λ z. pop_from z [] mb) e, v, ap view e, refl, refl)
pop_cases (t ∷ ts) mb [] v e =
    rw (take_any-nil (t ∷ ts)) (mb, ap (λ z. pop_from z (t ∷ ts) mb) e, v, ap view e, refl, refl)
pop_cases [] mb (c ∷ q) v e =
    let head = ap (λ z. take_type c.msg.type (view z)) e ∙ take_type-head c.src c.msg (view q) in
    subst (λ z. Takes mb z (some (entry c), view q)) (sym (ap (λ z. pop_from z [] mb) e))
      (fetch_some c.msg.type mb (entry c) (view q) v head)
pop_cases (t ∷ ts) mb (c ∷ q) v e =
    let called : pop_recv (t ∷ ts) mb ≡ fetch_first (t ∷ ts) mb =
      ap (λ z. pop_from z (t ∷ ts) mb) e in
    rw called (
      subst (λ z. Takes mb (fetch_first (t ∷ ts) mb) (take_any (t ∷ ts) (view z))) e
        (fetch_first-Takes (t ∷ ts) mb v))

-- In a mailbox that satisfies the invariant, `pop` with a match list is free of undefined behaviour. It
-- gives the oldest message of the first type of the list that has one, or the oldest of all if the
-- list is empty, takes that message and no other from the mailbox, and keeps the invariant.
pub pop_recv-Takes :
    (ts : List ℕ) (mb : Mailbox)
    → Inv mb
    → Takes mb (pop_recv ts mb) (take_match ts (view mb.recv_que))
pop_recv-Takes ts mb v = pop_cases ts mb mb.recv_que v refl
