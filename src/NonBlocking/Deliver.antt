-- ===== src/NonBlocking/Deliver.antt =====
-- The packs that an actor sends in the `handle_recv` of another: what a request, and an answer, do there.
use gce.Prelude.{
  ℕ, ◌≡◌, refl, ap, ◌∙◌, true, false, List, [], ◌∷◌, ◌++◌, Option, none, some, arith, if◌then◌else◌,
  ◌>>=◌, option_or,
}
use gce.Key.{eqv_refl, nat_key}
use gce.OrdMap.{find, insert, insert_or, assign, erase, find-insert, find-insert_or}
use gce.Ids.{ActorId, aid_eq}
use gce.Ids.Order.{aid_key}
use gce.Message.{Message, Request, Response, Recv, Tag, Pack, new_response}
use gce.Mailbox.{Mailbox}
use gce.Mailbox.Push.{push_request, push_response, add_match_msg, append_cell}
use gce.Mailbox.Pop.{pop_request, pop_response}
use gce.Mailbox.Steps.{append_cell-Keeps}
use gce.BasicActor.{BasicActor, SendHint, Sent, Outcome, WriteExit, hint_of, nil_pack, send_to}
use gce.BasicActor.Sends.{pri_reply, reply_tag}
use gce.BasicActor.Requests.{Here, filter-Here, send-Here, check-Here, stamped}
use gce.NonBlocking.{Reader, handle_recv, handle_own, recv_response}
use gce.BasicActor.Receive.{handle_stale}

-- The packs that were sent, in the `handle_recv` of the actor they were sent to.
unfoldable pub deliver : WriteExit → Reader → (ℕ → ActorId) → List Sent → BasicActor → Outcome
deliver write_exit reader aid_at [] b = some ([], b)
deliver write_exit reader aid_at (s ∷ ss) b = do
  (sent, c) ← handle_recv write_exit reader aid_at s.pk b
  (more, d) ← deliver write_exit reader aid_at ss c
  some (sent ++ more, d)

abbrev pub answer_of :
    Option (Option (ActorId × Message) × BasicActor) → Option (Option (ActorId × Message))
answer_of none = none
answer_of (some (found, b)) = some found

aid_eq_refl : (a : ActorId) → aid_eq a a ≡ true
unfolding aid_eq
aid_eq_refl a = ground arith

pub push_request-queued :
    (req : Request) (m : Message) (mb : Mailbox)
    → find req.aid mb.wait_reply_list ≡ none
    → (mb' : Mailbox) × (push_request req m mb ≡ some mb')
      × (find req.aid mb'.wait_reply_list ≡ some (req ∷ []))
unfolding push_request add_match_msg
push_request-queued req m mb n =
    let added = append_cell (Recv.request req) m mb in
    let k = append_cell-Keeps (Recv.request req) m mb in
    let before : find req.aid added.wait_reply_list ≡ none = ap (find req.aid) k.0.waiting ∙ n in
    (
      record added {
        wait_reply_list = insert_or req.aid [] (λ que. que ++ (req ∷ [])) added.wait_reply_list;
      },
      refl,
      rw (
        find-insert_or req.aid req.aid [] (λ que. que ++ (req ∷ [])) added.wait_reply_list,
        eqv_refl req.aid,
        before,
        option_or,
      ),
    )

pub pop_request-queued :
    (aid : ActorId) (req : Request) (mb : Mailbox)
    → find aid mb.wait_reply_list ≡ some (req ∷ [])
    → (mb' : Mailbox) × (pop_request aid mb ≡ (some req, mb'))
unfolding pop_request
pop_request-queued aid req mb e =
    (record mb { wait_reply_list = assign aid [] mb.wait_reply_list }, rw (e, pop_request))

pub pop_response-filed :
    (res : Response) (x : ActorId) (m : Message) (mb : Mailbox)
    → find res.id mb.res_msg_list ≡ none
    → (mb' : Mailbox) × (pop_response res (push_response (new_response res.id x) m mb)
        ≡ some (some (new_response res.id x, m), mb'))
unfolding pop_response push_response
pop_response-filed res x m mb n =
    let list = insert res.id (new_response res.id x, m) mb.res_msg_list in
    (
      record mb { res_msg_list = erase res.id list },
      rw (
        find-insert res.id res.id (new_response res.id x, m) mb.res_msg_list,
        eqv_refl res.id,
        n,
        option_or,
        if◌then◌else◌,
        pop_response,
      ),
    )

module _ (write_exit : WriteExit) (reader : Reader) (aid_at : ℕ → ActorId) where
  -- What `handle_recv` does with a pack to a live actor, and with a request to one that has exited.
  pub handle-own :
      (pk : Pack) (b : BasicActor)
      → Here pk.recver b
      → aid_at pk.recver.uintptr ≡ pk.recver
      → (c : BasicActor) → handle_own reader pk.tag pk.skt pk.msg b ≡ some c
      → handle_recv write_exit reader aid_at pk b ≡ some ([], c)
  unfolding handle_recv
  handle-own pk b h live c e =
      rw (check-Here pk.recver b h aid_at, live, aid_eq_refl pk.recver, if◌then◌else◌, e, ◌>>=◌)

  pub handle-stale :
      (pk : Pack) (b : BasicActor)
      → Here pk.recver b
      → aid_eq (aid_at pk.recver.uintptr) pk.recver ≡ false
      → pk.is_err_ret ≡ false
      → handle_recv write_exit reader aid_at pk b ≡ handle_stale write_exit pk.tag pk.recver b
  unfolding handle_recv
  handle-stale pk b h dead e = rw (check-Here pk.recver b h aid_at, dead, e, if◌then◌else◌)

  pub deliver_one :
      (s : Sent) (b c : BasicActor)
      → handle_recv write_exit reader aid_at s.pk b ≡ some ([], c)
      → deliver write_exit reader aid_at (s ∷ []) b ≡ some ([], c)
  unfolding deliver
  deliver_one s b c e = rw (e, ◌>>=◌)

  pub deliver_back :
      (s back : Sent) (b c : BasicActor)
      → handle_recv write_exit reader aid_at s.pk b ≡ some (back ∷ [], c)
      → deliver write_exit reader aid_at (s ∷ []) b ≡ some (back ∷ [], c)
  unfolding deliver
  deliver_back s back b c e = rw (e, ◌>>=◌)

-- The actor of an id is live, and in this run of this context.
pub record Live (aid_at : ℕ → ActorId) (t : ActorId) (b : BasicActor) : Type 0 where
  pub here : Here t b
  pub current : aid_at t.uintptr ≡ t

pub moved-Here :
    (t : ActorId) (a b : BasicActor)
    → a.ctxid ≡ b.ctxid
    → a.timestamp ≡ b.timestamp
    → Here t a
    → Here t b
moved-Here t a b c s h = record { ctxid = h.ctxid ∙ c; timestamp = h.timestamp ∙ s; ok = h.ok }

module _ (write_exit : WriteExit) (reader : Reader) (aid_at : ℕ → ActorId) where
  pub asked-Delivered :
      (req : Request) (skt : ActorId) (m : Message) (s : Sent) (b : BasicActor)
      → s.pk.tag ≡ Tag.request req
      → s.pk.msg ≡ m
      → Live aid_at s.pk.recver b
      → find req.aid b.mb.wait_reply_list ≡ none
      → (mb : Mailbox) × (deliver write_exit reader aid_at (s ∷ []) b
          ≡ some ([], record b { mb = mb }))
        × (find req.aid mb.wait_reply_list ≡ some (req ∷ []))
  unfolding handle_own
  asked-Delivered req skt m s b e f live n =
      let (mb, pushed, queued) = push_request-queued req m b.mb n in
      (
        mb,
        deliver_one write_exit reader aid_at s b (record b { mb = mb })
            (handle-own write_exit reader aid_at s.pk b live.here live.current
              (record b { mb = mb }) (rw (e, f, handle_own, pushed))),
        queued,
      )

  pub answered-Delivered :
      (res : Response) (x : ActorId) (m : Message) (s : Sent) (a : BasicActor)
      → s.pk.tag ≡ Tag.response (new_response res.id x)
      → s.pk.msg ≡ m
      → Live aid_at s.pk.recver a
      → find res.id a.mb.res_msg_list ≡ none
      → (c : BasicActor) × (deliver write_exit reader aid_at (s ∷ []) a ≡ some ([], c))
        × (answer_of (recv_response res c) ≡ some (some (x, m)))
  unfolding handle_own recv_response
  answered-Delivered res x m s a e f live n =
      let (mb, popped) = pop_response-filed res x m a.mb n in
      let c = record a { mb = push_response (new_response res.id x) m a.mb } in
      (
        c,
        deliver_one write_exit reader aid_at s a c (
            handle-own write_exit reader aid_at s.pk a live.here live.current c
              (rw (e, f, handle_own))),
        rw (popped, ◌>>=◌, answer_of),
      )

  pub reply-Here :
      (t : ActorId) (req : Request) (m : Message) (hint : SendHint) (b : BasicActor)
      → Here t b
      → find t b.mb.wait_reply_list ≡ some (req ∷ [])
      → (s : Sent) × (c : BasicActor) × (pri_reply t m hint b ≡ some (s ∷ [], c))
        × (s.pk.tag ≡ Tag.response (new_response req.id b.aid))
        × (s.pk.recver ≡ t)
        × (s.pk.msg ≡ m)
  unfolding pri_reply reply_tag send_to
  reply-Here t req m hint b h e =
      let (mb, popped) = pop_request-queued t req b.mb e in
      let c = record b { mb = mb } in
      let h' : Here t c = record { ctxid = h.ctxid; timestamp = h.timestamp; ok = h.ok } in
      let s : Sent = record {
        to = t;
        pk = stamped c (record nil_pack {
          tag = Tag.response (new_response req.id b.aid);
          recver = t;
          skt = t;
          msg = m;
        });
        hint = hint_of c hint;
      } in
      (
        s,
        c,
        rw (filter-Here t b h, ◌>>=◌, h.ok, if◌then◌else◌, popped)
            (send-Here t c h' _ (hint_of c hint)),
        refl,
        refl,
        refl,
      )
