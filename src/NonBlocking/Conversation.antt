-- ===== src/NonBlocking/Conversation.antt =====
-- A request and its answer between two actors of a context: the calls of one, their packs in the
-- `handle_recv` of the other, and back.
use gce.Prelude.{ℕ, ◌≡◌, refl, sym, subst, ◌∙◌, false, Option, none, some, ◌==◌, ◌>>=◌}
use gce.Key.{nat_key}
use gce.OrdMap.{find}
use gce.Ids.{ActorId, aid_eq}
use gce.Ids.Order.{aid_key}
use gce.Message.{Message, Request, Response, Tag, new_response}
use gce.BasicActor.{BasicActor, SendHint, Sent, WriteExit, hint_of}
use gce.BasicActor.Sends.{pri_request, pri_reply}
use gce.BasicActor.Requests.{
  Here, request-Here, exited-Here, request_pack, exited_pack, obituary, request-stale,
}
use gce.NonBlocking.{Reader, recv_response}
use gce.BasicActor.Receive.{handle_stale}
use gce.NonBlocking.Deliver.{
  deliver, answer_of, handle-stale, deliver_back, Live, moved-Here, asked-Delivered,
  answered-Delivered, reply-Here,
}

-- What the requester gets in the end: it asks, the pack arrives, the other one answers with
-- `pri_reply`, and the answer arrives.
unfoldable pub converse :
    WriteExit
    → Reader
    → (ℕ → ActorId)
    → Response
    → Message
    → Message
    → SendHint
    → BasicActor × BasicActor
    → Option (Option (ActorId × Message))
converse write_exit reader aid_at res question reply hint (a, b) = do
  (asked, a1) ← pri_request write_exit res b.aid question hint a
  (none_sent, b1) ← deliver write_exit reader aid_at asked b
  (replied, b2) ← pri_reply a.aid reply hint b1
  (none_back, a2) ← deliver write_exit reader aid_at replied a1
  answer_of (recv_response res a2)

-- A request to an id whose actor, at the address, now has another id: what `b`, which is there, sends
-- back, and what the requester gets.
unfoldable pub converse_exited :
    WriteExit
    → Reader
    → (ℕ → ActorId)
    → Response
    → ActorId
    → Message
    → SendHint
    → BasicActor × BasicActor
    → Option (Option (ActorId × Message))
converse_exited write_exit reader aid_at res target question hint (a, b) = do
  (asked, a1) ← pri_request write_exit res target question hint a
  (obituaries, b1) ← deliver write_exit reader aid_at asked b
  (none_back, a2) ← deliver write_exit reader aid_at obituaries a1
  answer_of (recv_response res a2)

module _ (write_exit : WriteExit) (reader : Reader) (aid_at : ℕ → ActorId) where
  -- Let two actors of one run of a context be live, no request of the first wait in the second, and no
  -- response with the id of `res` in the first. The first sends a request, the second handles it and
  -- replies, the first handles the reply: its `recv` then gives the id of the second and the reply.
  pub request-reply :
      (res : Response) (question reply : Message) (hint : SendHint) (a b : BasicActor)
      → a.ctxid ≡ b.ctxid
      → a.timestamp ≡ b.timestamp
      → Live aid_at a.aid a
      → Live aid_at b.aid b
      → find a.aid b.mb.wait_reply_list ≡ none
      → find res.id a.mb.res_msg_list ≡ none
      → converse write_exit reader aid_at res question reply hint (a, b)
        ≡ some (some (b.aid, reply))
  unfolding converse
  request-reply res question reply hint a b c t la lb none_waits none_came =
      let req : Request = record { id = res.id; aid = a.aid } in
      let asked : Sent = record {
        to = b.aid;
        pk = request_pack res b.aid question a;
        hint = hint_of a hint;
      } in
      let sent =
        request-Here write_exit res b.aid question hint a
          (moved-Here b.aid b a (sym c) (sym t) lb.here) in
      let (mb, arrived, queued) =
        asked-Delivered write_exit reader aid_at req b.aid question asked b refl refl lb
          none_waits in
      let (answer, b2, replied, tag, to, msg) =
        reply-Here write_exit reader aid_at a.aid req reply hint (record b { mb = mb })
          (let h = moved-Here a.aid a b c t la.here in
            record { ctxid = h.ctxid; timestamp = h.timestamp; ok = h.ok })
          queued in
      let (a2, back, got) =
        answered-Delivered write_exit reader aid_at res b.aid reply answer a tag msg
          (subst (λ x. Live aid_at x a) (sym to) la) none_came in
      rw (sent, ◌>>=◌, arrived, replied, back) got

  -- Let a live actor send a request to an id of its run of the context whose address holds another id
  -- now, and have no response with the id of `res`. When another actor of that run handles the pack, and
  -- the requester what comes back, its `recv` gives the id that was asked and the exit message `already
  -- exited`.
  pub request-exited :
      (res : Response) (target : ActorId) (question : Message) (hint : SendHint) (a b : BasicActor)
      → a.ctxid ≡ b.ctxid
      → a.timestamp ≡ b.timestamp
      → Here target a
      → aid_eq (aid_at target.uintptr) target ≡ false
      → Live aid_at a.aid a
      → find res.id a.mb.res_msg_list ≡ none
      → converse_exited write_exit reader aid_at res target question hint (a, b)
        ≡ some (some (target, obituary write_exit))
  unfolding converse_exited handle_stale
  request-exited res target question hint a b c t h dead la none_came =
      let asked : Sent = record {
        to = target;
        pk = request_pack res target question a;
        hint = hint_of a hint;
      } in
      let sent = request-Here write_exit res target question hint a h in
      let back : Sent = record {
        to = a.aid;
        pk = exited_pack write_exit a.aid (Tag.response (new_response res.id target)) b;
        hint = SendHint.async;
      } in
      let told =
        handle-stale write_exit reader aid_at asked.pk b (moved-Here target a b c t h) dead refl
        ∙ exited-Here write_exit a.aid (Tag.response (new_response res.id target)) b
            (moved-Here a.aid a b c t la.here) in
      let (a2, came, got) =
        answered-Delivered write_exit reader aid_at res target (obituary write_exit) back a refl
          refl la none_came in
      rw (sent, ◌>>=◌, deliver_back write_exit reader aid_at asked back b b told, came) got

  -- Let a live actor with no response with the id of `res` send a request to an id of its context that
  -- has another timestamp. When it handles what it has sent, its `recv` gives the id that was asked and
  -- the exit message `already exited`.
  pub request-stale_run :
      (res : Response) (target : ActorId) (question : Message) (hint : SendHint) (a : BasicActor)
      → target.ctxid ≡ a.ctxid
      → (target.timestamp == a.timestamp) ≡ false
      → Live aid_at a.aid a
      → find res.id a.mb.res_msg_list ≡ none
      → (do
        (sent, a1) ← pri_request write_exit res target question hint a
        (none_back, a2) ← deliver write_exit reader aid_at sent a1
        answer_of (recv_response res a2))
        ≡ some (some (target, obituary write_exit))
  request-stale_run res target question hint a c s la none_came =
      let back : Sent = record {
        to = a.aid;
        pk = exited_pack write_exit a.aid (Tag.response (new_response res.id target)) a;
        hint = SendHint.async;
      } in
      let sent =
        request-stale write_exit res target question hint a c s
        ∙ exited-Here write_exit a.aid (Tag.response (new_response res.id target)) a la.here in
      let (a2, came, got) =
        answered-Delivered write_exit reader aid_at res target (obituary write_exit) back a refl
          refl la none_came in
      rw (sent, ◌>>=◌, came) got
