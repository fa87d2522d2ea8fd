-- ===== src/Mailbox/PushRefines.antt =====
-- A push never faults, keeps the invariant, and is an arrival.
use mathlib.Core.Option
use gce.Prelude.{
  ℕ, suc, ◌≡◌, refl, ap, ◌∙◌, true, false, ◌&&◌, List, [], ◌∷◌, ◌++◌, Option, none, some, arith,
  ◌==◌, if◌then◌else◌, Bool-cases, Option-cases, inl, inr, ◌>>=◌,
}
use gce.OrdMap.{OrdMap, find, insert_or, find-insert_or}
use gce.Ids.{ActorId, ServiceId, aid_ok, svc_ok}
use gce.Ids.Order.{aid_key, svc_key}
use gce.Atom.{exit_type}
use gce.Message.{Recv, Message}
use gce.Mailbox.{Mailbox, Cell, deref, queue_of}
use gce.Mailbox.Inbox.{nobody, actor, service, key_of, same, same_symm, arrive}
use gce.Mailbox.Pop.{sender_of}
use gce.Mailbox.Push.{append_cell, drop_old, add_match_msg}
use gce.Mailbox.Cells.{
  view, cell_key, holder, holder-key, del, deref-holder, deref-append, del-append,
}
use gce.Mailbox.Invariant.{Inv, addr_of}
use gce.Mailbox.Supersede.{supersede, pushed-Span, pushed_holder, pushed_twins, pushed_view}
use gce.Mailbox.Steps.{
  Listed, Keeps, new_cell, append_cell-Keeps, append_cell-Listed, dropped, drop_old-dropped,
  dropped-Keeps, dropped-Listed,
}

-- Messages of one exit key are exit messages.
same-type :
    (src src' : Recv) (msg msg' : Message)
    → same (key_of src msg) (key_of src' msg') ≡ true
    → (msg.type == msg'.type) ≡ true
unfolding same key_of
same-type src src' msg msg' = ground arith

holder-nobody : (q : List Cell) → holder nobody q ≡ none
unfolding same
holder-nobody [] = refl
holder-nobody (d ∷ q) = ground (arith, holder-nobody q, same_symm (cell_key d) nobody)

module _ (rcv : Recv) (msg : Message) (mb : Mailbox) (v : Inv mb) where
  abbrev c : Cell
  c = new_cell rcv msg mb

  abbrev added : Mailbox
  added = append_cell rcv msg mb

  -- What is left of the earlier exit message is a mailbox whose queues are in order.
  cleared :
      (kept : Mailbox) × (drop_old
          (Option.map addr_of (holder (cell_key c) mb.recv_que))
          msg.type
          added
        ≡ some kept)
      × Listed kept
      × (kept.recv_que ≡ supersede (holder (cell_key c) mb.recv_que) mb.recv_que ++ (c ∷ []))
      × (kept.next ≡ suc mb.next)
      × Keeps kept mb
  cleared = elim (Option-cases (holder (cell_key c) mb.recv_que)) [
    | inl e ↦
        let keeps = append_cell-Keeps rcv msg mb in
        rw e (
          added,
          unfold drop_old in refl,
          append_cell-Listed rcv msg mb v.queues,
          keeps.1,
          keeps.2,
          keeps.0,
        )
    | inr (old, e) ↦
        let keeps = append_cell-Keeps rcv msg mb in
        let listed = append_cell-Listed rcv msg mb v.queues in
        let there = (deref-holder 0 mb.next (cell_key c) mb.recv_que old v.span e).0 in
        let at : deref old.addr added.recv_que ≡ some old =
          rw keeps.1 (deref-append old.addr mb.recv_que c old there) in
        let typed = same-type old.src rcv old.msg msg (holder-key (cell_key c) mb.recv_que old e) in
        let rest = dropped-Keeps old.addr msg.type old added listed at typed in
        rw e (
          dropped old.addr msg.type old added listed at typed,
          drop_old-dropped old.addr msg.type old added listed at typed,
          dropped-Listed old.addr msg.type old added listed at typed,
          rest.1 ∙ ap (del old.addr) keeps.1 ∙ del-append old.addr mb.recv_que c old there,
          rest.2 ∙ keeps.2,
          ground arith,
        )
  ]

  -- The invariant, once the exit indices tell of the new node.
  filed-Inv :
      (kept : Mailbox) (es : OrdMap ActorId ℕ) (ss : OrdMap ServiceId (ActorId × ℕ))
      → Listed kept
      → (kept.recv_que ≡ supersede (holder (cell_key c) mb.recv_que) mb.recv_que ++ (c ∷ []))
      → kept.next ≡ suc mb.next
      → ((a : ActorId)
          → find a es ≡ (if same (cell_key c) (actor a) then some mb.next else find a mb.exit_list))
      → ((s : ServiceId)
          → find s ss ≡ (
              if same (cell_key c) (service s)
              then some (sender_of rcv, mb.next)
              else find s mb.svc_exit_list))
      → Inv (record kept { exit_list = es; svc_exit_list = ss })
  unfolding queue_of
  filed-Inv kept es ss listed que next hes hss = record {
    span = rw (que, next) (pushed-Span mb.next c mb.recv_que v.span v.twins refl);
    twins = rw que (pushed_twins mb.next c mb.recv_que v.span v.twins);
    queues = listed;
    exits = λ a.
        rw (que, pushed_holder mb.next c mb.recv_que v.span v.twins (actor a), hes a, v.exits a)
          (ground arith);
    svc_exits = λ s.
        rw
          (
            que,
            pushed_holder mb.next c mb.recv_que v.span v.twins (service s),
            hss s,
            v.svc_exits s,
          )
          (ground arith);
  }

  old_svc :
      (t : ServiceId)
      → Option.map (λ (p : ActorId × ℕ). p.1) (find t added.svc_exit_list)
        ≡ Option.map addr_of (holder (service t) mb.recv_que)
  old_svc t = rw ((append_cell-Keeps rcv msg mb).0.svc_exits, v.svc_exits t) (ground arith)

  old_aid :
      (a : ActorId) → find a added.exit_list ≡ Option.map addr_of (holder (actor a) mb.recv_que)
  old_aid a = rw ((append_cell-Keeps rcv msg mb).0.exits, v.exits a)

  abbrev Adds : Option Mailbox → Type 0
  Adds out =
      (mb' : Mailbox) × (out ≡ some mb')
      × Inv mb'
      × (view mb'.recv_que ≡ arrive rcv msg (view mb.recv_que))
      × (mb'.res_msg_list ≡ mb.res_msg_list)
      × (mb'.wait_reply_list ≡ mb.wait_reply_list)

  adds_view :
      (que : List Cell)
      → (que ≡ supersede (holder (cell_key c) mb.recv_que) mb.recv_que ++ (c ∷ []))
      → view que ≡ arrive rcv msg (view mb.recv_que)
  adds_view que e = rw e (pushed_view mb.next c mb.recv_que v.span v.twins)

  add_plain :
      (aid_ok (sender_of rcv) && msg.type == exit_type) ≡ false
      → Adds (add_match_msg rcv (sender_of rcv) msg mb)
  unfolding add_match_msg same
  add_plain plain =
      let (kept, e, listed, que, next, keeps) = cleared in
      let key : cell_key c ≡ nobody = unfold key_of in rw plain refl in
      let none_old : holder (cell_key c) mb.recv_que ≡ none = rw key (holder-nobody mb.recv_que) in
      (
        kept,
        rw plain (unfold drop_old in (rw none_old at e)),
        filed-Inv kept kept.exit_list kept.svc_exit_list listed que next
            (λ a. rw (key, keeps.exits)) (λ s. rw (key, keeps.svc_exits)),
        adds_view _ que,
        keeps.replies,
        keeps.waiting,
      )

  add_svc :
      (aid_ok (sender_of rcv) && msg.type == exit_type) ≡ true
      → svc_ok (sender_of rcv).svc ≡ true
      → Adds (add_match_msg rcv (sender_of rcv) msg mb)
  unfolding add_match_msg same
  add_svc filed isvc =
      let (kept, e, listed, que, next, keeps) = cleared in
      let sender = sender_of rcv in
      let key : cell_key c ≡ service sender.svc = unfold key_of in rw (filed, isvc) in
      let ss = insert_or sender.svc (sender, mb.next) (λ _. (sender, mb.next)) kept.svc_exit_list in
      (
        record kept { svc_exit_list = ss },
        rw (filed, isvc, old_svc sender.svc, ← key, e, ◌>>=◌),
        filed-Inv kept kept.exit_list ss listed que next (λ a. rw (key, keeps.exits))
            (λ s. rw (
              key,
              find-insert_or s sender.svc (sender, mb.next) (λ _. (sender, mb.next))
                  kept.svc_exit_list,
              keeps.svc_exits,
            )),
        adds_view _ que,
        keeps.replies,
        keeps.waiting,
      )

  add_aid :
      (aid_ok (sender_of rcv) && msg.type == exit_type) ≡ true
      → svc_ok (sender_of rcv).svc ≡ false
      → Adds (add_match_msg rcv (sender_of rcv) msg mb)
  unfolding add_match_msg same
  add_aid filed isvc =
      let (kept, e, listed, que, next, keeps) = cleared in
      let sender = sender_of rcv in
      let key : cell_key c ≡ actor sender = unfold key_of in rw (filed, isvc) in
      let es = insert_or sender mb.next (λ _. mb.next) kept.exit_list in
      (
        record kept { exit_list = es },
        rw (filed, isvc, old_aid sender, ← key, e, ◌>>=◌),
        filed-Inv kept es kept.svc_exit_list listed que next
            (λ a.
              rw (key, find-insert_or a sender mb.next (λ _. mb.next) kept.exit_list, keeps.exits))
            (λ s. rw (key, keeps.svc_exits)),
        adds_view _ que,
        keeps.replies,
        keeps.waiting,
      )

  pub add-Adds : Adds (add_match_msg rcv (sender_of rcv) msg mb)
  add-Adds = elim (Bool-cases (aid_ok (sender_of rcv) && msg.type == exit_type)) [
    | inr plain ↦ add_plain plain
    | inl filed ↦ elim (Bool-cases (svc_ok (sender_of rcv).svc)) [
      | inl isvc ↦ add_svc filed isvc
      | inr isaid ↦ add_aid filed isaid
    ]
  ]
