-- ===== src/BasicActor/Links.antt =====
-- Who is told of an actor's exit: `add_link`, `remove_link`, `on_free` and `send_exit` of
-- libs/actor/src/basic_actor.cpp.
use gce.Prelude.{
  ℕ, ◌≡◌, refl, ap, sym, ◌∙◌, Bool, false, ◌||◌, List, [], ◌∷◌, ◌++◌, some, arith, if◌then◌else◌,
  is_some, ◌>>=◌, Bool-cases, inl, inr, map,
}
use gce.Key.{eqv}
use gce.OrdMap.{OrdMap, find, insert, place, erase, find-insert, find-erase}
use gce.Ids.{ActorId, aid_ok}
use gce.Ids.Order.{aid_key}
use gce.Atom.{exit_type}
use gce.Message.{Message, Tag, Exit, new_message}
use gce.BasicActor.{BasicActor, SendHint, Sent, nil_pack, add_link, remove_link, on_free, WriteExit}
use gce.BasicActor.Sends.{send_exits, send_exit}
use gce.BasicActor.Requests.{Here, send-Here, stamped}

abbrev pub LinkList : Type 0
LinkList = OrdMap ActorId ActorId

-- Where the exit message of a link goes: to its socket, or to the actor.
abbrev pub route : ActorId × ActorId → ActorId
route (aid, skt) = if aid_ok skt then skt else aid

-- Every link leads to an actor of this run of the context.
abbrev pub Routed : LinkList → BasicActor → Type 0
Routed [] b = Unit
Routed (l ∷ ls) b = Here (route l) b × Routed ls b

abbrev exit_sent : Message → Exit → BasicActor → ActorId × ActorId → Sent
exit_sent m ex b l = record {
  to = route l;
  pk = stamped b (record nil_pack { tag = Tag.exit ex; recver = l.0; skt = route l; msg = m });
  hint = SendHint.async;
}

abbrev pub told : ActorId → List Sent → Bool
told j [] = false
told j (s ∷ ss) = eqv s.pk.recver j || told j ss

send_exits-Routed :
    (m : Message) (ex : Exit) (links : LinkList) (b : BasicActor)
    → Routed links b
    → send_exits m ex links b ≡ some (map (exit_sent m ex b) links, b)
unfolding send_exits
send_exits-Routed m ex [] b r = refl
send_exits-Routed m ex ((aid, skt) ∷ links) b (h, r) = rw (
  send-Here (route (aid, skt)) b h _ SendHint.async,
  ◌>>=◌,
  send_exits-Routed m ex links b r,
  ◌++◌,
)

told-map :
    (j : ActorId) (m : Message) (ex : Exit) (links : LinkList) (b : BasicActor)
    → told j (map (exit_sent m ex b) links) ≡ is_some (find j links)
unfolding find
told-map j m ex [] b = refl
told-map j m ex ((aid, skt) ∷ links) b = ground (arith, told-map j m ex links b)

place-Routed :
    (t skt : ActorId) (links : LinkList) (b : BasicActor)
    → Here (route (t, skt)) b
    → Routed links b
    → Routed (place t skt links) b
unfolding place
place-Routed t skt [] b h r = (h, tt)
place-Routed t skt ((j, w) ∷ links) b h (g, r) = elim (Bool-cases (aid_key.lt t j)) [
  | inl e ↦ rw e (h, (g, r))
  | inr e ↦ rw e (g, place-Routed t skt links b h r)
]

insert-Routed :
    (t skt : ActorId) (links : LinkList) (b : BasicActor)
    → Here (route (t, skt)) b
    → Routed links b
    → Routed (insert t skt links) b
unfolding insert
insert-Routed t skt links b h r = elim (Bool-cases (is_some (find t links))) [
  | inl e ↦ rw e r
  | inr e ↦ rw e (place-Routed t skt links b h r)
]

erase-Routed :
    (t : ActorId) (links : LinkList) (b : BasicActor) → Routed links b → Routed (erase t links) b
unfolding erase
erase-Routed t [] b r = tt
erase-Routed t ((j, w) ∷ links) b (g, r) = elim (Bool-cases (eqv j t)) [
  | inl e ↦ rw e (erase-Routed t links b r)
  | inr e ↦ rw e (g, erase-Routed t links b r)
]

-- The calls that change the links of an actor.
pub data LinkCall : Type 0 where
  adds : ActorId → ActorId → LinkCall
  removes : ActorId → LinkCall
  frees : LinkCall

unfoldable pub link_step : LinkCall → BasicActor → BasicActor
link_step (adds t skt) b = add_link t skt b
link_step (removes t) b = remove_link t b
link_step frees b = on_free b

unfoldable pub link_run : List LinkCall → BasicActor → BasicActor
link_run [] b = b
link_run (c ∷ cs) b = link_run cs (link_step c b)

-- Whether an actor is linked, by the calls alone.
abbrev pub linked_after : ActorId → List LinkCall → Bool → Bool
linked_after j [] before = before
linked_after j (adds t skt ∷ cs) before = linked_after j cs (eqv t j || before)
linked_after j (removes t ∷ cs) before = linked_after j cs (if eqv t j then false else before)
linked_after j (frees ∷ cs) before = linked_after j cs false

-- Every id that is linked leads to an actor of this run of the context.
abbrev pub CallsRouted : List LinkCall → BasicActor → Type 0
CallsRouted [] b = Unit
CallsRouted (adds t skt ∷ cs) b = Here (route (t, skt)) b × CallsRouted cs b
CallsRouted (removes t ∷ cs) b = CallsRouted cs b
CallsRouted (frees ∷ cs) b = CallsRouted cs b

module _ (b : BasicActor) where
  -- `b` with its links changed by calls.
  abbrev Same : BasicActor → Type 0
  Same c = (c.ctxid ≡ b.ctxid) × (c.timestamp ≡ b.timestamp)

  Same-Here : (t : ActorId) (c : BasicActor) → Same c → Here t b → Here t c
  Same-Here t c (e, f) h = record {
    ctxid = h.ctxid ∙ sym e;
    timestamp = h.timestamp ∙ sym f;
    ok = h.ok;
  }

  Same-Routed : (ls : LinkList) (c d : BasicActor) → Same c → Same d → Routed ls c → Routed ls d
  Same-Routed [] c d s t r = tt
  Same-Routed (l ∷ ls) c d (e, f) t (h, r) = (
    Same-Here (route l) d t
        (record { ctxid = h.ctxid ∙ e; timestamp = h.timestamp ∙ f; ok = h.ok }),
    Same-Routed ls c d (e, f) t r,
  )

  run-Routed :
      (cs : List LinkCall) (c : BasicActor)
      → Same c
      → Routed c.link_list c
      → CallsRouted cs b
      → Routed (link_run cs c).link_list (link_run cs c)
  unfolding link_run link_step add_link remove_link on_free
  run-Routed [] c s r ok = r
  run-Routed (adds t skt ∷ cs) c s r (h, ok) =
      run-Routed cs (add_link t skt c) s
        (Same-Routed (insert t skt c.link_list) c (add_link t skt c) s s
          (insert-Routed t skt c.link_list c (Same-Here (route (t, skt)) c s h) r))
        ok
  run-Routed (removes t ∷ cs) c s r ok =
      run-Routed cs (remove_link t c) s
        (Same-Routed (erase t c.link_list) c (remove_link t c) s s (erase-Routed t c.link_list c r))
        ok
  run-Routed (frees ∷ cs) c s r ok = run-Routed cs (on_free c) s tt ok

run-linked :
    (j : ActorId) (cs : List LinkCall) (c : BasicActor)
    → is_some (find j (link_run cs c).link_list) ≡ linked_after j cs (is_some (find j c.link_list))
unfolding link_run link_step add_link remove_link on_free
run-linked j [] c = refl
run-linked j (adds t skt ∷ cs) c =
    run-linked j cs (add_link t skt c)
    ∙ ap (linked_after j cs) (rw (find-insert j t skt c.link_list) (ground arith))
run-linked j (removes t ∷ cs) c =
    run-linked j cs (remove_link t c)
    ∙ ap (linked_after j cs) (rw (find-erase j t c.link_list) (ground arith))
run-linked j (frees ∷ cs) c =
    run-linked j cs (on_free c) ∙ ap (linked_after j cs) (unfold find in refl)

-- After any calls that change the links of an actor that has none, where each link that is added leads
-- to an actor or a socket of this run of the context, `send_exit` fails no assertion, changes nothing
-- of the actor, and tells exactly the actors that are linked by the calls: added, and neither removed
-- nor freed since.
pub send_exit-told :
    (write_exit : WriteExit) (self_aid : ActorId) (ec : ℕ) (exit_msg : List ℕ) (cs : List LinkCall)
    (b : BasicActor)
    → b.link_list ≡ []
    → CallsRouted cs b
    → (sent : List Sent) × (send_exit write_exit self_aid ec exit_msg (link_run cs b)
        ≡ some (sent, link_run cs b))
      × ((j : ActorId) → told j sent ≡ linked_after j cs false)
unfolding send_exit
send_exit-told write_exit self_aid ec exit_msg cs b e ok =
    let c = link_run cs b in
    let m = write_exit ec exit_msg (new_message exit_type) in
    let ex : Exit = record { code = ec; aid = self_aid } in
    (
      map (exit_sent m ex c) c.link_list,
      send_exits-Routed m ex c.link_list c (run-Routed b cs b (refl, refl) (rw e tt) ok),
      λ j.
          told-map j m ex c.link_list c
          ∙ (run-linked j cs b
              ∙ ap (λ l. linked_after j cs (is_some (find j l))) e
              ∙ unfold find in refl),
    )
