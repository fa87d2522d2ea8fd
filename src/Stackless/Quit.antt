-- ===== src/Stackless/Quit.antt =====
-- The end of a stackless actor: what reaches it between `quit` and `stop`.
use gce.Prelude.{
  ℕ, ◌^◌, ◌<◌, ◌≡◌, refl, ap, ◌∙◌, false, List, [], some, if◌then◌else◌, ◌>>=◌, map, arith,
  Bool-cases, inl, inr,
}
use gce.Ids.{ActorId, aid_eq}
use gce.Message.{Pack}
use gce.BasicActor.{Sent, WriteExit, check, update_aid}
use gce.BasicActor.Filing.{Answerable, handle_stale-answered}
use gce.Stackless.{Stackless, sends, handle_recv, quit}

-- The address of the actor holds another id after `quit`.
quit-check :
    (aid_at : ℕ → ActorId) (exc timestamp ctxid : ℕ) (errmsg : List ℕ) (s : Stackless)
    → s.base.aid.sid < 2 ^ 32
    → aid_at s.base.aid.uintptr ≡ (quit exc errmsg s).1.base.aid
    → check aid_at s.base.aid ctxid timestamp ≡ false
unfolding quit update_aid check aid_eq
quit-check aid_at exc timestamp ctxid errmsg s small moved = rw moved (ground arith)

-- An actor calls `quit`, and the id at its address is from then on the one that it has. Then a pack to the
-- id that it had, which may still come before `stop`, is not received: the actor stays as `quit` left it,
-- and does no more than to answer. Whoever is answered is of this run of the context.
pub quit-refuses :
    (write_exit : WriteExit) (aid_at : ℕ → ActorId) (timestamp exc : ℕ) (errmsg : List ℕ)
    (pk : Pack) (s : Stackless)
    → s.base.aid.sid < 2 ^ 32
    → aid_at s.base.aid.uintptr ≡ (quit exc errmsg s).1.base.aid
    → pk.recver ≡ s.base.aid
    → Answerable pk.tag (quit exc errmsg s).1.base
    → (sent : List Sent) × (handle_recv write_exit aid_at timestamp pk (quit exc errmsg s).1
        ≡ some (map sends sent, (quit exc errmsg s).1))
unfolding handle_recv
quit-refuses write_exit aid_at timestamp exc errmsg pk s small moved to fair =
    let t = (quit exc errmsg s).1 in
    let closed : check aid_at pk.recver t.base.aid.ctxid timestamp ≡ false =
      ap (λ r. check aid_at r t.base.aid.ctxid timestamp) to
      ∙ quit-check aid_at exc timestamp t.base.aid.ctxid errmsg s small moved in
    elim (Bool-cases pk.is_err_ret) [
      | inl e ↦ ([], rw (handle_recv, closed, if◌then◌else◌, e) refl)
      | inr e ↦
          let (sent, told) = handle_stale-answered write_exit pk.tag pk.recver t.base fair in
          (sent, rw (handle_recv, closed, if◌then◌else◌, e, told, ◌>>=◌) refl)
    ]
