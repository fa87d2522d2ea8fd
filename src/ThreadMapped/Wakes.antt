-- ===== src/ThreadMapped/Wakes.antt =====
-- What a pack or a timer does to a call that waits: `handle_recv`, `handle_recv_timeout` and
-- `handle_res_timeout`.
use gce.Prelude.{
  ℕ, ◌≡◌, ◌≢◌, ◌⊎◌, inl, inr, refl, ap, sym, subst, ◌∙◌, true, false, List, [], ◌∷◌, Option, none,
  some, if◌then◌else◌, ◌==◌, ◌>>=◌, arith, Bool-cases, map,
}
use gce.Ids.{ActorId}
use gce.Message.{Message, Recv, Response, Pack, response_ok, nil_message, nil_response}
use gce.Mailbox.{Mailbox}
use gce.Mailbox.Invariant.{Inv}
use gce.BasicActor.{BasicActor, Sent, WriteExit, check}
use gce.BasicActor.Receive.{Filed, linking, plain, response}
use gce.BasicActor.Filing.{
  Sound, file_pack-Files, Answerable, handle_stale-answered, pop_recv-Sound, pop_response-Sound,
  with_mailbox,
}
use gce.ThreadMapped.{
  Thread, Timer, TimerKind, recv_timer, res_timer, Value, received, answered, Output, sets, cancels,
  sends, Outputs, next_sid, nil_recv, is_number, expire, handle_timeout, wake_recv, wake_response,
  if_kept, wake, handle_recv,
}
use gce.ThreadMapped.Timers.{awaits_kind, awaits, OnCall, Idle}
use gce.ThreadMapped.Tries.{remade}

abbrev pub SameCall : Thread → Thread → Type 0
SameCall a' a =
    (a'.recv_p ≡ a.recv_p)
    × (a'.res_p ≡ a.res_p)
    × (a'.recving_res ≡ a.recving_res)
    × (a'.tmr_sid ≡ a.tmr_sid)

-- What a pack leaves: an answer to the call that waits, or the call as it was.
abbrev pub Woken : BasicActor → Thread → Outputs → Type 0
Woken b a out =
    (outs : List Output) × (a' : Thread) × (out ≡ some (outs, a'))
    × Sound a'.base b
    × (((p : ℕ) × (v : Value) × (outs ≡ sets p v ∷ cancels ∷ [])
          × OnCall p a
          × (a'.tmr_sid ≡ next_sid a)
          × Idle a')
        ⊎ ((sent : List Sent) × (outs ≡ map sends sent) × SameCall a' a))

abbrev pub Kept : Thread → Type 0
Kept a = Idle a ⊎ ((p : ℕ) × OnCall p a)

wake_recv-Woken :
    (b : BasicActor) (p : ℕ) (a : Thread)
    → Sound a.base b
    → a.recv_p ≡ some p
    → a.res_p ≡ none
    → Woken b a (wake_recv p a)
unfolding wake_recv
wake_recv-Woken b p a s r q =
    let (found, m, e, v) = pop_recv-Sound a.curr_match a.base.mb s.mailbox in
    rw (wake_recv, e, ◌>>=◌) (past found m v)
  where
    past :
        (found : Option (Recv × Message)) (m : Mailbox)
        → Inv m
        → Woken b a (
            some (elim found [
              | none ↦ ([], record a { base = with_mailbox m a.base })
              | some (rcv, msg) ↦ (
                sets p (received rcv msg) ∷ cancels ∷ [],
                record a {
                  base = with_mailbox m a.base;
                  recv_p = none;
                  curr_match = [];
                  tmr_sid = next_sid a;
                },
              )
            ]))
    past none m v = (
      _,
      record a { base = with_mailbox m a.base },
      refl,
      remade m b a.base v s,
      inr ([], refl, (refl, refl, refl, refl)),
    )
    past (some (rcv, msg)) m v = (
      _,
      record a {
        base = with_mailbox m a.base;
        recv_p = none;
        curr_match = [];
        tmr_sid = next_sid a;
      },
      refl,
      remade m b a.base v s,
      inl (p, _, refl, inl (r, q), refl, (refl, q)),
    )

wake_response-Woken :
    (b : BasicActor) (p : ℕ) (a : Thread)
    → Sound a.base b
    → a.recv_p ≡ none
    → a.res_p ≡ some p
    → response_ok a.recving_res ≡ true
    → Woken b a (wake_response p a)
unfolding wake_response
wake_response-Woken b p a s r q ok =
    let (found, m, e, v) = pop_response-Sound a.recving_res a.base.mb s.mailbox in
    subst (Woken b a) (sym (let f = e in rw (wake_response, ok, if◌then◌else◌, f, ◌>>=◌) refl))
      (past found m v)
  where
    past :
        (found : Option (Response × Message)) (m : Mailbox)
        → Inv m
        → Woken b a (
            some (elim found [
              | none ↦ ([], record a { base = with_mailbox m a.base })
              | some (answer, msg) ↦ (
                sets p (answered answer msg) ∷ cancels ∷ [],
                record a {
                  base = with_mailbox m a.base;
                  res_p = none;
                  recving_res = nil_response;
                  tmr_sid = next_sid a;
                },
              )
            ]))
    past none m v = (
      _,
      record a { base = with_mailbox m a.base },
      refl,
      remade m b a.base v s,
      inr ([], refl, (refl, refl, refl, refl)),
    )
    past (some (answer, msg)) m v = (
      _,
      record a {
        base = with_mailbox m a.base;
        res_p = none;
        recving_res = nil_response;
        tmr_sid = next_sid a;
      },
      refl,
      remade m b a.base v s,
      inl (p, _, refl, inr (r, q, ok), refl, (r, refl)),
    )

left-Woken : (b : BasicActor) (a : Thread) → Sound a.base b → Woken b a (some ([], a))
left-Woken b a s = ([], a, refl, s, inr ([], refl, (refl, refl, refl, refl)))

kept_plain :
    (b : BasicActor) (a : Thread) (o : Option ℕ)
    → a.recv_p ≡ o
    → Woken b a (if_kept o wake_recv a)
    → Woken b a (if_kept a.recv_p wake_recv a)
kept_plain b a o e h = subst (λ x. Woken b a (if_kept x wake_recv a)) (sym e) h

kept_response :
    (b : BasicActor) (a : Thread) (o : Option ℕ)
    → a.res_p ≡ o
    → Woken b a (if_kept o wake_response a)
    → Woken b a (if_kept a.res_p wake_response a)
kept_response b a o e h = subst (λ x. Woken b a (if_kept x wake_response a)) (sym e) h

wake-Woken :
    (b : BasicActor) (f : Filed) (a : Thread) → Sound a.base b → Kept a → Woken b a (wake f a)
unfolding wake
wake-Woken b linking a s k = left-Woken b a s
wake-Woken b plain a s (inl (r, q)) = kept_plain b a none r (left-Woken b a s)
wake-Woken b plain a s (inr (p, inl (r, q))) =
    kept_plain b a (some p) r (wake_recv-Woken b p a s r q)
wake-Woken b plain a s (inr (p, inr (r, q, ok))) = kept_plain b a none r (left-Woken b a s)
wake-Woken b response a s (inl (r, q)) = kept_response b a none q (left-Woken b a s)
wake-Woken b response a s (inr (p, inl (r, q))) = kept_response b a none q (left-Woken b a s)
wake-Woken b response a s (inr (p, inr (r, q, ok))) =
    kept_response b a (some p) q (wake_response-Woken b p a s r q ok)

pub handle_recv-Woken :
    (write_exit : WriteExit) (aid_at : ℕ → ActorId) (pk : Pack) (b : BasicActor) (a : Thread)
    → Sound a.base b
    → Kept a
    → Answerable pk.tag a.base
    → Woken b a (handle_recv write_exit aid_at pk a)
unfolding handle_recv
handle_recv-Woken write_exit aid_at pk b a s k h =
    elim (Bool-cases (check aid_at pk.recver a.base.ctxid a.base.timestamp)) [
      | inl e ↦
          let (f, c, filed, t) = file_pack-Files pk.tag pk.skt pk.msg a.base s.mailbox in
          let sound : Sound c b = record {
            mailbox = t.mailbox;
            ctxid = t.ctxid ∙ s.ctxid;
            timestamp = t.timestamp ∙ s.timestamp;
          } in
          rw (handle_recv, e, if◌then◌else◌, filed, ◌>>=◌)
            (wake-Woken b f (record a { base = c }) sound k)
      | inr e ↦ elim (Bool-cases pk.is_err_ret) [
        | inl r ↦ rw (handle_recv, e, if◌then◌else◌, r) (left-Woken b a s)
        | inr r ↦
            let (sent, told) = handle_stale-answered write_exit pk.tag pk.recver a.base h in
            rw (handle_recv, e, if◌then◌else◌, r, told, ◌>>=◌)
              (_, a, refl, s, inr (sent, refl, (refl, refl, refl, refl)))
      ]
    ]

expire-OnCall :
    (k : TimerKind) (p q : ℕ) (a : Thread)
    → OnCall q a
    → awaits_kind k p a ≡ true
    → (p ≡ q)
      × ((v : Value) × (a' : Thread) × (expire k p a ≡ some (sets p v ∷ [], a'))
          × (a'.tmr_sid ≡ a.tmr_sid)
          × (a'.base ≡ a.base)
          × Idle a')
unfolding expire
expire-OnCall recv_timer p q a (inl (r, s)) h =
    let e : (p == q) ≡ true = subst (λ o. is_number p o ≡ true) r h in
    (
      ground arith,
      (
        received nil_recv nil_message,
        record a { recv_p = none; curr_match = [] },
        rw (expire, h, if◌then◌else◌) refl,
        refl,
        refl,
        (refl, s),
      ),
    )
expire-OnCall recv_timer p q a (inr (r, s, ok)) h =
    let e : false ≡ true = subst (λ o. is_number p o ≡ true) r h in absurd cc
expire-OnCall res_timer p q a (inl (r, s)) h =
    let e : false ≡ true = subst (λ o. is_number p o ≡ true) s h in absurd cc
expire-OnCall res_timer p q a (inr (r, s, ok)) h =
    let e : (p == q) ≡ true = subst (λ o. is_number p o ≡ true) s h in
    (
      ground arith,
      (
        answered nil_response nil_message,
        record a { res_p = none; recving_res = nil_response },
        rw (expire, h, if◌then◌else◌) refl,
        refl,
        refl,
        (r, refl),
      ),
    )

Idle-awaits : (k : TimerKind) (p : ℕ) (a : Thread) → Idle a → awaits_kind k p a ≡ false
Idle-awaits recv_timer p a (r, s) = ap (is_number p) r
Idle-awaits res_timer p a (r, s) = ap (is_number p) s

-- What a timer leaves: nothing changes, or it was the one of the call that waits, which it answers.
abbrev pub TimedOut : Timer → Thread → Outputs → Type 0
TimedOut t a out =
    ((t.sid ≢ a.tmr_sid) × (out ≡ some ([], a)))
    ⊎ (t.sid ≡ a.tmr_sid)
      × OnCall t.promise a
      × ((v : Value) × (a' : Thread) × (out ≡ some (sets t.promise v ∷ [], a'))
          × (a'.tmr_sid ≡ a.tmr_sid)
          × (a'.base ≡ a.base)
          × Idle a')

pub handle_timeout-TimedOut :
    (t : Timer) (a : Thread)
    → Kept a
    → (t.sid ≡ a.tmr_sid → awaits t a ≡ true)
    → TimedOut t a (handle_timeout t a)
unfolding handle_timeout
handle_timeout-TimedOut t a k h = elim (Bool-cases (t.sid == a.tmr_sid)) [
  | inr e ↦ inl (ground arith, rw (handle_timeout, e, if◌then◌else◌) refl)
  | inl e ↦ elim k [
    | inl i ↦ let f = h (ground arith) in let g = Idle-awaits t.kind t.promise a i in absurd cc
    | inr (q, on) ↦
        let (same, (v, a', f, n, base, idle)) =
          expire-OnCall t.kind t.promise q a on (h (ground arith)) in
        inr (
          ground arith,
          subst (λ x. OnCall x a) (sym same) on,
          (v, a', rw (handle_timeout, e, if◌then◌else◌) f, n, base, idle),
        )
  ]
]
