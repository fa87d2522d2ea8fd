-- ===== src/ThreadMapped/Tries.antt =====
-- What the calls of the thread leave: `try_recv` and `try_response`.
use gce.Prelude.{
  ℕ, ◌≡◌, ◌⊎◌, inl, inr, refl, true, List, [], ◌∷◌, Option, none, some, ==_refl, ◌>>=◌,
}
use gce.Message.{Message, Recv, Response, response_ok}
use gce.Mailbox.{Mailbox}
use gce.Mailbox.Invariant.{Inv}
use gce.BasicActor.{BasicActor}
use gce.BasicActor.Filing.{Sound, pop_recv-Sound, pop_response-Sound, with_mailbox}
use gce.ThreadMapped.{
  Thread, Timer, Timeout, at_once, bounded, endless, Value, received, answered, Output, sets,
  starts, Outputs, next_sid, await_recv, try_recv, await_response, try_response,
}
use gce.ThreadMapped.Timers.{awaits, OnCall, Idle}

-- What a call leaves: an answer, or a promise that is kept, with a timer or without.
abbrev pub Tried : BasicActor → ℕ → Thread → Outputs → Type 0
Tried b p a out =
    (outs : List Output) × (a' : Thread) × (out ≡ some (outs, a'))
    × Sound a'.base b
    × (((v : Value) × (outs ≡ sets p v ∷ []) × (a'.tmr_sid ≡ a.tmr_sid) × Idle a')
        ⊎ OnCall p a'
          × (((outs ≡ []) × (a'.tmr_sid ≡ a.tmr_sid))
              ⊎ ((t : Timer) × (outs ≡ starts t ∷ [])
                  × (t.sid ≡ a'.tmr_sid)
                  × (a'.tmr_sid ≡ next_sid a)
                  × (awaits t a' ≡ true))))

pub remade : (m : Mailbox) (b c : BasicActor) → Inv m → Sound c b → Sound (with_mailbox m c) b
remade m b c v s = record { mailbox = v; ctxid = s.ctxid; timestamp = s.timestamp }

pub await_recv-Tried :
    (b : BasicActor) (p : ℕ) (ts : List ℕ) (tmo : Timeout) (a : Thread)
    → Sound a.base b
    → Idle a
    → Tried b p a (some (await_recv p ts tmo a))
unfolding await_recv
await_recv-Tried b p ts at_once a s i = (_, a, refl, s, inl (_, refl, refl, i))
await_recv-Tried b p ts bounded a s (r, q) = (
  _,
  record a { tmr_sid = next_sid a; recv_p = some p; curr_match = ts },
  refl,
  s,
  inr (inl (refl, q), inr (_, refl, refl, refl, ==_refl p)),
)
await_recv-Tried b p ts endless a s (r, q) = (
  _,
  record a { recv_p = some p; curr_match = ts },
  refl,
  s,
  inr (inl (refl, q), inl (refl, refl)),
)

pub await_response-Tried :
    (b : BasicActor) (p : ℕ) (res : Response) (tmo : Timeout) (a : Thread)
    → Sound a.base b
    → Idle a
    → response_ok res ≡ true
    → Tried b p a (some (await_response p res tmo a))
unfolding await_response
await_response-Tried b p res at_once a s i ok = (_, a, refl, s, inl (_, refl, refl, i))
await_response-Tried b p res bounded a s (r, q) ok = (
  _,
  record a { tmr_sid = next_sid a; res_p = some p; recving_res = res },
  refl,
  s,
  inr (inr (r, refl, ok), inr (_, refl, refl, refl, ==_refl p)),
)
await_response-Tried b p res endless a s (r, q) ok = (
  _,
  record a { res_p = some p; recving_res = res },
  refl,
  s,
  inr (inr (r, refl, ok), inl (refl, refl)),
)

pub try_recv-Tried :
    (b : BasicActor) (p : ℕ) (ts : List ℕ) (tmo : Timeout) (a : Thread)
    → Sound a.base b
    → Idle a
    → Tried b p a (try_recv p ts tmo a)
unfolding try_recv
try_recv-Tried b p ts tmo a s i =
    let (found, m, e, v) = pop_recv-Sound ts a.base.mb s.mailbox in
    rw (try_recv, e, ◌>>=◌) (past found m v)
  where
    past :
        (found : Option (Recv × Message)) (m : Mailbox)
        → Inv m
        → Tried b p a (
            some (elim found [
              | none ↦ await_recv p ts tmo (record a { base = with_mailbox m a.base })
              | some (rcv, msg) ↦
                  (sets p (received rcv msg) ∷ [], record a { base = with_mailbox m a.base })
            ]))
    past none m v =
        await_recv-Tried b p ts tmo (record a { base = with_mailbox m a.base })
          (remade m b a.base v s) i
    past (some (rcv, msg)) m v = (
      _,
      record a { base = with_mailbox m a.base },
      refl,
      remade m b a.base v s,
      inl (_, refl, refl, i),
    )

pub try_response-Tried :
    (b : BasicActor) (p : ℕ) (res : Response) (tmo : Timeout) (a : Thread)
    → Sound a.base b
    → Idle a
    → response_ok res ≡ true
    → Tried b p a (try_response p res tmo a)
unfolding try_response
try_response-Tried b p res tmo a s i ok =
    let (found, m, e, v) = pop_response-Sound res a.base.mb s.mailbox in
    rw (try_response, e, ◌>>=◌) (past found m v)
  where
    past :
        (found : Option (Response × Message)) (m : Mailbox)
        → Inv m
        → Tried b p a (
            some (elim found [
              | none ↦ await_response p res tmo (record a { base = with_mailbox m a.base })
              | some (answer, msg) ↦
                  (sets p (answered answer msg) ∷ [], record a { base = with_mailbox m a.base })
            ]))
    past none m v =
        await_response-Tried b p res tmo (record a { base = with_mailbox m a.base })
          (remade m b a.base v s) i ok
    past (some (answer, msg)) m v = (
      _,
      record a { base = with_mailbox m a.base },
      refl,
      remade m b a.base v s,
      inl (_, refl, refl, i),
    )
