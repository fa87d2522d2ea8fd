-- ===== src/Stackless/Steps.antt =====
-- A stackless actor and a thread-mapped one, step by step: the calls, packs and timers of both.
use gce.Prelude.{
  ℕ, ◌≡◌, ◌≢◌, refl, ap, sym, subst, List, [], ◌∷◌, Option, none, some, if◌then◌else◌, ◌>>=◌, map,
  Bool, true, false, ◌==◌, ==_refl,
}
use gce.Ids.{ActorId}
use gce.Message.{Response, Pack, response_ok, nil_message}
use gce.Mailbox.Pop.{pop_recv, pop_response}
use gce.BasicActor.{BasicActor, Sent, WriteExit, check}
use gce.BasicActor.Receive.{
  Filed, linking, plain, response, file_pack, handle_stale, sender_and_request,
}
use gce.BasicActor.Filing.{with_mailbox}
use gce.ThreadMapped.{Thread, Value, received, answered, Timeout, at_once, bounded, endless}
use gce.ThreadMapped
use gce.ThreadMapped.Compare.{
  Said, answers, begins, gives, said_mapped, Alike, popped-Alike, if-Alike, branch-Alike,
}
use gce.Stackless.{
  Stackless, by_value, Output, calls, calls_back, posts, starts, cancels, sends, posts_stop,
  Outputs, await_recv, recv, await_response, recv_response, wake_recv, wake_response, if_kept, wake,
  handle_recv, handle_timeout, expire, recv_timer, nothing,
}

abbrev pub said : List Output → List Said
said [] = []
said (calls f g ∷ outs) = answers f g ∷ said outs
said (posts f g ∷ outs) = answers f g ∷ said outs
said (starts t ∷ outs) = begins t.hdr t.sid ∷ said outs
said (sends s ∷ outs) = gives s ∷ said outs
said (calls_back f ∷ outs) = said outs
said (cancels ∷ outs) = said outs
said (posts_stop aid ec text ∷ outs) = said outs

-- The handlers as promises.
abbrev pub view : Stackless → Thread
view s = record {
  base = s.base;
  recv_p = s.recv_h;
  res_p = s.res_h;
  curr_match = s.curr_match;
  recving_res = s.recving_res;
  tmr_sid = s.tmr_sid;
}

abbrev pub SameAs : Outputs → ThreadMapped.Outputs → Type 0
SameAs x y = Alike by_value said view x y

said-sends :
    (sent : List Sent) → said (map sends sent) ≡ said_mapped by_value (map ThreadMapped.sends sent)
said-sends [] = refl
said-sends (s ∷ sent) = ap (λ z. gives s ∷ z) (said-sends sent)

await_recv-Same :
    (f : ℕ) (ts : List ℕ) (tmo : Timeout) (s : Stackless)
    → SameAs (some (await_recv f ts tmo s)) (some (ThreadMapped.await_recv f ts tmo (view s)))
unfolding by_value await_recv ThreadMapped.await_recv sender_and_request
await_recv-Same f ts at_once s = (refl, refl)
await_recv-Same f ts bounded s = (refl, refl)
await_recv-Same f ts endless s = (refl, refl)

pub recv-Same :
    (f : ℕ) (ts : List ℕ) (tmo : Timeout) (s : Stackless)
    → SameAs (recv f ts tmo s) (ThreadMapped.try_recv f ts tmo (view s))
unfolding recv ThreadMapped.try_recv
recv-Same f ts tmo s =
    popped-Alike by_value said view (pop_recv ts s.base.mb) _ _ _ _
      (λ mb. await_recv-Same f ts tmo (record s { base = with_mailbox mb s.base }))
      (λ x mb. (refl, refl))

await_response-Same :
    (f : ℕ) (res : Response) (tmo : Timeout) (s : Stackless)
    → tmo ≢ at_once
    → SameAs
        (some (await_response f res tmo s))
        (some (ThreadMapped.await_response f res tmo (view s)))
unfolding by_value await_response ThreadMapped.await_response
await_response-Same f res at_once s late = absurd (late refl)
await_response-Same f res bounded s late = (refl, refl)
await_response-Same f res endless s late = (refl, refl)

pub response-Same :
    (f : ℕ) (res : Response) (tmo : Timeout) (s : Stackless)
    → tmo ≢ at_once
    → SameAs (recv_response f res tmo s) (ThreadMapped.try_response f res tmo (view s))
unfolding by_value recv_response ThreadMapped.try_response
response-Same f res tmo s late =
    popped-Alike by_value said view (pop_response res s.base.mb) _ _ _ _
      (λ mb. await_response-Same f res tmo (record s { base = with_mailbox mb s.base }) late)
      (λ x mb. (refl, refl))

wake_recv-Same :
    (p : ℕ) (s : Stackless) → SameAs (wake_recv p s) (ThreadMapped.wake_recv p (view s))
unfolding wake_recv ThreadMapped.wake_recv
wake_recv-Same p s =
    popped-Alike by_value said view (pop_recv s.curr_match s.base.mb) _ _ _ _ (λ mb. (refl, refl))
      (λ x mb. (refl, refl))

wake_response-Same :
    (p : ℕ) (s : Stackless) → SameAs (wake_response p s) (ThreadMapped.wake_response p (view s))
unfolding by_value wake_response ThreadMapped.wake_response
wake_response-Same p s = if-Alike by_value said view (response_ok s.recving_res) _ _ (
    popped-Alike by_value said view (pop_response s.recving_res s.base.mb) _ _ _ _
      (λ mb. (refl, refl)) (λ x mb. (refl, refl)))

kept-Same :
    (o : Option ℕ) (f : ℕ → Stackless → Outputs) (g : ℕ → Thread → ThreadMapped.Outputs)
    (s : Stackless)
    → ((p : ℕ) → SameAs (f p s) (g p (view s)))
    → SameAs (if_kept o f s) (ThreadMapped.if_kept o g (view s))
kept-Same none f g s h = (refl, refl)
kept-Same (some p) f g s h = h p

wake-Same :
    (filed : Filed) (s : Stackless) → SameAs (wake filed s) (ThreadMapped.wake filed (view s))
unfolding wake ThreadMapped.wake
wake-Same linking s = (refl, refl)
wake-Same plain s = kept-Same s.recv_h wake_recv ThreadMapped.wake_recv s (λ p. wake_recv-Same p s)
wake-Same response s =
    kept-Same s.res_h wake_response ThreadMapped.wake_response s (λ p. wake_response-Same p s)

filed-Same :
    (out : Option (Filed × BasicActor)) (s : Stackless)
    → SameAs
        (do (filed, b) ← out; wake filed (record s { base = b }))
        (do (filed, b) ← out; ThreadMapped.wake filed (record (view s) { base = b }))
filed-Same none s = tt
filed-Same (some (filed, b)) s = wake-Same filed (record s { base = b })

stale-Same :
    (out : Option (List Sent × BasicActor)) (s : Stackless)
    → SameAs
        (do (sent, b) ← out; some (map sends sent, record s { base = b }))
        (do (sent, b) ← out; some (map ThreadMapped.sends sent, record (view s) { base = b }))
stale-Same none s = tt
stale-Same (some (sent, b)) s = (said-sends sent, refl)

pub handle_recv-Same :
    (write_exit : WriteExit) (aid_at : ℕ → ActorId) (pk : Pack) (s : Stackless)
    → s.base.aid.ctxid ≡ s.base.ctxid
    → SameAs
        (handle_recv write_exit aid_at s.base.timestamp pk s)
        (ThreadMapped.handle_recv write_exit aid_at pk (view s))
unfolding handle_recv ThreadMapped.handle_recv
handle_recv-Same write_exit aid_at pk s e =
    subst
      (λ c.
        SameAs
          (if check aid_at pk.recver c s.base.timestamp
            then (do
              (filed, b) ← file_pack pk.tag pk.skt pk.msg s.base
              wake filed (record s { base = b }))
            else if pk.is_err_ret
            then some ([], s)
            else (do
              (sent, b) ← handle_stale write_exit pk.tag pk.recver s.base
              some (map sends sent, record s { base = b })))
          (ThreadMapped.handle_recv write_exit aid_at pk (view s)))
      (sym e)
      (branch-Alike by_value said view (check aid_at pk.recver s.base.ctxid s.base.timestamp)
        pk.is_err_ret _ _ _ _ _ _ (filed-Same (file_pack pk.tag pk.skt pk.msg s.base) s)
        (refl, refl) (stale-Same (handle_stale write_exit pk.tag pk.recver s.base) s))

-- The end of the timer of a `recv` that waits, or of one that waited before it.
pub fires-Same :
    (hdr sid : ℕ) (s : Stackless)
    → SameAs
        (handle_timeout
          (record { kind = recv_timer; hdr = hdr; sid = sid })
          (record s { recv_h = some hdr }))
        (ThreadMapped.handle_timeout
          (record { kind = ThreadMapped.recv_timer; promise = hdr; sid = sid })
          (view (record s { recv_h = some hdr })))
unfolding handle_timeout expire ThreadMapped.handle_timeout ThreadMapped.expire by_value
    sender_and_request
fires-Same hdr sid s = now (sid == s.tmr_sid) (hdr == hdr) (==_refl hdr)
  where
    now :
        (b c : Bool)
        → c ≡ true
        → SameAs
            (if b
              then some (calls hdr nothing ∷ [], record s { recv_h = none; curr_match = [] })
              else some ([], record s { recv_h = some hdr }))
            (if b
              then (if c
                  then some (
                    ThreadMapped.sets hdr (received ThreadMapped.nil_recv nil_message) ∷ [],
                    record (view s) { recv_p = none; curr_match = [] },
                  )
                  else none)
              else some ([], view (record s { recv_h = some hdr })))
    now true true e = (refl, refl)
    now true false e = absurd cc
    now false c e = (refl, refl)
