-- ===== src/Stackful/Steps.antt =====
-- A stackful actor and a thread-mapped one, step by step: the calls, packs and timers of both.
use gce.Prelude.{
  ℕ, ◌≡◌, ◌≢◌, refl, ap, Bool, true, false, ◌&&◌, ◌||◌, List, [], ◌∷◌, Option, none, some,
  if◌then◌else◌, ◌==◌, ◌>>=◌, map,
}
use gce.Ids.{ActorId}
use gce.Message.{Message, Response, Pack, nil_response, nil_message, response_ok}
use gce.Mailbox.Pop.{pop_recv, pop_response}
use gce.BasicActor.{BasicActor, Sent, WriteExit, check}
use gce.BasicActor.Receive.{
  Filed, linking, plain, response, file_pack, handle_stale, sender_and_request,
}
use gce.BasicActor.Filing.{with_mailbox}
use gce.ThreadMapped.{Thread, Timeout, at_once, bounded, endless, recv_timer, res_timer, Timer}
use gce.ThreadMapped
use gce.ThreadMapped.Compare.{
  Given, Said, answers, begins, gives, said_mapped, Alike, popped-Alike, if-Alike, branch-Alike,
}
use gce.Stackful.{
  Stackful, Output, returns, wakes, starts, cancels, sends, Outputs, nothing, await_recv, recv,
  await_response, recv_response, end_recv, end_response, resume, handle_recv_timeout, wake_up,
  wake_recv, wake_response, wake, handle_recv,
}

-- Nothing of what is returned is lost.
abbrev pub as_it_is : Given → Given
as_it_is g = g

-- The message of the caller after `recv`, which was `old` before.
abbrev pub assigned : Message → Option Message → Message
assigned old none = old
assigned old (some msg) = msg

-- A coroutine is in one call at a time, which has the number 0 here.
abbrev pub said : Message → List Output → List Said
said old [] = []
said old (returns who msg ∷ outs) = answers 0 (who, assigned old msg) ∷ said old outs
said old (starts sid ∷ outs) = begins 0 sid ∷ said old outs
said old (sends s ∷ outs) = gives s ∷ said old outs
said old (wakes ∷ outs) = said old outs
said old (cancels ∷ outs) = said old outs

-- What a thread-mapped actor keeps only for a call that waits.
abbrev pub view : Stackful → Thread
view s = record {
  base = s.base;
  recv_p = if s.recving then some 0 else none;
  res_p = if s.responsing then some 0 else none;
  curr_match = if s.recving then s.curr_match else [];
  recving_res = if s.responsing then s.recving_res else nil_response;
  tmr_sid = s.tmr_sid;
}

abbrev pub SameAs : Message → Outputs → ThreadMapped.Outputs → Type 0
SameAs old x y = Alike as_it_is (said old) view x y

said-sends :
    (sent : List Sent)
    → said nil_message (map sends sent) ≡ said_mapped as_it_is (map ThreadMapped.sends sent)
said-sends [] = refl
said-sends (s ∷ sent) = ap (λ z. gives s ∷ z) (said-sends sent)

-- The coroutine waits in a `recv`, in a `recv` for a response, or in neither.
abbrev pub at_call : Bool → Bool → Stackful → Stackful
at_call b c s = record s { recving = b; responsing = c }

await_recv-Same :
    (ts : List ℕ) (tmo : Timeout) (s : Stackful)
    → SameAs nil_message
        (some (await_recv ts tmo (at_call false false s)))
        (some (ThreadMapped.await_recv 0 ts tmo (view (at_call false false s))))
unfolding await_recv ThreadMapped.await_recv sender_and_request
await_recv-Same ts at_once s = (refl, refl)
await_recv-Same ts bounded s = (refl, refl)
await_recv-Same ts endless s = (refl, refl)

pub recv-Same :
    (ts : List ℕ) (tmo : Timeout) (s : Stackful)
    → SameAs nil_message
        (recv ts tmo (at_call false false s))
        (ThreadMapped.try_recv 0 ts tmo (view (at_call false false s)))
unfolding recv ThreadMapped.try_recv
recv-Same ts tmo s =
    popped-Alike as_it_is (said nil_message) view (pop_recv ts s.base.mb) _ _ _ _
      (λ mb. await_recv-Same ts tmo (record s { base = with_mailbox mb s.base }))
      (λ x mb. (refl, refl))

await_response-Same :
    (res : Response) (tmo : Timeout) (s : Stackful)
    → tmo ≢ at_once
    → SameAs nil_message
        (some (await_response tmo (record (at_call false false s) { recving_res = res })))
        (some (ThreadMapped.await_response 0 res tmo (view (at_call false false s))))
unfolding await_response ThreadMapped.await_response
await_response-Same res at_once s late = absurd (late refl)
await_response-Same res bounded s late = (refl, refl)
await_response-Same res endless s late = (refl, refl)

pub response-Same :
    (res : Response) (tmo : Timeout) (s : Stackful)
    → tmo ≢ at_once
    → SameAs nil_message
        (recv_response res tmo (at_call false false s))
        (ThreadMapped.try_response 0 res tmo (view (at_call false false s)))
unfolding recv_response ThreadMapped.try_response
response-Same res tmo s late =
    popped-Alike as_it_is (said nil_message) view (pop_response res s.base.mb) _ _ _ _
      (λ mb. await_response-Same res tmo (record s { base = with_mailbox mb s.base }) late)
      (λ x mb. (refl, refl))

wake_recv-Same :
    (s : Stackful)
    → SameAs nil_message
        (wake_recv (at_call true false s))
        (ThreadMapped.wake_recv 0 (view (at_call true false s)))
unfolding wake_recv ThreadMapped.wake_recv wake_up resume end_recv
wake_recv-Same s =
    popped-Alike as_it_is (said nil_message) view (pop_recv s.curr_match s.base.mb) _ _ _ _
      (λ mb. (refl, refl)) (λ x mb. (refl, refl))

wake_response-Same :
    (s : Stackful)
    → SameAs nil_message
        (wake_response (at_call false true s))
        (ThreadMapped.wake_response 0 (view (at_call false true s)))
unfolding wake_response ThreadMapped.wake_response wake_up resume end_response
wake_response-Same s = if-Alike as_it_is (said nil_message) view (response_ok s.recving_res) _ _ (
    popped-Alike as_it_is (said nil_message) view (pop_response s.recving_res s.base.mb) _ _ _ _
      (λ mb. (refl, refl)) (λ x mb. (refl, refl)))

wake-Same :
    (filed : Filed) (b c : Bool) (s : Stackful)
    → b && c ≡ false
    → SameAs nil_message
        (wake filed (at_call b c s))
        (ThreadMapped.wake filed (view (at_call b c s)))
unfolding wake ThreadMapped.wake
wake-Same linking b c s one = (refl, refl)
wake-Same plain false c s one = (refl, refl)
wake-Same plain true false s one = wake_recv-Same s
wake-Same plain true true s one = absurd cc
wake-Same response b false s one = (refl, refl)
wake-Same response false true s one = wake_response-Same s
wake-Same response true true s one = absurd cc

filed-Same :
    (out : Option (Filed × BasicActor)) (b c : Bool) (s : Stackful)
    → b && c ≡ false
    → SameAs nil_message
        (do (filed, base) ← out; wake filed (record (at_call b c s) { base = base }))
        (do
          (filed, base) ← out
          ThreadMapped.wake filed (record (view (at_call b c s)) { base = base }))
filed-Same none b c s one = tt
filed-Same (some (filed, base)) b c s one = wake-Same filed b c (record s { base = base }) one

stale-Same :
    (out : Option (List Sent × BasicActor)) (s : Stackful)
    → SameAs nil_message
        (do (sent, b) ← out; some (map sends sent, record s { base = b }))
        (do (sent, b) ← out; some (map ThreadMapped.sends sent, record (view s) { base = b }))
stale-Same none s = tt
stale-Same (some (sent, b)) s = (said-sends sent, refl)

pub handle_recv-Same :
    (write_exit : WriteExit) (aid_at : ℕ → ActorId) (pk : Pack) (b c : Bool) (s : Stackful)
    → b && c ≡ false
    → SameAs nil_message
        (handle_recv write_exit aid_at pk (at_call b c s))
        (ThreadMapped.handle_recv write_exit aid_at pk (view (at_call b c s)))
unfolding handle_recv ThreadMapped.handle_recv
handle_recv-Same write_exit aid_at pk b c s one =
    branch-Alike as_it_is (said nil_message) view
      (check aid_at pk.recver s.base.ctxid s.base.timestamp) pk.is_err_ret _ _ _ _ _ _
      (filed-Same (file_pack pk.tag pk.skt pk.msg s.base) b c s one) (refl, refl)
      (stale-Same (handle_stale write_exit pk.tag pk.recver s.base) (at_call b c s))

-- The timer of the call that waits.
abbrev pub timer_of : Bool → ℕ → Timer
timer_of true sid = record { kind = recv_timer; promise = 0; sid = sid }
timer_of false sid = record { kind = res_timer; promise = 0; sid = sid }

pub fires-Same :
    (sid : ℕ) (b c : Bool) (s : Stackful)
    → b && c ≡ false
    → b || c ≡ true
    → SameAs nil_message
        (some (handle_recv_timeout sid (at_call b c s)))
        (ThreadMapped.handle_timeout (timer_of b sid) (view (at_call b c s)))
unfolding handle_recv_timeout ThreadMapped.handle_timeout ThreadMapped.expire resume end_recv
    end_response sender_and_request
fires-Same sid true true s one some_call = absurd cc
fires-Same sid false false s one some_call = absurd cc
fires-Same sid true false s one some_call = now (sid == s.tmr_sid)
  where
    now :
        (b : Bool)
        → SameAs nil_message
            (some (
              if b
              then (nothing ∷ [], record (at_call true false s) { recving = false })
              else ([], at_call true false s)))
            (if b
              then some (
                ThreadMapped.sets 0 (ThreadMapped.received ThreadMapped.nil_recv nil_message) ∷ [],
                record (view (at_call true false s)) { recv_p = none; curr_match = [] },
              )
              else some ([], view (at_call true false s)))
    now true = (refl, refl)
    now false = (refl, refl)
fires-Same sid false true s one some_call = now (sid == s.tmr_sid)
  where
    now :
        (b : Bool)
        → SameAs nil_message
            (some (
              if b
              then (nothing ∷ [], record (at_call false true s) { responsing = false })
              else ([], at_call false true s)))
            (if b
              then some (
                ThreadMapped.sets 0 (ThreadMapped.answered nil_response nil_message) ∷ [],
                record (view (at_call false true s)) { res_p = none; recving_res = nil_response },
              )
              else some ([], view (at_call false true s)))
    now true = (refl, refl)
    now false = (refl, refl)
