-- ===== src/ThreadMapped/Answers.antt =====
-- Every call of a thread gets one answer, in its turn.
use gce.Prelude.{
  ℕ, suc, ◌+◌, ◌^◌, ◌<◌, ◌≡◌, inl, inr, refl, sym, subst, ◌∙◌, true, List, [], ◌∷◌, ◌++◌, none,
  some, ◌>>=◌, length, arith, Option-cases,
}
use gce.Ids.{ActorId}
use gce.Message.{Tag, response_ok}
use gce.Mailbox.Invariant.{Inv}
use gce.BasicActor.{BasicActor, WriteExit}
use gce.BasicActor.Requests.{Here}
use gce.BasicActor.Filing.{Sound, Answerable}
use gce.ThreadMapped.{new_thread, try_recv, try_response, handle_timeout}
use gce.ThreadMapped.World.{
  Event, calls_recv, calls_response, fires, arrives, World, new_world, settle, pick, world_step,
  world_run,
}
use gce.ThreadMapped.Timers.{Descending, past-Timed, Picked, pick-Picked}
use gce.ThreadMapped.Tries.{try_recv-Tried, try_response-Tried}
use gce.ThreadMapped.Wakes.{handle_recv-Woken, handle_timeout-TimedOut}
use gce.ThreadMapped.Sane.{
  Waits, Sane, Stepped, Kept-Waits, call-Stepped, answered-Waits, settled-Sane,
}

base_fair : (tag : Tag) (b c : BasicActor) → Sound c b → Answerable tag b → Answerable tag c
base_fair tag b c s h = base_fair_at tag h
  where
    moved : (aid : ActorId) → Here aid b → Here aid c
    moved aid h = record {
      ctxid = h.ctxid ∙ sym s.ctxid;
      timestamp = h.timestamp ∙ sym s.timestamp;
      ok = h.ok;
    }

    base_fair_at : (tag : Tag) → Answerable tag b → Answerable tag c
    base_fair_at (Tag.link l) h = moved l.aid h
    base_fair_at (Tag.request req) h = moved req.aid h
    base_fair_at (Tag.from_aid _) h = tt
    base_fair_at (Tag.response _) h = tt
    base_fair_at (Tag.exit _) h = tt
    base_fair_at (Tag.fwd_link _) h = tt
    base_fair_at (Tag.fwd_exit _) h = tt
    base_fair_at (Tag.spawn _) h = tt
    base_fair_at (Tag.spawn_ret _) h = tt

-- A response that is waited for has an id, and those who are answered for an actor that has exited are of
-- this run of the context.
abbrev pub Fair : BasicActor → Event → Type 0
Fair b (calls_recv match_list tmo) = Unit
Fair b (calls_response res tmo) = response_ok res ≡ true
Fair b (fires n) = Unit
Fair b (arrives pk) = Answerable pk.tag b

abbrev pub AllFair : BasicActor → List Event → Type 0
AllFair b [] = Unit
AllFair b (e ∷ es) = Fair b e × AllFair b es

fires-Stepped :
    (b : BasicActor) (k n : ℕ) (w : World)
    → Sane b k w
    → Stepped b k (elim (pick n w.timers) [
      | none ↦ some w
      | some (t, rest) ↦ do
        out ← handle_timeout t w.thread
        some (settle (record w { timers = rest }) out)
    ])
fires-Stepped b k n w s = elim (Option-cases (pick n w.timers)) [
  | inl e ↦ (
    w,
    rw e refl,
    record {
      sound = s.sound;
      sid = let h = s.sid in omega arith;
      timed = s.timed;
      waits = s.waits;
    },
  )
  | inr ((t, rest), e) ↦
      let (timed, now) = subst (Picked w.thread) e (pick-Picked n w.timers w.thread s.timed) in
      let k' = Kept-Waits w.thread w.calls w.answers s.waits in
      elim (handle_timeout-TimedOut t w.thread k' (λ f. (now f).0)) [
        | inl (other, f) ↦ (
          record w { timers = rest },
          rw (e, f, ◌>>=◌) refl,
          record {
            sound = s.sound;
            sid = let h = s.sid in omega arith;
            timed = timed;
            waits = s.waits;
          },
        )
        | inr (same, on, (v, a, f, n', base, j)) ↦ (
          record w { timers = rest; thread = a; answers = w.answers ++ (t.promise ∷ []) },
          rw (e, f, ◌>>=◌) refl,
          record {
            sound = subst (λ x. Sound x b) (sym base) s.sound;
            sid = let h = s.sid in omega arith;
            timed = past-Timed rest a (subst (λ x. Descending x rest) (sym n') ((now same).1));
            waits = answered-Waits t.promise w.thread a w.calls w.answers on j s.waits;
          },
        )
      ]
]

world_step-Stepped :
    (write_exit : WriteExit) (aid_at : ℕ → ActorId) (e : Event) (b : BasicActor) (k : ℕ) (w : World)
    → Sane b k w
    → suc k < 2 ^ 64
    → Fair b e
    → Stepped b k (world_step write_exit aid_at e w)
unfolding world_step
world_step-Stepped write_exit aid_at (calls_recv ts tmo) b k w s small fair =
    call-Stepped (λ p. try_recv p ts tmo) b k w s small (λ p a. try_recv-Tried b p ts tmo a)
world_step-Stepped write_exit aid_at (calls_response res tmo) b k w s small fair =
    call-Stepped (λ p. try_response p res tmo) b k w s small
      (λ p a t i. try_response-Tried b p res tmo a t i fair)
world_step-Stepped write_exit aid_at (fires n) b k w s small fair = fires-Stepped b k n w s
world_step-Stepped write_exit aid_at (arrives pk) b k w s small fair =
    let (outs, a, e, sound, kind) =
      handle_recv-Woken write_exit aid_at pk b w.thread s.sound
        (Kept-Waits w.thread w.calls w.answers s.waits)
        (base_fair pk.tag b w.thread.base s.sound fair) in
    (
      settle w (outs, a),
      rw (world_step, e, ◌>>=◌) refl,
      settled-Sane b k w outs a s small sound kind,
    )

world_run-Sane :
    (write_exit : WriteExit) (aid_at : ℕ → ActorId) (es : List Event) (b : BasicActor) (k : ℕ)
    (w : World)
    → Sane b k w
    → k + length es < 2 ^ 64
    → AllFair b es
    → (v : World) × (world_run write_exit aid_at es w ≡ some v) × Sane b (k + length es) v
unfolding world_run
world_run-Sane write_exit aid_at [] b k w s small fair = (
  w,
  refl,
  record { sound = s.sound; sid = let h = s.sid in omega arith; timed = s.timed; waits = s.waits },
)
world_run-Sane write_exit aid_at (e ∷ es) b k w s small (now, fair) =
    let (v, f, t) = world_step-Stepped write_exit aid_at e b k w s (omega arith) now in
    let (u, g, r) = world_run-Sane write_exit aid_at es b (suc k) v t (omega arith) fair in
    let same : suc k + length es ≡ k + length (e ∷ es) = omega arith in
    (u, rw (f, ◌>>=◌) g, subst (λ x. Sane b x u) same r)

-- From a new actor with a valid mailbox, let there be fewer than 2^64 events: calls of `recv` by the
-- thread, each made when the one before has returned, ends of timers, stale ones included, and packs that
-- arrive. Each response that is waited for has an id, and whoever must be told that the receiver of a
-- pack has exited is of this run of the context. Then no assertion fails and nothing is undefined behaviour,
-- and the promises that were set are those of all calls, each once and in order, but for the last one when
-- that still waits.
pub world_run-answers :
    (write_exit : WriteExit) (aid_at : ℕ → ActorId) (es : List Event) (b : BasicActor)
    → Inv b.mb
    → length es < 2 ^ 64
    → AllFair b es
    → (w : World) × (world_run write_exit aid_at es (new_world b) ≡ some w)
      × Waits w.thread w.calls w.answers
unfolding new_world new_thread
world_run-answers write_exit aid_at es b v small fair =
    let start : Sane b 0 (new_world b) = record {
      sound = record { mailbox = v; ctxid = refl; timestamp = refl };
      sid = omega arith;
      timed = (tt, tt);
      waits = inl ((refl, refl), refl);
    } in
    let (w, e, s) =
      world_run-Sane write_exit aid_at es b 0 (new_world b) start (omega arith) fair in
    (w, e, s.waits)
