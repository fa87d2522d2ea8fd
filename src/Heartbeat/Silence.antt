-- ===== src/Heartbeat/Silence.antt =====
-- When a heartbeat times out.
use gce.Prelude.{
  ℕ, zero, suc, ◌+◌, ◌-◌, ◌%◌, ◌^◌, ◌≤◌, ◌<◌, ◌≡◌, inl, inr, refl, ap, sym, subst, ◌∙◌, Bool, true,
  false, ◌||◌, List, [], ◌∷◌, ◌++◌, Option, some, if◌then◌else◌, ◌==◌, ◌>>=◌, arith, Bool-cases,
  replicate,
}
use mathlib.Core.List.{append_assoc, append-nil}
use gce.Heartbeat.{
  TimeoutFunc, close, reconn, Heartbeat, Output, ticks, times_out, starts_timer, cancels_timer,
  cancels_sync, new_heartbeat, clear, init, start_timer, start, stop, beat, less_one, call_timeout,
  count_down, handle_timeout, Event, beats, ends, step, run,
}

-- The specification: the silent periods since the last message, until they are too many.
pub data Silence : Type 0 where
  silent : ℕ → Silence
  gone : Silence

abbrev pub last_words : TimeoutFunc → List Output
last_words close = times_out ∷ cancels_timer ∷ cancels_sync ∷ []
last_words reconn = times_out ∷ []

beat-waiting : (h : Heartbeat) → (beat h).waiting ≡ h.waiting
unfolding beat
beat-waiting h = ground arith

module _ (max : ℕ) (f : TimeoutFunc) (tick : Bool) where
  abbrev pub tick_words : List Output
  tick_words = if tick then ticks ∷ [] else []

  unfoldable pub spec_step : Event → Silence → List Output × Silence
  spec_step beats (silent n) = ([], silent 0)
  spec_step beats gone = ([], gone)
  spec_step ends (silent n) =
      if suc n == max
      then (tick_words ++ last_words f, gone)
      else (tick_words ++ (starts_timer ∷ []), silent (suc n))
  spec_step ends gone = ([], gone)

  unfoldable pub spec_run : List Event → Silence → List Output
  spec_run [] s = []
  spec_run (e ∷ es) s = let out = spec_step e s in out.0 ++ spec_run es out.1

  abbrev at : ℕ → Heartbeat
  at n = record {
    max_count = max;
    curr_count = max - n;
    timeout = some f;
    tick = tick;
    stopped = false;
    waiting = 1;
  }

  -- A heartbeat that was started, and one that has timed out.
  abbrev Counts : Silence → Heartbeat → Type 0
  Counts (silent n) h = (n < max) × (h ≡ at n)
  Counts gone h = h.waiting ≡ 0

  abbrev Steps : Event → Silence → Option (List Output × Heartbeat) → Type 0
  Steps e s out =
      (g : Heartbeat) × (out ≡ some ((spec_step e s).0, g)) × Counts ((spec_step e s).1) g

  module _ (some_count : 0 < max) (small : max < 2 ^ 64) where
    last_timeout :
        (g : TimeoutFunc) (n : ℕ)
        → suc n ≡ max
        → (v : Heartbeat) × (handle_timeout false (record (at n) { timeout = some g })
            ≡ some (tick_words ++ last_words g, v))
          × (v.waiting ≡ 0)
    unfolding handle_timeout count_down call_timeout stop
    last_timeout close n e =
        let c : less_one (max - n) ≡ 0 = ground arith in
        (
          record (at n) { timeout = some close; curr_count = 0; waiting = 0; stopped = true },
          rw (handle_timeout, count_down, c)
              (ap
                (λ (z : List Output). some (
                  z,
                  record (at n) {
                    timeout = some close;
                    curr_count = 0;
                    waiting = 0;
                    stopped = true;
                  },
                ))
                (append_assoc tick_words (times_out ∷ cancels_timer ∷ []) (cancels_sync ∷ []))),
          refl,
        )
    last_timeout reconn n e =
        let c : less_one (max - n) ≡ 0 = ground arith in
        (
          record (at n) { timeout = some reconn; curr_count = 0; waiting = 0 },
          rw (handle_timeout, count_down, c)
              (ap
                (λ (z : List Output).
                  some (z, record (at n) { timeout = some reconn; curr_count = 0; waiting = 0 }))
                (append-nil (tick_words ++ (times_out ∷ [])))),
          refl,
        )

    next_period :
        (n : ℕ)
        → suc n < max
        → handle_timeout false (at n) ≡ some (tick_words ++ (starts_timer ∷ []), at (suc n))
    unfolding handle_timeout count_down start_timer
    next_period n l =
        let c : less_one (max - n) ≡ max - suc n = ground arith in
        let more : (max - suc n == 0) ≡ false = ground arith in
        rw (handle_timeout, count_down, c, more)
          (ap (λ (z : List Output). some (z, at (suc n)))
            (append-nil (tick_words ++ (starts_timer ∷ []))))

    ends-Steps : (n : ℕ) → n < max → Steps ends (silent n) (step ends (at n))
    unfolding step spec_step
    ends-Steps n l = elim (Bool-cases (suc n == max)) [
      | inl e ↦ let (v, f, w) = last_timeout f n (ground arith) in rw e (v, f, w)
      | inr e ↦ rw e (at (suc n), next_period n (ground arith), (ground arith, refl))
    ]

    step-Counts : (e : Event) (s : Silence) (h : Heartbeat) → Counts s h → Steps e s (step e h)
    unfolding step spec_step beat
    step-Counts beats gone h c = (beat h, refl, beat-waiting h ∙ c)
    step-Counts beats (silent n) h (l, same) =
        subst (λ x. Steps beats (silent n) (step beats x)) (sym same)
          (
            at 0,
            ap (λ x. some ([], record (at 0) { curr_count = x }))
                (let z : max ≡ max - 0 = omega arith in z),
            (some_count, refl),
          )
    step-Counts ends gone h c = (h, rw c refl, c)
    step-Counts ends (silent n) h (l, same) =
        subst (λ x. Steps ends (silent n) (step ends x)) (sym same) (ends-Steps n l)

    run-spec :
        (es : List Event) (s : Silence) (h : Heartbeat)
        → Counts s h
        → run es h ≡ some (spec_run es s)
    unfolding run spec_run
    run-spec [] s h c = refl
    run-spec (e ∷ es) s h c =
        let (g, f, c') = step-Counts e s h c in rw (f, ◌>>=◌, run-spec es ((spec_step e s).1) g c')

abbrev pub says_timeout : List Output → Bool
says_timeout [] = false
says_timeout (times_out ∷ outs) = true
says_timeout (ticks ∷ outs) = says_timeout outs
says_timeout (starts_timer ∷ outs) = says_timeout outs
says_timeout (cancels_timer ∷ outs) = says_timeout outs
says_timeout (cancels_sync ∷ outs) = says_timeout outs

says_timeout-append :
    (xs ys : List Output) → says_timeout (xs ++ ys) ≡ says_timeout xs || says_timeout ys
says_timeout-append [] ys = refl
says_timeout-append (times_out ∷ xs) ys = refl
says_timeout-append (ticks ∷ xs) ys = says_timeout-append xs ys
says_timeout-append (starts_timer ∷ xs) ys = says_timeout-append xs ys
says_timeout-append (cancels_timer ∷ xs) ys = says_timeout-append xs ys
says_timeout-append (cancels_sync ∷ xs) ys = says_timeout-append xs ys

last_words-says : (f : TimeoutFunc) → says_timeout (last_words f) ≡ true
last_words-says close = refl
last_words-says reconn = refl

module _ (max : ℕ) (f : TimeoutFunc) (tick : Bool) where
  said_now :
      (ys : List Output) → says_timeout ((tick_words max f tick ++ last_words f) ++ ys) ≡ true
  said_now ys =
      let a = says_timeout-append (tick_words max f tick ++ last_words f) ys in
      let b = says_timeout-append (tick_words max f tick) (last_words f) in
      let c = last_words-says f in ground (arith)

  said_later : (xs ys : List Output) → says_timeout ys ≡ true → says_timeout (xs ++ ys) ≡ true
  said_later xs ys h = let a = says_timeout-append xs ys in ground (arith)

  silence-said :
      (k n : ℕ)
      → n < max
      → max ≤ n + k
      → says_timeout (spec_run max f tick (replicate k ends) (silent n)) ≡ true
  unfolding spec_run spec_step
  silence-said zero n l m = absurd (omega arith)
  silence-said (suc k) n l m = elim (Bool-cases (suc n == max)) [
    | inl e ↦ rw e (said_now (spec_run max f tick (replicate k ends) gone))
    | inr e ↦ rw e (
        said_later (tick_words max f tick ++ (starts_timer ∷ []))
          (spec_run max f tick (replicate k ends) (silent (suc n)))
          (silence-said k (suc n) (ground arith) (omega arith)))
  ]

  then-said :
      (es : List Event) (n : ℕ)
      → n < max
      → says_timeout (spec_run max f tick (es ++ replicate max ends) (silent n)) ≡ true
  unfolding spec_run spec_step
  then-said [] n l = silence-said max n l (omega arith)
  then-said (beats ∷ es) n l = then-said es 0 (omega arith)
  then-said (ends ∷ es) n l = elim (Bool-cases (suc n == max)) [
    | inl e ↦ rw e (said_now (spec_run max f tick (es ++ replicate max ends) gone))
    | inr e ↦ rw e (
        said_later (tick_words max f tick ++ (starts_timer ∷ []))
          (spec_run max f tick (es ++ replicate max ends) (silent (suc n)))
          (then-said es (suc n) (ground arith)))
  ]

-- `max_count_`, which `init` makes one at least.
abbrev pub at_least_one : ℕ → ℕ
at_least_one count = if count == 0 then 1 else count

abbrev pub started : ℕ → TimeoutFunc → Bool → Heartbeat
started count f tick = (start (init count f tick new_heartbeat)).1

started-Counts :
    (count : ℕ) (f : TimeoutFunc) (tick : Bool)
    → count < 2 ^ 64
    → started count f tick ≡ at (at_least_one count) f tick 0
unfolding start start_timer init clear new_heartbeat
started-Counts count f tick small =
    let w : (0 + 1) % 2 ^ 64 ≡ 1 = omega arith in
    let z : at_least_one count ≡ at_least_one count - 0 = ground arith in
    ap (λ x. record (at (at_least_one count) f tick 0) { curr_count = x }) z

at_least_one-bounds :
    (count : ℕ) → count < 2 ^ 64 → (0 < at_least_one count) × (at_least_one count < 2 ^ 64)
at_least_one-bounds count small = ground arith

-- From its start, through all messages that arrive and all periods that end, a heartbeat of a number of
-- periods below 2^64 does what the count of the silent periods since the last message says: at the end of
-- a period it calls the tick if there is one; then, if as many periods were silent as were asked for, or
-- one if none was, it calls its timeout function once, and does nothing any more; else it starts the next
-- period.
pub run-spec_run :
    (count : ℕ) (f : TimeoutFunc) (tick : Bool) (es : List Event)
    → count < 2 ^ 64
    → run es (started count f tick) ≡ some (spec_run (at_least_one count) f tick es (silent 0))
run-spec_run count f tick es small =
    let (pos, bound) = at_least_one-bounds count small in
    run-spec (at_least_one count) f tick pos bound es (silent 0) (started count f tick)
      (pos, started-Counts count f tick small)

-- Whatever has happened since its start, a heartbeat of a number of periods below 2^64 has called its
-- timeout function once that many periods, or one if it is none, have ended without a message.
pub run-timeout :
    (count : ℕ) (f : TimeoutFunc) (tick : Bool) (es : List Event)
    → count < 2 ^ 64
    → (outs : List Output) × (run (es ++ replicate (at_least_one count) ends) (started count f tick)
        ≡ some outs)
      × (says_timeout outs ≡ true)
run-timeout count f tick es small =
    let (pos, bound) = at_least_one-bounds count small in
    (
      spec_run (at_least_one count) f tick (es ++ replicate (at_least_one count) ends) (silent 0),
      run-spec_run count f tick (es ++ replicate (at_least_one count) ends) small,
      then-said (at_least_one count) f tick es 0 pos,
    )
