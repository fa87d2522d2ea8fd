-- ===== src/ThreadMapped/Sane.antt =====
-- What holds of a thread and its actor between two events, after calls and after packs.
use gce.Prelude.{
  ℕ, suc, ◌^◌, ◌≤◌, ◌<◌, ◌≡◌, ◌⊎◌, inl, inr, refl, ap, sym, subst, ◌∙◌, true, List, [], ◌∷◌, ◌++◌,
  Option, some, if◌then◌else◌, ◌>>=◌, length, arith, Bool-cases, map, option_or,
}
use gce.Message.{response_ok}
use gce.BasicActor.{BasicActor, Sent}
use gce.BasicActor.Filing.{Sound}
use gce.ThreadMapped.{
  Thread, Timer, TimerKind, recv_timer, res_timer, Value, Output, sets, starts, cancels, sends,
  Outputs, next_sid, is_number,
}
use gce.ThreadMapped.World.{World, is_free, absorb, settle, call}
use gce.ThreadMapped.Timers.{
  upto, length-upto, awaits_kind, awaits, Descending, Current, Timed, weaken, past-Timed, OnCall,
  Idle, Idle-past,
}
use gce.ThreadMapped.Tries.{Tried}
use gce.ThreadMapped.Wakes.{Kept, SameCall}

-- No promise is set but those of the calls so far, each once, in order; a call that waits is the last one.
abbrev pub Waits : Thread → ℕ → List ℕ → Type 0
Waits a calls answers =
    Idle a × (answers ≡ upto calls) ⊎ ((p : ℕ) × OnCall p a × (calls ≡ suc p) × (answers ≡ upto p))

pub record Sane (b : BasicActor) (k : ℕ) (w : World) : Type 0 where
  pub sound : Sound w.thread.base b
  pub sid : w.thread.tmr_sid ≤ k
  pub timed : Timed w.timers w.thread
  pub waits : Waits w.thread w.calls w.answers

abbrev pub Stepped : BasicActor → ℕ → Option World → Type 0
Stepped b k out = (v : World) × (out ≡ some v) × Sane b (suc k) v

pub Kept-Waits : (a : Thread) (calls : ℕ) (answers : List ℕ) → Waits a calls answers → Kept a
Kept-Waits a calls answers (inl (i, e)) = inl i
Kept-Waits a calls answers (inr (p, on, c, e)) = inr (p, on)

pub free-Idle :
    (w : World)
    → Waits w.thread w.calls w.answers
    → is_free w ≡ true
    → Idle w.thread × (w.answers ≡ upto w.calls)
free-Idle w (inl x) e = x
free-Idle w (inr (p, on, c, f)) e = let n = ap length f ∙ length-upto p in absurd (ground arith)

pub call-Stepped :
    (f : ℕ → Thread → Outputs) (b : BasicActor) (k : ℕ) (w : World)
    → Sane b k w
    → suc k < 2 ^ 64
    → ((p : ℕ) (a : Thread) → Sound a.base b → Idle a → Tried b p a (f p a))
    → Stepped b k (call f w)
call-Stepped f b k w s small try = elim (Bool-cases (is_free w)) [
  | inr e ↦ (w, rw (e, if◌then◌else◌) refl, later w s)
  | inl e ↦
      let (i, all) = free-Idle w s.waits e in
      let past = Idle-past w.timers w.thread i s.timed in
      let (outs, a, g, sound, kind) = try w.calls w.thread s.sound i in
      (
        settle (record w { calls = suc w.calls }) (outs, a),
        rw (e, if◌then◌else◌, g, ◌>>=◌) refl,
        tried outs a i all past sound kind,
      )
]
  where
    later : (w : World) → Sane b k w → Sane b (suc k) w
    later w s =
        let h = s.sid in
        record { sound = s.sound; sid = omega arith; timed = s.timed; waits = s.waits }

    tried :
        (outs : List Output) (a : Thread)
        → Idle w.thread
        → w.answers ≡ upto w.calls
        → Descending w.thread.tmr_sid w.timers
        → Sound a.base b
        → (((v : Value) × (outs ≡ sets w.calls v ∷ []) × (a.tmr_sid ≡ w.thread.tmr_sid) × Idle a)
            ⊎ OnCall w.calls a
              × (((outs ≡ []) × (a.tmr_sid ≡ w.thread.tmr_sid))
                  ⊎ ((t : Timer) × (outs ≡ starts t ∷ [])
                      × (t.sid ≡ a.tmr_sid)
                      × (a.tmr_sid ≡ next_sid w.thread)
                      × (awaits t a ≡ true))))
        → Sane b (suc k) (settle (record w { calls = suc w.calls }) (outs, a))
    tried outs a i all past sound (inl (v, o, n, j)) =
        let h = s.sid in
        subst (λ x. Sane b (suc k) (settle (record w { calls = suc w.calls }) (x, a))) (sym o)
          (record {
            sound = sound;
            sid = omega arith;
            timed = past-Timed w.timers a (subst (λ x. Descending x w.timers) (sym n) past);
            waits = inl (j, ap (λ x. x ++ (w.calls ∷ [])) all);
          })
    tried outs a i all past sound (inr (on, inl (o, n))) =
        let h = s.sid in
        subst (λ x. Sane b (suc k) (settle (record w { calls = suc w.calls }) (x, a))) (sym o)
          (record {
            sound = sound;
            sid = omega arith;
            timed = past-Timed w.timers a (subst (λ x. Descending x w.timers) (sym n) past);
            waits = inr (w.calls, on, refl, all);
          })
    tried outs a i all past sound (inr (on, inr (t, o, m, n, aw))) =
        let h = s.sid in
        let up : a.tmr_sid ≡ suc w.thread.tmr_sid = ground arith in
        subst (λ x. Sane b (suc k) (settle (record w { calls = suc w.calls }) (x, a))) (sym o)
          (record {
            sound = sound;
            sid = omega arith;
            timed =
                ((omega arith, weaken w.thread.tmr_sid t.sid w.timers (omega arith) past), λ e. aw);
            waits = inr (w.calls, on, refl, all);
          })

pub absorb-sends : (sent : List Sent) (w : World) → absorb (map sends sent) w ≡ w
absorb-sends [] w = refl
absorb-sends (s ∷ sent) w = absorb-sends sent w

pub next_sid-suc :
    (a : Thread) (k : ℕ) → a.tmr_sid ≤ k → suc k < 2 ^ 64 → next_sid a ≡ suc a.tmr_sid
next_sid-suc a k h small = ground arith

-- The call that waits is the last one, so that it is the one that is answered.
pub same-OnCall : (p q : ℕ) (a : Thread) → OnCall p a → OnCall q a → p ≡ q
same-OnCall p q a (inl (r, s)) (inl (r', s')) = ap (λ o. option_or o 0) (sym r ∙ r')
same-OnCall p q a (inl (r, s)) (inr (r', s', ok)) = absurd cc
same-OnCall p q a (inr (r, s, ok)) (inl (r', s')) = absurd cc
same-OnCall p q a (inr (r, s, ok)) (inr (r', s', ok')) = ap (λ o. option_or o 0) (sym s ∙ s')

pub answered-Waits :
    (p : ℕ) (a a' : Thread) (calls : ℕ) (answers : List ℕ)
    → OnCall p a
    → Idle a'
    → Waits a calls answers
    → Waits a' calls (answers ++ (p ∷ []))
answered-Waits p a a' calls answers (inl (r, s)) j (inl ((r', s'), e)) = absurd cc
answered-Waits p a a' calls answers (inr (r, s, ok)) j (inl ((r', s'), e)) = absurd cc
answered-Waits p a a' calls answers on j (inr (q, on', c, e)) =
    let same = same-OnCall p q a on on' in
    inl (j, ap (λ (x : List ℕ × ℕ). x.0 ++ (x.1 ∷ [])) (λ i. (e i, same i)) ∙ sym (ap upto c))

pub same-awaits :
    (k : TimerKind) (p : ℕ) (a a' : Thread) → SameCall a' a → awaits_kind k p a' ≡ awaits_kind k p a
same-awaits recv_timer p a a' (r, q, res, n) = ap (is_number p) r
same-awaits res_timer p a a' (r, q, res, n) = ap (is_number p) q

pub same-Current : (ts : List Timer) (a a' : Thread) → SameCall a' a → Current ts a → Current ts a'
same-Current [] a a' same c = tt
same-Current (t ∷ ts) a a' (r, q, res, n) c =
    λ e. same-awaits t.kind t.promise a a' (r, q, res, n) ∙ c (e ∙ n)

pub same-Waits :
    (a a' : Thread) (calls : ℕ) (answers : List ℕ)
    → SameCall a' a
    → Waits a calls answers
    → Waits a' calls answers
same-Waits a a' calls answers (r, q, res, n) (inl ((i, j), e)) = inl ((r ∙ i, q ∙ j), e)
same-Waits a a' calls answers (r, q, res, n) (inr (p, inl (i, j), c, e)) =
    inr (p, inl (r ∙ i, q ∙ j), c, e)
same-Waits a a' calls answers (r, q, res, n) (inr (p, inr (i, j, ok), c, e)) =
    inr (p, inr (r ∙ i, q ∙ j, ap response_ok res ∙ ok), c, e)

pub settled-Sane :
    (b : BasicActor) (k : ℕ) (w : World) (outs : List Output) (a : Thread)
    → Sane b k w
    → suc k < 2 ^ 64
    → Sound a.base b
    → (((p : ℕ) × (v : Value) × (outs ≡ sets p v ∷ cancels ∷ [])
          × OnCall p w.thread
          × (a.tmr_sid ≡ next_sid w.thread)
          × Idle a)
        ⊎ ((sent : List Sent) × (outs ≡ map sends sent) × SameCall a w.thread))
    → Sane b (suc k) (settle w (outs, a))
settled-Sane b k w outs a s small sound (inl (p, v, o, on, n, j)) =
    let h = s.sid in
    let up = n ∙ next_sid-suc w.thread k h small in
    subst (λ x. Sane b (suc k) (settle w (x, a))) (sym o)
      (record {
        sound = sound;
        sid = omega arith;
        timed = past-Timed w.timers a (subst (λ x. Descending x w.timers) (sym up) (s.timed.0));
        waits = answered-Waits p w.thread a w.calls w.answers on j s.waits;
      })
settled-Sane b k w outs a s small sound (inr (sent, o, (r, q, res, n))) =
    let h = s.sid in
    subst (λ x. Sane b (suc k) (settle w (x, a))) (sym o)
      (subst (Sane b (suc k)) (sym (absorb-sends sent (record w { thread = a }))) (record {
        sound = sound;
        sid = omega arith;
        timed = (
          subst (λ x. Descending (suc x) w.timers) (sym n) (s.timed.0),
          same-Current w.timers w.thread a (r, q, res, n) (s.timed.1),
        );
        waits = same-Waits w.thread a w.calls w.answers (r, q, res, n) s.waits;
      }))
