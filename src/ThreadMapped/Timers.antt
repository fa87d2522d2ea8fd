-- ===== src/ThreadMapped/Timers.antt =====
-- The timers that were started, and the one that belongs to the call that waits.
use gce.Prelude.{
  ℕ, zero, suc, ◌≤◌, ◌<◌, ◌≡◌, ◌⊎◌, inl, inr, refl, subst, Bool, true, false, List, [], ◌∷◌, ◌++◌,
  Option, none, some, ◌==◌, length, length-append, arith, Bool-cases, Option-cases,
}
use gce.Message.{response_ok}
use gce.ThreadMapped.{Thread, Timer, TimerKind, recv_timer, res_timer, is_number}
use gce.ThreadMapped.World.{pick}

abbrev pub upto : ℕ → List ℕ
upto zero = []
upto (suc n) = upto n ++ (n ∷ [])

pub length-upto : (n : ℕ) → length (upto n) ≡ n
length-upto zero = refl
length-upto (suc n) =
    let rest = length-upto n in let both = length-append (upto n) (n ∷ []) in omega arith

-- The timer waits for the promise that the actor has.
abbrev pub awaits_kind : TimerKind → ℕ → Thread → Bool
awaits_kind recv_timer p a = is_number p a.recv_p
awaits_kind res_timer p a = is_number p a.res_p

abbrev pub awaits : Timer → Thread → Bool
awaits t a = awaits_kind t.kind t.promise a

-- The timers, the last started first.
abbrev pub Descending : ℕ → List Timer → Type 0
Descending n [] = Unit
Descending n (t ∷ ts) = (t.sid < n) × Descending t.sid ts

abbrev pub Current : List Timer → Thread → Type 0
Current [] a = Unit
Current (t ∷ ts) a = t.sid ≡ a.tmr_sid → awaits t a ≡ true

abbrev pub Timed : List Timer → Thread → Type 0
Timed ts a = Descending (suc a.tmr_sid) ts × Current ts a

pub weaken : (m n : ℕ) (ts : List Timer) → m ≤ n → Descending m ts → Descending n ts
weaken m n [] l d = tt
weaken m n (t ∷ ts) l (h, d) = (omega arith, d)

-- Timers below the current number are those of calls that have ended.
pub past-Current : (ts : List Timer) (a : Thread) → Descending a.tmr_sid ts → Current ts a
past-Current [] a d = tt
past-Current (t ∷ ts) a (h, d) = λ e. absurd (omega arith)

pub past-Timed : (ts : List Timer) (a : Thread) → Descending a.tmr_sid ts → Timed ts a
past-Timed ts a d = (weaken a.tmr_sid (suc a.tmr_sid) ts (omega arith) d, past-Current ts a d)

abbrev pub PickedBelow : ℕ → Option (Timer × List Timer) → Type 0
PickedBelow m none = Unit
PickedBelow m (some (t, rest)) = (t.sid < m) × Descending m rest

pub pick-below : (n m : ℕ) (ts : List Timer) → Descending m ts → PickedBelow m (pick n ts)
pick-below n m [] d = tt
pick-below zero m (t ∷ ts) (h, d) = (h, weaken t.sid m ts (omega arith) d)
pick-below (suc n) m (t ∷ ts) (h, d) = elim (Option-cases (pick n ts)) [
  | inl e ↦ rw e tt
  | inr ((u, rest), e) ↦
      let (l, d') : PickedBelow t.sid (some (u, rest)) =
        subst (PickedBelow t.sid) e (pick-below n t.sid ts d) in
      rw e (omega arith, (h, d'))
]

abbrev pub Picked : Thread → Option (Timer × List Timer) → Type 0
Picked a none = Unit
Picked a (some (t, rest)) =
    Timed rest a × (t.sid ≡ a.tmr_sid → (awaits t a ≡ true) × Descending a.tmr_sid rest)

pub pick-Picked : (n : ℕ) (ts : List Timer) (a : Thread) → Timed ts a → Picked a (pick n ts)
pick-Picked n [] a d = tt
pick-Picked zero (t ∷ ts) a ((h, d), c) = (
  past-Timed ts a (weaken t.sid a.tmr_sid ts (omega arith) d),
  λ e. (c e, subst (λ x. Descending x ts) e d),
)
pick-Picked (suc n) (t ∷ ts) a ((h, d), c) = elim (Option-cases (pick n ts)) [
  | inl e ↦ rw e tt
  | inr ((u, rest), e) ↦
      let (l, d') : PickedBelow t.sid (some (u, rest)) =
        subst (PickedBelow t.sid) e (pick-below n t.sid ts d) in
      rw e (((h, d'), c), λ f. absurd (omega arith))
]

-- The actor keeps the promise `p` of a call.
abbrev pub OnCall : ℕ → Thread → Type 0
OnCall p a =
    (a.recv_p ≡ some p) × (a.res_p ≡ none)
    ⊎ (a.recv_p ≡ none) × (a.res_p ≡ some p) × (response_ok a.recving_res ≡ true)

abbrev pub Idle : Thread → Type 0
Idle a = (a.recv_p ≡ none) × (a.res_p ≡ none)

pub Idle-past : (ts : List Timer) (a : Thread) → Idle a → Timed ts a → Descending a.tmr_sid ts
Idle-past [] a i d = tt
Idle-past (t ∷ ts) a (r, s) ((h, d), c) = (earlier t a c h, d)
  where
    stale : (k : TimerKind) (p : ℕ) → awaits_kind k p a ≡ false
    stale recv_timer p = rw r refl
    stale res_timer p = rw s refl

    earlier :
        (t : Timer) (a' : Thread)
        → (t.sid ≡ a.tmr_sid → awaits t a ≡ true)
        → t.sid < suc a.tmr_sid
        → t.sid < a.tmr_sid
    earlier t a' c h = elim (Bool-cases (t.sid == a.tmr_sid)) [
      | inl e ↦ let f = c (ground arith) in let g = stale t.kind t.promise in absurd cc
      | inr e ↦ ground arith
    ]
