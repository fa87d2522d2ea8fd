-- ===== src/ThreadMapped/Compare.antt =====
-- What it is for another actor to receive as a thread-mapped one does.
use gce.Prelude.{ℕ, ◌≡◌, Bool, true, false, List, [], ◌∷◌, Option, none, some, if◌then◌else◌, ◌>>=◌}
use gce.Ids.{ActorId}
use gce.Message.{Message, Request}
use gce.Mailbox.{Mailbox}
use gce.BasicActor.{Sent}
use gce.BasicActor.Receive.{sender_and_request}
use gce.ThreadMapped.{
  Thread, Value, received, answered, Output, sets, starts, cancels, sends, Outputs,
}

-- What a `recv` returns.
abbrev pub Given : Type 0
Given = (ActorId × Option Request) × Message

abbrev pub returned : Value → Given
returned (received rcv msg) = (sender_and_request rcv, msg)
returned (answered res msg) = ((res.aid, none), msg)

-- What an actor does to others: an answer to a call of `recv`, a timer, a pack.
pub data Said : Type 0 where
  answers : ℕ → Given → Said
  begins : ℕ → ℕ → Said
  gives : Sent → Said

-- `see` is what the other actor has of what is returned.
abbrev pub said_mapped : (Given → Given) → List Output → List Said
said_mapped see [] = []
said_mapped see (sets p v ∷ outs) = answers p (see (returned v)) ∷ said_mapped see outs
said_mapped see (starts t ∷ outs) = begins t.promise t.sid ∷ said_mapped see outs
said_mapped see (sends s ∷ outs) = gives s ∷ said_mapped see outs
said_mapped see (cancels ∷ outs) = said_mapped see outs

module _ {O S : Type 0} (see : Given → Given) (said : List O → List Said) (view : S → Thread) where
  -- Both fail, or both do the same to others and to themselves.
  abbrev pub Alike : Option (List O × S) → Outputs → Type 0
  Alike none none = Unit
  Alike none (some _) = ⊥
  Alike (some _) none = ⊥
  Alike (some (outs, s)) (some (outs', a)) = (said outs ≡ said_mapped see outs') × (view s ≡ a)

  -- Both machines take from the mailbox, and go on with what they found or without.
  pub popped-Alike :
      {X : Type 0} (out : Option (Option X × Mailbox)) (without : Mailbox → List O × S)
      (found : X → Mailbox → List O × S) (without' : Mailbox → List Output × Thread)
      (found' : X → Mailbox → List Output × Thread)
      → ((mb : Mailbox) → Alike (some (without mb)) (some (without' mb)))
      → ((x : X) (mb : Mailbox) → Alike (some (found x mb)) (some (found' x mb)))
      → Alike
          (do (o, mb) ← out; some (elim o [ none ↦ without mb | some x ↦ found x mb ]))
          (do (o, mb) ← out; some (elim o [ none ↦ without' mb | some x ↦ found' x mb ]))
  popped-Alike none w f w' f' same both = tt
  popped-Alike (some (none, mb)) w f w' f' same both = same mb
  popped-Alike (some (some x, mb)) w f w' f' same both = both x mb

  pub if-Alike :
      (b : Bool) (x : Option (List O × S)) (y : Outputs)
      → Alike x y
      → Alike (if b then x else none) (if b then y else none)
  if-Alike true x y h = h
  if-Alike false x y h = tt

  pub branch-Alike :
      (b c : Bool) (x y z : Option (List O × S)) (x' y' z' : Outputs)
      → Alike x x'
      → Alike y y'
      → Alike z z'
      → Alike (if b then x else if c then y else z) (if b then x' else if c then y' else z')
  branch-Alike true c x y z x' y' z' p q r = p
  branch-Alike false true x y z x' y' z' p q r = q
  branch-Alike false false x y z x' y' z' p q r = r
