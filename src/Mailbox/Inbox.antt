-- ===== src/Mailbox/Inbox.antt =====
-- What a mailbox promises: one sequence of messages in the order of their arrival, in which an exit
-- message replaces the earlier one of the same sender.
use gce.Prelude.{
  ℕ, ◌≡◌, refl, Bool, true, false, ◌&&◌, List, [], ◌∷◌, ◌++◌, Option, none, some, arith, ◌==◌,
  if◌then◌else◌,
}
use mathlib.Core.Option
use gce.Key.{eqv, eqv_symm, eqv_trans}
use gce.Ids.{ActorId, ServiceId, aid_ok, svc_ok}
use gce.Ids.Order.{aid_key, svc_key}
use gce.Atom.{exit_type}
use gce.Message.{Message, Recv}
use gce.Mailbox.Pop.{sender_of}

abbrev pub Entry : Type 0
Entry = Recv × Message

-- Of whom a message tells that it has exited: of a service, of an actor, of nobody.
pub data ExitKey : Type 0 where
  nobody : ExitKey
  actor : ActorId → ExitKey
  service : ServiceId → ExitKey

unfoldable pub key_of : Recv → Message → ExitKey
key_of src msg =
    let sender = sender_of src in
    if aid_ok sender && msg.type == exit_type
    then (if svc_ok sender.svc then service sender.svc else actor sender)
    else nobody

unfoldable pub same : ExitKey → ExitKey → Bool
same nobody k = false
same (actor a) nobody = false
same (actor a) (actor b) = eqv a b
same (actor a) (service t) = false
same (service s) nobody = false
same (service s) (actor b) = false
same (service s) (service t) = eqv s t

pub same_symm : (j k : ExitKey) → same j k ≡ same k j
unfolding same
same_symm nobody nobody = refl
same_symm nobody (actor b) = refl
same_symm nobody (service t) = refl
same_symm (actor a) nobody = refl
same_symm (actor a) (actor b) = eqv_symm a b
same_symm (actor a) (service t) = refl
same_symm (service s) nobody = refl
same_symm (service s) (actor b) = refl
same_symm (service s) (service t) = eqv_symm s t

pub same_trans : (i j k : ExitKey) → same i j ≡ true → same j k ≡ true → same i k ≡ true
unfolding same
same_trans (actor a) (actor b) (actor c) = eqv_trans a b c
same_trans (service s) (service t) (service u) = eqv_trans s t u
same_trans _ _ _ = λ p q. cc

pub same_congr : (i j k : ExitKey) → same i j ≡ true → same i k ≡ same j k
same_congr i j k h = ground (arith, same_trans i j k, same_trans j i k, same_symm i j)

-- The sequence without its first exit message of `k`.
unfoldable pub drop_exit : ExitKey → List Entry → List Entry
drop_exit k [] = []
drop_exit k ((src, msg) ∷ q) = if same (key_of src msg) k then q else (src, msg) ∷ drop_exit k q

-- A message arrives.
unfoldable pub arrive : Recv → Message → List Entry → List Entry
arrive src msg q = drop_exit (key_of src msg) q ++ ((src, msg) ∷ [])

-- The first message of a type, and the others.
unfoldable pub take_type : ℕ → List Entry → Option (Entry × List Entry)
take_type t [] = none
take_type t ((src, msg) ∷ q) =
    let rest = Option.map (λ (f : Entry × List Entry). (f.0, (src, msg) ∷ f.1)) (take_type t q) in
    if msg.type == t then some ((src, msg), q) else rest

-- The first type of the list that has a message decides.
unfoldable pub take_any : List ℕ → List Entry → Option Entry × List Entry
take_any [] q = (none, q)
take_any (t ∷ ts) q = elim (take_type t q) [ some (e, r) ↦ (some e, r) | none ↦ take_any ts q ]

-- An empty list asks for the oldest message of all.
unfoldable pub take_match : List ℕ → List Entry → Option Entry × List Entry
take_match [] [] = (none, [])
take_match [] (e ∷ q) = (some e, q)
take_match (t ∷ ts) q = take_any (t ∷ ts) q

-- The exit message of `k`.
unfoldable pub exit_of : ExitKey → List Entry → Option Entry
exit_of k [] = none
exit_of k ((src, msg) ∷ q) = if same (key_of src msg) k then some (src, msg) else exit_of k q
