-- ===== src/Mailbox/Tests.antt =====
-- Runs of the mailbox, and its theorems at concrete mailboxes.
use gce.Prelude.{ℕ, ◌≡◌, refl, List, ◌∷◌, [], some, none}
use gce.Key.{eqv}
use gce.OrdMap.{find}
use gce.Ids.{ActorId, new_aid, aid_lt}
use gce.Atom.{exit_type}
use gce.Message.{Message, Exit, Recv, new_message, new_response}
use gce.Mailbox.{new_mailbox}
use gce.Mailbox.Inbox.{key_of, same, drop_exit, arrive, take_type, take_any, take_match, exit_of}
use gce.Mailbox.Pop.{sender_of}
use gce.Mailbox.Calls.{
  Call, pushes, pushes_exit, pops, pops_response, Reply, done, received, answered, run, exited,
  spec_step, spec_run, empty,
}
use gce.Mailbox.Refines.{run_refines}

abbrev alice : ActorId
alice = new_aid 1 2 3 4

abbrev bob : ActorId
bob = new_aid 1 2 5 6

abbrev hello : Message
hello = new_message 7

abbrev last_words : ℕ → Message
last_words n = record { type = exit_type; tag_offset = 0; body = n ∷ [] }

abbrev gone : ℕ → Exit
gone code = record { code = code; aid = alice }

-- Two exits of one actor: the second one stays, behind the message that came between them.
abbrev script : List Call
script =
    pushes_exit (gone 1) (last_words 1)
    ∷ pushes bob hello
    ∷ pushes_exit (gone 2) (last_words 2)
    ∷ pops_response (record (new_response 9 bob) { recver = alice })
    ∷ pops (8 ∷ [])
    ∷ pops []
    ∷ pops []
    ∷ pops []
    ∷ []

abbrev replies : List Reply
replies =
    done
    ∷ done
    ∷ done
    ∷ answered (some (new_response 9 alice, last_words 2))
    ∷ received none
    ∷ received (some (Recv.from_aid bob, hello))
    ∷ received (some (Recv.exit (gone 2), last_words 2))
    ∷ received none
    ∷ []

spec_script : spec_run script empty ≡ replies
unfolding spec_run exited arrive drop_exit key_of same sender_of eqv take_any take_match take_type
    exit_of exit_type spec_step aid_lt find
spec_script = refl

run_refines_example : run script (new_mailbox 4) ≡ some (spec_run script empty)
run_refines_example = run_refines 4 script
