-- ===== src/ThreadMapped/Tests.antt =====
-- A thread that waits for a message with a deadline, is answered by a message, and meets the timer that was
-- cancelled too late; then it waits for a response until its timer ends.
use gce.Prelude.{ℕ, ◌≡◌, ◌<◌, ◌^◌, refl, List, [], ◌∷◌, ◌++◌, some, arith, length}
use gce.Ids.{ActorId, new_aid}
use gce.CachePool.{new_pool}
use gce.Message.{Response, Tag, Pack, new_message, new_response}
use gce.Mailbox.Invariant.{Inv}
use gce.Mailbox.Refines.{new_mailbox-Inv}
use gce.BasicActor.{BasicActor, new_actor, WriteExit, nil_pack}
use gce.ThreadMapped.{bounded, endless}
use gce.ThreadMapped.World.{
  Event, calls_recv, calls_response, fires, arrives, World, new_world, world_run,
}
use gce.ThreadMapped.Sane.{Waits}
use gce.ThreadMapped.Answers.{AllFair, world_run-answers}

abbrev worker : BasicActor
worker = new_actor new_pool 4 1 2 0 100

abbrev greeting : Pack
greeting = record nil_pack {
  tag = Tag.from_aid (new_aid 1 2 300 0);
  recver = new_aid 1 2 100 0;
  msg = new_message 7;
}

abbrev at_address : ℕ → ActorId
at_address a = new_aid 1 2 a 0

abbrev write_plain : WriteExit
write_plain ec text m = record m { body = ec ∷ (text ++ m.body) }

abbrev asked : Response
asked = new_response 3 (new_aid 1 2 100 0)

abbrev happenings : List Event
happenings =
    calls_recv (7 ∷ []) bounded
    ∷ arrives greeting
    ∷ fires 0
    ∷ calls_response asked bounded
    ∷ fires 0
    ∷ calls_recv [] endless
    ∷ []

worker-Inv : Inv worker.mb
unfolding new_actor
worker-Inv = new_mailbox-Inv 4

happenings-AllFair : AllFair worker happenings
happenings-AllFair = (tt, (tt, (tt, (refl, (tt, (tt, tt))))))

few_happenings : length happenings < 2 ^ 64
few_happenings = omega arith

world_run-answers_example :
    (w : World) × (world_run write_plain at_address happenings (new_world worker) ≡ some w)
    × Waits w.thread w.calls w.answers
world_run-answers_example =
    world_run-answers write_plain at_address happenings worker worker-Inv few_happenings
      happenings-AllFair
