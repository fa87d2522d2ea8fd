-- ===== src/Stackful/Tests.antt =====
-- A coroutine that waits for a message with a deadline, and gets one.
use gce.Prelude.{ℕ, ◌≡◌, refl, ◌&&◌, true, false, [], ◌∷◌, ◌++◌}
use gce.Ids.{ActorId, new_aid}
use gce.CachePool.{new_pool}
use gce.Message.{Tag, Pack, new_message, nil_message}
use gce.BasicActor.{new_actor, WriteExit, nil_pack}
use gce.Stackful.{Stackful, new_stackful}
use gce.Stackful.Steps.{view, SameAs}
use gce.Stackful.Same.{arrives, proceed, proceed_mapped, proceed-SameAs}

abbrev waiting : Stackful
waiting = record (new_stackful (new_actor new_pool 4 1 2 0 100)) {
  recving = true;
  curr_match = 7 ∷ [];
  tmr_sid = 1;
}

abbrev write_short : WriteExit
write_short ec text m = record m { body = ec ∷ (text ++ m.body) }

abbrev held_address : ℕ → ActorId
held_address a = new_aid 1 2 a 0

abbrev parcel : Pack
parcel = record nil_pack {
  tag = Tag.from_aid (new_aid 1 2 300 0);
  recver = new_aid 1 2 100 0;
  msg = new_message 7;
}

one_call : waiting.recving && waiting.responsing ≡ false
unfolding new_stackful
one_call = refl

proceed-SameAs_example :
    SameAs nil_message
      (proceed write_short held_address (arrives parcel) waiting)
      (proceed_mapped write_short held_address waiting.recving (arrives parcel) (view waiting))
proceed-SameAs_example =
    proceed-SameAs write_short held_address nil_message (arrives parcel) waiting one_call tt refl
