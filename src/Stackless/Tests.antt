-- ===== src/Stackless/Tests.antt =====
-- A stackless actor that waits and gets a request, and one that has quit and gets a request.
use gce.Prelude.{ℕ, ◌≡◌, ◌<◌, ◌^◌, refl, List, [], ◌∷◌, ◌++◌, some, arith, map}
use gce.Ids.{ActorId, new_aid}
use gce.CachePool.{new_pool}
use gce.Message.{Tag, Pack, new_message}
use gce.BasicActor.{new_actor, WriteExit, Sent, nil_pack, update_aid}
use gce.BasicActor.Filing.{Answerable}
use gce.Stackless.{Stackless, new_stackless, sends, handle_recv, quit}
use gce.Stackless.Steps.{view, SameAs}
use gce.Stackless.Same.{arrives, react, react_mapped, react-SameAs}
use gce.Stackless.Quit.{quit-refuses}

abbrev fresh : Stackless
fresh = new_stackless (new_actor new_pool 4 1 2 0 100)

abbrev write_brief : WriteExit
write_brief ec text m = record m { body = ec ∷ (text ++ m.body) }

abbrev same_address : ℕ → ActorId
same_address a = new_aid 1 2 a 0

abbrev next_address : ℕ → ActorId
next_address a = new_aid 1 2 a 1

-- Handler 5 waits for a message of type 7.
abbrev waiting : Stackless
waiting = record fresh { recv_h = some 5; curr_match = 7 ∷ []; tmr_sid = 1 }

abbrev plea : Pack
plea = record nil_pack {
  tag = Tag.request (record { id = 3; aid = new_aid 1 2 300 0 });
  recver = new_aid 1 2 100 0;
  msg = new_message 7;
}

own_context : waiting.base.aid.ctxid ≡ waiting.base.ctxid
unfolding new_stackless new_actor
own_context = refl

react-SameAs_example :
    SameAs
      (react write_brief same_address (arrives plea) waiting)
      (react_mapped write_brief same_address (arrives plea) (view waiting))
react-SameAs_example = react-SameAs write_brief same_address (arrives plea) waiting own_context tt

fresh_sid : fresh.base.aid.sid < 2 ^ 32
unfolding new_stackless new_actor
fresh_sid = omega arith

moved_on : next_address fresh.base.aid.uintptr ≡ (quit 0 [] fresh).1.base.aid
unfolding quit update_aid new_stackless new_actor
moved_on = refl

to_fresh : plea.recver ≡ fresh.base.aid
unfolding new_stackless new_actor
to_fresh = refl

plea-Answerable : Answerable plea.tag (quit 0 [] fresh).1.base
unfolding quit update_aid new_stackless new_actor
plea-Answerable = record { ctxid = refl; timestamp = refl; ok = refl }

quit-refuses_example :
    (sent : List Sent) × (handle_recv write_brief next_address 2 plea (quit 0 [] fresh).1
      ≡ some (map sends sent, (quit 0 [] fresh).1))
quit-refuses_example =
    quit-refuses write_brief next_address 2 0 [] plea fresh fresh_sid moved_on to_fresh
      plea-Answerable
