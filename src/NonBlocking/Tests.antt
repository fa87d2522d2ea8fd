-- ===== src/NonBlocking/Tests.antt =====
-- Two actors of a context, 1.2, that talk.
use gce.Prelude.{ℕ, ◌≡◌, refl, ◌∷◌, ◌++◌, some, none, ◌==◌, if◌then◌else◌, false, ◌>>=◌}
use gce.OrdMap.{find}
use gce.Key.{nat_key}
use gce.Ids.Order.{aid_key}
use gce.Ids.{ActorId, new_aid, nil_aid, aid_eq}
use gce.Message.{Response, new_message, new_response}
use gce.Mailbox.{new_mailbox}
use gce.CachePool.{new_pool, socket_comm}
use gce.BasicActor.{BasicActor, new_actor, WriteExit, sync}
use gce.BasicActor.Requests.{Here, obituary}
use gce.BasicActor.Sends.{pri_request}
use gce.NonBlocking.{Reader, recv_response}
use gce.NonBlocking.Deliver.{Live, deliver, answer_of}
use gce.NonBlocking.Conversation.{
  converse, converse_exited, request-reply, request-exited, request-stale_run,
}

abbrev carol : BasicActor
carol = new_actor new_pool 4 1 2 0 100

abbrev dave : BasicActor
dave = new_actor new_pool 4 1 2 1 200

abbrev carol_aid : ActorId
carol_aid = new_aid 1 2 100 0

abbrev dave_aid : ActorId
dave_aid = new_aid 1 2 200 0

-- An id of the actor that was at the address of `dave` before.
abbrev ghost : ActorId
ghost = new_aid 1 2 200 7

-- An id of the run of the process before this one.
abbrev fossil : ActorId
fossil = new_aid 1 1 200 0

abbrev who : ℕ → ActorId
who p = if p == 100 then carol_aid else dave_aid

abbrev writes : WriteExit
writes ec text m = record m { body = ec ∷ (text ++ m.body) }

abbrev reads : Reader
reads = record { read_socket = λ m. ((3, socket_comm), nil_aid); read_service = λ m. (7, nil_aid) }

abbrev asks : Response
asks = new_response 5 nil_aid

carol-Live : Live who carol.aid carol
unfolding new_actor
carol-Live = record { here = record { ctxid = refl; timestamp = refl; ok = refl }; current = refl }

dave-Live : Live who dave.aid dave
unfolding new_actor
dave-Live = record { here = record { ctxid = refl; timestamp = refl; ok = refl }; current = refl }

same_ctxid : carol.ctxid ≡ dave.ctxid
unfolding new_actor
same_ctxid = refl

same_timestamp : carol.timestamp ≡ dave.timestamp
unfolding new_actor
same_timestamp = refl

nobody_waits : find carol.aid dave.mb.wait_reply_list ≡ none
unfolding new_actor new_mailbox find
nobody_waits = refl

nothing_came : find asks.id carol.mb.res_msg_list ≡ none
unfolding new_actor new_mailbox find
nothing_came = refl

ghost-Here : Here ghost carol
unfolding new_actor
ghost-Here = record { ctxid = refl; timestamp = refl; ok = refl }

ghost_dead : aid_eq (who ghost.uintptr) ghost ≡ false
unfolding aid_eq
ghost_dead = refl

fossil_ctxid : fossil.ctxid ≡ carol.ctxid
unfolding new_actor
fossil_ctxid = refl

fossil_old : (fossil.timestamp == carol.timestamp) ≡ false
unfolding new_actor
fossil_old = refl

request-reply_example :
    converse writes reads who asks (new_message 7) (new_message 8) sync (carol, dave)
    ≡ some (some (dave.aid, new_message 8))
request-reply_example =
    request-reply writes reads who asks (new_message 7) (new_message 8) sync carol dave same_ctxid
      same_timestamp carol-Live dave-Live nobody_waits nothing_came

request-exited_example :
    converse_exited writes reads who asks ghost (new_message 7) sync (carol, dave)
    ≡ some (some (ghost, obituary writes))
request-exited_example =
    request-exited writes reads who asks ghost (new_message 7) sync carol dave same_ctxid
      same_timestamp ghost-Here ghost_dead carol-Live nothing_came

request-stale_run_example :
    (do
      (sent, a1) ← pri_request writes asks fossil (new_message 7) sync carol
      (none_back, a2) ← deliver writes reads who sent a1
      answer_of (recv_response asks a2))
    ≡ some (some (fossil, obituary writes))
request-stale_run_example =
    request-stale_run writes reads who asks fossil (new_message 7) sync carol fossil_ctxid
      fossil_old carol-Live nothing_came
