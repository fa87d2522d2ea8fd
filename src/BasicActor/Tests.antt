-- ===== src/BasicActor/Tests.antt =====
-- The exit of an actor that has linked and unlinked others.
use gce.Prelude.{◌≡◌, refl, false, List, [], ◌∷◌, ◌++◌, some}
use gce.Ids.{ActorId, new_aid, nil_aid}
use gce.CachePool.{new_pool}
use gce.BasicActor.{BasicActor, new_actor, WriteExit, Sent}
use gce.BasicActor.Sends.{send_exit}
use gce.BasicActor.Links.{
  LinkCall, adds, removes, link_run, CallsRouted, told, linked_after, send_exit-told,
}

abbrev leaver : BasicActor
leaver = new_actor new_pool 4 1 2 0 100

abbrev near : ActorId
near = new_aid 1 2 300 0

-- A remote actor, behind a local socket.
abbrev remote : ActorId
remote = new_aid 9 2 300 0

abbrev socket : ActorId
socket = new_aid 1 2 400 0

abbrev changes : List LinkCall
changes = adds near nil_aid ∷ adds remote socket ∷ removes near ∷ []

abbrev write_last : WriteExit
write_last ec text m = record m { body = ec ∷ (text ++ m.body) }

no_links : leaver.link_list ≡ []
unfolding new_actor
no_links = refl

changes-Routed : CallsRouted changes leaver
unfolding new_actor
changes-Routed = (
  record { ctxid = refl; timestamp = refl; ok = refl },
  (record { ctxid = refl; timestamp = refl; ok = refl }, tt),
)

send_exit-told_example :
    (sent : List Sent) × (send_exit write_last leaver.aid 3 [] (link_run changes leaver)
      ≡ some (sent, link_run changes leaver))
    × ((j : ActorId) → told j sent ≡ linked_after j changes false)
send_exit-told_example =
    send_exit-told write_last leaver.aid 3 [] changes leaver no_links changes-Routed
