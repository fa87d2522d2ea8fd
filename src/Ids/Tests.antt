-- ===== src/Ids/Tests.antt =====
-- Ids in their order: by context, then by address.
use gce.Prelude.{◌≡◌, refl, true, false}
use gce.Key.{eqv}
use gce.Ids.{ActorId, new_aid, aid_lt, aid_eq}
use gce.Ids.Order.{aid_lt_trans, aid_lt_cotrans, aid_key, eqv-aid_eq}

abbrev first : ActorId
first = new_aid 1 2 3 4

abbrev second : ActorId
second = new_aid 1 2 5 0

abbrev third : ActorId
third = new_aid 2 0 0 0

near_pair : aid_lt first second ≡ true
unfolding aid_lt
near_pair = refl

far_pair : aid_lt second third ≡ true
unfolding aid_lt
far_pair = refl

outer_pair : aid_lt first third ≡ true
unfolding aid_lt
outer_pair = refl

self_pair : aid_lt first first ≡ false
unfolding aid_lt
self_pair = refl

aid_lt_trans_example : aid_lt first third ≡ true
aid_lt_trans_example = aid_lt_trans first second third near_pair far_pair

aid_lt_cotrans_example : aid_lt first third ≡ true
aid_lt_cotrans_example = aid_lt_cotrans first first third outer_pair self_pair

eqv-aid_eq_example : eqv first second ≡ aid_eq first second
eqv-aid_eq_example = eqv-aid_eq first second
