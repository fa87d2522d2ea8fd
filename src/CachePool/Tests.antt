-- ===== src/CachePool/Tests.antt =====
-- A pool with two sockets to one context and a router.
use gce.Prelude.{option_or, ◌≡◌, refl, ◌++◌, List, [], ◌∷◌, none, some}
use gce.Key.{eqv, nat_key}
use gce.OrdMap.{find}
use gce.Ids.{ActorId, new_aid, nil_aid, aid_lt}
use gce.Ids.Order.{aid_key}
use gce.CachePool.{SocketList, socket_comm, socket_router, new_pool}
use gce.CachePool.Sockets.{take_turn}
use gce.CachePool.Valid.{ValidList}
use gce.CachePool.Select.{take_turn-ring, skts}
use gce.CachePool.{find_service}
use gce.CachePool.Services.{
  ServiceCall, claims, yields, service_run, owner_after, find_service-owner,
}
use gce.CachePool.Runs.{
  PoolCall, registers, deregisters, selects, pool_run, pool_run-new_pool, Runs,
}

abbrev left_skt : ActorId
left_skt = new_aid 1 2 10 0

abbrev right_skt : ActorId
right_skt = new_aid 1 2 20 0

abbrev pair : SocketList
pair = record { skt_list = (left_skt, tt) ∷ (right_skt, tt) ∷ []; curr_skt = some right_skt }

pair-ValidList : ValidList pair
unfolding eqv aid_lt find
pair-ValidList = record { distinct = (refl, (refl, tt)); cursor = refl }

take_turn-ring_example :
    (skt : ActorId) × (rest : List ActorId) × (l' : SocketList) × (take_turn pair ≡ some (skt, l'))
    × (skts pair ≡ skt ∷ rest)
    × (skts l' ≡ rest ++ (skt ∷ []))
    × (l'.skt_list ≡ pair.skt_list)
    × ValidList l'
take_turn-ring_example = take_turn-ring pair pair-ValidList refl

abbrev use_script : List PoolCall
use_script =
    registers (3, socket_comm) left_skt
    ∷ registers (3, socket_comm) right_skt
    ∷ selects 3
    ∷ deregisters (3, socket_comm) left_skt
    ∷ registers (4, socket_router) left_skt
    ∷ selects 8
    ∷ []

pool_run-new_pool_example : Runs (pool_run use_script new_pool)
pool_run-new_pool_example = pool_run-new_pool use_script

abbrev names : List ServiceCall
names =
    claims 7 left_skt
    ∷ claims 7 right_skt
    ∷ yields 7 right_skt
    ∷ claims 8 right_skt
    ∷ yields 8 right_skt
    ∷ []

find_service-owner_example :
    find_service 7 (service_run names new_pool) ≡ option_or (owner_after 7 names none) nil_aid
find_service-owner_example = find_service-owner 7 names
