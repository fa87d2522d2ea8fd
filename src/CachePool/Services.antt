-- ===== src/CachePool/Services.antt =====
-- The services of a pool: a name belongs to the first that registers it, until that one deregisters it.
use gce.Prelude.{
  ℕ, ◌≡◌, refl, ap, ◌∙◌, List, [], ◌∷◌, Option, none, some, arith, if◌then◌else◌, option_or,
  Option-cases, Bool-cases, inl, inr, true,
}
use gce.Key.{eqv, nat_key}
use gce.OrdMap.{find, find-insert, find-erase}
use gce.Ids.{ActorId, nil_aid, aid_eq}
use gce.CachePool.{CachePool, register_service, deregister_service, find_service, new_pool}

pub data ServiceCall : Type 0 where
  claims : ℕ → ActorId → ServiceCall
  yields : ℕ → ActorId → ServiceCall

unfoldable pub service_run : List ServiceCall → CachePool → CachePool
service_run [] p = p
service_run (claims name svc ∷ cs) p = service_run cs (register_service name svc p)
service_run (yields name svc ∷ cs) p = service_run cs (deregister_service name svc p)

-- Who has the name, by the calls alone.
abbrev claimed : ActorId → Option ActorId → Option ActorId
claimed svc none = some svc
claimed svc (some known) = some known

abbrev yielded : ActorId → Option ActorId → Option ActorId
yielded svc none = none
yielded svc (some known) = if aid_eq known svc then none else some known

abbrev pub owner_after : ℕ → List ServiceCall → Option ActorId → Option ActorId
owner_after j [] owner = owner
owner_after j (claims name svc ∷ cs) owner =
    owner_after j cs (if eqv name j then claimed svc owner else owner)
owner_after j (yields name svc ∷ cs) owner =
    owner_after j cs (if eqv name j then yielded svc owner else owner)

same_name :
    (name j : ℕ) (p : CachePool)
    → eqv name j ≡ true
    → find name p.service_list ≡ find j p.service_list
same_name name j p e =
    let same : name ≡ j = unfold eqv in ground arith in ap (λ z. find z p.service_list) same

register-claimed :
    (name j : ℕ) (svc : ActorId) (p : CachePool)
    → find j (register_service name svc p).service_list
      ≡ (if eqv name j then claimed svc (find j p.service_list) else find j p.service_list)
unfolding register_service
register-claimed name j svc p =
    rw (find-insert j name svc p.service_list) (ground (arith, same_name name j p))

deregister-yielded :
    (name j : ℕ) (svc : ActorId) (p : CachePool)
    → find j (deregister_service name svc p).service_list
      ≡ (if eqv name j then yielded svc (find j p.service_list) else find j p.service_list)
unfolding deregister_service
deregister-yielded name j svc p = elim (Option-cases (find name p.service_list)) [
  | inl n ↦ rw (n, deregister_service) (ground (arith, same_name name j p))
  | inr (known, n) ↦ elim (Bool-cases (aid_eq known svc)) [
    | inl t ↦
        rw (n, deregister_service, t, if◌then◌else◌, find-erase j name p.service_list)
          (ground (arith, same_name name j p))
    | inr f ↦ rw (n, deregister_service, f) (ground (arith, same_name name j p))
  ]
]

run-owner :
    (j : ℕ) (cs : List ServiceCall) (p : CachePool)
    → find j (service_run cs p).service_list ≡ owner_after j cs (find j p.service_list)
unfolding service_run
run-owner j [] p = refl
run-owner j (claims name svc ∷ cs) p =
    run-owner j cs (register_service name svc p)
    ∙ ap (owner_after j cs) (register-claimed name j svc p)
run-owner j (yields name svc ∷ cs) p =
    run-owner j cs (deregister_service name svc p)
    ∙ ap (owner_after j cs) (deregister-yielded name j svc p)

-- After any registrations and deregistrations in a new pool, `find_service` gives the actor that owns
-- the name by the calls alone, the first that registered it since it was last free, where only its
-- owner frees a name, and a null id for a name that is free.
pub find_service-owner :
    (name : ℕ) (cs : List ServiceCall)
    → find_service name (service_run cs new_pool) ≡ option_or (owner_after name cs none) nil_aid
unfolding find_service new_pool find
find_service-owner name cs = ap (λ o. option_or o nil_aid) (run-owner name cs new_pool)
