-- ===== src/CachePool/Runs.antt =====
-- No history of calls on a new pool is undefined behaviour.
use gce.Prelude.{
  ℕ, ◌≡◌, refl, List, [], ◌∷◌, Option, none, some, arith, Bool-cases, inl, inr, ◌>>=◌,
}
use gce.Ids.{ActorId, aid_ok}
use gce.OrdMap.{find}
use gce.CachePool.{
  CachePool, SocketType, socket_comm, socket_router, socket_joint, no_conns, new_pool,
  register_service, deregister_service, register_socket, deregister_socket, stop, add_socket,
  remove_socket, add_acceptor, remove_acceptor,
}
use gce.CachePool.Sockets.{
  select_straight_socket, select_joint_socket, select_router, select_socket, or_kept,
}
use gce.CachePool.Valid.{ValidConns, register_in-ValidConns, deregister_in-ValidConns}
use gce.CachePool.Select.{Selects, next_list-Selects, select_in-Selects}

pub record ValidPool (p : CachePool) : Type 0 where
  pub conns : ValidConns p.conns
  pub joints : ValidConns p.joints
  pub routers : ValidConns p.routers

no_conns-ValidConns : ValidConns no_conns
no_conns-ValidConns = record {
  distinct = tt;
  cursor = refl;
  lists = λ k l e. absurd (unfold find in cc e);
}

pub new_pool-ValidPool : ValidPool new_pool
unfolding new_pool
new_pool-ValidPool = record {
  conns = no_conns-ValidConns;
  joints = no_conns-ValidConns;
  routers = no_conns-ValidConns;
}

straight-Selects :
    (ctxid : ℕ) (p : CachePool) → ValidPool p → Selects ValidPool (select_straight_socket ctxid p)
unfolding select_straight_socket
straight-Selects ctxid p v =
    let (skt, target, c, e, w) = select_in-Selects ctxid p.conns v.conns in
    (
      skt,
      target,
      record p { conns = c },
      rw (e, ◌>>=◌),
      record { conns = w; joints = v.joints; routers = v.routers },
    )

joint-Selects :
    (ctxid : ℕ) (p : CachePool) → ValidPool p → Selects ValidPool (select_joint_socket ctxid p)
unfolding select_joint_socket
joint-Selects ctxid p v =
    let (skt, target, c, e, w) = select_in-Selects ctxid p.joints v.joints in
    (
      skt,
      target,
      record p { joints = c },
      rw (e, ◌>>=◌),
      record { conns = v.conns; joints = w; routers = v.routers },
    )

router-Selects : (p : CachePool) → ValidPool p → Selects ValidPool (select_router p)
unfolding select_router
router-Selects p v =
    let (skt, target, c, e, w) = next_list-Selects p.routers v.routers in
    (
      skt,
      target,
      record p { routers = c },
      rw (e, ◌>>=◌),
      record { conns = v.conns; joints = v.joints; routers = w },
    )

-- In a valid pool `select_socket` is free of undefined behaviour, whatever the context it is asked for,
-- and it leaves a valid pool.
select_socket-Selects :
    (ctxid : ℕ) (p : CachePool) → ValidPool p → Selects ValidPool (select_socket ctxid p)
unfolding select_socket
select_socket-Selects ctxid p v =
    let (skt, target, q, e, w) = straight-Selects ctxid p v in
    elim (Bool-cases (aid_ok skt)) [
      | inl ok ↦ (skt, target, q, rw (e, ◌>>=◌, ok), w)
      | inr fail ↦
          let (skt', target', r, e', w') = router-Selects q w in
          (skt', or_kept target' target, r, rw (e, ◌>>=◌, fail, e', ◌>>=◌), w')
    ]

pub data PoolCall : Type 0 where
  registers : ℕ × SocketType → ActorId → PoolCall
  deregisters : ℕ × SocketType → ActorId → PoolCall
  selects : ℕ → PoolCall
  selects_joint : ℕ → PoolCall
  registers_service : ℕ → ActorId → PoolCall
  deregisters_service : ℕ → ActorId → PoolCall
  adds_socket : ℕ → PoolCall
  removes_socket : ℕ → PoolCall
  adds_acceptor : ℕ → PoolCall
  removes_acceptor : ℕ → PoolCall
  stops : PoolCall

abbrev pool_of : Option (ActorId × Option ℕ × CachePool) → Option CachePool
pool_of none = none
pool_of (some (skt, target, p)) = some p

unfoldable pub pool_step : PoolCall → CachePool → Option CachePool
pool_step (registers pr skt) p = some (register_socket pr skt p)
pool_step (deregisters pr skt) p = some (deregister_socket pr skt p)
pool_step (selects ctxid) p = pool_of (select_socket ctxid p)
pool_step (selects_joint ctxid) p = pool_of (select_joint_socket ctxid p)
pool_step (registers_service name svc) p = some (register_service name svc p)
pool_step (deregisters_service name svc) p = some (deregister_service name svc p)
pool_step (adds_socket s) p = some (add_socket s p)
pool_step (removes_socket s) p = some (remove_socket s p)
pool_step (adds_acceptor a) p = some (add_acceptor a p)
pool_step (removes_acceptor a) p = some (remove_acceptor a p)
pool_step stops p = some (stop p).1

unfoldable pub pool_run : List PoolCall → CachePool → Option CachePool
pool_run [] p = some p
pool_run (c ∷ cs) p = pool_step c p >>= pool_run cs

abbrev pub Runs : Option CachePool → Type 0
Runs out = (p : CachePool) × (out ≡ some p) × ValidPool p

register_socket-ValidPool :
    (pr : ℕ × SocketType) (skt : ActorId) (p : CachePool)
    → ValidPool p
    → ValidPool (register_socket pr skt p)
unfolding register_socket
register_socket-ValidPool (ctxid, socket_comm) skt p v = record {
  conns = register_in-ValidConns ctxid skt p.conns v.conns;
  joints = v.joints;
  routers = v.routers;
}
register_socket-ValidPool (ctxid, socket_router) skt p v = record {
  conns = v.conns;
  joints = v.joints;
  routers = register_in-ValidConns ctxid skt p.routers v.routers;
}
register_socket-ValidPool (ctxid, socket_joint) skt p v = record {
  conns = v.conns;
  joints = register_in-ValidConns ctxid skt p.joints v.joints;
  routers = v.routers;
}

deregister_socket-ValidPool :
    (pr : ℕ × SocketType) (skt : ActorId) (p : CachePool)
    → ValidPool p
    → ValidPool (deregister_socket pr skt p)
unfolding deregister_socket
deregister_socket-ValidPool (ctxid, socket_comm) skt p v = record {
  conns = deregister_in-ValidConns ctxid skt p.conns v.conns;
  joints = v.joints;
  routers = v.routers;
}
deregister_socket-ValidPool (ctxid, socket_router) skt p v = record {
  conns = v.conns;
  joints = v.joints;
  routers = deregister_in-ValidConns ctxid skt p.routers v.routers;
}
deregister_socket-ValidPool (ctxid, socket_joint) skt p v = record {
  conns = v.conns;
  joints = deregister_in-ValidConns ctxid skt p.joints v.joints;
  routers = v.routers;
}

-- The other operations leave the lists of connections alone.
same-ValidPool :
    (p q : CachePool)
    → ValidPool p
    → q.conns ≡ p.conns
    → q.joints ≡ p.joints
    → q.routers ≡ p.routers
    → ValidPool q
same-ValidPool p q v a b c = record {
  conns = rw a v.conns;
  joints = rw b v.joints;
  routers = rw c v.routers;
}

pool_step-Runs : (c : PoolCall) (p : CachePool) → ValidPool p → Runs (pool_step c p)
unfolding pool_step register_service deregister_service add_socket remove_socket add_acceptor
    remove_acceptor stop
pool_step-Runs (registers pr skt) p v = (_, refl, register_socket-ValidPool pr skt p v)
pool_step-Runs (deregisters pr skt) p v = (_, refl, deregister_socket-ValidPool pr skt p v)
pool_step-Runs (selects ctxid) p v =
    let (_, _, q, e, w) = select_socket-Selects ctxid p v in (q, rw e, w)
pool_step-Runs (selects_joint ctxid) p v =
    let (_, _, q, e, w) = joint-Selects ctxid p v in (q, rw e, w)
pool_step-Runs (registers_service name svc) p v = (_, refl, same-ValidPool p _ v refl refl refl)
pool_step-Runs (deregisters_service name svc) p v = (
  deregister_service name svc p,
  refl,
  same-ValidPool p _ v (ground arith) (ground arith) (ground arith),
)
pool_step-Runs (adds_socket s) p v = (_, refl, same-ValidPool p _ v refl refl refl)
pool_step-Runs (removes_socket s) p v = (_, refl, same-ValidPool p _ v refl refl refl)
pool_step-Runs (adds_acceptor a) p v = (_, refl, same-ValidPool p _ v refl refl refl)
pool_step-Runs (removes_acceptor a) p v = (_, refl, same-ValidPool p _ v refl refl refl)
pool_step-Runs stops p v = (_, refl, same-ValidPool p _ v refl refl refl)

run_from : (cs : List PoolCall) (p : CachePool) → ValidPool p → Runs (pool_run cs p)
unfolding pool_run
run_from [] p v = (p, refl, v)
run_from (c ∷ cs) p v =
    let (q, e, w) = pool_step-Runs c p v in
    let (r, e', w') = run_from cs q w in (r, rw (e, ◌>>=◌) e', w')

-- Whatever calls are made of a new pool, none of them is undefined behaviour, and they leave a valid
-- pool: no key twice in a list, and no iterator that points to nothing in a list that has elements.
pub pool_run-new_pool : (cs : List PoolCall) → Runs (pool_run cs new_pool)
pool_run-new_pool cs = run_from cs new_pool new_pool-ValidPool
