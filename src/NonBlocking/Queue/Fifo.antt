-- ===== src/NonBlocking/Queue/Fifo.antt =====
-- What is sent to a polled actor reaches its handler, in the order in which it was sent, and no pointer
-- that the queues keep is to a pack that is gone.
use gce.Prelude.{
  ℕ, zero, suc, ◌+◌, ◌≤◌, ◌<◌, ◌≡◌, refl, sym, ap, subst, List, [], ◌∷◌, ◌++◌, Option, some, arith,
  length, get_or, replicate, ◌>>=◌,
}
use gce.Message.{Pack}
use gce.NonBlocking.Queue.{
  Queues, u64_nil, new_queue, new_queues, on_recv, pop_pack, release_pack, clear_gc,
}
use gce.NonBlocking.Queue.Trim.{ValidQueue}
use gce.NonBlocking.Queue.Invariant.{Pending, Inv, Room}
use gce.NonBlocking.Queue.Receive.{on_recv-Receives}
use gce.NonBlocking.Queue.Release.{
  seal, first_of, rest_of, pop_from-Pops, release_pack-Releases, clear_gc-Inv, no_garbage-none,
}

-- The steps of the threads: a pack is sent, the polling thread takes one, or it ends one `move_pack` and
-- starts the next.
pub data QueueCall : Type 0 where
  sends : Pack → QueueCall
  polls : QueueCall
  restarts : QueueCall

-- What is taken, as it was sent; `none` in the list for an empty queue.
unfoldable pub queue_run : List QueueCall → Queues → Option (List (Option Pack))
queue_run [] s = some []
queue_run (sends pk ∷ cs) s = on_recv pk s >>= queue_run cs
queue_run (polls ∷ cs) s = do
  (reply, t) ← pop_pack s
  replies ← queue_run cs t
  some (seal reply ∷ replies)
queue_run (restarts ∷ cs) s = do t ← release_pack s; queue_run cs (clear_gc t)

-- The same of a list of packs.
abbrev pub fifo_run : List QueueCall → List Pack → List (Option Pack)
fifo_run [] pks = []
fifo_run (sends pk ∷ cs) pks = fifo_run cs (pks ++ (pk ∷ []))
fifo_run (polls ∷ cs) pks = first_of pks ∷ fifo_run cs (rest_of pks)
fifo_run (restarts ∷ cs) pks = fifo_run cs pks

-- Every pack that is sent names one of that many queues.
abbrev pub SentIn : ℕ → List QueueCall → Type 0
SentIn n [] = Unit
SentIn n (sends pk ∷ cs) = (pk.cache_queue_index < n) × SentIn n cs
SentIn n (polls ∷ cs) = SentIn n cs
SentIn n (restarts ∷ cs) = SentIn n cs

Room-less : (n m : ℕ) (s : Queues) → m ≤ n → Room n s → Room m s
Room-less n m s l r i = let h = r i in omega arith

fifo_from :
    (cs : List QueueCall) (pks : List Pack) (s : Queues)
    → SentIn (length s.cache_queue_list) cs
    → Room (length cs) s
    → Inv s
    → Pending s.pack_queue pks s
    → queue_run cs s ≡ some (fifo_run cs pks)
unfolding queue_run clear_gc
fifo_from [] pks s ok room v p = refl
fifo_from (sends pk ∷ cs) pks s (here, ok) room v p =
    let (t, e, w, q, size, less) =
      on_recv-Receives pk pks s v here (Room-less (suc (length cs)) 1 s (omega arith) room) p in
    rw (e, ◌>>=◌) (fifo_from cs (pks ++ (pk ∷ [])) t (rw size ok) (less (length cs) room) w q)
fifo_from (polls ∷ cs) pks s ok room v p =
    let (reply, t, e, f, w, q, same) = pop_from-Pops s.pack_queue pks s refl v p in
    let e' : pop_pack s ≡ some (reply, t) = unfold pop_pack in e in
    let rest =
      fifo_from cs (rest_of pks) t (rw same ok)
        (λ i.
          let h = Room-less (suc (length cs)) (length cs) s (omega arith) room i in
          subst (λ l. (get_or l i new_queue).index_base + length cs < u64_nil) (sym same) h)
        w q in
    rw (e', ◌>>=◌, rest, f) refl
fifo_from (restarts ∷ cs) pks s ok room v p =
    let (t, e, w, q, size, bases) = release_pack-Releases pks s v p in
    let (w', q') = clear_gc-Inv pks t w q in
    rw (e, ◌>>=◌)
      (fifo_from cs pks (clear_gc t) (rw size ok)
        (λ i.
          let h = Room-less (suc (length cs)) (length cs) s (omega arith) room i in
          let b = bases i in omega arith)
        w' q')

replicate_at : (n i : ℕ) → get_or (replicate n new_queue) i new_queue ≡ new_queue
replicate_at zero i = refl
replicate_at (suc n) zero = refl
replicate_at (suc n) (suc i) = replicate_at n i

length-replicate : (n : ℕ) → length (replicate n new_queue) ≡ n
length-replicate zero = refl
length-replicate (suc n) = ap suc (length-replicate n)

new_queue-ValidQueue : ValidQueue new_queue
new_queue-ValidQueue = record {
  segment = tt;
  base = refl;
  behind = omega arith;
  ahead = omega arith;
  bound = omega arith;
}

new_queues-Inv : (n : ℕ) → Inv (new_queues n)
unfolding new_queues
new_queues-Inv n = record {
  valid = record { queues = λ i. rw (replicate_at n i) new_queue-ValidQueue; order = λ i. tt };
  marks = λ i. rw (no_garbage-none n i) tt;
}

-- Start from empty queues, and let fewer than 2^64 - 1 steps follow in any order, where every pack sent
-- names one of the queues. Then no step uses a pack that is gone or fails an assertion, and what the
-- polling thread takes is what a list of packs gives, first in, first out.
pub queue_run-fifo :
    (size : ℕ) (cs : List QueueCall)
    → SentIn size cs
    → length cs < u64_nil
    → queue_run cs (new_queues size) ≡ some (fifo_run cs [])
queue_run-fifo size cs ok few =
    unfold new_queues in
    fifo_from cs [] (new_queues size) (rw (length-replicate size) ok)
      (λ i. rw (replicate_at size i) (omega arith)) (new_queues-Inv size) tt
