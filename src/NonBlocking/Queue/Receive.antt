-- ===== src/NonBlocking/Queue/Receive.antt =====
-- `on_recv` of the polled actor.
use gce.Prelude.{
  ℕ, suc, ◌+◌, ◌≤◌, ◌<◌, ◌≡◌, refl, sym, ap, subst, ◌∙◌, List, [], ◌∷◌, ◌++◌, Option, none, some,
  arith, if◌then◌else◌, length, get_or, set, lt→ltb, ◌>>=◌, length-set, get_or-set_self,
}
use gce.Message.{Pack}
use gce.NonBlocking.Queue.{Queues, u64_nil, lookup, queue_at, new_queue, on_recv, append}
use gce.NonBlocking.Queue.Trim.{
  ValidQueue, released, trim-Trims, append-ValidQueue, append-kept, append-last,
}
use gce.NonBlocking.Queue.Order.{Above, Above-next, Above-other}
use gce.NonBlocking.Queue.Invariant.{
  floor, Marked, Pending, Inv, Room, written, kept-Pending, last-Pending, kept-Marked,
}

abbrev pub Receives : Pack → List Pack → Queues → Option Queues → Type 0
Receives pk pks s out =
    (s' : Queues) × (out ≡ some s')
    × Inv s'
    × Pending s'.pack_queue (pks ++ (pk ∷ [])) s'
    × (length s'.cache_queue_list ≡ length s.cache_queue_list)
    × ((n : ℕ) → Room (suc n) s → Room n s')

Marked-floor :
    (i : ℕ) (m : Option (ℕ × ℕ)) (s : Queues) → Marked i m s → floor m ≤ (queue_at i s).index_base
Marked-floor i none s m = omega arith
Marked-floor i (some (j, k)) s (e, l, b) = omega arith

module _ (pk : Pack) (pks : List Pack) (s : Queues) (v : Inv s) where
  abbrev i : ℕ
  i = pk.cache_queue_index

  pub on_recv-Receives :
      i < length s.cache_queue_list
      → Room 1 s
      → Pending s.pack_queue pks s
      → Receives pk pks s (on_recv pk s)
  unfolding on_recv
  on_recv-Receives h room p =
      let old = queue_at i s in
      let (q, trimmed, w, base, free, keep) = trim-Trims old (v.valid.queues i) in
      let r = room i in
      let new = append pk q in
      let (w', next) = append-ValidQueue pk q w (omega arith) in
      let s' : Queues = record s {
        cache_queue_list = set s.cache_queue_list i new;
        pack_queue = s.pack_queue ++ ((i, q.index_base) ∷ []);
      } in
      let free' : released new ≡ released old = unfold append in free in
      let base' : new.index_base ≡ suc old.index_base = next ∙ ap suc base in
      let l = s.cache_queue_list in
      let kept : (j k : ℕ) (r : Pack)
          → released (queue_at j s) ≤ k
          → lookup k (queue_at j s).que ≡ some r
          → (released (queue_at j s') ≤ k) × (lookup k (queue_at j s').que ≡ some r) =
        λ j k r a b.
          written (λ x. (released x ≤ k) × (lookup k x.que ≡ some r)) l i j new h
            (λ e.
              let a' = subst (λ m. released (queue_at m s) ≤ k) (sym e) a in
              let b' = subst (λ m. lookup k (queue_at m s).que ≡ some r) (sym e) b in
              (omega arith, append-kept pk r q k (keep k a' ∙ b')))
            (λ f. (a, b)) in
      let at_i : queue_at i s' ≡ new = get_or-set_self l i new new_queue h in
      (
        s',
        rw (lt→ltb i (length l) h, if◌then◌else◌, trimmed, ◌>>=◌) refl,
        record {
          valid = record {
            queues = λ j. written ValidQueue l i j new h (λ e. w') (λ f. v.valid.queues j);
            order = λ j.
                written
                  (λ x.
                    Above j (floor (get_or s.gc j none)) x.index_base
                      (s.pack_queue ++ ((i, q.index_base) ∷ [])))
                  l i j new h
                  (λ e.
                    subst
                      (λ m.
                        Above m (floor (get_or s.gc m none)) new.index_base
                          (s.pack_queue ++ ((i, q.index_base) ∷ [])))
                      e
                      (rw (base', base)
                        (Above-next i (floor (get_or s.gc i none)) old.index_base s.pack_queue
                          (Marked-floor i (get_or s.gc i none) s (v.marks i)) (v.valid.order i))))
                  (λ f.
                    Above-other j (floor (get_or s.gc j none)) (queue_at j s).index_base i
                      q.index_base s.pack_queue f (v.valid.order j));
          };
          marks = λ j.
              kept-Marked j (get_or s.gc j none) s s'
                (written (λ x. released x ≡ released (queue_at j s)) l i j new h
                  (λ e. free' ∙ ap (λ m. released (queue_at m s)) e) (λ f. refl))
                (written (λ x. (queue_at j s).index_base ≤ x.index_base) l i j new h
                  (λ e. let g = ap (λ m. (queue_at m s).index_base) e in omega arith)
                  (λ f. omega arith))
                (v.marks j);
        },
        last-Pending s.pack_queue pks i q.index_base pk s' refl
            (rw at_i (let a = w'.ahead in let c = w.ahead in omega arith))
            (rw at_i (append-last pk q w)) (kept-Pending s.pack_queue pks s s' kept p),
        length-set l i new,
        λ n room' j.
            written (λ x. x.index_base + n < u64_nil) l i j new h
              (λ e. let g = room' i in omega arith) (λ f. let g = room' j in omega arith),
      )
