-- ===== src/NonBlocking/Queue/Release.antt =====
-- `pop` of the pack queue in `move_pack`, and `release_pack`.
use gce.Prelude.{
  ℕ, zero, suc, ◌+◌, ◌≤◌, ◌<◌, ◌≡◌, refl, sym, ap, subst, ◌∙◌, false, List, [], ◌∷◌, Option, none,
  some, arith, ◌==◌, length, get_or, set, ◌>>=◌, length-set, get_or-set_self, Bool-cases, inl, inr,
}
use gce.Message.{Pack}
use gce.NonBlocking.Queue.{
  CacheQueue, Queues, lookup, queue_at, new_queue, pop_from, deref, release_from, release_pack,
  clear_gc, no_garbage,
}
use gce.NonBlocking.Queue.Trim.{ValidQueue, released, freed-ValidQueue, inside}
use gce.NonBlocking.Queue.Order.{Above, Above-lower, Above-first, Above-rest}
use gce.NonBlocking.Queue.Invariant.{
  floor, Marked, Pending, ValidQueues, Inv, written, kept-Pending, kept-Marked,
}

-- What holds after a write to `gc_`.
stored :
    (P : Option (ℕ × ℕ) → Type 0) (l : List (Option (ℕ × ℕ))) (i j : ℕ) (x : Option (ℕ × ℕ))
    → (i ≡ j → P x)
    → P (get_or l j none)
    → P (get_or (set l i x) j none)
stored P [] i j x same other = other
stored P (y ∷ l) zero zero x same other = same refl
stored P (y ∷ l) zero (suc j) x same other = other
stored P (y ∷ l) (suc i) zero x same other = other
stored P (y ∷ l) (suc i) (suc j) x same other = stored P l i j x (λ e. same (ap suc e)) other

-- A pack as it was sent, whatever its place in a cache queue.
abbrev pub sealed : Pack → Pack
sealed pk = record pk { cache_index = 0 }

abbrev pub seal : Option Pack → Option Pack
seal none = none
seal (some pk) = some (sealed pk)

abbrev pub first_of : List Pack → Option Pack
first_of [] = none
first_of (pk ∷ pks) = some (sealed pk)

abbrev pub rest_of : List Pack → List Pack
rest_of [] = []
rest_of (pk ∷ pks) = pks

abbrev pub Pops : List Pack → Queues → Option (Option Pack × Queues) → Type 0
Pops pks s out =
    (reply : Option Pack) × (s' : Queues) × (out ≡ some (reply, s'))
    × (seal reply ≡ first_of pks)
    × Inv s'
    × Pending s'.pack_queue (rest_of pks) s'
    × (s'.cache_queue_list ≡ s.cache_queue_list)

pub pop_from-Pops :
    (ps : List (ℕ × ℕ)) (pks : List Pack) (s : Queues)
    → s.pack_queue ≡ ps
    → Inv s
    → Pending ps pks s
    → Pops pks s (pop_from ps s)
unfolding pop_from deref
pop_from-Pops [] [] s e v p = (none, s, refl, refl, v, rw e p, refl)
pop_from-Pops [] (pk ∷ pks) s e v p = absurd (cc p)
pop_from-Pops (ptr ∷ ps) [] s e v p = absurd (cc p)
pop_from-Pops ((i, k) ∷ ps) (pk ∷ pks) s e v (at, l, there, p) =
    let s' : Queues = record s {
      pack_queue = ps;
      gc = set s.gc pk.cache_queue_index (some (i, k));
    } in
    let a : (j : ℕ) → Above j (floor (get_or s.gc j none)) (queue_at j s).index_base ((i, k) ∷ ps) =
      λ j.
        subst (λ z. Above j (floor (get_or s.gc j none)) (queue_at j s).index_base z) e
          (v.valid.order j) in
    let (g, b, above) =
      Above-first (floor (get_or s.gc i none)) (queue_at i s).index_base i k ps (a i) in
    (
      some (record pk { cache_index = k }),
      s',
      rw (there, ◌>>=◌) refl,
      refl,
      record {
        valid = record {
          queues = v.valid.queues;
          order = λ j.
              stored (λ m. Above j (floor m) (queue_at j s).index_base ps) s.gc pk.cache_queue_index
                j (some (i, k))
                (λ f. subst (λ z. Above z (suc k) (queue_at z s).index_base ps) (sym at ∙ f) above)
                (Above-rest j (floor (get_or s.gc j none)) (queue_at j s).index_base i k ps (a j));
        };
        marks = λ j. kept-Marked j (get_or s'.gc j none) s s' refl (omega arith) (
            stored (λ m. Marked j m s) s.gc pk.cache_queue_index j (some (i, k))
              (λ f. subst (λ z. Marked z (some (i, k)) s) (sym at ∙ f) (refl, l, b)) (v.marks j));
      },
      kept-Pending ps pks s s' (λ j m r c d. (c, d)) p,
      refl,
    )

in_range : (l : List CacheQueue) (i : ℕ) → 0 < (get_or l i new_queue).index_base → i < length l
in_range [] i h = absurd (omega arith)
in_range (q ∷ l) zero h = omega arith
in_range (q ∷ l) (suc i) h = let r = in_range l i h in omega arith

-- The pointers that are left are above what a release frees.
freed-Pending :
    (i k lo base : ℕ) (ps : List (ℕ × ℕ)) (pks : List Pack) (s t : Queues)
    → ((j : ℕ) → (j == i) ≡ false → queue_at j t ≡ queue_at j s)
    → (queue_at i t).que ≡ (queue_at i s).que
    → released (queue_at i t) ≡ suc k
    → suc k ≤ lo
    → Above i lo base ps
    → Pending ps pks s
    → Pending ps pks t
freed-Pending i k lo base [] [] s t other que free l a p = tt
freed-Pending i k lo base [] (pk ∷ pks) s t other que free l a p = p
freed-Pending i k lo base (ptr ∷ ps) [] s t other que free l a p = p
freed-Pending i k lo base ((j, m) ∷ ps) (pk ∷ pks) s t other que free l a (at, g, there, p) =
    elim (Bool-cases (j == i)) [
      | inl e ↦
          let same : i ≡ j = ground arith in
          let (low, up, rest) = rw e at a in
          (
            at,
            subst (λ z. released (queue_at z t) ≤ m) same (omega arith),
            subst (λ z. lookup m (queue_at z t).que ≡ some (record pk { cache_index = m })) same
                (ap (lookup m) que
                  ∙ subst (λ z. lookup m (queue_at z s).que ≡ some (record pk { cache_index = m }))
                      (sym same) there),
            freed-Pending i k (suc m) base ps pks s t other que free (omega arith) rest p,
          )
      | inr f ↦ (
        at,
        rw (other j f) g,
        rw (other j f) there,
        freed-Pending i k lo base ps pks s t other que free l (rw f at a) p,
      )
    ]

abbrev pub Releases : List Pack → Queues → Option Queues → Type 0
Releases pks s out =
    (s' : Queues) × (out ≡ some s')
    × ValidQueues s'
    × Pending s'.pack_queue pks s'
    × (length s'.cache_queue_list ≡ length s.cache_queue_list)
    × ((j : ℕ) → (queue_at j s').index_base ≡ (queue_at j s).index_base)

release_from-Releases :
    (ms : List (Option (ℕ × ℕ))) (i : ℕ) (pks : List Pack) (s : Queues)
    → ValidQueues s
    → ((d j : ℕ)
        → j ≡ i + d
        → (get_or s.gc j none ≡ get_or ms d none) × Marked j (get_or ms d none) s)
    → Pending s.pack_queue pks s
    → Releases pks s (release_from i ms s)
unfolding release_from deref
release_from-Releases [] i pks s v marks p = (s, refl, v, p, refl, λ j. refl)
release_from-Releases (none ∷ ms) i pks s v marks p =
    release_from-Releases ms (suc i) pks s v (λ d j e. marks (suc d) j (omega arith)) p
release_from-Releases (some (h, k) ∷ ms) i pks s v marks p =
    let (stays, mark) = marks 0 i (omega arith) in
    let (e, l, b) : (h ≡ i) × (released (queue_at i s) ≤ k) × (k < (queue_at i s).index_base) =
      mark in
    let old = queue_at i s in
    let (pk, there, index) = inside old k (v.queues i) l b in
    let there' : lookup k (queue_at h s).que ≡ some pk =
      subst (λ z. lookup k (queue_at z s).que ≡ some pk) (sym e) there in
    let new = record old { garbage_tail = pk.cache_index } in
    let (w, freed) = freed-ValidQueue old pk.cache_index (v.queues i) (omega arith) (omega arith) in
    let list = s.cache_queue_list in
    let range = in_range list i (omega arith) in
    let t : Queues = record s { cache_queue_list = set list i new } in
    let at_i : queue_at i t ≡ new = get_or-set_self list i new new_queue range in
    let others : (j : ℕ) → (j == i) ≡ false → queue_at j t ≡ queue_at j s = λ j f.
      written (λ x. (j == i) ≡ false → x ≡ queue_at j s) list i j new range
        (λ g f'. absurd (ground arith)) (λ g f'. refl) f in
    let bases : (j : ℕ) → (queue_at j t).index_base ≡ (queue_at j s).index_base = λ j.
      written (λ x. x.index_base ≡ (queue_at j s).index_base) list i j new range
        (λ g. ap (λ z. (queue_at z s).index_base) g) (λ g. refl) in
    let order : Above i (suc k) old.index_base s.pack_queue =
      subst (λ m. Above i (floor m) old.index_base s.pack_queue) stays (v.order i) in
    let (s', done, v', p', size, same) =
      release_from-Releases ms (suc i) pks t
        (record {
          queues = λ j. written ValidQueue list i j new range (λ g. w) (λ g. v.queues j);
          order = λ j. rw (bases j) (v.order j);
        })
        (λ d j f.
          let (g, m) = marks (suc d) j (omega arith) in
          let apart : (j == i) ≡ false = ground arith in
          (
            g,
            kept-Marked j (get_or ms d none) s t (ap released (others j apart))
                (let c = bases j in omega arith) m,
          ))
        (freed-Pending i pk.cache_index (suc k) old.index_base s.pack_queue pks s t others
          (ap (λ x. x.que) at_i) (ap released at_i ∙ freed) (omega arith) order p) in
    (s', rw (there', ◌>>=◌) done, v', p', size ∙ length-set list i new, λ j. same j ∙ bases j)

pub no_garbage-none : (n j : ℕ) → get_or (no_garbage n) j none ≡ none
no_garbage-none zero j = refl
no_garbage-none (suc n) zero = refl
no_garbage-none (suc n) (suc j) = no_garbage-none n j

-- `release_pack` at the end of a `move_pack`, and `gc_.clear()` at the start of the next one.
pub release_pack-Releases :
    (pks : List Pack) (s : Queues)
    → Inv s
    → Pending s.pack_queue pks s
    → Releases pks s (release_pack s)
unfolding release_pack
release_pack-Releases pks s v p =
    release_from-Releases s.gc 0 pks s v.valid
      (λ d j e.
        let same : j ≡ d = omega arith in
        (
          ap (λ z. get_or s.gc z none) same,
          subst (λ z. Marked j (get_or s.gc z none) s) same (v.marks j),
        ))
      p

pub clear_gc-Inv :
    (pks : List Pack) (s : Queues)
    → ValidQueues s
    → Pending s.pack_queue pks s
    → Inv (clear_gc s) × Pending s.pack_queue pks (clear_gc s)
unfolding clear_gc
clear_gc-Inv pks s v p =
    let n = length s.cache_queue_list in
    (
      record {
        valid = record {
          queues = v.queues;
          order = λ j. rw (no_garbage-none n j) (
              Above-lower j (floor (get_or s.gc j none)) 0 (queue_at j s).index_base s.pack_queue
                (omega arith) (v.order j));
        };
        marks = λ j. rw (no_garbage-none n j) tt;
      },
      kept-Pending s.pack_queue pks s (clear_gc s) (λ j m r c d. (c, d)) p,
    )
