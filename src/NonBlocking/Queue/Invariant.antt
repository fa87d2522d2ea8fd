-- ===== src/NonBlocking/Queue/Invariant.antt =====
-- What holds of the queues between two steps, and of the packs that are on their way.
use gce.Prelude.{
  ℕ, suc, ◌+◌, ◌≤◌, ◌<◌, ◌≡◌, ◌≢◌, subst, true, false, List, [], ◌∷◌, ◌++◌, Option, none, some,
  arith, ◌==◌, length, get_or, set, get_or-set_self, get_or-set_ne, Bool-cases, inl, inr,
}
use gce.Message.{Pack}
use gce.NonBlocking.Queue.{CacheQueue, Queues, u64_nil, lookup, queue_at, new_queue}
use gce.NonBlocking.Queue.Trim.{ValidQueue, released}
use gce.NonBlocking.Queue.Order.{Above}

-- The least index that may follow what `gc_` holds.
abbrev pub floor : Option (ℕ × ℕ) → ℕ
floor none = 0
floor (some (j, k)) = suc k

-- `gc_` holds a pointer into its queue, to a pack that has not been released.
abbrev pub Marked : ℕ → Option (ℕ × ℕ) → Queues → Type 0
Marked i none s = Unit
Marked i (some (j, k)) s = (j ≡ i) × (released (queue_at i s) ≤ k) × (k < (queue_at i s).index_base)

-- The pointers, each to the pack that was sent, which has not been released.
abbrev pub Pending : List (ℕ × ℕ) → List Pack → Queues → Type 0
Pending [] [] s = Unit
Pending [] (pk ∷ pks) s = true ≡ false
Pending (ptr ∷ ps) [] s = true ≡ false
Pending ((j, k) ∷ ps) (pk ∷ pks) s =
    (pk.cache_queue_index ≡ j)
    × (released (queue_at j s) ≤ k)
    × (lookup k (queue_at j s).que ≡ some (record pk { cache_index = k }))
    × Pending ps pks s

pub record ValidQueues (s : Queues) : Type 0 where
  pub queues : (i : ℕ) → ValidQueue (queue_at i s)
  pub order : (i : ℕ) → Above i (floor (get_or s.gc i none)) (queue_at i s).index_base s.pack_queue

pub record Inv (s : Queues) : Type 0 where
  pub valid : ValidQueues s
  pub marks : (i : ℕ) → Marked i (get_or s.gc i none) s

-- There is room for that many indices.
abbrev pub Room : ℕ → Queues → Type 0
Room n s = (i : ℕ) → (queue_at i s).index_base + n < u64_nil

-- What holds after a write to a queue.
pub written :
    (P : CacheQueue → Type 0) (l : List CacheQueue) (i j : ℕ) (x : CacheQueue)
    → i < length l
    → (i ≡ j → P x)
    → ((i == j) ≡ false → P (get_or l j new_queue))
    → P (get_or (set l i x) j new_queue)
written P l i j x h same other = elim (Bool-cases (i == j)) [
  | inl t ↦
      let e : i ≡ j = ground arith in
      subst (λ m. P (get_or (set l i x) m new_queue)) e
        (rw (get_or-set_self l i x new_queue h) (same e))
  | inr f ↦
      let ne : i ≢ j = λ (e : i ≡ j). absurd (ground arith) in
      rw (get_or-set_ne l i j x new_queue ne) (other f)
]

pub kept-Pending :
    (ps : List (ℕ × ℕ)) (pks : List Pack) (s t : Queues)
    → ((j k : ℕ) (r : Pack)
        → released (queue_at j s) ≤ k
        → lookup k (queue_at j s).que ≡ some r
        → (released (queue_at j t) ≤ k) × (lookup k (queue_at j t).que ≡ some r))
    → Pending ps pks s
    → Pending ps pks t
kept-Pending [] [] s t keep p = tt
kept-Pending [] (pk ∷ pks) s t keep p = p
kept-Pending (ptr ∷ ps) [] s t keep p = p
kept-Pending ((j, k) ∷ ps) (pk ∷ pks) s t keep (e, l, f, p) =
    let (l', f') = keep j k _ l f in (e, l', f', kept-Pending ps pks s t keep p)

pub last-Pending :
    (ps : List (ℕ × ℕ)) (pks : List Pack) (j k : ℕ) (pk : Pack) (s : Queues)
    → pk.cache_queue_index ≡ j
    → released (queue_at j s) ≤ k
    → lookup k (queue_at j s).que ≡ some (record pk { cache_index = k })
    → Pending ps pks s
    → Pending (ps ++ ((j, k) ∷ [])) (pks ++ (pk ∷ [])) s
last-Pending [] [] j k pk s e l f p = (e, l, f, tt)
last-Pending [] (q ∷ pks) j k pk s e l f p = absurd (cc p)
last-Pending (ptr ∷ ps) [] j k pk s e l f p = absurd (cc p)
last-Pending ((i, m) ∷ ps) (q ∷ pks) j k pk s e l f (a, b, c, p) =
    (a, b, c, last-Pending ps pks j k pk s e l f p)

pub kept-Marked :
    (i : ℕ) (m : Option (ℕ × ℕ)) (s t : Queues)
    → released (queue_at i t) ≡ released (queue_at i s)
    → (queue_at i s).index_base ≤ (queue_at i t).index_base
    → Marked i m s
    → Marked i m t
kept-Marked i none s t e l m = tt
kept-Marked i (some (j, k)) s t e l (f, a, b) = (f, omega arith, omega arith)
