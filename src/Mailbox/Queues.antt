-- ===== src/Mailbox/Queues.antt =====
-- Reading a match queue after a write to one.
use gce.Prelude.{
  ℕ, ◌≡◌, ◌<◌, List, [], ◌∷◌, arith, ◌==◌, ==_iff, if◌then◌else◌, length, get_or, set, length-set,
  get_or-set_self, get_or-set_ne, Bool-cases, inl, inr,
}
use gce.OrdMap.{find-insert_or, find-erase}
use gce.Key.{nat_key, eqv, eqv_iff}
use gce.Mailbox.{Mailbox, is_cached, queue_of, put_queue, pop_queue}

pub eqv-== : (a b : ℕ) → eqv a b ≡ (a == b)
eqv-== a b = ground (arith, eqv_iff a b)

get_or-set {ℓ} :
    {A : Type ℓ} (xs : List A) (i j : ℕ) (v d : A)
    → i < length xs
    → get_or (set xs i v) j d ≡ (if i == j then v else get_or xs j d)
get_or-set xs i j v d h = elim (Bool-cases (i == j)) [
  | inl e ↦ rw (e, ← (==_iff i j).0 e) (get_or-set_self xs i v d h)
  | inr e ↦ rw e (get_or-set_ne xs i j v d (ground arith))
]

pub queue_of-put_queue :
    (t u : ℕ) (q : List ℕ) (mb : Mailbox)
    → queue_of u (put_queue t q mb) ≡ (if t == u then q else queue_of u mb)
unfolding queue_of put_queue
queue_of-put_queue t u q mb = elim (Bool-cases (is_cached t mb)) [
  | inl e ↦
      rw e (
        ground (arith, length-set mb.cache_match_list t q, get_or-set mb.cache_match_list t u q []))
  | inr e ↦ rw e (ground (arith, find-insert_or u t q (λ _. q) mb.match_queue_list, eqv-== t u))
]

pub queue_of-pop_queue :
    (t u : ℕ) (q : List ℕ) (mb : Mailbox)
    → queue_of u (pop_queue t q mb) ≡ (if t == u then q else queue_of u mb)
unfolding pop_queue queue_of
queue_of-pop_queue t u (a ∷ q) mb = queue_of-put_queue t u (a ∷ q) mb
queue_of-pop_queue t u [] mb = elim (Bool-cases (is_cached t mb)) [
  | inl e ↦ rw e (
      ground (arith, length-set mb.cache_match_list t [], get_or-set mb.cache_match_list t u [] []))
  | inr e ↦ rw e (ground (arith, find-erase u t mb.match_queue_list, eqv-== t u))
]
