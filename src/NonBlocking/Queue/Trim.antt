-- ===== src/NonBlocking/Queue/Trim.antt =====
-- `on_recv` and `release_pack` in one cache queue: what has not been released stays.
use gce.Prelude.{
  ℕ, suc, ◌+◌, ◌-◌, ◌%◌, ◌^◌, ◌≤◌, ◌<◌, ◌≡◌, refl, subst, true, false, not, ◌&&◌, [], ◌∷◌, ◌++◌,
  Option, some, arith, if◌then◌else◌, ◌==◌, leb, length, length-append, Bool-cases, inl, inr,
}
use gce.Message.{Pack}
use gce.NonBlocking.Queue.{CacheQueue, u64_nil, drop, lookup, head_of, trim, append}
use gce.NonBlocking.Queue.Segment.{
  Segment, lookup-drop, drop-Segment, length-drop, append-Segment, lookup-kept, lookup-last,
  lookup-inside, head_of-drop,
}

-- The packs below this index have been released.
abbrev pub released : CacheQueue → ℕ
released q = if q.garbage_tail == u64_nil then 0 else suc q.garbage_tail

pub record ValidQueue (q : CacheQueue) : Type 0 where
  pub segment : Segment q.head q.que
  pub base : q.head + length q.que ≡ q.index_base
  pub behind : q.head ≤ released q
  pub ahead : released q ≤ q.index_base
  pub bound : q.index_base < u64_nil

abbrev pub Trims : CacheQueue → Option CacheQueue → Type 0
Trims q out =
    (q' : CacheQueue) × (out ≡ some q')
    × ValidQueue q'
    × (q'.index_base ≡ q.index_base)
    × (released q' ≡ released q)
    × ((k : ℕ) → released q ≤ k → lookup k q'.que ≡ lookup k q.que)

pub trim-Trims : (q : CacheQueue) → ValidQueue q → Trims q (trim q)
unfolding trim
trim-Trims q v = elim (Bool-cases (not (q.garbage_tail == u64_nil) && leb q.head q.garbage_tail)) [
  | inr f ↦ (q, rw f refl, v, refl, refl, λ k l. refl)
  | inl t ↦
      let size = (q.garbage_tail - q.head) + 1 in
      let b = v.base in
      let a = v.ahead in
      let tail : released q ≡ suc q.garbage_tail = ground arith in
      let cut : q.head + size ≡ released q = ground arith in
      let fits : size ≤ length q.que = omega arith in
      let fits_b : leb size (length q.que) ≡ true = ground arith in
      let head' : head_of (drop size q.que) q.index_base ≡ q.head + size =
        head_of-drop q.head size q.index_base q.que v.segment fits v.base in
      let left = length-drop size q.que fits in
      let q' = record q { que = drop size q.que; head = head_of (drop size q.que) q.index_base } in
      (
        q',
        rw (t, fits_b, if◌then◌else◌) refl,
        record {
          segment =
              drop-Segment q.head size (head_of (drop size q.que) q.index_base) q.que v.segment fits
                head';
          base = omega arith;
          behind = omega arith;
          ahead = a;
          bound = v.bound;
        },
        refl,
        refl,
        λ k l. lookup-drop q.head k size q.que v.segment (omega arith),
      )
]

pub append-ValidQueue :
    (pk : Pack) (q : CacheQueue)
    → ValidQueue q
    → suc q.index_base < u64_nil
    → ValidQueue (append pk q) × ((append pk q).index_base ≡ suc q.index_base)
unfolding append
append-ValidQueue pk q v room =
    let last = record pk { cache_index = q.index_base } in
    let n = length-append q.que (last ∷ []) in
    let b = v.base in
    let e = v.behind in
    let a = v.ahead in
    let next : (q.index_base + 1) % 2 ^ 64 ≡ suc q.index_base = omega arith in
    (
      record {
        segment = append-Segment q.head q.que last v.segment (omega arith);
        base = omega arith;
        behind = e;
        ahead = omega arith;
        bound = omega arith;
      },
      next,
    )

pub append-kept :
    (pk r : Pack) (q : CacheQueue) (k : ℕ)
    → lookup k q.que ≡ some r
    → lookup k (append pk q).que ≡ some r
unfolding append
append-kept pk r q k e = lookup-kept k q.que _ r e

pub append-last :
    (pk : Pack) (q : CacheQueue)
    → ValidQueue q
    → lookup q.index_base (append pk q).que ≡ some (record pk { cache_index = q.index_base })
unfolding append
append-last pk q v =
    let last = record pk { cache_index = q.index_base } in
    let b = v.base in
    subst (λ k. lookup k (q.que ++ (last ∷ [])) ≡ some last) b
      (lookup-last q.head q.que last v.segment (omega arith))

-- A release up to a pack that is there.
pub freed-ValidQueue :
    (q : CacheQueue) (k : ℕ)
    → ValidQueue q
    → released q ≤ k
    → k < q.index_base
    → ValidQueue (record q { garbage_tail = k })
      × (released (record q { garbage_tail = k }) ≡ suc k)
freed-ValidQueue q k v l g =
    let e = v.behind in
    let b = v.bound in
    let tail : (k == u64_nil) ≡ false = ground arith in
    let now : released (record q { garbage_tail = k }) ≡ suc k = rw tail refl in
    (
      record {
        segment = v.segment;
        base = v.base;
        behind = omega arith;
        ahead = omega arith;
        bound = v.bound;
      },
      now,
    )

pub inside :
    (q : CacheQueue) (k : ℕ)
    → ValidQueue q
    → released q ≤ k
    → k < q.index_base
    → (p : Pack) × (lookup k q.que ≡ some p) × (p.cache_index ≡ k)
inside q k v l g =
    let e = v.behind in
    let b = v.base in lookup-inside q.head k q.que v.segment (omega arith) (omega arith)
