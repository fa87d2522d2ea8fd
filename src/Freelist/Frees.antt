-- ===== src/Freelist/Frees.antt =====
-- A freelist is a stack of bounded size: `get` takes from it, and `free` gives it a chain of objects.
use gce.Prelude.{
  ℕ, zero, suc, ◌+◌, ◌-◌, ◌%◌, ◌^◌, ◌≤◌, ◌<◌, ◌≡◌, refl, sym, subst, ap, ◌∙◌, Bool, true, false,
  ◌||◌, List, [], ◌∷◌, Option, none, some, if◌then◌else◌, ltb, ◌==◌, ◌>>=◌, arith, Bool-cases, inl,
  inr, length,
}
use gce.Freelist.{Heap, Freelist, write, get_from, get, keep_or_drop, free, drop_all, clear_pool}
use gce.Freelist.Chains.{mem, Chain, Apart, write-same, write-Chain, Apart-cons}

abbrev pub Distinct : List ℕ → Type 0
Distinct xs = Apart xs []

-- The pool has the objects of a list, the first on top.
pub record Pools (fl : Freelist) (xs : List ℕ) : Type 0 where
  pub chain : Chain fl.heap fl.head xs
  pub distinct : Distinct xs
  pub size : fl.size ≡ length xs
  pub small : length xs < 2 ^ 64

-- What `free` keeps of a chain, in a pool of at most `n` objects.
unfoldable pub refill : ℕ → List ℕ → List ℕ → List ℕ
refill n [] xs = xs
refill n (y ∷ ys) xs = if ltb (length xs) n then refill n ys (y ∷ xs) else refill n ys xs

keep-Pools :
    (y : ℕ) (xs : List ℕ) (fl : Freelist)
    → Pools fl xs
    → mem y xs ≡ false
    → fl.cache_size < 2 ^ 64
    → Pools (keep_or_drop y fl) (if ltb (length xs) fl.cache_size then y ∷ xs else xs)
unfolding keep_or_drop
keep-Pools y xs fl v n small = elim (Bool-cases (ltb (length xs) fl.cache_size)) [
  | inl e ↦
      let l = v.size in
      let s = v.small in
      let below : length xs < fl.cache_size = ground arith in
      let f : ltb fl.size fl.cache_size ≡ true = ground arith in
      rw (e, f)
        (record {
          chain = (
            refl,
            (
              fl.head,
              write-same y (some fl.head) fl.heap,
              write-Chain y (some fl.head) fl.heap fl.head xs n v.chain,
            ),
          );
          distinct = (n, refl, v.distinct);
          size = omega arith;
          small = omega arith;
        })
  | inr e ↦
      let l = v.size in
      let f : ltb fl.size fl.cache_size ≡ false = ground arith in
      rw (e, f)
        (record {
          chain = write-Chain y none fl.heap fl.head xs n v.chain;
          distinct = v.distinct;
          size = v.size;
          small = v.small;
        })
]

keep-Chain :
    (y : ℕ) (fl : Freelist) (o : Option ℕ) (ys : List ℕ)
    → mem y ys ≡ false
    → Chain fl.heap o ys
    → Chain (keep_or_drop y fl).heap o ys
unfolding keep_or_drop
keep-Chain y fl o ys n c = elim (Bool-cases (ltb fl.size fl.cache_size)) [
  | inl e ↦ rw e (write-Chain y (some fl.head) fl.heap o ys n c)
  | inr e ↦ rw e (write-Chain y none fl.heap o ys n c)
]

keep-size : (y : ℕ) (fl : Freelist) → (keep_or_drop y fl).cache_size ≡ fl.cache_size
unfolding keep_or_drop
keep-size y fl = ground arith

-- A chain of objects, none of them in the pool, is freed with as much fuel as it has objects: the loop ends
-- and uses no object that does not live, and the pool has what it had and, while there is room, the
-- objects of the chain, the last freed on top.
pub free-refill :
    (fuel : ℕ) (ys xs : List ℕ) (o : Option ℕ) (fl : Freelist)
    → Pools fl xs
    → Chain fl.heap o ys
    → Apart ys xs
    → fl.cache_size < 2 ^ 64
    → length ys ≤ fuel
    → (g : Freelist) × (free fuel o fl ≡ some g)
      × Pools g (refill fl.cache_size ys xs)
      × (g.cache_size ≡ fl.cache_size)
unfolding free refill
free-refill fuel [] xs none fl v c a small l = (fl, refl, v, refl)
free-refill fuel [] xs (some y) fl v c a small l = elim c [ ]
free-refill fuel (y ∷ ys) xs none fl v c a small l = elim c [ ]
free-refill zero (y ∷ ys) xs (some z) fl v c a small l = absurd (omega arith)
free-refill (suc fuel) (y ∷ ys) xs (some z) fl v (same, (next, e, c)) (m, n, a) small l =
    let here : fl.heap z ≡ some next = ap fl.heap same ∙ e in
    let n' = subst (λ w. mem w xs ≡ false) (sym same) n in
    let m' = subst (λ w. mem w ys ≡ false) (sym same) m in
    let size = keep-size z fl in
    let rest = keep-Chain z fl next ys m' c in
    elim (Bool-cases (ltb (length xs) fl.cache_size)) [
      | inl f ↦
          let kept : Pools (keep_or_drop z fl) (z ∷ xs) =
            subst (λ b. Pools (keep_or_drop z fl) (if b then z ∷ xs else xs)) f
              (keep-Pools z xs fl v n' small) in
          let (g, h, w, s) =
            free-refill fuel ys (z ∷ xs) next (keep_or_drop z fl) kept rest
              (Apart-cons z ys xs m' a) (subst (λ k. k < 2 ^ 64) (sym size) small) (omega arith) in
          (
            g,
            rw (here, ◌>>=◌) h,
            rw f (
                subst (λ (p : ℕ × ℕ). Pools g (refill p.0 ys (p.1 ∷ xs))) (λ i. (size i, same i))
                  w),
            s ∙ size,
          )
      | inr f ↦
          let kept : Pools (keep_or_drop z fl) xs =
            subst (λ b. Pools (keep_or_drop z fl) (if b then z ∷ xs else xs)) f
              (keep-Pools z xs fl v n' small) in
          let (g, h, w, s) =
            free-refill fuel ys xs next (keep_or_drop z fl) kept rest a
              (subst (λ k. k < 2 ^ 64) (sym size) small) (omega arith) in
          (g, rw (here, ◌>>=◌) h, rw f (subst (λ k. Pools g (refill k ys xs)) size w), s ∙ size)
    ]

-- What `get` gives and leaves: the object on top, or a new one from an empty pool.
abbrev pub Gets : ℕ → List ℕ → Freelist → Option (ℕ × Freelist) → Type 0
Gets obj [] fl out = (g : Freelist) × (out ≡ some (obj, g)) × Pools g [] × (g.heap obj ≡ some none)
Gets obj (x ∷ xs) fl out =
    (g : Freelist) × (out ≡ some (x, g)) × Pools g xs × (g.heap x ≡ some none)

-- `get` gives the object on top of the pool, which it leaves to the others, or a new object if the pool
-- is empty; the object lives and leads to no other.
pub get-Gets : (obj : ℕ) (xs : List ℕ) (fl : Freelist) → Pools fl xs → Gets obj xs fl (get obj fl)
unfolding get get_from
get-Gets obj [] fl v = take fl.head v.chain refl
  where
    take : (o : Option ℕ) → Chain fl.heap o [] → fl.head ≡ o → Gets obj [] fl (get obj fl)
    take none c e = (
      record fl { heap = write obj (some none) fl.heap },
      ap (λ o. get_from obj o fl) e,
      record {
        chain = subst (λ o. Chain (write obj (some none) fl.heap) o []) (sym e) tt;
        distinct = tt;
        size = v.size;
        small = v.small;
      },
      write-same obj (some none) fl.heap,
    )
    take (some a) c e = elim c [ ]
get-Gets obj (x ∷ xs) fl v = take fl.head v.chain refl
  where
    take :
        (o : Option ℕ) → Chain fl.heap o (x ∷ xs) → fl.head ≡ o → Gets obj (x ∷ xs) fl (get obj fl)
    take none c e = elim c [ ]
    take (some a) (same, (next, f, c)) e =
        let here : fl.heap a ≡ some next = ap fl.heap same ∙ f in
        let n = v.size in
        let s = v.small in
        let left : ℕ → Freelist = λ z. record fl {
          head = next;
          heap = write z (some none) fl.heap;
          size = (fl.size + (2 ^ 64 - 1)) % 2 ^ 64;
        } in
        (
          left x,
          (let got : get obj fl ≡ some (a, left a) =
                ap (λ o. get_from obj o fl) e ∙ rw (get_from, here, ◌>>=◌) refl in
              got ∙ ap (λ z. some (z, left z)) same),
          record {
            chain = write-Chain x (some none) fl.heap next xs (v.distinct.0) c;
            distinct = v.distinct.2;
            size = omega arith;
            small = omega arith;
          },
          write-same x (some none) fl.heap,
        )

either-none :
    (b c : Bool) (v : Option (Option ℕ))
    → (if b then none else if c then none else v) ≡ (if c || b then none else v)
either-none true true v = refl
either-none true false v = refl
either-none false true v = refl
either-none false false v = refl

drop_all-none :
    (fuel : ℕ) (xs : List ℕ) (o : Option ℕ) (h : Heap)
    → Chain h o xs
    → Distinct xs
    → length xs ≤ fuel
    → (g : Heap) × (drop_all fuel o h ≡ some g) × ((a : ℕ) → g a ≡ (if mem a xs then none else h a))
unfolding drop_all
drop_all-none fuel [] none h c d l = (h, refl, λ a. refl)
drop_all-none fuel [] (some z) h c d l = elim c [ ]
drop_all-none fuel (x ∷ xs) none h c d l = elim c [ ]
drop_all-none zero (x ∷ xs) (some z) h c d l = absurd (omega arith)
drop_all-none (suc fuel) (x ∷ xs) (some z) h (same, (next, e, c)) (n, m, d) l =
    let here : h z ≡ some next = ap h same ∙ e in
    let n' = subst (λ w. mem w xs ≡ false) (sym same) n in
    let (g, f, all) =
      drop_all-none fuel xs next (write z none h) (write-Chain z none h next xs n' c) d
        (omega arith) in
    (
      g,
      rw (here, ◌>>=◌) f,
      λ a.
          subst (λ w. g a ≡ (if mem a xs then none else if a == w then none else h a)) same (all a)
          ∙ either-none (mem a xs) (a == x) (h a),
    )

-- With as much fuel as the pool has objects, `clear_pool` ends, uses no object that does not live, and
-- leaves none of them and an empty pool.
pub clear_pool-empty :
    (fuel : ℕ) (xs : List ℕ) (fl : Freelist)
    → Pools fl xs
    → length xs ≤ fuel
    → (g : Freelist) × (clear_pool fuel fl ≡ some g)
      × Pools g []
      × ((a : ℕ) → g.heap a ≡ (if mem a xs then none else fl.heap a))
unfolding clear_pool
clear_pool-empty fuel xs fl v l =
    let (h, e, all) = drop_all-none fuel xs fl.head fl.heap v.chain v.distinct l in
    (
      record fl { heap = h; head = none; size = 0 },
      rw (e, ◌>>=◌) refl,
      record { chain = tt; distinct = tt; size = refl; small = omega arith },
      all,
    )
