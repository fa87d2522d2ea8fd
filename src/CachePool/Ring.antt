-- ===== src/CachePool/Ring.antt =====
-- An iterator into an ordered container that goes round: `++itr`, and back to `begin()` at the end.
-- An iterator is the key that it points to, and `none` is `end()`.
use gce.Prelude.{
  ◌≡◌, refl, ap, true, false, List, [], ◌∷◌, ◌++◌, Option, none, some, arith, if◌then◌else◌,
  Bool-cases, inl, inr, is_some, sym, Option-cases,
}
use mathlib.Core.List.{append_assoc, append-nil}
use gce.Key.{Key, eqv, eqv_refl}
use gce.OrdMap.{OrdMap, find, find-congr}
use gce.OrdMap.Distinct.{Distinct}

module _ {ℓ κ} {K : Type ℓ} {V : Type κ} ⦃key : Key K⦄ where
  unfoldable pub begin : OrdMap K V → Option K
  begin [] = none
  begin ((k, v) ∷ m) = some k

  -- `++itr`
  unfoldable pub after : K → OrdMap K V → Option K
  after k [] = none
  after k ((j, v) ∷ m) = if eqv j k then begin m else after k m

  -- `++itr; if (itr == end()) itr = begin();`
  unfoldable pub advance : K → OrdMap K V → Option K
  advance k m = elim (after k m) [ some j ↦ some j | none ↦ begin m ]

  -- `*itr`
  unfoldable pub at : K → OrdMap K V → Option K
  at k [] = none
  at k ((j, v) ∷ m) = if eqv j k then some j else at k m

  abbrev pub keys : OrdMap K V → List K
  keys [] = []
  keys ((k, v) ∷ m) = k ∷ keys m

  -- The keys from an iterator on, and those before it.
  abbrev pub onward : K → OrdMap K V → List K
  onward k [] = []
  onward k ((j, v) ∷ m) = if eqv j k then j ∷ keys m else onward k m

  abbrev pub before : K → OrdMap K V → List K
  before k [] = []
  before k ((j, v) ∷ m) = if eqv j k then [] else j ∷ before k m

  -- The container as a ring that starts at the iterator.
  abbrev pub ring : Option K → OrdMap K V → List K
  ring none m = []
  ring (some k) m = onward k m ++ before k m

  -- An iterator to an element is a key that is found.
  pub find-begin : (m : OrdMap K V) (k : K) → begin m ≡ some k → is_some (find k m) ≡ true
  unfolding begin find
  find-begin [] k e = cc
  find-begin ((j, v) ∷ m) k e = let same : j ≡ k = ground arith in rw (same, eqv_refl k)

  pub find-after : (k i : K) (m : OrdMap K V) → after k m ≡ some i → is_some (find i m) ≡ true
  unfolding after find
  find-after k i [] e = cc
  find-after k i ((j, v) ∷ m) e = elim (Bool-cases (eqv j k)) [
    | inl t ↦ ground (arith, find-begin m i)
    | inr f ↦ ground (arith, find-after k i m)
  ]

  not-eqv :
      (j i : K) (m : OrdMap K V)
      → is_some (find j m) ≡ false
      → is_some (find i m) ≡ true
      → eqv j i ≡ false
  not-eqv j i m f t = ground (arith, find-congr j i m)

  ring-after :
      (k i : K) (m : OrdMap K V)
      → Distinct m
      → after k m ≡ some i
      → (h : K) × (onward k m ≡ h ∷ onward i m) × (before i m ≡ before k m ++ (h ∷ []))
  unfolding after
  ring-after k i [] d e = absurd (cc)
  ring-after k i ((j, v) ∷ []) d e = absurd (unfold begin in ground arith)
  ring-after k i ((j, v) ∷ (l, w) ∷ m) d e = elim (Bool-cases (eqv j k)) [
    | inl t ↦
        let same : l ≡ i = unfold begin in ground arith in
        let apart : eqv j i ≡ false =
          not-eqv j i ((l, w) ∷ m) d.0 (rw (← same) (unfold find in rw (eqv_refl l))) in
        let here : eqv l i ≡ true = rw same (eqv_refl i) in
        (j, rw (t, apart, here), rw (t, apart, here))
    | inr f ↦
        let later : after k ((l, w) ∷ m) ≡ some i = ground arith in
        let apart : eqv j i ≡ false =
          not-eqv j i ((l, w) ∷ m) d.0 (find-after k i ((l, w) ∷ m) later) in
        let (h, on, back) = ring-after k i ((l, w) ∷ m) d.1 later in
        (h, rw (f, apart) on, rw (f, apart) (ap (◌∷◌ j) back))
  ]

  ring-last :
      (k : K) (m : OrdMap K V)
      → after k m ≡ none
      → is_some (find k m) ≡ true
      → (h : K) × (onward k m ≡ h ∷ []) × (keys m ≡ before k m ++ (h ∷ []))
  unfolding after find
  ring-last k [] e t = absurd (cc)
  ring-last k ((j, v) ∷ []) e t = let here : eqv j k ≡ true = ground arith in (j, rw here, rw here)
  ring-last k ((j, v) ∷ (l, w) ∷ m) e t =
      let f : eqv j k ≡ false = unfold begin in ground arith in
      let (h, on, all) = ring-last k ((l, w) ∷ m) (rw f at e) (rw f at t) in
      (h, rw f on, rw f (ap (◌∷◌ j) all))

  at-onward : (k h : K) (tl : List K) (m : OrdMap K V) → onward k m ≡ h ∷ tl → at k m ≡ some h
  unfolding at
  at-onward k h tl [] e = cc
  at-onward k h tl ((j, v) ∷ m) e = ground (arith, at-onward k h tl m)

  ring-begin : (m : OrdMap K V) → ring (begin m) m ≡ keys m
  unfolding begin
  ring-begin [] = refl
  ring-begin ((k, v) ∷ m) = rw (eqv_refl k, append-nil)

  -- One step turns the ring by one place.
  pub ring-advance :
      (k : K) (m : OrdMap K V)
      → Distinct m
      → is_some (find k m) ≡ true
      → (h : K) × (tl : List K) × (at k m ≡ some h)
        × (ring (some k) m ≡ h ∷ tl)
        × (ring (advance k m) m ≡ tl ++ (h ∷ []))
  unfolding advance
  ring-advance k m d t = elim (Option-cases (after k m)) [
    | inl n ↦
        let (h, on, all) = ring-last k m n t in
        (h, before k m, at-onward k h [] m on, rw on, rw (n, advance, ring-begin m) all)
    | inr (i, n) ↦
        let (h, on, back) = ring-after k i m d n in
        (
          h,
          onward i m ++ before k m,
          at-onward k h (onward i m) m on,
          rw on,
          rw (n, advance, back) (sym (append_assoc (onward i m) (before k m) (h ∷ []))),
        )
  ]
