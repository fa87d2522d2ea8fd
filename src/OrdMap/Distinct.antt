-- ===== src/OrdMap/Distinct.antt =====
-- No two keys of a container are equivalent, and no operation brings such a pair about.
use gce.Prelude.{
  ◌≡◌, refl, false, [], ◌∷◌, none, arith, is_some, Bool-cases, Option-cases, inl, inr,
}
use gce.Key.{Key, eqv, eqv_symm}
use gce.OrdMap.{OrdMap, find, place, assign, erase, insert, insert_or, find-place, find-erase}

module _ {ℓ κ} {K : Type ℓ} {V : Type κ} ⦃key : Key K⦄ where
  abbrev pub Distinct : OrdMap K V → Type 0
  Distinct [] = Unit {0}
  Distinct ((k, v) ∷ m) = (is_some (find k m) ≡ false) × Distinct m

  pub Distinct-place :
      (k : K) (v : V) (m : OrdMap K V) → find k m ≡ none → Distinct m → Distinct (place k v m)
  unfolding place find
  Distinct-place k v [] n d = (refl, tt)
  Distinct-place k v ((j, w) ∷ m) n d = elim (Bool-cases (key.lt k j)) [
    | inl t ↦ rw t (ground arith, d)
    | inr f ↦
        let free : find k m ≡ none = ground arith in
        rw f (ground (arith, find-place j k v m, eqv_symm k j), Distinct-place k v m free d.1)
  ]

  find-assign-none :
      (j k : K) (v : V) (m : OrdMap K V)
      → is_some (find j m) ≡ false
      → is_some (find j (assign k v m)) ≡ false
  unfolding assign find
  find-assign-none j k v [] n = refl
  find-assign-none j k v ((i, w) ∷ m) n = elim (Bool-cases (eqv i k)) [
    | inl t ↦ rw t (ground arith)
    | inr f ↦ rw f (ground (arith, find-assign-none j k v m))
  ]

  pub Distinct-assign : (k : K) (v : V) (m : OrdMap K V) → Distinct m → Distinct (assign k v m)
  unfolding assign
  Distinct-assign k v [] d = tt
  Distinct-assign k v ((j, w) ∷ m) d = elim (Bool-cases (eqv j k)) [
    | inl t ↦ rw t d
    | inr f ↦ rw f (find-assign-none j k v m d.0, Distinct-assign k v m d.1)
  ]

  pub Distinct-erase : (k : K) (m : OrdMap K V) → Distinct m → Distinct (erase k m)
  unfolding erase
  Distinct-erase k [] d = tt
  Distinct-erase k ((j, w) ∷ m) d = elim (Bool-cases (eqv j k)) [
    | inl t ↦ rw t (Distinct-erase k m d.1)
    | inr f ↦ rw f (ground (arith, find-erase j k m), Distinct-erase k m d.1)
  ]

  pub Distinct-insert : (k : K) (v : V) (m : OrdMap K V) → Distinct m → Distinct (insert k v m)
  unfolding insert
  Distinct-insert k v m d = elim (Option-cases (find k m)) [
    | inl n ↦ rw n (Distinct-place k v m n d)
    | inr (w, n) ↦ rw n d
  ]

  pub Distinct-insert_or :
      (k : K) (d : V) (f : V → V) (m : OrdMap K V) → Distinct m → Distinct (insert_or k d f m)
  unfolding insert_or
  Distinct-insert_or k d f m s = elim (Option-cases (find k m)) [
    | inl n ↦ rw (n, insert_or) (Distinct-place k (f d) m n s)
    | inr (w, n) ↦ rw (n, insert_or) (Distinct-assign k (f w) m s)
  ]
