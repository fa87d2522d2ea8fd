-- ===== src/OrdMap.antt =====
-- `std::map` as the code uses it, over the order of its keys. An iterator that `find` returns is
-- used at once, so `find` returns what it points to; `insert` leaves an entry with an equivalent key
-- as it is, and `insert_or` is the `insert(make_pair(k, d)).first->second = f(...)` of the code.
-- A `std::set` is a map into `Unit`.
pub mod Distinct
pub mod Pairs
use gce.Prelude.{
  ◌≡◌, refl, true, List, [], ◌∷◌, Option, none, some, arith, if◌then◌else◌, is_some, option_or,
  Bool-cases, Option-cases, inl, inr,
}
use gce.Key.{Key, eqv, eqv_symm, eqv_congr}

abbrev pub OrdMap {ℓ κ} : Type ℓ → Type κ → Type (ℓ ⊔ κ)
OrdMap K V = List (K × V)

module _ {ℓ κ} {K : Type ℓ} {V : Type κ} ⦃key : Key K⦄ where
  unfoldable pub find : K → OrdMap K V → Option V
  find k [] = none
  find k ((j, v) ∷ m) = if eqv j k then some v else find k m

  -- Puts a new entry in its place in the order.
  unfoldable pub place : K → V → OrdMap K V → OrdMap K V
  place k v [] = (k, v) ∷ []
  place k v ((j, w) ∷ m) = if key.lt k j then (k, v) ∷ (j, w) ∷ m else (j, w) ∷ place k v m

  -- Overwrites the value of an equivalent key.
  unfoldable pub assign : K → V → OrdMap K V → OrdMap K V
  assign k v [] = []
  assign k v ((j, w) ∷ m) = if eqv j k then (j, v) ∷ m else (j, w) ∷ assign k v m

  unfoldable pub erase : K → OrdMap K V → OrdMap K V
  erase k [] = []
  erase k ((j, w) ∷ m) = if eqv j k then erase k m else (j, w) ∷ erase k m

  unfoldable pub insert : K → V → OrdMap K V → OrdMap K V
  insert k v m = if is_some (find k m) then m else place k v m

  -- `pr = insert(make_pair(k, d)); pr.first->second = f(pr.first->second)`
  unfoldable pub insert_or : K → V → (V → V) → OrdMap K V → OrdMap K V
  insert_or k d f m = elim (find k m) [ some v ↦ assign k (f v) m | none ↦ place k (f d) m ]

  pub find-congr : (j k : K) (m : OrdMap K V) → eqv j k ≡ true → find j m ≡ find k m
  unfolding find
  find-congr j k [] e = refl
  find-congr j k ((i, v) ∷ m) e =
      ground (arith, find-congr j k m, eqv_congr j k i, eqv_symm i j, eqv_symm i k)

  pub find-place :
      (j k : K) (v : V) (m : OrdMap K V)
      → find k m ≡ none
      → find j (place k v m) ≡ (if eqv k j then some v else find j m)
  unfolding find place
  find-place j k v [] h = refl
  find-place j k v ((i, w) ∷ m) h =
      ground (arith, find-place j k v m, eqv_congr k j i, eqv_symm k i, eqv_symm j i)

  pub find-assign :
      (j k : K) (v w : V) (m : OrdMap K V)
      → find k m ≡ some w
      → find j (assign k v m) ≡ (if eqv k j then some v else find j m)
  unfolding find assign
  find-assign j k v w [] h = cc
  find-assign j k v w ((i, x) ∷ m) h = elim (Bool-cases (eqv i k)) [
    | inl e ↦ rw e (ground (arith, eqv_congr i k j))
    | inr e ↦
        rw e (ground (arith, find-assign j k v w m, eqv_congr k j i, eqv_symm k i, eqv_symm j i))
  ]

  pub find-erase :
      (j k : K) (m : OrdMap K V) → find j (erase k m) ≡ (if eqv k j then none else find j m)
  unfolding find erase
  find-erase j k [] = ground arith
  find-erase j k ((i, x) ∷ m) = elim (Bool-cases (eqv i k)) [
    | inl e ↦ rw e (ground (arith, find-erase j k m, eqv_congr i k j))
    | inr e ↦ rw e (ground (arith, find-erase j k m, eqv_congr k j i, eqv_symm k i, eqv_symm j i))
  ]

  pub find-insert :
      (j k : K) (v : V) (m : OrdMap K V)
      → find j (insert k v m) ≡ (if eqv k j then some (option_or (find k m) v) else find j m)
  unfolding insert
  find-insert j k v m = elim (Option-cases (find k m)) [
    | inl e ↦ rw e (find-place j k v m e)
    | inr (w, e) ↦ ground (arith, find-congr k j m)
  ]

  pub find-insert_or :
      (j k : K) (d : V) (f : V → V) (m : OrdMap K V)
      → find j (insert_or k d f m)
        ≡ (if eqv k j then some (f (option_or (find k m) d)) else find j m)
  unfolding insert_or
  find-insert_or j k d f m = elim (Option-cases (find k m)) [
    | inl e ↦ rw (e, insert_or) (find-place j k (f d) m e)
    | inr (w, e) ↦ rw (e, insert_or) (find-assign j k (f w) w m e)
  ]
