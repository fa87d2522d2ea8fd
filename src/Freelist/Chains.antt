-- ===== src/Freelist/Chains.antt =====
-- The objects that a pointer leads to by way of `next_obj_`.
use gce.Prelude.{
  ℕ, ◌≡◌, ap, ◌∙◌, Bool, false, ◌||◌, List, [], ◌∷◌, Option, none, some, if◌then◌else◌, ◌==◌,
  ==_refl, arith,
}
use gce.Freelist.{Heap, write}

abbrev pub mem : ℕ → List ℕ → Bool
mem a [] = false
mem a (x ∷ xs) = a == x || mem a xs

abbrev pub Chain : Heap → Option ℕ → List ℕ → Type 0
Chain h none [] = Unit
Chain h none (x ∷ xs) = ⊥
Chain h (some a) [] = ⊥
Chain h (some a) (x ∷ xs) = (a ≡ x) × ((next : Option ℕ) × (h x ≡ some next) × Chain h next xs)

-- The objects of the first list are different, and none of them is in the second.
abbrev pub Apart : List ℕ → List ℕ → Type 0
Apart [] xs = Unit
Apart (y ∷ ys) xs = (mem y ys ≡ false) × (mem y xs ≡ false) × Apart ys xs

pub write-same : (a : ℕ) (v : Option (Option ℕ)) (h : Heap) → write a v h a ≡ v
write-same a v h = ap (λ (b : Bool). if b then v else h a) (==_refl a)

pub write-other :
    (a b : ℕ) (v : Option (Option ℕ)) (h : Heap) → (b == a) ≡ false → write a v h b ≡ h b
write-other a b v h e = ap (λ (c : Bool). if c then v else h b) e

-- A write to another object leaves a chain as it is.
pub write-Chain :
    (a : ℕ) (v : Option (Option ℕ)) (h : Heap) (o : Option ℕ) (xs : List ℕ)
    → mem a xs ≡ false
    → Chain h o xs
    → Chain (write a v h) o xs
write-Chain a v h none [] n c = tt
write-Chain a v h none (x ∷ xs) n c = elim c [ ]
write-Chain a v h (some b) [] n c = elim c [ ]
write-Chain a v h (some b) (x ∷ xs) n (same, (next, e, c)) = (
  same,
  (next, write-other a x v h (ground arith) ∙ e, write-Chain a v h next xs (ground (arith)) c),
)

pub Apart-cons : (y : ℕ) (ys xs : List ℕ) → mem y ys ≡ false → Apart ys xs → Apart ys (y ∷ xs)
Apart-cons y [] xs n a = tt
Apart-cons y (z ∷ ys) xs n (l, m, a) = (l, ground (arith), Apart-cons y ys xs (ground (arith)) a)
