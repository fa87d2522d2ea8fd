-- ===== src/NonBlocking/Queue/Order.antt =====
-- The pointers of `pack_queue_` into one cache queue go up.
use gce.Prelude.{
  ℕ, suc, ◌≤◌, ◌<◌, ◌≡◌, true, false, List, [], ◌∷◌, ◌++◌, arith, if◌then◌else◌, ◌==◌, Bool-cases,
  inl, inr,
}

-- The pointers into the queue `i` go up, from `lo` on and below `base`.
abbrev pub Above : ℕ → ℕ → ℕ → List (ℕ × ℕ) → Type 0
Above i lo base [] = Unit
Above i lo base ((j, k) ∷ ps) =
    if j == i then (lo ≤ k) × (k < base) × Above i (suc k) base ps else Above i lo base ps

pub Above-lower :
    (i lo low base : ℕ) (ps : List (ℕ × ℕ)) → low ≤ lo → Above i lo base ps → Above i low base ps
Above-lower i lo low base [] l a = tt
Above-lower i lo low base ((j, k) ∷ ps) l a = elim (Bool-cases (j == i)) [
  | inl t ↦ let (g, b, rest) = rw t at a in rw t (omega arith, b, rest)
  | inr f ↦ rw f (Above-lower i lo low base ps l (rw f at a))
]

pub Above-next :
    (i lo base : ℕ) (ps : List (ℕ × ℕ))
    → lo ≤ base
    → Above i lo base ps
    → Above i lo (suc base) (ps ++ ((i, base) ∷ []))
Above-next i lo base [] l a =
    let same : (i == i) ≡ true = ground arith in rw same (l, omega arith, tt)
Above-next i lo base ((j, k) ∷ ps) l a = elim (Bool-cases (j == i)) [
  | inl t ↦
      let (g, b, rest) = rw t at a in
      rw t (g, omega arith, Above-next i (suc k) base ps (omega arith) rest)
  | inr f ↦ rw f (Above-next i lo base ps l (rw f at a))
]

pub Above-other :
    (i lo base j k : ℕ) (ps : List (ℕ × ℕ))
    → (j == i) ≡ false
    → Above i lo base ps
    → Above i lo base (ps ++ ((j, k) ∷ []))
Above-other i lo base j k [] e a = rw e tt
Above-other i lo base j k ((h, m) ∷ ps) e a = elim (Bool-cases (h == i)) [
  | inl t ↦ let (g, b, rest) = rw t at a in rw t (g, b, Above-other i (suc m) base j k ps e rest)
  | inr f ↦ rw f (Above-other i lo base j k ps e (rw f at a))
]

-- The first pointer, and those that follow it.
pub Above-first :
    (lo base i k : ℕ) (ps : List (ℕ × ℕ))
    → Above i lo base ((i, k) ∷ ps)
    → (lo ≤ k) × (k < base) × Above i (suc k) base ps
Above-first lo base i k ps a = let same : (i == i) ≡ true = ground arith in rw same at a

pub Above-rest :
    (i lo base j k : ℕ) (ps : List (ℕ × ℕ)) → Above i lo base ((j, k) ∷ ps) → Above i lo base ps
Above-rest i lo base j k ps a = elim (Bool-cases (j == i)) [
  | inl t ↦ let (g, b, rest) = rw t at a in Above-lower i (suc k) lo base ps (omega arith) rest
  | inr f ↦ rw f at a
]
