-- ===== src/NonBlocking/Queue/Segment.antt =====
-- A cache queue holds the packs whose indices run from `head_` to `index_base_`.
use gce.Prelude.{
  ℕ, zero, suc, ◌+◌, ◌≤◌, ◌<◌, ◌≡◌, refl, false, List, [], ◌∷◌, ◌++◌, some, arith, ◌==◌, length,
  Bool-cases, inl, inr,
}
use gce.Message.{Pack}
use gce.NonBlocking.Queue.{drop, lookup, head_of}

abbrev pub Segment : ℕ → List Pack → Type 0
Segment h [] = Unit
Segment h (p ∷ ps) = (p.cache_index ≡ h) × Segment (suc h) ps

pub lookup-drop :
    (h k n : ℕ) (ps : List Pack) → Segment h ps → h + n ≤ k → lookup k (drop n ps) ≡ lookup k ps
lookup-drop h k zero ps s l = refl
lookup-drop h k (suc n) [] s l = refl
lookup-drop h k (suc n) (p ∷ ps) (e, s) l =
    let other : (p.cache_index == k) ≡ false = ground arith in
    rw other (lookup-drop (suc h) k n ps s (omega arith))

pub drop-Segment :
    (h n m : ℕ) (ps : List Pack) → Segment h ps → n ≤ length ps → m ≡ h + n → Segment m (drop n ps)
drop-Segment h zero m ps s l e = let same : m ≡ h = omega arith in rw same s
drop-Segment h (suc n) m [] s l e = tt
drop-Segment h (suc n) m (p ∷ ps) (f, s) l e =
    drop-Segment (suc h) n m ps s (omega arith) (omega arith)

pub length-drop : (n : ℕ) (ps : List Pack) → n ≤ length ps → length (drop n ps) + n ≡ length ps
length-drop zero ps l = omega arith
length-drop (suc n) [] l = omega arith
length-drop (suc n) (p ∷ ps) l = let rest = length-drop n ps (omega arith) in omega arith

pub append-Segment :
    (h : ℕ) (ps : List Pack) (p : Pack)
    → Segment h ps
    → p.cache_index ≡ h + length ps
    → Segment h (ps ++ (p ∷ []))
append-Segment h [] p s e = (omega arith, tt)
append-Segment h (q ∷ ps) p (f, s) e = (f, append-Segment (suc h) ps p s (omega arith))

pub lookup-kept :
    (k : ℕ) (ps : List Pack) (p q : Pack)
    → lookup k ps ≡ some q
    → lookup k (ps ++ (p ∷ [])) ≡ some q
lookup-kept k [] p q e = cc
lookup-kept k (r ∷ ps) p q e = ground (arith, lookup-kept k ps p q)

pub lookup-last :
    (h : ℕ) (ps : List Pack) (p : Pack)
    → Segment h ps
    → p.cache_index ≡ h + length ps
    → lookup (h + length ps) (ps ++ (p ∷ [])) ≡ some p
lookup-last h [] p s e = ground arith
lookup-last h (q ∷ ps) p (f, s) e = ground (arith, lookup-last (suc h) ps p s)

pub lookup-inside :
    (h k : ℕ) (ps : List Pack)
    → Segment h ps
    → h ≤ k
    → k < h + length ps
    → (p : Pack) × (lookup k ps ≡ some p) × (p.cache_index ≡ k)
lookup-inside h k [] s l g = absurd (omega arith)
lookup-inside h k (p ∷ ps) (e, s) l g = elim (Bool-cases (p.cache_index == k)) [
  | inl t ↦ (p, rw t refl, ground arith)
  | inr f ↦
      let (q, there, index) = lookup-inside (suc h) k ps s (ground arith) (omega arith) in
      (q, rw f there, index)
]

pub head_of-drop :
    (h n base : ℕ) (ps : List Pack)
    → Segment h ps
    → n ≤ length ps
    → h + length ps ≡ base
    → head_of (drop n ps) base ≡ h + n
unfolding head_of
head_of-drop h zero base [] s l e = omega arith
head_of-drop h zero base (p ∷ ps) (f, s) l e = omega arith
head_of-drop h (suc n) base [] s l e = absurd (omega arith)
head_of-drop h (suc n) base (p ∷ ps) (f, s) l e =
    let rest = head_of-drop (suc h) n base ps s (omega arith) (omega arith) in omega arith
