-- ===== src/Buffer/Holds.antt =====
-- A message has its bytes in a store, whatever is written elsewhere.
use gce.Prelude.{
  ℕ, zero, suc, ◌-◌, ◌≤◌, ◌<◌, ◌≡◌, ◌≢◌, refl, ap, sym, subst, ◌∙◌, Bool, false, List, [], ◌∷◌,
  Option, none, some, if◌then◌else◌, ◌==◌, ==_refl, length, arith, option_or, Bool-cases, inl, inr,
}
use gce.Message.Tags.{front}
use gce.Buffer.{Cell, Store, put, Place, small, large}

pub put-same : (a : ℕ) (c : Option Cell) (h : Store) → put a c h a ≡ c
put-same a c h = ap (λ (b : Bool). if b then c else h a) (==_refl a)

pub put-other : (a b : ℕ) (c : Option Cell) (h : Store) → (b == a) ≡ false → put a c h b ≡ h b
put-other a b c h e = ap (λ (t : Bool). if t then c else h b) e

pub length-front : (n : ℕ) (xs : List ℕ) → n ≤ length xs → length (front n xs) ≡ n
length-front zero xs l = omega arith
length-front (suc n) [] l = absurd (omega arith)
length-front (suc n) (x ∷ xs) l = let rest = length-front n xs (omega arith) in omega arith

pub length-zero : (xs : List ℕ) → length xs ≡ 0 → xs ≡ []
length-zero [] e = refl
length-zero (x ∷ xs) e = absurd (omega arith)

-- A message that has its bytes: in itself, whose size is `lim`, or in a cell that lives. They are no more than
-- its capacity, and that is no more than the cell has.
abbrev pub Holds : ℕ → List ℕ → Place → ℕ → ℕ → Store → Type 0
Holds lim bs (small bytes) top n h =
    (front n bytes ≡ bs) × (n ≡ length bs) × (n ≤ top) × (top ≡ lim)
Holds lim bs (large x) top n h =
    (cell : Cell) × (h x ≡ some cell)
    × (front n cell.bytes ≡ bs)
    × (n ≡ length bs)
    × (0 < cell.count)
    × (n ≤ top)
    × (top ≤ cell.size)

-- Two messages that share a cell are counted there.
abbrev pub Safe : Place → Place → Store → Type 0
Safe p q h = (x : ℕ) (cell : Cell) → p ≡ large x → q ≡ large x → h x ≡ some cell → 1 < cell.count

abbrev pub Alone : Place → Place → Type 0
Alone p q = (x : ℕ) → p ≡ large x → q ≢ large x

-- A write to a cell that is not that of a message.
pub put-Holds :
    (a : ℕ) (c : Option Cell) (h : Store) (lim : ℕ) (bs : List ℕ) (q : Place) (top n : ℕ)
    → q ≢ large a
    → Holds lim bs q top n h
    → Holds lim bs q top n (put a c h)
put-Holds a c h lim bs (small bytes) top n other k = k
put-Holds a c h lim bs (large x) top n other (cell, e, k, l, c', w, v) =
    elim (Bool-cases (x == a)) [
      | inl same ↦ absurd (other (ap large (ground arith)))
      | inr e' ↦ (cell, put-other a x c h e' ∙ e, k, l, c', w, v)
    ]

-- Where nothing lives, no message has its bytes.
pub none-other :
    (a : ℕ) (h : Store) (lim : ℕ) (bs : List ℕ) (q : Place) (top n : ℕ)
    → h a ≡ none
    → Holds lim bs q top n h
    → q ≢ large a
none-other a h lim bs (small bytes) top n e k = λ same. absurd cc
none-other a h lim bs (large x) top n e (cell, f, k, l, c, w, v) = λ same.
    let g : x ≡ a = ap (λ p. elim p [ large y ↦ y | small b ↦ 0 ]) same in
    let g' : h x ≡ none = ap h g ∙ e in absurd cc

pub front-all : (xs : List ℕ) → front (length xs) xs ≡ xs
front-all [] = refl
front-all (x ∷ xs) = ap (λ z. x ∷ z) (front-all xs)

pub front-len : (n : ℕ) (xs : List ℕ) → n ≡ length xs → front n xs ≡ xs
front-len n xs e = ap (λ k. front k xs) e ∙ front-all xs

-- One message less has the cell, which others still have.
pub less-Holds :
    (x : ℕ) (cell : Cell) (h : Store) (lim : ℕ) (bs : List ℕ) (q : Place) (top n : ℕ)
    → h x ≡ some cell
    → 1 < cell.count
    → Holds lim bs q top n h
    → Holds lim bs q top n (put x (some (record cell { count = cell.count - 1 })) h)
less-Holds x cell h lim bs (small bytes) top n e many k = k
less-Holds x cell h lim bs (large y) top n e many (c, f, k, l, p, w, v) =
    elim (Bool-cases (y == x)) [
      | inr other ↦ (c, put-other x y _ h other ∙ f, k, l, p, w, v)
      | inl same ↦
          let at : y ≡ x = ground arith in
          let here : c ≡ cell = ap (λ o. option_or o cell) (sym f ∙ ap h at ∙ e) in
          (
            record cell { count = cell.count - 1 },
            ap (put x _ h) at ∙ put-same x _ h,
            subst (λ z. front n z.bytes ≡ bs) here k,
            l,
            omega arith,
            w,
            subst (λ z. top ≤ z.size) here v,
          )
    ]
