-- ===== src/OrdMap/Pairs.antt =====
-- A map into maps, as the code keeps the links of one actor to others: `insert` through
-- `insert(make_pair(src, dummy))`, and `erase` in what `find` gives.
use gce.Prelude.{
  ◌≡◌, refl, ap, ◌∙◌, sym, subst, Bool, true, false, ◌&&◌, ◌||◌, [], ◌∷◌, Option, none, some, arith,
  if◌then◌else◌, is_some, option_or, Bool-cases, Option-cases, inl, inr,
}
use gce.Key.{Key, eqv}
use gce.OrdMap.{
  OrdMap, find, insert, insert_or, assign, erase, place, find-congr, find-insert, find-insert_or,
  find-assign, find-erase,
}
use gce.OrdMap.Distinct.{Distinct, Distinct-insert_or, Distinct-assign}

module _ {ℓ κ} {K : Type ℓ} {V : Type κ} ⦃key : Key K⦄ where
  abbrev pub join : K → K → V → OrdMap K (OrdMap K V) → OrdMap K (OrdMap K V)
  join src des v m = insert_or src [] (insert des v) m

  abbrev pub part : K → K → OrdMap K (OrdMap K V) → OrdMap K (OrdMap K V)
  part src des m = elim (find src m) [ none ↦ m | some links ↦ assign src (erase des links) m ]

  abbrev among : K → Option (OrdMap K V) → Bool
  among des none = false
  among des (some links) = is_some (find des links)

  abbrev pub linked : K → K → OrdMap K (OrdMap K V) → Bool
  linked src des m = among des (find src m)

  pub linked-join :
      (i j src des : K) (v : V) (m : OrdMap K (OrdMap K V))
      → linked i j (join src des v m) ≡ ((eqv src i && eqv des j) || linked i j m)
  linked-join i j src des v m = elim (Bool-cases (eqv src i)) [
    | inr e ↦ rw (find-insert_or i src [] (insert des v) m, e, if◌then◌else◌) refl
    | inl e ↦ elim (Option-cases (find src m)) [
      | inl f ↦
          rw
            (
              find-insert_or i src [] (insert des v) m,
              e,
              if◌then◌else◌,
              f,
              option_or,
              find-insert j des v [],
              ← find-congr src i m e,
              f,
            )
            (unfold find in ground arith)
      | inr (links, f) ↦
          rw
            (
              find-insert_or i src [] (insert des v) m,
              e,
              if◌then◌else◌,
              f,
              option_or,
              find-insert j des v links,
              ← find-congr src i m e,
              f,
            )
            (ground arith)
    ]
  ]

  pub linked-part :
      (i j src des : K) (m : OrdMap K (OrdMap K V))
      → linked i j (part src des m) ≡ (if eqv src i && eqv des j then false else linked i j m)
  linked-part i j src des m = elim (Option-cases (find src m)) [
    | inl f ↦ rw (f, part) (ground (arith, find-congr src i m))
    | inr (links, f) ↦ elim (Bool-cases (eqv src i)) [
      | inr e ↦ rw (f, part, find-assign i src (erase des links) links m f, e, if◌then◌else◌) refl
      | inl e ↦
          rw
            (
              f,
              part,
              find-assign i src (erase des links) links m f,
              e,
              if◌then◌else◌,
              find-erase j des links,
              ← find-congr src i m e,
              f,
            )
            (ground arith)
    ]
  ]

  pub join-Distinct :
      (src des : K) (v : V) (m : OrdMap K (OrdMap K V)) → Distinct m → Distinct (join src des v m)
  join-Distinct src des v m d = Distinct-insert_or src [] (insert des v) m d

  pub part-Distinct :
      (src des : K) (m : OrdMap K (OrdMap K V)) → Distinct m → Distinct (part src des m)
  part-Distinct src des m d = elim (Option-cases (find src m)) [
    | inl f ↦ rw (f, part) d
    | inr (links, f) ↦ rw (f, part) (Distinct-assign src (erase des links) m d)
  ]

  -- The same by a search of the whole list, as a loop over it sees the pairs.
  abbrev pub held : K → K → OrdMap K (OrdMap K V) → Bool
  held i j [] = false
  held i j ((src, links) ∷ m) = (eqv src i && is_some (find j links)) || held i j m

  held-none :
      (i j : K) (m : OrdMap K (OrdMap K V)) → is_some (find i m) ≡ false → held i j m ≡ false
  unfolding find
  held-none i j [] n = refl
  held-none i j ((src, links) ∷ m) n = ground (arith, held-none i j m)

  pub held-linked : (i j : K) (m : OrdMap K (OrdMap K V)) → Distinct m → held i j m ≡ linked i j m
  unfolding find
  held-linked i j [] d = refl
  held-linked i j ((src, links) ∷ m) d = elim (Bool-cases (eqv src i)) [
    | inr e ↦ rw (e, if◌then◌else◌) (held-linked i j m d.1)
    | inl e ↦
        let free : is_some (find i m) ≡ false = ap is_some (sym (find-congr src i m e)) ∙ d.0 in
        rw (e, if◌then◌else◌, held-none i j m free) (ground arith)
  ]

-- What holds of every pair.
module _ {ℓ κ υ} {K : Type ℓ} {V : Type κ} ⦃key : Key K⦄ (P : K → K → V → Type υ) where
  abbrev pub EachOf : K → OrdMap K V → Type υ
  EachOf src [] = Unit
  EachOf src ((des, v) ∷ links) = P src des v × EachOf src links

  abbrev pub Each : OrdMap K (OrdMap K V) → Type υ
  Each [] = Unit
  Each ((src, links) ∷ m) = EachOf src links × Each m

  place-EachOf :
      (src des : K) (v : V) (links : OrdMap K V)
      → P src des v
      → EachOf src links
      → EachOf src (place des v links)
  unfolding place
  place-EachOf src des v [] p e = (p, tt)
  place-EachOf src des v ((j, w) ∷ links) p (q, e) = elim (Bool-cases (key.lt des j)) [
    | inl t ↦ rw t (p, (q, e))
    | inr f ↦ rw f (q, place-EachOf src des v links p e)
  ]

  insert-EachOf :
      (src des : K) (v : V) (links : OrdMap K V)
      → P src des v
      → EachOf src links
      → EachOf src (insert des v links)
  unfolding insert
  insert-EachOf src des v links p e = elim (Bool-cases (is_some (find des links))) [
    | inl t ↦ rw t e
    | inr f ↦ rw f (place-EachOf src des v links p e)
  ]

  erase-EachOf :
      (src des : K) (links : OrdMap K V) → EachOf src links → EachOf src (erase des links)
  unfolding erase
  erase-EachOf src des [] e = tt
  erase-EachOf src des ((j, w) ∷ links) (q, e) = elim (Bool-cases (eqv j des)) [
    | inl t ↦ rw t (erase-EachOf src des links e)
    | inr f ↦ rw f (q, erase-EachOf src des links e)
  ]

  place-Each :
      (src : K) (l : OrdMap K V) (m : OrdMap K (OrdMap K V))
      → EachOf src l
      → Each m
      → Each (place src l m)
  unfolding place
  place-Each src l [] p e = (p, tt)
  place-Each src l ((j, w) ∷ m) p (q, e) = elim (Bool-cases (key.lt src j)) [
    | inl t ↦ rw t (p, (q, e))
    | inr f ↦ rw f (q, place-Each src l m p e)
  ]

  assign-Each :
      (src : K) (f : OrdMap K V → OrdMap K V) (links : OrdMap K V) (m : OrdMap K (OrdMap K V))
      → find src m ≡ some links
      → ((j : K) (l : OrdMap K V) → eqv j src ≡ true → EachOf j l → EachOf j (f l))
      → Each m
      → Each (assign src (f links) m)
  unfolding assign find
  assign-Each src f links [] n keep e = tt
  assign-Each src f links ((j, w) ∷ m) n keep (q, e) = elim (Bool-cases (eqv j src)) [
    | inl t ↦
        let same : w ≡ links = ground arith in rw t (keep j links t (subst (EachOf j) same q), e)
    | inr g ↦
        let n' : find src m ≡ some links = rw (g, if◌then◌else◌) at n in
        rw g (q, assign-Each src f links m n' keep e)
  ]

  pub join-Each :
      ((i j des : K) (v : V) → eqv j i ≡ true → P i des v → P j des v)
      → (src des : K) (v : V) (m : OrdMap K (OrdMap K V)) → P src des v
      → Each m
      → Each (join src des v m)
  unfolding insert_or
  join-Each congr src des v m p e = elim (Option-cases (find src m)) [
    | inl n ↦
        rw (n, insert_or) (place-Each src (insert des v []) m (insert-EachOf src des v [] p tt) e)
    | inr (links, n) ↦
        rw (n, insert_or)
          (assign-Each src (insert des v) links m n
            (λ j l t q. insert-EachOf j des v l (congr src j des v t p) q) e)
  ]

  pub part-Each : (src des : K) (m : OrdMap K (OrdMap K V)) → Each m → Each (part src des m)
  part-Each src des m e = elim (Option-cases (find src m)) [
    | inl n ↦ rw (n, part) e
    | inr (links, n) ↦
        rw (n, part) (assign-Each src (erase des) links m n (λ j l t q. erase-EachOf j des l q) e)
  ]
