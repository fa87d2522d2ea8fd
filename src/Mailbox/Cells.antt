-- ===== src/Mailbox/Cells.antt =====
-- The nodes of `recv_que_`: what the match queues and the exit indices say of them.
use gce.Prelude.{
  ℕ, suc, ◌≤◌, ◌≡◌, refl, true, false, List, [], ◌∷◌, ◌++◌, map, Option, none, some, arith, ◌==◌,
  if◌then◌else◌, Bool-cases, inl, inr,
}
use mathlib.Core.Option
use gce.Mailbox.{Cell, deref, erase_cell, erase_itr}
use gce.Mailbox.Inbox.{
  Entry, ExitKey, key_of, same, same_symm, same_congr, drop_exit, take_type, exit_of,
}

abbrev pub entry : Cell → Entry
entry c = (c.src, c.msg)

abbrev pub view : List Cell → List Entry
view = map entry

abbrev pub cell_key : Cell → ExitKey
cell_key c = key_of c.src c.msg

-- The addresses of the messages of one type, oldest first.
abbrev pub addrs_of : ℕ → List Cell → List ℕ
addrs_of t [] = []
addrs_of t (c ∷ q) = if c.msg.type == t then c.addr ∷ addrs_of t q else addrs_of t q

-- The exit message of `k`.
abbrev pub holder : ExitKey → List Cell → Option Cell
holder k [] = none
holder k (c ∷ q) = if same (cell_key c) k then some c else holder k q

-- The list without the node at an address.
abbrev pub del : ℕ → List Cell → List Cell
del a [] = []
del a (c ∷ q) = if c.addr == a then q else c ∷ del a q

-- Addresses rise from `lo` and stay below `hi`.
abbrev pub Span : ℕ → ℕ → List Cell → Type 0
Span lo hi [] = lo ≤ hi
Span lo hi (c ∷ q) = (lo ≤ c.addr) × Span (suc c.addr) hi q

-- No two exit messages tell of the same sender.
abbrev pub NoTwins : List Cell → Type 0
NoTwins [] = Unit {0}
NoTwins (c ∷ q) = (holder (cell_key c) q ≡ none) × NoTwins q

pub Span-lo : (lo hi a : ℕ) (q : List Cell) (c : Cell) → Span lo hi q → deref a q ≡ some c → lo ≤ a
unfolding deref
Span-lo lo hi a [] c s e = cc
Span-lo lo hi a (d ∷ q) c s e = ground (arith, Span-lo (suc d.addr) hi a q c s.1)

pub Span-weaken : (lo lo' hi : ℕ) (q : List Cell) → lo ≤ lo' → Span lo' hi q → Span lo hi q
Span-weaken lo lo' hi [] h s = omega arith
Span-weaken lo lo' hi (c ∷ q) h s = (omega arith, s.1)

pub Span-del : (lo hi a : ℕ) (q : List Cell) → Span lo hi q → Span lo hi (del a q)
Span-del lo hi a [] s = s
Span-del lo hi a (c ∷ q) s = elim (Bool-cases (c.addr == a)) [
  | inl e ↦ rw e (Span-weaken lo (suc c.addr) hi q (omega arith) s.1)
  | inr e ↦ rw e (s.0, Span-del (suc c.addr) hi a q s.1)
]

pub Span-append :
    (lo hi : ℕ) (q : List Cell) (c : Cell)
    → Span lo hi q
    → c.addr ≡ hi
    → Span lo (suc hi) (q ++ (c ∷ []))
Span-append lo hi [] c s e = omega arith
Span-append lo hi (d ∷ q) c s e = (s.0, Span-append (suc d.addr) hi q c s.1 e)

pub erase_cell-del :
    (a : ℕ) (q : List Cell) (c : Cell) → deref a q ≡ some c → erase_cell a q ≡ some (del a q)
unfolding deref erase_cell
erase_cell-del a [] c e = cc
erase_cell-del a (d ∷ q) c e = elim (Bool-cases (d.addr == a)) [
  | inl h ↦ rw h
  | inr h ↦ rw (h, erase_cell-del a q c (ground arith))
]

pub addrs_of-append :
    (t : ℕ) (q : List Cell) (c : Cell)
    → addrs_of t (q ++ (c ∷ []))
      ≡ (if c.msg.type == t then addrs_of t q ++ (c.addr ∷ []) else addrs_of t q)
addrs_of-append t [] c = refl
addrs_of-append t (d ∷ q) c = rw (addrs_of-append t q c) (ground arith)

pub addrs_of-del_ne :
    (t a : ℕ) (q : List Cell) (c : Cell)
    → deref a q ≡ some c
    → (c.msg.type == t) ≡ false
    → addrs_of t (del a q) ≡ addrs_of t q
unfolding deref
addrs_of-del_ne t a [] c e n = refl
addrs_of-del_ne t a (d ∷ q) c e n = elim (Bool-cases (d.addr == a)) [
  | inl h ↦ rw h (ground arith)
  | inr h ↦ rw (h, addrs_of-del_ne t a q c (ground arith) n)
]

pub erase_itr-addrs_of :
    (t a : ℕ) (q : List Cell) (c : Cell)
    → deref a q ≡ some c
    → (c.msg.type == t) ≡ true
    → erase_itr a (addrs_of t q) ≡ some (addrs_of t (del a q))
unfolding deref erase_itr
erase_itr-addrs_of t a [] c e n = cc
erase_itr-addrs_of t a (d ∷ q) c e n = elim (Bool-cases (d.addr == a)) [
  | inl h ↦ rw h (ground arith)
  | inr h ↦ elim (Bool-cases (d.msg.type == t)) [
    | inl k ↦ rw (h, k, erase_itr) (rw (h, erase_itr-addrs_of t a q c (ground arith) n))
    | inr k ↦ rw (h, k) (erase_itr-addrs_of t a q c (ground arith) n)
  ]
]

pub holder-append :
    (k : ExitKey) (q : List Cell) (c : Cell)
    → holder k (q ++ (c ∷ []))
      ≡ Option.or_else (holder k q) (if same (cell_key c) k then some c else none)
unfolding Option.or_else
holder-append k [] c = refl
holder-append k (d ∷ q) c = rw (holder-append k q c) (ground arith)

pub holder-same : (j k : ExitKey) (q : List Cell) → same j k ≡ true → holder j q ≡ holder k q
holder-same j k [] h = refl
holder-same j k (c ∷ q) h = ground (
  arith,
  holder-same j k q,
  same_congr j k (cell_key c),
  same_symm j (cell_key c),
  same_symm k (cell_key c),
)

pub holder-key :
    (k : ExitKey) (q : List Cell) (c : Cell) → holder k q ≡ some c → same (cell_key c) k ≡ true
holder-key k [] c h = cc
holder-key k (d ∷ q) c h = ground (arith, holder-key k q c)

-- An iterator in an exit index points to its node.
pub deref-holder :
    (lo hi : ℕ) (k : ExitKey) (q : List Cell) (c : Cell)
    → Span lo hi q
    → holder k q ≡ some c
    → (deref c.addr q ≡ some c) × (lo ≤ c.addr)
unfolding deref
deref-holder lo hi k [] c s h = cc
deref-holder lo hi k (d ∷ q) c s h = ground (arith, deref-holder (suc d.addr) hi k q c s.1)

pub deref-append :
    (a : ℕ) (q : List Cell) (c d : Cell) → deref a q ≡ some d → deref a (q ++ (c ∷ [])) ≡ some d
unfolding deref
deref-append a [] c d h = cc
deref-append a (e ∷ q) c d h = ground (arith, deref-append a q c d)

pub del-append :
    (a : ℕ) (q : List Cell) (c d : Cell)
    → deref a q ≡ some d
    → del a (q ++ (c ∷ [])) ≡ del a q ++ (c ∷ [])
unfolding deref
del-append a [] c d h = cc
del-append a (e ∷ q) c d h = elim (Bool-cases (e.addr == a)) [
  | inl t ↦ rw t
  | inr t ↦ rw (t, del-append a q c d (ground arith))
]

pub holder-del-none :
    (a : ℕ) (k : ExitKey) (q : List Cell) → holder k q ≡ none → holder k (del a q) ≡ none
holder-del-none a k [] h = refl
holder-del-none a k (c ∷ q) h = elim (Bool-cases (c.addr == a)) [
  | inl t ↦ rw t (ground arith)
  | inr t ↦ rw t (ground (arith, holder-del-none a k q))
]

pub NoTwins-del : (a : ℕ) (q : List Cell) → NoTwins q → NoTwins (del a q)
NoTwins-del a [] n = tt
NoTwins-del a (c ∷ q) n = elim (Bool-cases (c.addr == a)) [
  | inl t ↦ rw t n.1
  | inr t ↦ rw t (holder-del-none a (cell_key c) q n.0, NoTwins-del a q n.1)
]

-- A key without a holder is the key of no node.
pub holder-eq-none :
    (a : ℕ) (k : ExitKey) (q : List Cell) (c : Cell)
    → deref a q ≡ some c
    → holder k q ≡ none
    → same (cell_key c) k ≡ false
unfolding deref
holder-eq-none a k [] c e h = cc
holder-eq-none a k (d ∷ q) c e h = ground (arith, holder-eq-none a k q c)

-- Without twins the removal of a node removes its exit message, and no other.
pub holder-del :
    (a : ℕ) (k : ExitKey) (q : List Cell) (c : Cell)
    → NoTwins q
    → deref a q ≡ some c
    → holder k (del a q) ≡ (if same (cell_key c) k then none else holder k q)
unfolding deref
holder-del a k [] c n h = cc
holder-del a k (d ∷ q) c n h = elim (Bool-cases (d.addr == a)) [
  | inl t ↦ rw t (ground (arith, holder-same (cell_key d) k q))
  | inr t ↦ rw t (
      ground (
        arith,
        holder-del a k q c n.1,
        holder-eq-none a (cell_key d) q c,
        same_congr (cell_key c) k (cell_key d),
        same_symm (cell_key d) k,
      ))
]

pub NoTwins-append :
    (q : List Cell) (c : Cell) → NoTwins q → holder (cell_key c) q ≡ none → NoTwins (q ++ (c ∷ []))
unfolding Option.or_else
NoTwins-append [] c n h = (refl, tt)
NoTwins-append (d ∷ q) c n h = (
  ground (arith, holder-append (cell_key d) q c, same_symm (cell_key c) (cell_key d)),
  NoTwins-append q c n.1 (ground arith),
)

-- The addresses of a type are those of its nodes; the first is the oldest message of the type.
pub take_type-view :
    (lo hi t a : ℕ) (rest : List ℕ) (q : List Cell)
    → Span lo hi q
    → addrs_of t q ≡ a ∷ rest
    → (c : Cell) × (deref a q ≡ some c)
      × ((c.msg.type == t) ≡ true)
      × (addrs_of t (del a q) ≡ rest)
      × (take_type t (view q) ≡ some (entry c, view (del a q)))
unfolding take_type deref
take_type-view lo hi t a rest [] s e = absurd (cc)
take_type-view lo hi t a rest (d ∷ q) s e = elim (Bool-cases (d.msg.type == t)) [
  | inl h ↦ (d, ground arith, h, ground arith, ground arith)
  | inr h ↦
      let (c, at, typed, left, taken) =
        take_type-view (suc d.addr) hi t a rest q s.1 (ground arith) in
      let far : (d.addr == a) ≡ false = ground (arith, Span-lo (suc d.addr) hi a q c s.1 at) in
      (c, rw (far) at, typed, rw (far, h) left, rw (far, h, taken))
]

pub take_type-view-none : (t : ℕ) (q : List Cell) → addrs_of t q ≡ [] → take_type t (view q) ≡ none
unfolding take_type
take_type-view-none t [] e = refl
take_type-view-none t (d ∷ q) e = ground (arith, take_type-view-none t q)

pub drop_exit-view :
    (lo hi : ℕ) (k : ExitKey) (q : List Cell) (c : Cell)
    → Span lo hi q
    → holder k q ≡ some c
    → drop_exit k (view q) ≡ view (del c.addr q)
unfolding drop_exit
drop_exit-view lo hi k [] c s h = cc
drop_exit-view lo hi k (d ∷ q) c s h = elim (Bool-cases (same (cell_key d) k)) [
  | inl e ↦ let near : (d.addr == c.addr) ≡ true = ground arith in rw (e, near)
  | inr e ↦
      let far : (d.addr == c.addr) ≡ false =
        ground (arith, deref-holder (suc d.addr) hi k q c s.1) in
      rw (e, far, drop_exit-view (suc d.addr) hi k q c s.1 (ground arith))
]

pub drop_exit-view-none :
    (k : ExitKey) (q : List Cell) → holder k q ≡ none → drop_exit k (view q) ≡ view q
unfolding drop_exit
drop_exit-view-none k [] h = refl
drop_exit-view-none k (d ∷ q) h = ground (arith, drop_exit-view-none k q)

pub exit_of-view :
    (k : ExitKey) (q : List Cell) → exit_of k (view q) ≡ Option.map entry (holder k q)
unfolding exit_of
exit_of-view k [] = refl
exit_of-view k (d ∷ q) = rw (exit_of-view k q) (ground arith)
