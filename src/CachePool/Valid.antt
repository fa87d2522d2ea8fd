-- ===== src/CachePool/Valid.antt =====
-- The iterators of a pool point into their containers, whatever is registered, deregistered and
-- selected.
use gce.Prelude.{
  ℕ, ◌≡◌, refl, sym, ap, subst, ◌∙◌, option_or, Bool, true, false, [], ◌∷◌, Option, none, some,
  arith, if◌then◌else◌, is_some, length, ◌==◌, Bool-cases, Option-cases, inl, inr,
}
use gce.Key.{Key, nat_key, eqv, eqv_refl}
use gce.OrdMap.{
  OrdMap, find, place, insert, insert_or, assign, erase, find-insert, find-insert_or, find-assign,
  find-congr,
}
use gce.OrdMap.Distinct.{
  Distinct, Distinct-insert, Distinct-insert_or, Distinct-assign, Distinct-erase,
}
use gce.Ids.{ActorId}
use gce.Ids.Order.{aid_key}
use gce.CachePool.{SocketList, ConnList, empty_list, add_skt, register_in, deregister_in}
use gce.CachePool.Ring.{begin, after, advance, find-after}

module _ {ℓ κ} {K : Type ℓ} {V : Type κ} ⦃key : Key K⦄ where
  abbrev pub is_empty : OrdMap K V → Bool
  is_empty [] = true
  is_empty (e ∷ m) = false

  -- An iterator is at the end only of an empty container.
  abbrev pub points : OrdMap K V → Option K → Bool
  points m none = is_empty m
  points m (some k) = is_some (find k m)

  points-begin : (m : OrdMap K V) → points m (begin m) ≡ true
  unfolding begin
  points-begin [] = refl
  points-begin ((k, v) ∷ m) = unfold find in rw (eqv_refl k)

  pub points-advance :
      (k : K) (m : OrdMap K V) → is_some (find k m) ≡ true → points m (advance k m) ≡ true
  unfolding advance
  points-advance k m t = elim (Option-cases (after k m)) [
    | inl n ↦ rw (n, advance) (points-begin m)
    | inr (i, n) ↦ rw (n, advance) (find-after k i m n)
  ]

  -- `if (size() == 1) itr = begin();` after an insertion.
  points-step :
      (m m' : OrdMap K V) (c : Option K)
      → ((k : K) → is_some (find k m) ≡ true → is_some (find k m') ≡ true)
      → (is_empty m ≡ true → length m' ≡ 1)
      → points m c ≡ true
      → points m' (if length m' == 1 then begin m' else c) ≡ true
  points-step m m' c grows one p = elim (Bool-cases (length m' == 1)) [
    | inl t ↦ rw t (points-begin m')
    | inr f ↦ rw f (kept c p (λ e. cc (ap (λ n. n == 1) (one e))))
  ]
    where
      kept :
          (d : Option K)
          → points m d ≡ true
          → (is_empty m ≡ true → points m' none ≡ true)
          → points m' d ≡ true
      kept none q still = still q
      kept (some k) q still = grows k q

  points-assign :
      (k : K) (v w : V) (m : OrdMap K V) (c : Option K)
      → find k m ≡ some w
      → points (assign k v m) c ≡ points m c
  points-assign k v w [] c e = unfold assign in refl
  points-assign k v w ((j, x) ∷ m) none e = unfold assign in ground arith
  points-assign k v w ((j, x) ∷ m) (some i) e =
      ground (arith, find-assign i k v w ((j, x) ∷ m), find-congr k i ((j, x) ∷ m))

  length-insert_empty :
      (k : K) (v : V) (m : OrdMap K V) → is_empty m ≡ true → length (insert k v m) ≡ 1
  unfolding insert find place
  length-insert_empty k v [] e = refl
  length-insert_empty k v (x ∷ m) e = cc

  length-insert_or_empty :
      (k : K) (d : V) (f : V → V) (m : OrdMap K V)
      → is_empty m ≡ true
      → length (insert_or k d f m) ≡ 1
  unfolding insert_or find place
  length-insert_or_empty k d f [] e = refl
  length-insert_or_empty k d f (x ∷ m) e = cc

pub record ValidList (l : SocketList) : Type 0 where
  pub distinct : Distinct l.skt_list
  pub cursor : points l.skt_list l.curr_skt ≡ true

pub record ValidConns (c : ConnList) : Type 0 where
  pub distinct : Distinct c.list
  pub cursor : points c.list c.curr ≡ true
  pub lists : (k : ℕ) (l : SocketList) → find k c.list ≡ some l → ValidList l

add_skt-ValidList : (skt : ActorId) (l : SocketList) → ValidList l → ValidList (add_skt skt l)
unfolding add_skt
add_skt-ValidList skt l v = record {
  distinct = Distinct-insert skt tt l.skt_list v.distinct;
  cursor =
      points-step l.skt_list (insert skt tt l.skt_list) l.curr_skt
        (λ k t. ground (arith, find-insert k skt tt l.skt_list))
        (length-insert_empty skt tt l.skt_list) v.cursor;
}

erased-ValidList :
    (skt : ActorId) (l : SocketList)
    → ValidList l
    → ValidList
        (record { skt_list = erase skt l.skt_list; curr_skt = begin (erase skt l.skt_list) })
erased-ValidList skt l v = record {
  distinct = Distinct-erase skt l.skt_list v.distinct;
  cursor = points-begin (erase skt l.skt_list);
}

empty_list-ValidList : ValidList empty_list
empty_list-ValidList = record { distinct = tt; cursor = refl }

-- A value of a container after an overwriting, or after `insert_or`.
lists-step :
    (k : ℕ) (new old : Option SocketList) (b : Bool) (l' m : SocketList)
    → new ≡ (if b then some l' else old)
    → ValidList l'
    → (old ≡ some m → ValidList m)
    → new ≡ some m
    → ValidList m
lists-step k new old true l' m e w kept f = let equal : l' ≡ m = cc in subst ValidList equal w
lists-step k new old false l' m e w kept f = kept (sym e ∙ f)

-- One list is replaced.
pub assigned-ValidConns :
    (ctxid : ℕ) (l' : SocketList) (c : ConnList) (l : SocketList)
    → find ctxid c.list ≡ some l
    → ValidList l'
    → ValidConns c
    → ValidConns (record c { list = assign ctxid l' c.list })
assigned-ValidConns ctxid l' c l e w v = record {
  distinct = Distinct-assign ctxid l' c.list v.distinct;
  cursor = rw (points-assign ctxid l' l c.list c.curr e) v.cursor;
  lists = λ k m.
      lists-step k _ (find k c.list) (eqv ctxid k) l' m (find-assign k ctxid l' l c.list e) w
        (v.lists k m);
}

-- The iterator moves on.
pub turned-ValidConns :
    (ctxid : ℕ) (c : ConnList)
    → is_some (find ctxid c.list) ≡ true
    → ValidConns c
    → ValidConns (record c { curr = advance ctxid c.list })
turned-ValidConns ctxid c e v = record {
  distinct = v.distinct;
  cursor = points-advance ctxid c.list e;
  lists = v.lists;
}

pub register_in-ValidConns :
    (ctxid : ℕ) (skt : ActorId) (c : ConnList) → ValidConns c → ValidConns (register_in ctxid skt c)
unfolding register_in
register_in-ValidConns ctxid skt c v = record {
  distinct = Distinct-insert_or ctxid empty_list (add_skt skt) c.list v.distinct;
  cursor =
      points-step c.list (insert_or ctxid empty_list (add_skt skt) c.list) c.curr
        (λ k t. ground (arith, find-insert_or k ctxid empty_list (add_skt skt) c.list))
        (length-insert_or_empty ctxid empty_list (add_skt skt) c.list) v.cursor;
  lists = λ k m.
      lists-step k _ (find k c.list) (eqv ctxid k)
        (add_skt skt (option_or (find ctxid c.list) empty_list)) m
        (find-insert_or k ctxid empty_list (add_skt skt) c.list)
        (add_skt-ValidList skt _ (known (find ctxid c.list) refl)) (v.lists k m);
}
  where
    known : (o : Option SocketList) → find ctxid c.list ≡ o → ValidList (option_or o empty_list)
    known none e = empty_list-ValidList
    known (some l) e = v.lists ctxid l e

pub deregister_in-ValidConns :
    (ctxid : ℕ) (skt : ActorId) (c : ConnList)
    → ValidConns c
    → ValidConns (deregister_in ctxid skt c)
unfolding deregister_in
deregister_in-ValidConns ctxid skt c v = elim (Option-cases (find ctxid c.list)) [
  | inl n ↦ rw (n, deregister_in) v
  | inr (l, n) ↦
      rw (n, deregister_in)
        (assigned-ValidConns ctxid _ c l n (erased-ValidList skt l (v.lists ctxid l n)) v)
]
