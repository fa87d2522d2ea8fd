-- ===== src/CachePool/Select.antt =====
-- Selection never faults, and goes round the sockets of a list.
use gce.Prelude.{
  ℕ, ◌≡◌, refl, true, false, List, [], ◌∷◌, ◌++◌, Option, none, some, ◌==◌, Bool-cases,
  Option-cases, inl, inr, ◌>>=◌,
}
use gce.Key.{nat_key}
use gce.OrdMap.{OrdMap, find, assign}
use gce.OrdMap.Distinct.{Distinct}
use gce.Ids.{ActorId, nil_aid, ctxid_nil}
use gce.Ids.Order.{aid_key}
use gce.CachePool.{SocketList, ConnList}
use gce.CachePool.Ring.{advance, ring, ring-advance}
use gce.CachePool.Sockets.{turn_of, take_turn, next_from, next_list, list_of, select_in}
use gce.CachePool.Valid.{
  points, is_empty, points-advance, ValidList, ValidConns, assigned-ValidConns, turned-ValidConns,
}

-- The sockets of a list, as a ring that starts at the next one.
abbrev pub skts : SocketList → List ActorId
skts l = ring l.curr_skt l.skt_list

turn_of-ring :
    (m : OrdMap ActorId (Unit {0})) (c : Option ActorId)
    → Distinct m
    → points m c ≡ true
    → is_empty m ≡ false
    → (skt : ActorId) × (c' : Option ActorId) × (rest : List ActorId) × (turn_of m c
        ≡ some (skt, c'))
      × (points m c' ≡ true)
      × (ring c m ≡ skt ∷ rest)
      × (ring c' m ≡ rest ++ (skt ∷ []))
unfolding turn_of
turn_of-ring [] c d p e = absurd (cc)
turn_of-ring (x ∷ m) none d p e = absurd (cc)
turn_of-ring (x ∷ m) (some k) d p e =
    let (skt, rest, there, now, later) = ring-advance k (x ∷ m) d p in
    (skt, advance k (x ∷ m), rest, rw there, points-advance k (x ∷ m) p, now, later)

-- A turn of a valid list that has sockets gives the first socket of the ring that starts at the
-- iterator, turns that ring by one place, and leaves the sockets as they are and the list valid.
pub take_turn-ring :
    (l : SocketList)
    → ValidList l
    → is_empty l.skt_list ≡ false
    → (skt : ActorId) × (rest : List ActorId) × (l' : SocketList) × (take_turn l ≡ some (skt, l'))
      × (skts l ≡ skt ∷ rest)
      × (skts l' ≡ rest ++ (skt ∷ []))
      × (l'.skt_list ≡ l.skt_list)
      × ValidList l'
unfolding take_turn
take_turn-ring l v e =
    let (skt, itr, rest, turn, cursor, now, later) =
      turn_of-ring l.skt_list l.curr_skt v.distinct v.cursor e in
    (
      skt,
      rest,
      record l { curr_skt = itr },
      rw turn,
      now,
      later,
      refl,
      record { distinct = v.distinct; cursor = cursor },
    )

abbrev Turns : SocketList → Option (ActorId × SocketList) → Type 0
Turns l out = (skt : ActorId) × (l' : SocketList) × (out ≡ some (skt, l')) × ValidList l'

turn_of-nil :
    (m : OrdMap ActorId (Unit {0})) (c : Option ActorId)
    → is_empty m ≡ true
    → turn_of m c ≡ some (nil_aid, c)
unfolding turn_of
turn_of-nil [] c e = refl
turn_of-nil (x ∷ m) c e = cc

take_turn-Turns : (l : SocketList) → ValidList l → Turns l (take_turn l)
take_turn-Turns l v = elim (Bool-cases (is_empty l.skt_list)) [
  | inl e ↦ (nil_aid, l, unfold take_turn in rw (turn_of-nil l.skt_list l.curr_skt e), v)
  | inr e ↦ let (skt, _, l', turn, _, _, _, w) = take_turn-ring l v e in (skt, l', turn, w)
]

-- What a selection gives in a valid state: no fault, and a valid state.
abbrev pub Selects {ℓ} : {S : Type 0} → (S → Type ℓ) → Option (ActorId × Option ℕ × S) → Type ℓ
Selects {S} P out =
    (skt : ActorId) × (target : Option ℕ) × (s : S) × (out ≡ some (skt, target, s)) × P s

next_from-Selects :
    (m : OrdMap ℕ SocketList) (c : Option ℕ)
    → ValidConns (record { list = m; curr = c })
    → Selects ValidConns (next_from m c)
unfolding next_from
next_from-Selects [] c v = (nil_aid, none, record { list = []; curr = c }, refl, v)
next_from-Selects (x ∷ m) none v = absurd (let h = v.cursor in cc)
next_from-Selects (x ∷ m) (some k) v = elim (Option-cases (find k (x ∷ m))) [
  | inl n ↦ absurd (let h = v.cursor in cc n)
  | inr (l, n) ↦
      let (skt, l', turn, w) = take_turn-Turns l (v.lists k l n) in
      let turned = turned-ValidConns k _ v.cursor v in
      (
        skt,
        some k,
        record { list = assign k l' (x ∷ m); curr = advance k (x ∷ m) },
        rw (n, next_from, turn, ◌>>=◌),
        assigned-ValidConns k l' _ l n w turned,
      )
]

pub next_list-Selects : (c : ConnList) → ValidConns c → Selects ValidConns (next_list c)
unfolding next_list
next_list-Selects c v = next_from-Selects c.list c.curr v

list_of-Selects : (ctxid : ℕ) (c : ConnList) → ValidConns c → Selects ValidConns (list_of ctxid c)
unfolding list_of
list_of-Selects ctxid c v = elim (Option-cases (find ctxid c.list)) [
  | inl n ↦ (nil_aid, none, c, rw (n, list_of), v)
  | inr (l, n) ↦
      let (skt, l', turn, w) = take_turn-Turns l (v.lists ctxid l n) in
      (
        skt,
        none,
        record c { list = assign ctxid l' c.list },
        rw (n, list_of, turn, ◌>>=◌),
        assigned-ValidConns ctxid l' c l n w v,
      )
]

pub select_in-Selects :
    (ctxid : ℕ) (c : ConnList) → ValidConns c → Selects ValidConns (select_in ctxid c)
unfolding select_in
select_in-Selects ctxid c v = elim (Bool-cases (ctxid == ctxid_nil)) [
  | inl e ↦ rw e (next_list-Selects c v)
  | inr e ↦ rw e (list_of-Selects ctxid c v)
]
