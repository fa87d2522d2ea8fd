-- ===== src/Socket/Links.antt =====
-- The links that pass a socket, over any calls that change them.
use gce.Prelude.{
  ℕ, ◌≡◌, refl, ap, sym, subst, ◌∙◌, Bool, true, false, ◌&&◌, ◌||◌, List, [], ◌∷◌, ◌++◌, some,
  arith, if◌then◌else◌, ◌>>=◌, map, Bool-cases, Option-cases, inl, inr,
}
use gce.Key.{eqv}
use gce.OrdMap.{OrdMap, find, find-congr}
use gce.OrdMap.Distinct.{Distinct}
use gce.OrdMap.Pairs.{
  part, linked, linked-join, linked-part, join-Distinct, part-Distinct, held-linked, Each,
  join-Each, part-Each,
}
use gce.Ids.{ActorId, nil_aid, aid_ok, aid_eq}
use gce.Ids.Order.{aid_key, eqv-aid_eq}
use gce.Atom.{exit_type}
use gce.Message.{new_message}
use gce.BasicActor.{BasicActor, Sent, WriteExit}
use gce.BasicActor.Requests.{Here}
use gce.Socket.{
  Socket, sends, exit_neterr, on_neterr, add_straight_link, remove_straight_link, add_router_link,
  remove_router_link, drop_router_link,
}
use gce.Socket.Losses.{
  informed, informed-append, all_lost, informed-all_lost, straight_target, straight_tag,
  route_target, route_tag, StraightHere, RouteHere, lose_straight-Here, lose_routed-Here,
}

pub data TieCall : Type 0 where
  ties : ActorId → ActorId → TieCall
  unties : ActorId → ActorId → TieCall
  routes : ActorId → ActorId → ActorId → TieCall
  unroutes : ActorId → ActorId → TieCall

unfoldable pub tie_step : TieCall → Socket → Socket
tie_step (ties src des) s = add_straight_link src des s
tie_step (unties src des) s = remove_straight_link src des s
tie_step (routes src des skt) s = add_router_link src des skt s
tie_step (unroutes src des) s = (remove_router_link src des s).1

unfoldable pub tie_run : List TieCall → Socket → Socket
tie_run [] s = s
tie_run (c ∷ cs) s = tie_run cs (tie_step c s)

-- Whether `i` and `j` are linked, straight and through a router, by the calls alone.
abbrev names_pair : ActorId → ActorId → ActorId → ActorId → Bool
names_pair i j src des = aid_ok des && (eqv src i && eqv des j)

abbrev tied_step : ActorId → ActorId → TieCall → Bool × Bool → Bool × Bool
tied_step i j (ties src des) (a, b) = (names_pair i j src des || a, b)
tied_step i j (unties src des) (a, b) = (if names_pair i j src des then false else a, b)
tied_step i j (routes src des skt) (a, b) = (a, names_pair i j src des || b)
tied_step i j (unroutes src des) (a, b) = (a, if names_pair i j src des then false else b)

abbrev pub tied_after : ActorId → ActorId → List TieCall → Bool × Bool → Bool × Bool
tied_after i j [] t = t
tied_after i j (c ∷ cs) t = tied_after i j cs (tied_step i j c t)

-- Each link that is added leads to an actor, or a socket, of this run of the context.
abbrev pub TiesHere : BasicActor → List TieCall → Type 0
TiesHere b [] = Unit
TiesHere b (ties src des ∷ cs) = Here src b × TiesHere b cs
TiesHere b (routes src des skt ∷ cs) = Here skt b × TiesHere b cs
TiesHere b (unties src des ∷ cs) = TiesHere b cs
TiesHere b (unroutes src des ∷ cs) = TiesHere b cs

abbrev ties_of : ActorId → ActorId → Socket → Bool × Bool
ties_of i j s = (linked i j s.straight_link_list, linked i j s.router_link_list)

linked-drop :
    (i j src des : ActorId) (s : Socket)
    → linked i j (drop_router_link src des s).1.router_link_list
      ≡ (if eqv src i && eqv des j then false else linked i j s.router_link_list)
unfolding drop_router_link
linked-drop i j src des s = elim (Option-cases (find src s.router_link_list)) [
  | inl n ↦ rw (n, drop_router_link) (ground (arith, find-congr src i s.router_link_list))
  | inr (links, n) ↦ elim (Option-cases (find des links)) [
    | inl f ↦
        rw (n, drop_router_link, f)
          (ground (arith, find-congr src i s.router_link_list, find-congr des j links))
    | inr (skt, f) ↦
        let removed = linked-part i j src des s.router_link_list in
        rw (n, drop_router_link, f) (rw (n, part) at removed)
  ]
]

drop_same :
    (src des : ActorId) (s : Socket)
    → (P : OrdMap ActorId (OrdMap ActorId ActorId) → Type 0) → P s.router_link_list
    → P (part src des s.router_link_list)
    → P (drop_router_link src des s).1.router_link_list
unfolding drop_router_link
drop_same src des s P p q = elim (Option-cases (find src s.router_link_list)) [
  | inl n ↦ rw (n, drop_router_link) p
  | inr (links, n) ↦ elim (Option-cases (find des links)) [
    | inl f ↦ rw (n, drop_router_link, f) p
    | inr (skt, f) ↦ rw (n, drop_router_link, f) (rw (n, part) at q)
  ]
]

drop_rest :
    (src des : ActorId) (s : Socket)
    → ((drop_router_link src des s).1.base ≡ s.base)
      × ((drop_router_link src des s).1.straight_link_list ≡ s.straight_link_list)
unfolding drop_router_link
drop_rest src des s = elim (Option-cases (find src s.router_link_list)) [
  | inl n ↦ rw (n, drop_router_link) (refl, refl)
  | inr (links, n) ↦ elim (Option-cases (find des links)) [
    | inl f ↦ rw (n, drop_router_link, f) (refl, refl)
    | inr (skt, f) ↦ rw (n, drop_router_link, f) (refl, refl)
  ]
]

-- What holds of the links between two calls.
record Tied (b : BasicActor) (s : Socket) : Type 0 where
  pub base : s.base ≡ b
  pub straight : Each (StraightHere b) s.straight_link_list
  pub routed : Each (RouteHere b) s.router_link_list
  pub straight_distinct : Distinct s.straight_link_list
  pub routed_distinct : Distinct s.router_link_list

Here-congr : (b : BasicActor) (i j : ActorId) → eqv j i ≡ true → Here i b → Here j b
Here-congr b i j e h =
    let same : aid_eq j i ≡ true = sym (eqv-aid_eq j i) ∙ e in
    unfold aid_eq in
    record {
      ctxid = let a = h.ctxid in ground arith;
      timestamp = let a = h.timestamp in ground arith;
      ok = let a = h.ok in ground arith;
    }

abbrev Stepped : BasicActor → TieCall → Socket → Type 0
Stepped b c s =
    Tied b (tie_step c s)
    × ((i j : ActorId) → ties_of i j (tie_step c s) ≡ tied_step i j c (ties_of i j s))

moved-Stepped :
    (b : BasicActor) (c : TieCall) (s t : Socket)
    → tie_step c s ≡ t
    → Tied b t × ((i j : ActorId) → ties_of i j t ≡ tied_step i j c (ties_of i j s))
    → Stepped b c s
moved-Stepped b c s t e p =
    subst (λ u. Tied b u × ((i j : ActorId) → ties_of i j u ≡ tied_step i j c (ties_of i j s)))
      (sym e) p

tie-Stepped :
    (b : BasicActor) (c : TieCall) (s : Socket) → TiesHere b (c ∷ []) → Tied b s → Stepped b c s
unfolding tie_step add_straight_link remove_straight_link add_router_link remove_router_link
tie-Stepped b (ties src des) s (h, _) v = elim (Bool-cases (aid_ok des)) [
  | inr e ↦ rw (e, if◌then◌else◌) (v, λ i j. refl)
  | inl e ↦
      rw (e, if◌then◌else◌)
        (
          record {
            base = v.base;
            straight =
                join-Each (StraightHere b) (λ i j des u t p. Here-congr b i j t p) src des tt
                  s.straight_link_list h v.straight;
            routed = v.routed;
            straight_distinct = join-Distinct src des tt s.straight_link_list v.straight_distinct;
            routed_distinct = v.routed_distinct;
          },
          λ i j.
              ap (λ z. (z, linked i j s.router_link_list))
                (linked-join i j src des tt s.straight_link_list),
        )
]
tie-Stepped b (routes src des skt) s (h, _) v = elim (Bool-cases (aid_ok des)) [
  | inr e ↦ rw (e, if◌then◌else◌) (v, λ i j. refl)
  | inl e ↦
      rw (e, if◌then◌else◌)
        (
          record {
            base = v.base;
            straight = v.straight;
            routed =
                join-Each (RouteHere b) (λ i j des u t p. p) src des skt s.router_link_list h
                  v.routed;
            straight_distinct = v.straight_distinct;
            routed_distinct = join-Distinct src des skt s.router_link_list v.routed_distinct;
          },
          λ i j.
              ap (λ z. (linked i j s.straight_link_list, z))
                (linked-join i j src des skt s.router_link_list),
        )
]
tie-Stepped b (unties src des) s ok v = elim (Bool-cases (aid_ok des)) [
  | inr e ↦ rw (e, if◌then◌else◌) (v, λ i j. refl)
  | inl e ↦
      let m = s.straight_link_list in
      let parted : Each (StraightHere b) (part src des m) =
        part-Each (StraightHere b) src des m v.straight in
      let distinct : Distinct (part src des m) = part-Distinct src des m v.straight_distinct in
      let unlinked = λ (i j : ActorId). linked-part i j src des m in
      elim (Option-cases (find src m)) [
        | inl n ↦
            rw (e, if◌then◌else◌, n)
              (
                v,
                λ i j.
                    ap (λ z. (z, linked i j s.router_link_list)) (rw (n, part) at (unlinked i j)),
              )
        | inr (links, n) ↦
            rw (e, if◌then◌else◌, n)
              (
                record {
                  base = v.base;
                  straight = rw (n, part) at parted;
                  routed = v.routed;
                  straight_distinct = rw (n, part) at distinct;
                  routed_distinct = v.routed_distinct;
                },
                λ i j.
                    ap (λ z. (z, linked i j s.router_link_list)) (rw (n, part) at (unlinked i j)),
              )
      ]
]
tie-Stepped b (unroutes src des) s ok v = elim (Bool-cases (aid_ok des)) [
  | inr e ↦
      moved-Stepped b (unroutes src des) s s
        (ap (λ (x : Bool). (if x then drop_router_link src des s else (nil_aid, s)).1) e)
        (v, λ i j. rw e refl)
  | inl e ↦
      let (base, straight) = drop_rest src des s in
      let m = s.router_link_list in
      let d = (drop_router_link src des s).1 in
      let same : tie_step (unroutes src des) s ≡ d =
        ap (λ (x : Bool). (if x then drop_router_link src des s else (nil_aid, s)).1) e in
      moved-Stepped b (unroutes src des) s d same (
        record {
          base = base ∙ v.base;
          straight = rw straight v.straight;
          routed =
              drop_same src des s (Each (RouteHere b)) v.routed
                (part-Each (RouteHere b) src des m v.routed);
          straight_distinct = rw straight v.straight_distinct;
          routed_distinct =
              drop_same src des s Distinct v.routed_distinct
                (part-Distinct src des m v.routed_distinct);
        },
        λ i j. rw e (
            ap (λ z. (linked i j z, linked i j d.router_link_list)) straight
            ∙ ap (λ z. (linked i j s.straight_link_list, z)) (linked-drop i j src des s)),
      )
]

TiesHere-first :
    (b : BasicActor) (c : TieCall) (cs : List TieCall)
    → TiesHere b (c ∷ cs)
    → TiesHere b (c ∷ []) × TiesHere b cs
TiesHere-first b (ties src des) cs (h, k) = ((h, tt), k)
TiesHere-first b (routes src des skt) cs (h, k) = ((h, tt), k)
TiesHere-first b (unties src des) cs k = (tt, k)
TiesHere-first b (unroutes src des) cs k = (tt, k)

run-Tied :
    (b : BasicActor) (cs : List TieCall) (s : Socket)
    → TiesHere b cs
    → Tied b s
    → Tied b (tie_run cs s)
      × ((i j : ActorId) → ties_of i j (tie_run cs s) ≡ tied_after i j cs (ties_of i j s))
unfolding tie_run
run-Tied b [] s h v = (v, λ i j. refl)
run-Tied b (c ∷ cs) s h v =
    let (now, later) = TiesHere-first b c cs h in
    let (w, step) = tie-Stepped b c s now v in
    let (u, rest) = run-Tied b cs (tie_step c s) later w in
    (u, λ i j. rest i j ∙ ap (tied_after i j cs) (step i j))

abbrev pub either_of : Bool × Bool → Bool
either_of (a, b) = a || b

-- After any calls that change the links of a socket that has none, where each straight link that is added
-- is from an actor, and each routed one through a socket, of this run of the context, `on_neterr` fails no
-- assertion. It tells of the loss exactly the pairs that are linked by the calls, straight or through a
-- router, and leaves no link, no waiting message and no connection.
pub on_neterr-informed :
    (write_exit : WriteExit) (self_aid : ActorId) (errmsg : List ℕ) (cs : List TieCall) (s : Socket)
    → s.straight_link_list ≡ []
    → s.router_link_list ≡ []
    → TiesHere s.base cs
    → (sent : List Sent) × (t : Socket) × (on_neterr write_exit self_aid errmsg (tie_run cs s)
        ≡ some (map sends sent, t))
      × ((i j : ActorId) → informed i j sent ≡ either_of (tied_after i j cs (false, false)))
      × (t.straight_link_list ≡ [])
      × (t.router_link_list ≡ [])
      × (t.conn_cache ≡ [])
      × (t.conn ≡ false)
unfolding on_neterr
on_neterr-informed write_exit self_aid errmsg cs s e f ok =
    let b = s.base in
    let start : Tied b s = record {
      base = refl;
      straight = rw e tt;
      routed = rw f tt;
      straight_distinct = rw e tt;
      routed_distinct = rw f tt;
    } in
    let (v, tied) = run-Tied b cs s ok start in
    let u = tie_run cs s in
    let m = write_exit exit_neterr errmsg (new_message exit_type) in
    let straight = all_lost straight_target straight_tag m b u.straight_link_list in
    let routed = all_lost route_target (route_tag self_aid) m b u.router_link_list in
    let told : (i j : ActorId) → informed i j (straight ++ routed) ≡ either_of (ties_of i j u) =
      λ i j.
        informed-append i j straight routed
        ∙ ap (λ z. z || informed i j routed)
            (informed-all_lost straight_target straight_tag m b (λ k d w. refl) i j
                u.straight_link_list
              ∙ held-linked i j u.straight_link_list v.straight_distinct)
        ∙ ap (λ z. linked i j u.straight_link_list || z)
            (informed-all_lost route_target (route_tag self_aid) m b (λ k d w. refl) i j
                u.router_link_list
              ∙ held-linked i j u.router_link_list v.routed_distinct) in
    let before : (i j : ActorId) → ties_of i j s ≡ (false, false) =
      λ i j. rw (e, f) (unfold find in refl) in
    (
      straight ++ routed,
      record u {
        base = b;
        conn = false;
        conn_cache = [];
        straight_link_list = [];
        router_link_list = [];
      },
      rw
          (
            v.base,
            lose_straight-Here m u.straight_link_list b v.straight,
            ◌>>=◌,
            lose_routed-Here m self_aid u.router_link_list b v.routed,
          )
          refl,
      λ i j. told i j ∙ ap either_of (tied i j ∙ ap (tied_after i j cs) (before i j)),
      refl,
      refl,
      refl,
      refl,
    )
