-- ===== src/Socket/Losses.antt =====
-- Who is told of a network error: the links that pass a socket, and `on_neterr` of
-- libs/actor/src/socket.cpp.
use gce.Prelude.{
  ◌≡◌, refl, Bool, false, ◌&&◌, ◌||◌, List, [], ◌∷◌, ◌++◌, some, arith, is_some, ◌>>=◌, map,
}
use gce.Key.{eqv}
use gce.OrdMap.{OrdMap, find}
use gce.OrdMap.Pairs.{held, EachOf, Each}
use gce.Ids.{ActorId}
use gce.Ids.Order.{aid_key}
use gce.Message.{Message, Tag}
use gce.BasicActor.{BasicActor, SendHint, Sent, nil_pack}
use gce.BasicActor.Requests.{Here, send-Here, stamped}
use gce.Socket.{exit_neterr, lose_links, lose_straight, lose_routes, lose_routed}

-- Whether a list of calls tells `src` that `des` has exited.
abbrev names : ActorId → Tag → Bool
names des (Tag.exit ex) = eqv ex.aid des
names des (Tag.fwd_exit ex) = eqv ex.aid des
names des (Tag.from_aid _) = false
names des (Tag.request _) = false
names des (Tag.response _) = false
names des (Tag.link _) = false
names des (Tag.fwd_link _) = false
names des (Tag.spawn _) = false
names des (Tag.spawn_ret _) = false

abbrev pub informed : ActorId → ActorId → List Sent → Bool
informed src des [] = false
informed src des (s ∷ ss) = (eqv s.pk.recver src && names des s.pk.tag) || informed src des ss

pub informed-append :
    (i j : ActorId) (xs ys : List Sent)
    → informed i j (xs ++ ys) ≡ (informed i j xs || informed i j ys)
informed-append i j [] ys = refl
informed-append i j (x ∷ xs) ys = ground (arith, informed-append i j xs ys)

-- What both loops send, for a way to write the pack of a link and its target.
module _ {V : Type 0} (target : ActorId → ActorId → V → ActorId) (tag : ActorId → V → Tag)
    (m : Message) (b : BasicActor) where
  abbrev lost : ActorId → ActorId × V → Sent
  lost src (des, v) = record {
    to = target src des v;
    pk =
        stamped b
          (record nil_pack { tag = tag des v; recver = src; skt = target src des v; msg = m });
    hint = SendHint.sync;
  }

  abbrev pub all_lost : OrdMap ActorId (OrdMap ActorId V) → List Sent
  all_lost [] = []
  all_lost ((src, links) ∷ rest) = map (lost src) links ++ all_lost rest

  informed-lost :
      ((j des : ActorId) (v : V) → names j (tag des v) ≡ eqv des j)
      → (i j src : ActorId) (links : OrdMap ActorId V)
      → informed i j (map (lost src) links) ≡ (eqv src i && is_some (find j links))
  unfolding find
  informed-lost named i j src [] = ground arith
  informed-lost named i j src ((des, v) ∷ links) =
      rw (informed-lost named i j src links, named j des v) (ground arith)

  pub informed-all_lost :
      ((j des : ActorId) (v : V) → names j (tag des v) ≡ eqv des j)
      → (i j : ActorId) (links : OrdMap ActorId (OrdMap ActorId V))
      → informed i j (all_lost links) ≡ held i j links
  informed-all_lost named i j [] = refl
  informed-all_lost named i j ((src, links) ∷ rest) =
      rw
        (
          informed-append i j (map (lost src) links) (all_lost rest),
          informed-lost named i j src links,
          informed-all_lost named i j rest,
        )
        refl

abbrev pub straight_target : ActorId → ActorId → Unit {0} → ActorId
straight_target src des v = src

abbrev pub straight_tag : ActorId → Unit {0} → Tag
straight_tag des v = Tag.exit (record { code = exit_neterr; aid = des })

abbrev pub route_target : ActorId → ActorId → ActorId → ActorId
route_target src des skt = skt

abbrev pub route_tag : ActorId → ActorId → ActorId → Tag
route_tag self_aid des skt = Tag.fwd_exit (record { code = exit_neterr; aid = des; skt = self_aid })

-- Each link leads to an actor, or a socket, of this run of the context.
abbrev pub StraightHere : BasicActor → ActorId → ActorId → Unit {0} → Type 0
StraightHere b src des v = Here src b

abbrev pub RouteHere : BasicActor → ActorId → ActorId → ActorId → Type 0
RouteHere b src des skt = Here skt b

lose_links-Here :
    (m : Message) (src : ActorId) (links : OrdMap ActorId (Unit {0})) (b : BasicActor)
    → EachOf (StraightHere b) src links
    → lose_links m src links b ≡ some (map (lost straight_target straight_tag m b src) links, b)
unfolding lose_links
lose_links-Here m src [] b e = refl
lose_links-Here m src ((des, v) ∷ links) b (h, e) =
    rw (send-Here src b h _ SendHint.sync, ◌>>=◌, lose_links-Here m src links b e) refl

pub lose_straight-Here :
    (m : Message) (links : OrdMap ActorId (OrdMap ActorId (Unit {0}))) (b : BasicActor)
    → Each (StraightHere b) links
    → lose_straight m links b ≡ some (all_lost straight_target straight_tag m b links, b)
unfolding lose_straight
lose_straight-Here m [] b e = refl
lose_straight-Here m ((src, links) ∷ rest) b (h, e) =
    rw (lose_links-Here m src links b h, ◌>>=◌, lose_straight-Here m rest b e) refl

lose_routes-Here :
    (m : Message) (self_aid src : ActorId) (links : OrdMap ActorId ActorId) (b : BasicActor)
    → EachOf (RouteHere b) src links
    → lose_routes m self_aid src links b
      ≡ some (map (lost route_target (route_tag self_aid) m b src) links, b)
unfolding lose_routes
lose_routes-Here m self_aid src [] b e = refl
lose_routes-Here m self_aid src ((des, skt) ∷ links) b (h, e) =
    rw (send-Here skt b h _ SendHint.sync, ◌>>=◌, lose_routes-Here m self_aid src links b e) refl

pub lose_routed-Here :
    (m : Message) (self_aid : ActorId) (links : OrdMap ActorId (OrdMap ActorId ActorId))
    (b : BasicActor)
    → Each (RouteHere b) links
    → lose_routed m self_aid links b
      ≡ some (all_lost route_target (route_tag self_aid) m b links, b)
unfolding lose_routed
lose_routed-Here m self_aid [] b e = refl
lose_routed-Here m self_aid ((src, links) ∷ rest) b (h, e) =
    rw (lose_routes-Here m self_aid src links b h, ◌>>=◌, lose_routed-Here m self_aid rest b e) refl
