-- ===== src/Socket/Tests.antt =====
-- An endpoint, messages that wait for a connection, links that a connection loses, and messages that cross
-- one in small pieces, with a codec that writes a header as three digits.
use gce.Prelude.{
  ℕ, ◌≡◌, ◌≢◌, ◌≤◌, refl, ap, true, false, List, [], ◌∷◌, ◌++◌, Option, none, some, arith, length,
  map, ◌+◌, if◌then◌else◌,
}
use gce.Ids.{ActorId, new_aid}
use gce.Message.{Message, new_message, u32_nil}
use gce.CachePool.{new_pool}
use gce.BasicActor.{new_actor, WriteExit, Sent}
use gce.Socket.{Socket, new_socket, writes, sends, on_neterr}
use gce.Socket.Endpoint.{tcp, make_socket, endpoint, make_socket-endpoint}
use gce.Socket.Cache.{LineCall, posts, connects, line_run, posted, sent_when_up, line_run-writes}
use gce.Socket.Losses.{informed}
use gce.Socket.Links.{
  TieCall, ties, unties, routes, tie_run, tied_after, TiesHere, on_neterr-informed, either_of,
}
use gce.Socket.Frame.{Header, HeaderCodec, Sizes, Receiver, new_receiver, send_msg, polls, Framing}
use gce.Socket.Stream.{AllSendable, frames, AllFit, Positive, polls-in_order, polls-all}

abbrev home : List ℕ
home = 49 ∷ 50 ∷ []

abbrev port : List ℕ
port = 56 ∷ 48 ∷ []

make_socket-endpoint_example : make_socket (endpoint home port) ≡ tcp home port
make_socket-endpoint_example = make_socket-endpoint home port refl

abbrev first_message : Message
first_message = new_message 5

abbrev second_message : Message
second_message = record { type = 6; tag_offset = u32_nil; body = 7 ∷ 8 ∷ [] }

abbrev line : List LineCall
line = posts first_message ∷ connects (new_message 9) ∷ posts second_message ∷ []

abbrev plugged : Socket
plugged = record (new_socket (new_actor new_pool 4 1 2 0 100)) { has_skt = true }

line_run-writes_example :
    (written : List Message) × (t : Socket) × (line_run line plugged ≡ some (map writes written, t))
    × (written ++ t.conn_cache ≡ plugged.conn_cache ++ posted line)
    × (t.conn_cache
        ≡ (if sent_when_up plugged.conn line then [] else plugged.conn_cache ++ posted line))
line_run-writes_example = line_run-writes line plugged refl

abbrev local_aid : ActorId
local_aid = new_aid 1 2 300 0

abbrev far_aid : ActorId
far_aid = new_aid 9 2 300 0

abbrev router_aid : ActorId
router_aid = new_aid 1 2 500 0

abbrev tie_calls : List TieCall
tie_calls =
    ties local_aid far_aid
    ∷ routes far_aid local_aid router_aid
    ∷ ties local_aid router_aid
    ∷ unties local_aid far_aid
    ∷ []

abbrev unlinked_socket : Socket
unlinked_socket = new_socket (new_actor new_pool 4 1 2 0 100)

abbrev write_text : WriteExit
write_text ec text m = record m { body = ec ∷ (text ++ m.body) }

ties_here : TiesHere unlinked_socket.base tie_calls
unfolding new_socket new_actor
ties_here = (
  record { ctxid = refl; timestamp = refl; ok = refl },
  (
    record { ctxid = refl; timestamp = refl; ok = refl },
    (record { ctxid = refl; timestamp = refl; ok = refl }, tt),
  ),
)

no_straight : unlinked_socket.straight_link_list ≡ []
unfolding new_socket
no_straight = refl

no_routed : unlinked_socket.router_link_list ≡ []
unfolding new_socket
no_routed = refl

on_neterr-informed_example :
    (sent : List Sent) × (t : Socket) × (on_neterr write_text local_aid []
        (tie_run tie_calls unlinked_socket)
      ≡ some (map sends sent, t))
    × ((i j : ActorId) → informed i j sent ≡ either_of (tied_after i j tie_calls (false, false)))
    × (t.straight_link_list ≡ [])
    × (t.router_link_list ≡ [])
    × (t.conn_cache ≡ [])
    × (t.conn ≡ false)
on_neterr-informed_example =
    on_neterr-informed write_text local_aid [] tie_calls unlinked_socket no_straight no_routed
      ties_here

abbrev write_three : Header → List ℕ
write_three h = h.size ∷ h.type ∷ h.tag_offset ∷ []

abbrev read_three : List ℕ → Option (Header × List ℕ)
read_three (size ∷ type ∷ tag_offset ∷ rest) =
    some (record { size = size; type = type; tag_offset = tag_offset }, rest)
read_three _ = none

abbrev three_digits : HeaderCodec
three_digits = record { write_header = write_three; read_header = read_three }

part_of_three :
    (h : Header) (part rest : List ℕ)
    → write_three h ≡ part ++ rest
    → rest ≢ []
    → read_three part ≡ none
part_of_three h [] rest e n = refl
part_of_three h (a ∷ []) rest e n = refl
part_of_three h (a ∷ b ∷ []) rest e n = refl
part_of_three h (a ∷ b ∷ c ∷ part) [] e n = absurd (n refl)
part_of_three h (a ∷ b ∷ c ∷ []) (d ∷ rest) e n = absurd (let f = ap length e in omega arith)
part_of_three h (a ∷ b ∷ c ∷ x ∷ part) (d ∷ rest) e n = absurd (let f = ap length e in omega arith)

three_digits-Framing : Framing three_digits
three_digits-Framing = record {
  byte = λ h e. absurd (let f = ap length e in omega arith);
  whole = λ h rest ok. refl;
  part = λ h part rest ok e n. part_of_three h part rest e n;
}

abbrev narrow : Sizes
narrow = record { cache_size = 20; recv_max = 10 }

abbrev posts_sent : List Message
posts_sent = second_message ∷ first_message ∷ []

sent-AllSendable : AllSendable narrow posts_sent
sent-AllSendable = (
  record { body = omega arith; type = omega arith; tag_offset = omega arith; size = omega arith },
  (
    record { body = omega arith; type = omega arith; tag_offset = omega arith; size = omega arith },
    tt,
  ),
)

sent-AllFit : AllFit three_digits narrow posts_sent
unfolding send_msg
sent-AllFit = (omega arith, (omega arith, tt))

abbrev pieces : List ℕ
pieces = 1 ∷ 2 ∷ 1 ∷ 3 ∷ 1 ∷ 1 ∷ 1 ∷ 1 ∷ 1 ∷ 1 ∷ []

pieces-Positive : Positive pieces
pieces-Positive = (
  omega arith,
  (
    omega arith,
    (
      omega arith,
      (
        omega arith,
        (
          omega arith,
          (omega arith, (omega arith, (omega arith, (omega arith, (omega arith, tt))))),
        ),
      ),
    ),
  ),
)

enough_pieces : length posts_sent + length (frames three_digits posts_sent) ≤ length pieces
unfolding send_msg
enough_pieces = omega arith

polls-in_order_example :
    (got : List Message) × (later : List Message) × (t : Receiver) × (left : List ℕ) × (polls
        three_digits narrow pieces new_receiver
        (frames three_digits posts_sent)
      ≡ some (got, t, left))
    × (got ++ later ≡ posts_sent)
    × (t.unread ++ left ≡ frames three_digits later)
    × (t.read_size ≤ narrow.recv_max)
polls-in_order_example =
    polls-in_order three_digits three_digits-Framing narrow pieces posts_sent sent-AllSendable

polls-all_example :
    (t : Receiver) × (polls three_digits narrow pieces new_receiver (frames three_digits posts_sent)
      ≡ some (posts_sent, t, []))
    × (t.unread ≡ [])
polls-all_example =
    polls-all three_digits three_digits-Framing narrow pieces posts_sent sent-AllSendable
      sent-AllFit pieces-Positive enough_pieces
