-- ===== src/Lib.antt =====
-- The verification library of gce, an actor framework in C++.
--
-- The parts of the program that are modelled, and how they interact:
--
-- * An actor has an id (gce/actor/actor_id.hpp): a context, a timestamp of the run of the process, an
--   address and a serial number. Ids.antt has ids and their order, which Key.antt shows to be a strict
--   weak order, and OrdMap.antt is `std::map` over such an order.
-- * Actors exchange packs: a tag and a message. Message.antt has the types of gce/actor/message.hpp,
--   response.hpp and detail/request.hpp, link.hpp, exit.hpp, spawn.hpp and pack.hpp. The types of
--   messages are atoms, Atom.antt for gce/actor/atom.hpp.
-- * The packs that an actor receives go to its mailbox. Mailbox.antt and its children model
--   libs/actor/src/mailbox.cpp: the list `recv_que_` of addressed nodes, and the lists of iterators
--   into it (`cache_match_list_`, `match_queue_list_`, `exit_list_`, `svc_exit_list_`). An iterator is
--   the address of a node, and its use after the node is gone is the result `none`. Mailbox/Push.antt
--   has the `push` functions and Mailbox/Pop.antt the `pop` functions; Mailbox/Inbox.antt and
--   Mailbox/Calls.antt have the specification, an inbox that is a list of what has arrived; the
--   remaining children relate the two.
-- * An actor sends through its base class. BasicActor.antt and BasicActor/Sends.antt model
--   libs/actor/src/basic_actor.cpp; a call of `on_recv` of another actor is a `Sent`, in order. A
--   failed BOOST_ASSERT is `none`.
-- * Ids of other contexts are reached through the sockets of a pool, and services by name:
--   CachePool.antt and CachePool/Sockets.antt for libs/actor/src/cache_pool.cpp. An iterator is the
--   key that it points to.
-- * NonBlocking.antt models the handling of packs and the `recv` of libs/actor/src/nonblocking_actor.cpp,
--   and NonBlocking/Queue.antt its queues: the packs of each sending thread in a deque, pointers to
--   them in `pack_queue_`, and the tail of what has been handled, up to which the sender drops.
--   `on_recv`, a turn of the loop of `move_pack` and `release_pack` are steps that interleave in any
--   order. NonBlocking/Conversation.antt runs two actors against each other.
-- * ThreadMapped.antt models the receiving side of libs/actor/src/thread_mapped_actor.cpp: `try_recv` and
--   `try_response`, the timers, `handle_recv`. A promise is a number, and what the strand does to promises,
--   timers and other actors is a list of outputs. ThreadMapped/World.antt adds the thread, which calls one
--   `recv` after the other, and the timers that were started, each of which may end at any time, even
--   when it was cancelled. The part of `handle_recv` that stands in four actors is BasicActor/Receive.antt.
-- * The other two actors that receive are Stackless.antt, for libs/actor/src/coroutine_stackless_actor.cpp,
--   where a `recv` has a handler, and Stackful.antt, for libs/actor/src/coroutine_stackful_actor.cpp, where
--   it is a coroutine that goes on at once when it is resumed. Each has a view as a thread-mapped actor, and
--   ThreadMapped/Compare.antt says what it is to receive as that does.
-- * A connection to another process is an actor too: Socket.antt models the state, the links and the
--   network errors of libs/actor/src/socket.cpp, Socket/Net.antt the packs that pass it in both directions,
--   Socket/Endpoint.antt the parsing of endpoints, Socket/Cache.antt the messages that wait for the
--   connection, and Socket/Frame.antt how messages are written to the network and parsed from the pieces
--   that it gives. What it does to others is a list of effects.
-- * A pack crosses the network as a message with its tag written after the body: Message/Tags.antt models
--   `push_tag` and `pop_tag` of gce/actor/message.hpp, over the amsg of Message/Codec.antt.
-- * Buffer.antt models the buffer of a message in gce/actor/message.hpp: small, or a large one in a store that
--   copies of the message share until one of them is written to.
-- * Heartbeat.antt models libs/actor/src/heartbeat.cpp, which closes a connection that is silent, and
--   Freelist.antt gce/detail/freelist.hpp, the pools of actors and sockets, over a heap of `next_obj_`.
-- * BufferRef.antt models gce/actor/detail/buffer_ref.hpp, the positions of a buffer.
--
-- Bounds: the loop that decodes an atom has the 20 bytes of its buffer as its fuel, and a write before
-- the buffer is `none`. The loops of a freelist have fuel, and as much as there are objects in the chain
-- is enough. The rounds of the receive loop of a connection are a list of the numbers of bytes that the
-- network gives; one for each message and each byte are enough. Every other loop is structural recursion.
-- Serial numbers and request numbers are 32 bits wide, atoms 64, with their wrap-around written out.
-- Addresses of list nodes are never used again in the model, so that an iterator to a node that is gone
-- is told from one to a new node. The indices of a cache queue are 64 bits wide and wrap; the theorem on
-- the queues is for fewer than 2^64 - 1 steps, which is where an index would meet the value that stands for
-- no garbage. The numbers of the timers of a thread are 64 bits wide, and the theorem is for fewer than
-- 2^64 events.
--
-- Not modelled: amsg (gce/amsg), a copy of another library, whose writing and reading of values are
-- parameters; acceptors, timers and the network, which call asio; the coroutines of a connection with the
-- retries of `connect`; the start of the coroutines of actors and what they catch; the context, the assignment of messages and the
-- templates that write arguments to messages; the four functions of the polled actor that write a
-- registration and give it to `on_recv`.
pub mod Prelude
pub mod Key
pub mod OrdMap
pub mod Ids
pub mod Message
pub mod Atom
pub mod Mailbox
pub mod CachePool
pub mod BasicActor
pub mod NonBlocking
pub mod BufferRef
pub mod Socket
pub mod ThreadMapped
pub mod Heartbeat
pub mod Freelist
pub mod Stackless
pub mod Stackful
pub mod Buffer
