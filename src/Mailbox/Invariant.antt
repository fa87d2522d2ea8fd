-- ===== src/Mailbox/Invariant.antt =====
-- What holds of a mailbox between two calls: each match queue lists the nodes of its type in the
-- order of arrival, and the exit indices point to the exit messages.
use mathlib.Core.Option
use gce.Prelude.{ℕ, ◌≡◌}
use gce.OrdMap.{find}
use gce.Ids.{ActorId, ServiceId}
use gce.Ids.Order.{aid_key, svc_key}
use gce.Mailbox.{Mailbox, Cell, queue_of}
use gce.Mailbox.Inbox.{actor, service}
use gce.Mailbox.Pop.{sender_of}
use gce.Mailbox.Cells.{Span, NoTwins, addrs_of, holder}

-- What `svc_exit_list_` keeps for an exit message.
abbrev pub owner : Cell → ActorId × ℕ
owner c = (sender_of c.src, c.addr)

abbrev pub addr_of : Cell → ℕ
addr_of c = c.addr

pub record Inv (mb : Mailbox) : Type 0 where
  pub span : Span 0 mb.next mb.recv_que
  pub twins : NoTwins mb.recv_que
  pub queues : (t : ℕ) → queue_of t mb ≡ addrs_of t mb.recv_que
  pub exits :
      (a : ActorId) → find a mb.exit_list ≡ Option.map addr_of (holder (actor a) mb.recv_que)
  pub svc_exits :
      (s : ServiceId) → find s mb.svc_exit_list ≡ Option.map owner (holder (service s) mb.recv_que)
