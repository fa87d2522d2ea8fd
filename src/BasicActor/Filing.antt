-- ===== src/BasicActor/Filing.antt =====
-- A pack that reaches an actor is filed in its mailbox, or answered for it: no call on the way is undefined
-- behaviour.
use gce.Prelude.{ℕ, ◌≡◌, List, [], ◌∷◌, ◌++◌, Option, some, refl, ◌>>=◌}
use gce.OrdMap.{insert_or, insert}
use gce.Key.{nat_key}
use gce.Ids.{ActorId}
use gce.Ids.Order.{aid_key}
use gce.Message.{Message, Tag, Recv, Response, new_response}
use gce.Mailbox.{Mailbox}
use gce.Mailbox.Pop.{pop_recv, pop_response}
use gce.Mailbox.Push.{push_aid, push_request, push_exit, push_response}
use gce.Mailbox.Pop.{sender_of}
use gce.Mailbox.Invariant.{Inv}
use gce.Mailbox.PushRefines.{add-Adds}
use gce.Mailbox.PopRefines.{pop_recv-Takes}
use gce.Mailbox.Refines.{other-Inv, pop_response-Inv}
use gce.BasicActor.{BasicActor, Sent, WriteExit, add_link, remove_link}
use gce.BasicActor.Requests.{Here, exited-Here}
use gce.BasicActor.Receive.{Filed, linking, plain, response, file_pack, handle_stale}

-- What no filing changes, and the mailbox stays valid.
pub record Sound (c b : BasicActor) : Type 0 where
  pub mailbox : Inv c.mb
  pub ctxid : c.ctxid ≡ b.ctxid
  pub timestamp : c.timestamp ≡ b.timestamp

abbrev pub with_mailbox : Mailbox → BasicActor → BasicActor
with_mailbox mb b = record b { mb = mb }

abbrev pub Files : BasicActor → Option (Filed × BasicActor) → Type 0
Files b out = (f : Filed) × (c : BasicActor) × (out ≡ some (f, c)) × Sound c b

pub file_pack-Files :
    (tag : Tag) (skt : ActorId) (msg : Message) (b : BasicActor)
    → Inv b.mb
    → Files b (file_pack tag skt msg b)
unfolding file_pack push_aid push_request push_exit push_response sender_of add_link remove_link
file_pack-Files (Tag.from_aid aid) skt msg b v =
    let (m, e, w, _, _, _) = add-Adds (Recv.from_aid aid) msg b.mb v in
    (plain, with_mailbox m b, rw (e, ◌>>=◌), record { mailbox = w; ctxid = refl; timestamp = refl })
file_pack-Files (Tag.request req) skt msg b v =
    let (m, e, w, _, _, _) = add-Adds (Recv.request req) msg b.mb v in
    let ws = insert_or req.aid [] (λ que. que ++ (req ∷ [])) m.wait_reply_list in
    (
      plain,
      with_mailbox (record m { wait_reply_list = ws }) b,
      rw (e, ◌>>=◌),
      record { mailbox = other-Inv m m.res_msg_list ws w; ctxid = refl; timestamp = refl },
    )
file_pack-Files (Tag.link l) skt msg b v =
    (linking, add_link l.aid skt b, refl, record { mailbox = v; ctxid = refl; timestamp = refl })
file_pack-Files (Tag.exit ex) skt msg b v =
    let (m, e, w, _, _, _) = add-Adds (Recv.exit ex) msg b.mb v in
    (
      plain,
      remove_link ex.aid (with_mailbox m b),
      rw (e, ◌>>=◌),
      record { mailbox = w; ctxid = refl; timestamp = refl },
    )
file_pack-Files (Tag.response res) skt msg b v = (
  response,
  with_mailbox (push_response res msg b.mb) b,
  refl,
  record {
    mailbox = other-Inv b.mb (insert res.id (res, msg) b.mb.res_msg_list) b.mb.wait_reply_list v;
    ctxid = refl;
    timestamp = refl;
  },
)
file_pack-Files (Tag.fwd_link _) skt msg b v =
    (plain, b, refl, record { mailbox = v; ctxid = refl; timestamp = refl })
file_pack-Files (Tag.fwd_exit _) skt msg b v =
    (plain, b, refl, record { mailbox = v; ctxid = refl; timestamp = refl })
file_pack-Files (Tag.spawn _) skt msg b v =
    (plain, b, refl, record { mailbox = v; ctxid = refl; timestamp = refl })
file_pack-Files (Tag.spawn_ret _) skt msg b v =
    (plain, b, refl, record { mailbox = v; ctxid = refl; timestamp = refl })

-- Who is answered when the actor has exited is of the actor's run of the context.
abbrev pub Answerable : Tag → BasicActor → Type 0
Answerable (Tag.link l) b = Here l.aid b
Answerable (Tag.request req) b = Here req.aid b
Answerable _ b = Unit

pub handle_stale-answered :
    (write_exit : WriteExit) (tag : Tag) (recver : ActorId) (b : BasicActor)
    → Answerable tag b
    → (sent : List Sent) × (handle_stale write_exit tag recver b ≡ some (sent, b))
unfolding handle_stale
handle_stale-answered write_exit (Tag.link l) recver b h =
    (_, exited-Here write_exit l.aid (Tag.from_aid recver) b h)
handle_stale-answered write_exit (Tag.request req) recver b h =
    (_, exited-Here write_exit req.aid (Tag.response (new_response req.id recver)) b h)
handle_stale-answered write_exit (Tag.from_aid _) recver b h = ([], refl)
handle_stale-answered write_exit (Tag.response _) recver b h = ([], refl)
handle_stale-answered write_exit (Tag.exit _) recver b h = ([], refl)
handle_stale-answered write_exit (Tag.fwd_link _) recver b h = ([], refl)
handle_stale-answered write_exit (Tag.fwd_exit _) recver b h = ([], refl)
handle_stale-answered write_exit (Tag.spawn _) recver b h = ([], refl)
handle_stale-answered write_exit (Tag.spawn_ret _) recver b h = ([], refl)

pub pop_recv-Sound :
    (ts : List ℕ) (mb : Mailbox)
    → Inv mb
    → (found : Option (Recv × Message)) × (m : Mailbox) × (pop_recv ts mb ≡ some (found, m)) × Inv m
pop_recv-Sound ts mb v = let (m, e, w, _, _, _) = pop_recv-Takes ts mb v in (_, m, e, w)

pub pop_response-Sound :
    (res : Response) (mb : Mailbox)
    → Inv mb
    → (found : Option (Response × Message)) × (m : Mailbox) × (pop_response res mb
        ≡ some (found, m))
      × Inv m
pop_response-Sound res mb v = pop_response-Inv res mb v
