-- ===== src/Socket/Frame.antt =====
-- How messages cross a connection: `send_msg`, `parse_message` and the loop of `recv` in
-- libs/actor/src/socket.cpp, over gce/actor/impl/protocol.hpp. amsg writes and reads the header, and the
-- sizes of the receive cache come from the build.
use gce.Prelude.{
  ℕ, ◌+◌, ◌-◌, ◌%◌, ◌^◌, ◌≡◌, ◌<◌, ◌≢◌, List, [], ◌∷◌, ◌++◌, Option, none, some, if◌then◌else◌, ltb,
  length, ◌>>=◌,
}
use gce.Message.{Message}
use gce.Message.Tags.{skip, front}

-- `msg::header`
pub record Header : Type 0 where
  pub size : ℕ
  pub type : ℕ
  pub tag_offset : ℕ

-- `boost::amsg::write` and `read` of a header; a read that is `bad` is `none`.
pub record HeaderCodec : Type 0 where
  pub write_header : Header → List ℕ
  pub read_header : List ℕ → Option (Header × List ℕ)

-- `GCE_SOCKET_RECV_CACHE_SIZE` and `GCE_SOCKET_RECV_MAX_SIZE`
pub record Sizes : Type 0 where
  pub cache_size : ℕ
  pub recv_max : ℕ

-- `GCE_MAX_MSG_SIZE`
abbrev pub max_msg : Sizes → ℕ
max_msg z = z.cache_size - z.recv_max

-- `recv_cache_`: the bytes before the read position are not read again, so that only their number counts.
pub record Receiver : Type 0 where
  pub read_size : ℕ
  pub unread : List ℕ

abbrev pub new_receiver : Receiver
new_receiver = record { read_size = 0; unread = [] }

-- `false`, `throw "message overlength"`, or `true` with the message
pub data Parsed : Type 0 where
  waits overlong : Parsed
  parses : Message → Parsed

abbrev pub header_of : Message → Header
header_of m = record { size = length m.body % 2 ^ 32; type = m.type; tag_offset = m.tag_offset }

-- `send_msg`: what is sent.
unfoldable pub send_msg : HeaderCodec → Message → List ℕ
send_msg c m = c.write_header (header_of m) ++ front (length m.body % 2 ^ 32) m.body

-- The end of `parse_message`, "reset read_cache".
unfoldable pub reset_cache : Sizes → Receiver → Receiver
reset_cache z r = if ltb z.recv_max r.read_size then record r { read_size = 0 } else r

-- `parse_message` past the header, of `header_size` bytes.
unfoldable pub parse_body : Sizes → Header → ℕ → List ℕ → Receiver → Parsed × Receiver
parse_body z hdr header_size rest r =
    if ltb (max_msg z) hdr.size
    then (overlong, r)
    else if ltb (length rest) hdr.size
    then (waits, r)
    else (
      parses (record { type = hdr.type; tag_offset = hdr.tag_offset; body = front hdr.size rest }),
      reset_cache z (record {
        read_size = r.read_size + (header_size + hdr.size);
        unread = skip hdr.size rest;
      }),
    )

unfoldable pub parse_message : HeaderCodec → Sizes → Receiver → Parsed × Receiver
parse_message c z r = elim (c.read_header r.unread) [
  | none ↦ (waits, r)
  | some (hdr, rest) ↦ parse_body z hdr (length r.unread - length rest) rest r
]

-- `remain_write_size`
abbrev pub room : Sizes → Receiver → ℕ
room z r = z.cache_size - (r.read_size + length r.unread)

abbrev pub at_most : ℕ → ℕ → ℕ
at_most k n = if ltb n k then n else k

-- A round of the loop of `recv` past `parse_message`.
unfoldable pub after_parse :
    Sizes → ℕ → List ℕ → Parsed → Receiver → Option (List Message × Receiver × List ℕ)
after_parse z k stream waits r =
    let n = at_most k (room z r) in
    some ([], record r { unread = r.unread ++ front n stream }, skip n stream)
after_parse z k stream overlong r = none
after_parse z k stream (parses m) r = some (m ∷ [], r, stream)

-- A round of the loop of `recv`: a message that is parsed ends the call, otherwise the network gives `k`
-- bytes of those that it has, or as many as there is room for. `none` is the exception.
unfoldable pub poll :
    HeaderCodec → Sizes → ℕ → Receiver → List ℕ → Option (List Message × Receiver × List ℕ)
poll c z k r stream = let out = parse_message c z r in after_parse z k stream out.0 out.1

-- The rounds of the calls of `recv` that `run_conn` and `run` make one after the other.
unfoldable pub polls :
    HeaderCodec → Sizes → List ℕ → Receiver → List ℕ → Option (List Message × Receiver × List ℕ)
polls c z [] r stream = some ([], r, stream)
polls c z (k ∷ ks) r stream = do
  (now, s, rest) ← poll c z k r stream
  (later, t, left) ← polls c z ks s rest
  some (now ++ later, t, left)

-- The widths of the fields of a header.
pub record IsHeader (h : Header) : Type 0 where
  pub size : h.size < 2 ^ 32
  pub type : h.type < 2 ^ 64
  pub tag_offset : h.tag_offset < 2 ^ 32

-- A header takes a byte at least; one that was written is read, and nothing of what follows it; a part of
-- one is not read.
pub record Framing (c : HeaderCodec) : Type 0 where
  pub byte : (h : Header) → c.write_header h ≢ []
  pub whole :
      (h : Header) (rest : List ℕ)
      → IsHeader h
      → c.read_header (c.write_header h ++ rest) ≡ some (h, rest)
  pub part :
      (h : Header) (part rest : List ℕ)
      → IsHeader h
      → c.write_header h ≡ part ++ rest
      → rest ≢ []
      → c.read_header part ≡ none
