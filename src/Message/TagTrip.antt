-- ===== src/Message/TagTrip.antt =====
-- A tag that is pushed to a message is popped from it.
use gce.Prelude.{
  ℕ, ◌%◌, ◌^◌, ◌≡◌, ◌<◌, refl, ap, Bool, true, false, List, [], ◌∷◌, ◌++◌, some, arith,
  if◌then◌else◌, ltb, ◌==◌, ◌>>=◌, length, length-append,
}
use mathlib.Core.List.{append_assoc, append-nil}
use gce.Atom.{atom, encode_from, encoding_table}
use gce.Message.{
  Message, Tag, LinkType, no_link, linked, monitored, SpawnType, spw_nil, spw_stacked, spw_evented,
  SpawnError, spawn_ok, spawn_no_socket, spawn_func_not_found, new_response, u32_nil,
}
use gce.Message.Codec.{Codec, Faithful, IsAid, IsSvc}
use gce.Message.Tags.{
  TagKind, tag_aid, tag_request, tag_link, tag_exit, tag_response, tag_spawn, tag_spawn_ret,
  tag_code, kind_of, link_number, link_type_of, spawn_number, spawn_type_of, error_number,
  spawn_error_of, bool_number, bool_of, Address, write_tag, write_address, push_tag, read_kind,
  read_tag, read_address, pop_tag, skip, front,
}

tag_code-bound : (k : TagKind) → tag_code k < 2 ^ 64
unfolding tag_code atom encode_from encoding_table
tag_code-bound tag_aid = omega arith
tag_code-bound tag_request = omega arith
tag_code-bound tag_link = omega arith
tag_code-bound tag_exit = omega arith
tag_code-bound tag_response = omega arith
tag_code-bound tag_spawn = omega arith
tag_code-bound tag_spawn_ret = omega arith

kind_of-tag_code : (k : TagKind) → kind_of (tag_code k) ≡ some k
unfolding kind_of tag_code atom encode_from encoding_table
kind_of-tag_code tag_aid = refl
kind_of-tag_code tag_request = refl
kind_of-tag_code tag_link = refl
kind_of-tag_code tag_exit = refl
kind_of-tag_code tag_response = refl
kind_of-tag_code tag_spawn = refl
kind_of-tag_code tag_spawn_ret = refl

link_of_number : (t : LinkType) → (link_number t < 2 ^ 16) × (link_type_of (link_number t) ≡ some t)
link_of_number no_link = (omega arith, refl)
link_of_number linked = (omega arith, refl)
link_of_number monitored = (omega arith, refl)

spawn_of_number :
    (t : SpawnType) → (spawn_number t < 2 ^ 16) × (spawn_type_of (spawn_number t) ≡ some t)
spawn_of_number spw_nil = (omega arith, refl)
spawn_of_number spw_stacked = (omega arith, refl)
spawn_of_number spw_evented = (omega arith, refl)

error_of_number :
    (e : SpawnError) → (error_number e < 2 ^ 16) × (spawn_error_of (error_number e) ≡ some e)
error_of_number spawn_ok = (omega arith, refl)
error_of_number spawn_no_socket = (omega arith, refl)
error_of_number spawn_func_not_found = (omega arith, refl)

bool_of_number : (b : Bool) → (bool_number b < 2 ^ 16) × (bool_of (bool_number b) ≡ b)
bool_of_number true = (omega arith, refl)
bool_of_number false = (omega arith, refl)

-- A tag that is written, of values of the C++ types.
abbrev pub Carried : Tag → Type 0
Carried (Tag.from_aid aid) = IsAid aid
Carried (Tag.request req) = (req.id < 2 ^ 32) × IsAid req.aid
Carried (Tag.link l) = IsAid l.aid
Carried (Tag.exit ex) = (ex.code < 2 ^ 64) × IsAid ex.aid
Carried (Tag.response res) = (res.id < 2 ^ 32) × IsAid res.aid
Carried (Tag.spawn spw) =
    (spw.func < 2 ^ 64)
    × (spw.ctxid < 2 ^ 64)
    × (spw.stack_size < 2 ^ 64)
    × (spw.sid < 2 ^ 32)
    × IsAid spw.aid
Carried (Tag.spawn_ret spr) = (spr.id < 2 ^ 32) × IsAid spr.aid
Carried (Tag.fwd_link _) = true ≡ false
Carried (Tag.fwd_exit _) = true ≡ false

-- The tag that arrives: a response keeps its id and its actor only.
abbrev pub arrived : Tag → Tag
arrived (Tag.from_aid aid) = Tag.from_aid aid
arrived (Tag.request req) = Tag.request req
arrived (Tag.link l) = Tag.link l
arrived (Tag.exit ex) = Tag.exit ex
arrived (Tag.response res) = Tag.response (new_response res.id res.aid)
arrived (Tag.spawn spw) = Tag.spawn spw
arrived (Tag.spawn_ret spr) = Tag.spawn_ret spr
arrived (Tag.fwd_link l) = Tag.fwd_link l
arrived (Tag.fwd_exit ex) = Tag.fwd_exit ex

pub record IsAddress (a : Address) : Type 0 where
  pub recver : IsAid a.recver
  pub svc : IsSvc a.svc
  pub skt : IsAid a.skt

pub skip-append : (xs ys : List ℕ) → skip (length xs) (xs ++ ys) ≡ ys
skip-append [] ys = refl
skip-append (x ∷ xs) ys = skip-append xs ys

pub front-append : (xs ys : List ℕ) → front (length xs) (xs ++ ys) ≡ xs
front-append [] [] = refl
front-append [] (y ∷ ys) = refl
front-append (x ∷ xs) ys = ap (λ z. x ∷ z) (front-append xs ys)

module _ (c : Codec) (f : Faithful c) where
  read_tag-kind :
      (k : TagKind) (bs : List ℕ) → read_tag c (c.write_u64 (tag_code k) ++ bs) ≡ read_kind c k bs
  unfolding read_tag
  read_tag-kind k bs = rw (f.u64 (tag_code k) bs (tag_code-bound k), ◌>>=◌, kind_of-tag_code k)

  abbrev Reads : Tag → List ℕ → Type 0
  Reads tag rest =
      (bs : List ℕ) × (k : TagKind) × (payload : List ℕ) × (bs
        ≡ c.write_u64 (tag_code k) ++ payload)
      × (write_tag c tag ≡ some bs)
      × (read_tag c (bs ++ rest) ≡ some (arrived tag, rest))

  read_tag-write_tag : (tag : Tag) (rest : List ℕ) → Carried tag → Reads tag rest
  unfolding write_tag read_kind
  read_tag-write_tag (Tag.from_aid aid) rest ok = (
    _,
    tag_aid,
    _,
    refl,
    refl,
    rw (append_assoc, read_tag-kind tag_aid, f.aid aid rest ok, ◌>>=◌) refl,
  )
  read_tag-write_tag (Tag.request req) rest (n, ok) = (
    _,
    tag_request,
    _,
    refl,
    refl,
    rw
        (
          append_assoc,
          append_assoc,
          read_tag-kind tag_request,
          f.u32 req.id _ n,
          ◌>>=◌,
          f.aid req.aid rest ok,
        )
        refl,
  )
  read_tag-write_tag (Tag.link l) rest ok =
      let (b, e) = link_of_number l.type in
      (
        _,
        tag_link,
        _,
        refl,
        refl,
        rw
            (
              append_assoc,
              append_assoc,
              read_tag-kind tag_link,
              f.u16 (link_number l.type) _ b,
              ◌>>=◌,
              f.aid l.aid rest ok,
              e,
            )
            refl,
      )
  read_tag-write_tag (Tag.exit ex) rest (n, ok) = (
    _,
    tag_exit,
    _,
    refl,
    refl,
    rw
        (
          append_assoc,
          append_assoc,
          read_tag-kind tag_exit,
          f.u64 ex.code _ n,
          ◌>>=◌,
          f.aid ex.aid rest ok,
        )
        refl,
  )
  read_tag-write_tag (Tag.response res) rest (n, ok) = (
    _,
    tag_response,
    _,
    refl,
    refl,
    rw
        (
          append_assoc,
          append_assoc,
          read_tag-kind tag_response,
          f.u32 res.id _ n,
          ◌>>=◌,
          f.aid res.aid rest ok,
        )
        refl,
  )
  read_tag-write_tag (Tag.spawn spw) rest (a, b, d, g, ok) =
      let (n, e) = spawn_of_number spw.type in
      (
        _,
        tag_spawn,
        _,
        refl,
        refl,
        rw
            (
              append_assoc,
              append_assoc,
              append_assoc,
              append_assoc,
              append_assoc,
              append_assoc,
              read_tag-kind tag_spawn,
              f.u16 (spawn_number spw.type) _ n,
              ◌>>=◌,
              f.u64 spw.func _ a,
              f.u64 spw.ctxid _ b,
              f.u64 spw.stack_size _ d,
              f.u32 spw.sid _ g,
              f.aid spw.aid rest ok,
              e,
            )
            refl,
      )
  read_tag-write_tag (Tag.spawn_ret spr) rest (n, ok) =
      let (b, e) = error_of_number spr.error in
      (
        _,
        tag_spawn_ret,
        _,
        refl,
        refl,
        rw
            (
              append_assoc,
              append_assoc,
              append_assoc,
              read_tag-kind tag_spawn_ret,
              f.u16 (error_number spr.error) _ b,
              ◌>>=◌,
              f.u32 spr.id _ n,
              f.aid spr.aid rest ok,
              e,
            )
            refl,
      )
  read_tag-write_tag (Tag.fwd_link _) rest ok = absurd (cc ok)
  read_tag-write_tag (Tag.fwd_exit _) rest ok = absurd (cc ok)

  read_address-write_address :
      (a : Address) → IsAddress a → read_address c (write_address c a) ≡ some (a, [])
  unfolding read_address write_address
  read_address-write_address a ok =
      let (b, e) = bool_of_number a.is_err_ret in
      let last : c.read_u16 (c.write_u16 (bool_number a.is_err_ret))
          ≡ some (bool_number a.is_err_ret, []) =
        rw append-nil at (f.u16 (bool_number a.is_err_ret) [] b) in
      rw (f.aid a.recver _ ok.recver, ◌>>=◌, f.svc a.svc _ ok.svc, f.aid a.skt _ ok.skt, last, e)
        refl

  -- Let amsg read back what it writes. A tag that is pushed to a message of less than 2^32 - 1 bytes, where
  -- the tag is of a kind that is sent over the network and its values fit their C++ types, is popped
  -- again with the address that was pushed with it; a response comes back with its id and its actor
  -- only. The type and the body of the message are as before, and its tag offset is the length of
  -- the body.
  pub pop_tag-push_tag :
      (tag : Tag) (a : Address) (m : Message)
      → Carried tag
      → IsAddress a
      → length m.body < u32_nil
      → (push_tag c tag a m >>= pop_tag c)
        ≡ some (some (arrived tag, a), record m { tag_offset = length m.body })
  unfolding push_tag pop_tag
  pop_tag-push_tag tag a m ok at small =
      let (bs, k, payload, form, w, r) = read_tag-write_tag tag (write_address c a) ok in
      let exact : length m.body % 2 ^ 32 ≡ length m.body = omega arith in
      let tagged : (length m.body == u32_nil) ≡ false = ground arith in
      let n = length-append m.body (bs ++ write_address c a) in
      let n' = length-append bs (write_address c a) in
      let n'' = length-append (c.write_u64 (tag_code k)) payload in
      let whole = ap length form in
      let one = f.byte (tag_code k) in
      let held : ltb (length m.body) (length (m.body ++ (bs ++ write_address c a))) ≡ true =
        ground arith in
      rw
        (
          w,
          ◌>>=◌,
          exact,
          tagged,
          if◌then◌else◌,
          held,
          skip-append,
          r,
          read_address-write_address a at,
          front-append,
        )
        refl
