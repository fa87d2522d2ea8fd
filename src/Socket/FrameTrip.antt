-- ===== src/Socket/FrameTrip.antt =====
-- What `parse_message` finds in bytes that begin with a message that `send_msg` wrote.
use gce.Prelude.{
  ℕ, ◌+◌, ◌-◌, ◌%◌, ◌^◌, ◌≡◌, ◌<◌, ◌≤◌, ◌≢◌, ◌⊎◌, inl, inr, refl, ap, sym, ◌∙◌, true, false, List,
  [], ◌∷◌, ◌++◌, if◌then◌else◌, ltb, length, get_or, arith, length-append, Bool-cases,
}
use mathlib.Core.List.{append_assoc}
use gce.Message.{Message}
use gce.Message.Tags.{skip, front}
use gce.Message.TagTrip.{skip-append, front-append}
use gce.Socket.Frame.{
  Header, HeaderCodec, Sizes, max_msg, Receiver, waits, parses, send_msg, reset_cache, parse_body,
  parse_message, IsHeader, Framing,
}

-- What both lists begin with: the longer first list begins with the other.
split :
    (a b c d : List ℕ)
    → a ++ b ≡ c ++ d
    → length c ≤ length a
    → (e : List ℕ) × (a ≡ c ++ e) × (e ++ b ≡ d)
split a b [] d h l = (a, refl, h)
split [] b (x ∷ c) d h l = absurd (omega arith)
split (y ∷ a) b (x ∷ c) d h l =
    let (e, p, q) = split a b c d (ap (λ z. skip 1 z) h) (omega arith) in
    (e, ap (λ z. z ∷ a) (ap (λ z. get_or z 0 y) h) ∙ ap (λ z. x ∷ z) p, q)

length-nonempty : (xs : List ℕ) → 0 < length xs → xs ≢ []
length-nonempty xs l e = absurd (let f : length xs ≡ 0 = ap length e in omega arith)

split_short :
    (a b c d : List ℕ)
    → a ++ b ≡ c ++ d
    → length a < length c
    → (e : List ℕ) × (c ≡ a ++ e) × (e ≢ [])
split_short a b c d h l =
    let (e, p, q) = split c d a b (sym h) (omega arith) in
    let f : length c ≡ length a + length e = ap length p ∙ length-append a e in
    (e, p, length-nonempty e (omega arith))

front-all : (xs : List ℕ) → front (length xs) xs ≡ xs
front-all [] = refl
front-all (x ∷ xs) = ap (λ z. x ∷ z) (front-all xs)

-- A message whose fields have the widths of the C++ types and that is not longer than a receiver accepts.
pub record Sendable (z : Sizes) (m : Message) : Type 0 where
  pub body : length m.body < 2 ^ 32
  pub type : m.type < 2 ^ 64
  pub tag_offset : m.tag_offset < 2 ^ 32
  pub size : length m.body ≤ max_msg z

abbrev pub full_header : Message → Header
full_header m = record { size = length m.body; type = m.type; tag_offset = m.tag_offset }

module _ (c : HeaderCodec) (law : Framing c) (z : Sizes) where
  pub send_msg_lem :
      (m : Message) → Sendable z m → send_msg c m ≡ c.write_header (full_header m) ++ m.body
  unfolding send_msg
  send_msg_lem m ok =
      let b = ok.body in
      let e : length m.body % 2 ^ 32 ≡ length m.body = omega arith in rw (e, front-all) refl

  full_header-IsHeader : (m : Message) → Sendable z m → IsHeader (full_header m)
  full_header-IsHeader m ok = record { size = ok.body; type = ok.type; tag_offset = ok.tag_offset }

  -- What a call of `parse_message` does when the bytes that wait and those on their way begin with `m`.
  abbrev pub Parses : Message → List ℕ → Receiver → List ℕ → Type 0
  Parses m rest r stream =
      (length r.unread < length (send_msg c m)) × (parse_message c z r ≡ (waits, r))
      ⊎ (t : Receiver) × (parse_message c z r ≡ (parses m, t))
        × (t.read_size ≤ z.recv_max)
        × (t.unread ++ stream ≡ rest)

  part_of_header :
      (m : Message) (rest : List ℕ) (r : Receiver) (stream : List ℕ)
      → Sendable z m
      → r.unread ++ stream ≡ c.write_header (full_header m) ++ (m.body ++ rest)
      → length r.unread < length (c.write_header (full_header m))
      → Parses m rest r stream
  unfolding parse_message
  part_of_header m rest r stream ok f l =
      let (e, p, n) =
        split_short r.unread stream (c.write_header (full_header m)) (m.body ++ rest) f l in
      let bad = law.part (full_header m) r.unread e (full_header-IsHeader m ok) p n in
      let total =
        ap length (send_msg_lem m ok) ∙ length-append (c.write_header (full_header m)) m.body in
      inl (omega arith, rw (parse_message, bad) refl)

  whole_header :
      (m : Message) (r : Receiver) (e : List ℕ)
      → Sendable z m
      → r.unread ≡ c.write_header (full_header m) ++ e
      → parse_message c z r
        ≡ parse_body z (full_header m) (length (c.write_header (full_header m))) e r
  unfolding parse_message
  whole_header m r e ok p =
      let read = ap c.read_header p ∙ law.whole (full_header m) e (full_header-IsHeader m ok) in
      let total = ap length p ∙ length-append (c.write_header (full_header m)) e in
      let n : length r.unread - length e ≡ length (c.write_header (full_header m)) = omega arith in
      rw (parse_message, read, n) refl

  body_part :
      (m : Message) (r : Receiver) (n : ℕ) (e : List ℕ)
      → Sendable z m
      → length e < length m.body
      → parse_body z (full_header m) n e r ≡ (waits, r)
  unfolding parse_body
  body_part m r n e ok l =
      let s = ok.size in
      let fits : ltb (max_msg z) (length m.body) ≡ false = ground arith in
      let short : ltb (length e) (length m.body) ≡ true = ground arith in
      rw (fits, if◌then◌else◌, short) refl

  whole_body :
      (m : Message) (r : Receiver) (n : ℕ) (e : List ℕ)
      → Sendable z m
      → parse_body z (full_header m) n (m.body ++ e) r ≡ (
        parses m,
        reset_cache z (record { read_size = r.read_size + (n + length m.body); unread = e }),
      )
  unfolding parse_body
  whole_body m r n e ok =
      let s = ok.size in
      let l = length-append m.body e in
      let fits : ltb (max_msg z) (length m.body) ≡ false = ground arith in
      let long : ltb (length (m.body ++ e)) (length m.body) ≡ false = ground arith in
      rw (fits, if◌then◌else◌, long, if◌then◌else◌, front-append, skip-append) refl

  reset_cache-max :
      (r : Receiver)
      → ((reset_cache z r).read_size ≤ z.recv_max) × ((reset_cache z r).unread ≡ r.unread)
  unfolding reset_cache
  reset_cache-max r = elim (Bool-cases (ltb z.recv_max r.read_size)) [
    | inl e ↦ rw (e, if◌then◌else◌) (omega arith, refl)
    | inr e ↦ rw (e, if◌then◌else◌) (ground arith, refl)
  ]

  body_of_message :
      (m : Message) (rest : List ℕ) (r : Receiver) (stream e : List ℕ)
      → Sendable z m
      → r.unread ≡ c.write_header (full_header m) ++ e
      → e ++ stream ≡ m.body ++ rest
      → Parses m rest r stream
  body_of_message m rest r stream e ok p q =
      let n = length (c.write_header (full_header m)) in
      let total =
        ap length (send_msg_lem m ok) ∙ length-append (c.write_header (full_header m)) m.body in
      let here = ap length p ∙ length-append (c.write_header (full_header m)) e in
      elim (Bool-cases (ltb (length e) (length m.body))) [
        | inl l ↦ inl (ground arith, whole_header m r e ok p ∙ body_part m r n e ok (ground arith))
        | inr l ↦
            let (e', p', q') = split e stream m.body rest q (ground arith) in
            let t : Receiver = record {
              read_size = r.read_size + (n + length m.body);
              unread = e';
            } in
            let (kept, same) = reset_cache-max t in
            inr (
              reset_cache z t,
              whole_header m r e ok p
                  ∙ ap (λ x. parse_body z (full_header m) n x r) p'
                  ∙ whole_body m r n e' ok,
              kept,
              ap (λ x. x ++ stream) same ∙ q',
            )
      ]

  pub parse-Parses :
      (m : Message) (rest : List ℕ) (r : Receiver) (stream : List ℕ)
      → Sendable z m
      → r.unread ++ stream ≡ send_msg c m ++ rest
      → Parses m rest r stream
  parse-Parses m rest r stream ok h =
      let f : r.unread ++ stream ≡ c.write_header (full_header m) ++ (m.body ++ rest) =
        h
        ∙ ap (λ x. x ++ rest) (send_msg_lem m ok)
        ∙ append_assoc (c.write_header (full_header m)) m.body rest in
      elim (Bool-cases (ltb (length r.unread) (length (c.write_header (full_header m))))) [
        | inl e ↦ part_of_header m rest r stream ok f (ground arith)
        | inr e ↦
            let (e', p, q) =
              split r.unread stream (c.write_header (full_header m)) (m.body ++ rest) f
                (ground arith) in
            body_of_message m rest r stream e' ok p q
      ]
