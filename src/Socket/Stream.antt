-- ===== src/Socket/Stream.antt =====
-- The messages that are sent over a connection are received, each once and in order, however the network
-- cuts their bytes.
use gce.Prelude.{
  ℕ, zero, suc, ◌+◌, ◌-◌, ◌≡◌, ◌<◌, ◌≤◌, ◌⊎◌, inl, inr, refl, ap, sym, ◌∙◌, List, [], ◌∷◌, ◌++◌,
  Option, some, length, arith, length-append, ◌>>=◌,
}
use mathlib.Core.List.{append_assoc, append-nil}
use gce.Message.{Message}
use gce.Message.Tags.{skip, front}
use gce.Socket.Frame.{
  Header, HeaderCodec, Sizes, max_msg, Receiver, new_receiver, Parsed, waits, send_msg,
  parse_message, after_parse, room, at_most, poll, polls, Framing,
}
use gce.Socket.FrameTrip.{Sendable, parse-Parses}

front-skip : (n : ℕ) (xs : List ℕ) → front n xs ++ skip n xs ≡ xs
front-skip zero xs = refl
front-skip (suc n) [] = refl
front-skip (suc n) (x ∷ xs) = ap (λ z. x ∷ z) (front-skip n xs)

length-skip : (n : ℕ) (xs : List ℕ) → length (skip n xs) ≡ length xs - n
length-skip zero xs = omega arith
length-skip (suc n) [] = omega arith
length-skip (suc n) (x ∷ xs) = let rest = length-skip n xs in omega arith

module _ {ℓ} {A : Type ℓ} where
  length-zero : (xs : List A) → length xs ≡ 0 → xs ≡ []
  length-zero [] e = refl
  length-zero (x ∷ xs) e = absurd (omega arith)

  append-empty : (xs ys : List A) → xs ++ ys ≡ [] → (xs ≡ []) × (ys ≡ [])
  append-empty xs ys e =
      let n : length (xs ++ ys) ≡ 0 = ap length e in
      let m = length-append xs ys in (length-zero xs (omega arith), length-zero ys (omega arith))

abbrev pub AllSendable : Sizes → List Message → Type 0
AllSendable z [] = Unit
AllSendable z (m ∷ ms) = Sendable z m × AllSendable z ms

abbrev pub frames : HeaderCodec → List Message → List ℕ
frames c [] = []
frames c (m ∷ ms) = send_msg c m ++ frames c ms

-- With its header, each message is not longer than a receiver accepts of its body.
abbrev pub AllFit : HeaderCodec → Sizes → List Message → Type 0
AllFit c z [] = Unit
AllFit c z (m ∷ ms) = (length (send_msg c m) ≤ max_msg z) × AllFit c z ms

abbrev pub Positive : List ℕ → Type 0
Positive [] = Unit
Positive (k ∷ ks) = (0 < k) × Positive ks

module _ (c : HeaderCodec) (law : Framing c) (z : Sizes) where
  abbrev OnWay : List Message → Receiver → List ℕ → Type 0
  OnWay ms r stream = (r.unread ++ stream ≡ frames c ms) × (r.read_size ≤ z.recv_max)

  abbrev Nearer : List Message → List ℕ → List Message → List ℕ → Type 0
  Nearer ms stream later left = (ms ≡ []) ⊎ (length later + length left < length ms + length stream)

  abbrev Polled : ℕ → List Message → List ℕ → Option (List Message × Receiver × List ℕ) → Type 0
  Polled k ms stream out =
      (now : List Message) × (later : List Message) × (t : Receiver) × (left : List ℕ) × (out
        ≡ some (now, t, left))
      × (now ++ later ≡ ms)
      × AllSendable z later
      × OnWay later t left
      × (AllFit c z ms → (0 < k) → AllFit c z later × Nearer ms stream later left)

  none-waits : (r : Receiver) → r.unread ≡ [] → parse_message c z r ≡ (waits, r)
  unfolding parse_message
  none-waits r e =
      let blank : Header = record { size = 0; type = 0; tag_offset = 0 } in
      let bad =
        ap c.read_header e
        ∙ law.part blank [] (c.write_header blank)
            (record { size = omega arith; type = omega arith; tag_offset = omega arith }) refl
            (law.byte blank) in
      rw (parse_message, bad) refl

  poll-waits :
      (k : ℕ) (ms : List Message) (r : Receiver) (stream : List ℕ)
      → AllSendable z ms
      → OnWay ms r stream
      → parse_message c z r ≡ (waits, r)
      → (AllFit c z ms → (ms ≡ []) ⊎ ((0 < room z r) × (0 < length stream)))
      → Polled k ms stream (poll c z k r stream)
  unfolding poll after_parse
  poll-waits k ms r stream ok (h, l) e near =
      let n = at_most k (room z r) in
      (
        [],
        ms,
        record r { unread = r.unread ++ front n stream },
        skip n stream,
        ap (λ (x : Parsed × Receiver). after_parse z k stream x.0 x.1) e,
        refl,
        ok,
        (
          append_assoc r.unread (front n stream) (skip n stream)
              ∙ ap (λ x. r.unread ++ x) (front-skip n stream)
              ∙ h,
          l,
        ),
        λ fit pos. (
          fit,
          elim (near fit) [
            | inl done ↦ inl done
            | inr (space, more) ↦ inr (let s = length-skip n stream in ground arith)
          ],
        ),
      )

  poll-Polled :
      (k : ℕ) (ms : List Message) (r : Receiver) (stream : List ℕ)
      → AllSendable z ms
      → OnWay ms r stream
      → Polled k ms stream (poll c z k r stream)
  unfolding poll after_parse
  poll-Polled k [] r stream ok (h, l) =
      let (e, f) = append-empty r.unread stream h in
      poll-waits k [] r stream ok (h, l) (none-waits r e) (λ fit. inl refl)
  poll-Polled k (m ∷ ms) r stream (sendable, ok) (h, l) =
      elim (parse-Parses c law z m (frames c ms) r stream sendable h) [
        | inl (short, e) ↦
            let total = ap length h ∙ length-append (send_msg c m) (frames c ms) in
            let held = length-append r.unread stream in
            poll-waits k (m ∷ ms) r stream (sendable, ok) (h, l) e
              (λ (fit, _). inr (omega arith, omega arith))
        | inr (t, e, l', h') ↦ (
          m ∷ [],
          ms,
          t,
          stream,
          ap (λ (x : Parsed × Receiver). after_parse z k stream x.0 x.1) e,
          refl,
          ok,
          (h', l'),
          λ (_, fit) pos. (fit, inr (omega arith)),
        )
      ]

  abbrev Ran : List ℕ → List Message → List ℕ → Option (List Message × Receiver × List ℕ) → Type 0
  Ran ks ms stream out =
      (got : List Message) × (later : List Message) × (t : Receiver) × (left : List ℕ) × (out
        ≡ some (got, t, left))
      × (got ++ later ≡ ms)
      × OnWay later t left
      × (AllFit c z ms
          → Positive ks
          → (later ≡ []) ⊎ (length later + length left + length ks ≤ length ms + length stream))

  run-Ran :
      (ks : List ℕ) (ms : List Message) (r : Receiver) (stream : List ℕ)
      → AllSendable z ms
      → OnWay ms r stream
      → Ran ks ms stream (polls c z ks r stream)
  unfolding polls
  run-Ran [] ms r stream ok way = ([], ms, r, stream, refl, refl, way, λ fit pos. inr (omega arith))
  run-Ran (k ∷ ks) ms r stream ok way =
      let (now, mid, s, rest, e, f, ok', way', near) = poll-Polled k ms r stream ok way in
      let (got, later, t, left, e', f', way'', near') = run-Ran ks mid s rest ok' way' in
      (
        now ++ got,
        later,
        t,
        left,
        rw (e, ◌>>=◌, e') refl,
        append_assoc now got later ∙ ap (λ x. now ++ x) f' ∙ f,
        way'',
        λ fit (pos, more).
            (let (fit', closer) = near fit pos in
              elim (near' fit' more) [
                | inl done ↦ inl done
                | inr few ↦ elim closer [
                  | inl empty ↦
                      let (_, gone) = append-empty now mid (f ∙ empty) in
                      let (_, done) = append-empty got later (f' ∙ gone) in inl done
                  | inr less ↦ inr (omega arith)
                ]
              ]),
      )

  -- The messages are sent, each not longer than a receiver accepts. Then, whatever the number of bytes
  -- that the network gives at a time, nothing is thrown, the messages received are the first of those
  -- sent, in order, and the bytes that wait and those on their way are those of the others.
  pub polls-in_order :
      (ks : List ℕ) (ms : List Message)
      → AllSendable z ms
      → (got : List Message) × (later : List Message) × (t : Receiver) × (left : List ℕ) × (polls c
            z ks new_receiver
            (frames c ms)
          ≡ some (got, t, left))
        × (got ++ later ≡ ms)
        × (t.unread ++ left ≡ frames c later)
        × (t.read_size ≤ z.recv_max)
  polls-in_order ks ms ok =
      let (got, later, t, left, e, f, (h, l), _) =
        run-Ran ks ms new_receiver (frames c ms) ok (refl, omega arith) in
      (got, later, t, left, e, f, h, l)

  -- If each message is not longer than that with its header, every message is received once the network
  -- has given bytes often enough: one round for a message and one for a byte are enough.
  pub polls-all :
      (ks : List ℕ) (ms : List Message)
      → AllSendable z ms
      → AllFit c z ms
      → Positive ks
      → length ms + length (frames c ms) ≤ length ks
      → (t : Receiver) × (polls c z ks new_receiver (frames c ms) ≡ some (ms, t, []))
        × (t.unread ≡ [])
  polls-all ks ms ok fit pos enough =
      let (got, later, t, left, e, f, (h, _), near) =
        run-Ran ks ms new_receiver (frames c ms) ok (refl, omega arith) in
      let done : later ≡ [] = elim (near fit pos) [
        | inl done ↦ done
        | inr few ↦ length-zero later (omega arith)
      ] in
      let (unread, stream) = append-empty t.unread left (h ∙ ap (frames c) done) in
      let all : got ≡ ms = sym (append-nil got) ∙ ap (λ x. got ++ x) (sym done) ∙ f in
      (
        t,
        e ∙ ap (λ (x : List Message × List ℕ). some (x.0, t, x.1)) (λ i. (all i, stream i)),
        unread,
      )
