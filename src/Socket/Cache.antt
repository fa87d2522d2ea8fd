-- ===== src/Socket/Cache.antt =====
-- The messages that wait for a connection: `send` of libs/actor/src/socket.cpp, and `conn_ = true` with the
-- login message in its `connect`.
use gce.Prelude.{
  ◌≡◌, refl, ap, sym, ◌∙◌, Bool, true, false, ◌||◌, List, [], ◌∷◌, ◌++◌, some, if◌then◌else◌, ◌>>=◌,
  map, Bool-cases, inl, inr,
}
use mathlib.Core.List.{append_assoc, append-nil}
use gce.Message.{Message}
use gce.Socket.{Socket, writes, Effects, send_message}

-- A message is sent; the connection comes up, and the login message is sent.
pub data LineCall : Type 0 where
  posts connects : Message → LineCall

unfoldable pub line_step : LineCall → Socket → Effects
line_step (posts m) s = send_message m s
line_step (connects login) s = send_message login (record s { conn = true })

unfoldable pub line_run : List LineCall → Socket → Effects
line_run [] s = some ([], s)
line_run (c ∷ cs) s = do
  (now, t) ← line_step c s
  (later, u) ← line_run cs t
  some (now ++ later, u)

abbrev pub message_of : LineCall → Message
message_of (posts m) = m
message_of (connects login) = login

abbrev pub posted : List LineCall → List Message
posted [] = []
posted (c ∷ cs) = message_of c ∷ posted cs

-- The connection is up after a call, and a message is sent while it is up.
abbrev pub up_after : LineCall → Bool → Bool
up_after (posts m) up = up
up_after (connects login) up = true

abbrev pub sent_when_up : Bool → List LineCall → Bool
sent_when_up up [] = false
sent_when_up up (c ∷ cs) = up_after c up || sent_when_up (up_after c up) cs

map-append : (xs ys : List Message) → map writes xs ++ map writes ys ≡ map writes (xs ++ ys)
map-append [] ys = refl
map-append (x ∷ xs) ys = ap (λ z. writes x ∷ z) (map-append xs ys)

-- With the connection up nothing waits after a message, and with it down everything does.
Sends : Bool → List Message → Bool → Socket → Effects → Type 0
Sends up ms flushed s out =
    (written : List Message) × (t : Socket) × (out ≡ some (map writes written, t))
    × (written ++ t.conn_cache ≡ s.conn_cache ++ ms)
    × (t.conn_cache ≡ (if flushed then [] else s.conn_cache ++ ms))
    × (t.conn ≡ up)
    × (t.has_skt ≡ true)

send_message-Sends :
    (m : Message) (s : Socket)
    → s.has_skt ≡ true
    → Sends s.conn (m ∷ []) s.conn s (send_message m s)
unfolding send_message Sends
send_message-Sends m s h = elim (Bool-cases s.conn) [
  | inl e ↦ (
    s.conn_cache ++ (m ∷ []),
    record s { conn_cache = [] },
    rw (e, h, if◌then◌else◌) refl,
    append-nil (s.conn_cache ++ (m ∷ [])),
    rw (e, if◌then◌else◌) refl,
    refl,
    h,
  )
  | inr e ↦ (
    [],
    record s { conn_cache = s.conn_cache ++ (m ∷ []) },
    rw (e, if◌then◌else◌) refl,
    refl,
    rw (e, if◌then◌else◌) refl,
    refl,
    h,
  )
]

step-Sends :
    (c : LineCall) (s : Socket)
    → s.has_skt ≡ true
    → Sends (up_after c s.conn) (message_of c ∷ []) (up_after c s.conn) s (line_step c s)
unfolding line_step Sends
step-Sends (posts m) s h = send_message-Sends m s h
step-Sends (connects login) s h = send_message-Sends login (record s { conn = true }) h

-- Nothing is left of what is sent while the connection is up.
up-empty : (cs : List LineCall) → (if sent_when_up true cs then [] else posted cs) ≡ []
up-empty [] = refl
up-empty (posts m ∷ cs) = refl
up-empty (connects login ∷ cs) = refl

waiting-cons :
    (up : Bool) (m : Message) (cs : List LineCall) (old new : List Message)
    → new ≡ (if up then [] else old ++ (m ∷ []))
    → (if sent_when_up up cs then [] else new ++ posted cs)
      ≡ (if up || sent_when_up up cs then [] else old ++ (m ∷ posted cs))
waiting-cons true m cs old new e =
    ap (λ z. if sent_when_up true cs then [] else z ++ posted cs) e ∙ up-empty cs
waiting-cons false m cs old new e =
    ap (λ z. if sent_when_up false cs then [] else z ++ posted cs) e
    ∙ ap (λ z. if sent_when_up false cs then [] else z) (append_assoc old (m ∷ []) (posted cs))

-- From a socket that has a network socket, messages are sent and the connection comes up, at which a login
-- message is sent, in any order. Nothing fails, and what is written followed by what still waits is what
-- waited before followed by what was sent: every message once, in order. Nothing waits once a message has been
-- sent with the connection up, as the login message is; before that, everything waits.
pub line_run-writes :
    (cs : List LineCall) (s : Socket)
    → s.has_skt ≡ true
    → (written : List Message) × (t : Socket) × (line_run cs s ≡ some (map writes written, t))
      × (written ++ t.conn_cache ≡ s.conn_cache ++ posted cs)
      × (t.conn_cache ≡ (if sent_when_up s.conn cs then [] else s.conn_cache ++ posted cs))
unfolding line_run Sends
line_run-writes [] s h = ([], s, refl, sym (append-nil s.conn_cache), sym (append-nil s.conn_cache))
line_run-writes (c ∷ cs) s h =
    let (now, t, e, f, w, up, h') = step-Sends c s h in
    let (later, u, e', f', w') = line_run-writes cs t h' in
    (
      now ++ later,
      u,
      rw (e, ◌>>=◌, e', map-append) refl,
      append_assoc now later u.conn_cache
          ∙ ap (λ z. now ++ z) f'
          ∙ sym (append_assoc now t.conn_cache (posted cs))
          ∙ ap (λ z. z ++ posted cs) f
          ∙ append_assoc s.conn_cache (message_of c ∷ []) (posted cs),
      w'
          ∙ ap (λ b. if sent_when_up b cs then [] else t.conn_cache ++ posted cs) up
          ∙ waiting-cons (up_after c s.conn) (message_of c) cs s.conn_cache t.conn_cache w,
    )
