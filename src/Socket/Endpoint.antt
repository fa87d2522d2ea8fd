-- ===== src/Socket/Endpoint.antt =====
-- `make_socket` of libs/actor/src/socket.cpp: the parsing of an endpoint. A string is the list of its
-- bytes; the network socket that it makes belongs to asio.
use gce.Prelude.{
  ℕ, ◌≡◌, refl, Bool, true, false, not, ◌&&◌, List, [], ◌∷◌, ◌++◌, Option, none, some, arith,
  if◌then◌else◌, ◌==◌,
}

-- The address and the port, or the exception.
pub data Endpoint : Type 0 where
  tcp : List ℕ → List ℕ → Endpoint
  no_protocol no_address unsupported : Endpoint

-- What follows a prefix.
abbrev after_prefix : List ℕ → List ℕ → Option (List ℕ)
after_prefix [] s = some s
after_prefix (p ∷ ps) [] = none
after_prefix (p ∷ ps) (c ∷ s) = if p == c then after_prefix ps s else none

abbrev pub prepend : ℕ → Option (List ℕ × List ℕ) → Option (List ℕ × List ℕ)
prepend c none = none
prepend c (some (before, after)) = some (c ∷ before, after)

abbrev found_here : Option (List ℕ) → Option (List ℕ × List ℕ) → Option (List ℕ × List ℕ)
found_here none rest = rest
found_here (some after) rest = some ([], after)

-- `find(pattern)`, as the parts of the string before and after the pattern.
unfoldable pub split_at : List ℕ → List ℕ → Option (List ℕ × List ℕ)
split_at pattern [] = found_here (after_prefix pattern []) none
split_at pattern (c ∷ s) =
    let rest = split_at pattern s in found_here (after_prefix pattern (c ∷ s)) (prepend c rest)

abbrev str_eq : List ℕ → List ℕ → Bool
str_eq [] [] = true
str_eq [] (c ∷ s) = false
str_eq (c ∷ s) [] = false
str_eq (c ∷ s) (d ∷ t) = c == d && str_eq s t

abbrev scheme : List ℕ
scheme = 58 ∷ 47 ∷ 47 ∷ []

abbrev colon : List ℕ
colon = 58 ∷ []

abbrev tcp_name : List ℕ
tcp_name = 116 ∷ 99 ∷ 112 ∷ []

unfoldable pub make_socket : List ℕ → Endpoint
make_socket ep = elim (split_at scheme ep) [
  | none ↦ no_protocol
  | some (name, rest) ↦
      if str_eq name tcp_name
      then (elim (split_at colon rest) [
        | none ↦ no_address
        | some (address, port) ↦ tcp address port
      ])
      else unsupported
]

abbrev pub endpoint : List ℕ → List ℕ → List ℕ
endpoint address port = tcp_name ++ (scheme ++ (address ++ (colon ++ port)))

-- No `:` in an address.
abbrev pub plain : List ℕ → Bool
plain [] = true
plain (c ∷ s) = not (c == 58) && plain s

split_colon :
    (address port : List ℕ)
    → plain address ≡ true
    → split_at colon (address ++ (58 ∷ port)) ≡ some (address, port)
unfolding split_at
split_colon [] port h = refl
split_colon (c ∷ s) port h =
    let other : (58 == c) ≡ false = ground arith in
    let rest : plain s ≡ true = ground arith in
    rw (other, if◌then◌else◌, split_colon s port rest) refl

-- An endpoint that names tcp, an address without a colon and a port is parsed into that address and port.
pub make_socket-endpoint :
    (address port : List ℕ)
    → plain address ≡ true
    → make_socket (endpoint address port) ≡ tcp address port
unfolding make_socket
make_socket-endpoint address port h =
    let first : split_at scheme (endpoint address port) ≡ some (tcp_name, address ++ (58 ∷ port)) =
      unfold split_at in refl in
    rw (first, make_socket, split_colon address port h)
