-- ===== src/Atom.antt =====
-- gce/actor/atom.hpp: short names as 64-bit numbers, in base 28. A byte is a number below 256; the
-- theorems speak of bytes below 128, since `(int)str[i]` of another byte may be negative.
pub mod RoundTrip
mod Tests
use gce.Prelude.{
  ℕ, zero, suc, ◌+◌, ◌*◌, ◌/◌, ◌%◌, ◌^◌, List, [], ◌∷◌, ◌++◌, Option, none, some, ltb, ◌==◌,
  if◌then◌else◌, length, get_or, replicate,
}

-- Rows 4 and 5 of `encoding_table`: the letters count from 1, and `_` is 27.
abbrev letters : List ℕ
letters =
    0 ∷ 1 ∷ 2 ∷ 3 ∷ 4 ∷ 5 ∷ 6 ∷ 7 ∷ 8 ∷ 9 ∷ 10 ∷ 11 ∷ 12 ∷ 13 ∷ 14 ∷ 15 ∷ 16 ∷ 17 ∷ 18 ∷ 19 ∷ 20
    ∷ 21 ∷ 22 ∷ 23 ∷ 24 ∷ 25 ∷ 26 ∷ 0 ∷ 0 ∷ 0 ∷ 0 ∷ []

unfoldable pub encoding_table : List ℕ
encoding_table = replicate 64 0 ++ (letters ++ (27 ∷ (letters ++ (0 ∷ replicate 128 0))))

-- The loop over the bytes, from `value`.
unfoldable pub encode_from : ℕ → List ℕ → ℕ
encode_from value [] = value
encode_from value (c ∷ cs) =
    let code = get_or encoding_table c 0 in
    let rest = encode_from ((value * 28 % 2 ^ 64 + code) % 2 ^ 64) cs in
    if code == 0 then 0 else rest

-- `atom(char const*)`
unfoldable pub atom : List ℕ → ℕ
atom str = if ltb 14 (length str) then 0 else encode_from 0 str

-- `decoding_table`: a zero byte, the lower-case letters, `_`.
unfoldable pub decoding_table : List ℕ
decoding_table =
    0 ∷ 97 ∷ 98 ∷ 99 ∷ 100 ∷ 101 ∷ 102 ∷ 103 ∷ 104 ∷ 105 ∷ 106 ∷ 107 ∷ 108 ∷ 109 ∷ 110 ∷ 111 ∷ 112
    ∷ 113 ∷ 114 ∷ 115 ∷ 116 ∷ 117 ∷ 118 ∷ 119 ∷ 120 ∷ 121 ∷ 122 ∷ 95 ∷ []

-- The loop, with `room` bytes of `buf` left below `pos`; `none` is a write before `buf`.
unfoldable pub decode_into : ℕ → ℕ → List ℕ → Option (List ℕ)
decode_into zero x out = if x == 0 then some out else none
decode_into (suc room) x out =
    let rest = decode_into room (x / 28) (get_or decoding_table (x % 28) 0 ∷ out) in
    if x == 0 then some out else rest

-- `atom(uint64_t)`: `pos` starts at 19, so 20 bytes can be written.
unfoldable pub atom_name : ℕ → Option (List ℕ)
atom_name what = decode_into 20 what []

-- `exit`: `atom("gce_actor_exit")`
unfoldable pub exit_type : ℕ
unfolding atom encode_from encoding_table
exit_type = atom (103 ∷ 99 ∷ 101 ∷ 95 ∷ 97 ∷ 99 ∷ 116 ∷ 111 ∷ 114 ∷ 95 ∷ 101 ∷ 120 ∷ 105 ∷ 116 ∷ [])
