-- ===== src/Atom/RoundTrip.antt =====
-- A name of at most 13 small letters and underscores comes back from its number. The bound is
-- strict: 28 ^ 13 fits into 64 bits, and 28 ^ 14 does not.
use gce.Prelude.{
  if◌then◌else◌, ℕ, zero, suc, ◌+◌, ◌*◌, ◌/◌, ◌%◌, ◌-◌, ◌^◌, ◌<◌, ◌≤◌, ◌≡◌, refl, ap, ◌∙◌, List, [],
  ◌∷◌, ◌++◌, some, arith, Bool, true, false, not, ◌&&◌, ◌||◌, ltb, ◌==◌, length, get_or,
}
use mathlib.Core.List.{append-nil}
use gce.Atom.{encoding_table, encode_from, atom, decoding_table, decode_into, atom_name}

-- Whether a test holds of the bytes that come before a bound.
passes : (ℕ → Bool) → ℕ → Bool
passes test zero = true
passes test (suc last) = if test last then passes test last else false

passes-at :
    (test : ℕ → Bool) (bound byte : ℕ) → byte < bound → passes test bound ≡ true → test byte ≡ true
unfolding passes
passes-at test zero byte below e = absurd (omega arith)
passes-at test (suc last) byte below e = ground (arith, passes-at test last byte)

-- A small letter or an underscore.
abbrev pub is_small : ℕ → Bool
is_small c = (ltb 96 c && ltb c 123) || c == 95

abbrev pub all_small : List ℕ → Bool
all_small [] = true
all_small (c ∷ cs) = is_small c && all_small cs

abbrev code_of : ℕ → ℕ
code_of c = get_or encoding_table c 0

-- Such a byte has a digit, and the digit gives it back.
abbrev has_digit : ℕ → Bool
has_digit c =
    not (is_small c)
    || (ltb 0 (code_of c) && (ltb (code_of c) 28 && get_or decoding_table (code_of c) 0 == c))

digit_table : passes has_digit 128 ≡ true
unfolding passes encoding_table decoding_table
digit_table = refl

digit :
    (c : ℕ)
    → is_small c ≡ true
    → (0 < code_of c) × (code_of c < 28) × (get_or decoding_table (code_of c) 0 ≡ c)
digit c h =
    let below : c < 128 = ground arith in
    let has = passes-at has_digit 128 c below digit_table in ground arith

-- 28 ^ n
abbrev power : ℕ → ℕ
power zero = 1
power (suc n) = 28 * power n

power_pos : (n : ℕ) → 0 < power n
power_pos zero = omega arith
power_pos (suc n) = omega (arith, power_pos n)

power-le : (m n k : ℕ) → m + n ≡ k → power m ≤ power k
power-le m zero k e = let same : m ≡ k = omega arith in rw same (omega arith)
power-le m (suc n) k e = omega (arith, power-le (suc m) n k (omega arith))

-- The number without a wrap.
value : ℕ → List ℕ → ℕ
value v [] = v
value v (c ∷ cs) = value (v * 28 + code_of c) cs

encode_from-value :
    (s : List ℕ) (v k : ℕ)
    → all_small s ≡ true
    → k + length s ≡ 13
    → v < power k
    → encode_from v s ≡ value v s
unfolding encode_from value
encode_from-value [] v k a e b = refl
encode_from-value (c ∷ cs) v k a e b =
    let small : (is_small c ≡ true) × (all_small cs ≡ true) = ground arith in
    let (above, below, _) = digit c small.0 in
    let room : 28 * power k ≤ 2 ^ 64 =
      omega (arith, power-le (suc k) (length cs) 13 (omega arith)) in
    let exact : (v * 28 % 2 ^ 64 + code_of c) % 2 ^ 64 ≡ v * 28 + code_of c = omega arith in
    let some_code : (code_of c == 0) ≡ false = ground arith in
    let rest =
      encode_from-value cs (v * 28 + code_of c) (suc k) small.1 (omega arith) (omega arith) in
    rw (some_code, exact, rest)

-- One byte is written.
decode_into-step :
    (r v d : ℕ) (out : List ℕ)
    → 0 < d
    → d < 28
    → decode_into (suc r) (v * 28 + d) out ≡ decode_into r v (get_or decoding_table d 0 ∷ out)
unfolding decode_into
decode_into-step r v d out above below =
    let quotient : (v * 28 + d) / 28 ≡ v = omega arith in
    let rest : (v * 28 + d) % 28 ≡ d = omega arith in
    let more : (v * 28 + d == 0) ≡ false = ground arith in rw (more, quotient, rest)

decode_into-value :
    (s out : List ℕ) (v r room : ℕ)
    → all_small s ≡ true
    → room ≡ length s + r
    → decode_into room (value v s) out ≡ decode_into r v (s ++ out)
unfolding value
decode_into-value [] out v r room a e = let same : room ≡ r = omega arith in rw same
decode_into-value (c ∷ cs) out v r room a e =
    let small : (is_small c ≡ true) × (all_small cs ≡ true) = ground arith in
    let (above, below, back) = digit c small.0 in
    decode_into-value cs out (v * 28 + code_of c) (suc r) room small.1 (omega arith)
    ∙ decode_into-step r v (code_of c) (cs ++ out) above below
    ∙ ap (λ b. decode_into r v (b ∷ (cs ++ out))) back

decode_into-zero : (r : ℕ) (out : List ℕ) → decode_into r 0 out ≡ some out
unfolding decode_into
decode_into-zero zero out = refl
decode_into-zero (suc r) out = refl

-- A name of at most 13 small letters and underscores comes back from its number.
pub atom_name-atom : (s : List ℕ) → all_small s ≡ true → length s ≤ 13 → atom_name (atom s) ≡ some s
unfolding atom_name atom
atom_name-atom s a h =
    let short : ltb 14 (length s) ≡ false = ground arith in
    let exact = encode_from-value s 0 (13 - length s) a (omega arith) (power_pos (13 - length s)) in
    rw (short, exact)
      (decode_into-value s [] 0 (20 - length s) 20 a (omega arith)
        ∙ decode_into-zero (20 - length s) (s ++ [])
        ∙ ap some (append-nil s))
