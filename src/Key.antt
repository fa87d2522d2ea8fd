-- ===== src/Key.antt =====
-- The order that `std::map` and `std::set` ask of a key: a strict weak order. Two keys that neither
-- precedes are equivalent, and a container does not tell them apart.
use gce.Prelude.{ℕ, ◌≡◌, ◌↔◌, Bool, true, false, not, ◌&&◌, arith, ltb}

pub record Key {ℓ} (K : Type ℓ) : Type ℓ where
  pub lt : K → K → Bool
  pub lt_irrefl : (a : K) → lt a a ≡ false
  pub lt_trans : (a b c : K) → lt a b ≡ true → lt b c ≡ true → lt a c ≡ true
  pub lt_cotrans : (a b c : K) → lt a c ≡ true → lt a b ≡ false → lt b c ≡ true

module _ {ℓ} {K : Type ℓ} ⦃key : Key K⦄ where
  unfoldable pub eqv : K → K → Bool
  eqv a b = not (key.lt a b) && not (key.lt b a)

  pub eqv_refl : (a : K) → eqv a a ≡ true
  unfolding eqv
  eqv_refl a = ground (arith, key.lt_irrefl a)

  pub eqv_symm : (a b : K) → eqv a b ≡ eqv b a
  unfolding eqv
  eqv_symm a b = ground arith

  pub eqv_trans : (a b c : K) → eqv a b ≡ true → eqv b c ≡ true → eqv a c ≡ true
  unfolding eqv
  eqv_trans a b c = ground (arith, key.lt_cotrans a b c, key.lt_cotrans c b a)

  -- Equivalent keys are interchangeable in a test.
  pub eqv_congr : (a b c : K) → eqv a b ≡ true → eqv a c ≡ eqv b c
  eqv_congr a b c e = ground (arith, eqv_symm a b, eqv_trans a b c, eqv_trans b a c)

  pub lt-eqv : (a b : K) → key.lt a b ≡ true → eqv a b ≡ false
  unfolding eqv
  lt-eqv a b h = ground arith

pub ltb_irrefl : (a : ℕ) → ltb a a ≡ false
ltb_irrefl a = ground arith

pub ltb_trans : (low mid high : ℕ) → ltb low mid ≡ true → ltb mid high ≡ true → ltb low high ≡ true
ltb_trans low mid high = ground arith

pub ltb_cotrans :
    (low mid high : ℕ) → ltb low high ≡ true → ltb low mid ≡ false → ltb mid high ≡ true
ltb_cotrans low mid high = ground arith

instance abbrev pub nat_key : Key ℕ
nat_key = record {
  lt = ltb;
  lt_irrefl = ltb_irrefl;
  lt_trans = ltb_trans;
  lt_cotrans = ltb_cotrans;
}

-- Numbers are equivalent when they are equal.
pub eqv_iff : (a b : ℕ) → (eqv a b ≡ true) ↔ (a ≡ b)
unfolding eqv
eqv_iff a b = ground arith
