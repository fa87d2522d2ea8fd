-- ===== src/Ids/Order.antt =====
-- The order of actor ids and service ids is what `std::map` asks for, and its equivalence is `==`.
use gce.Prelude.{ℕ, ◌≡◌, Bool, true, false, arith}
use gce.Key.{Key, eqv}
use gce.Ids.{ActorId, ServiceId, aid_lt, aid_eq, svc_lt, svc_eq, then_by}

-- Facts about one field, for the ones after it.
module _ (a b c : ℕ) where
  then_by_trans :
      (p q r : Bool)
      → (p ≡ true → q ≡ true → r ≡ true)
      → then_by a b p ≡ true
      → then_by b c q ≡ true
      → then_by a c r ≡ true
  then_by_trans p q r h = ground arith

  then_by_cotrans :
      (p q r : Bool)
      → (r ≡ true → p ≡ false → q ≡ true)
      → then_by a c r ≡ true
      → then_by a b p ≡ false
      → then_by b c q ≡ true
  then_by_cotrans p q r h = ground arith

pub aid_lt_irrefl : (a : ActorId) → aid_lt a a ≡ false
unfolding aid_lt
aid_lt_irrefl a = ground arith

-- The order of actor ids is transitive.
pub aid_lt_trans : (a b c : ActorId) → aid_lt a b ≡ true → aid_lt b c ≡ true → aid_lt a c ≡ true
unfolding aid_lt
aid_lt_trans a b c = then_by_trans a.ctxid b.ctxid c.ctxid _ _ _ (
    then_by_trans a.timestamp b.timestamp c.timestamp _ _ _ (
      then_by_trans a.uintptr b.uintptr c.uintptr _ _ _
        (then_by_trans a.sid b.sid c.sid _ _ _ (λ p q. p))))

-- If an actor id is below another, any id that is not above the first is below the other.
pub aid_lt_cotrans : (a b c : ActorId) → aid_lt a c ≡ true → aid_lt a b ≡ false → aid_lt b c ≡ true
unfolding aid_lt
aid_lt_cotrans a b c = then_by_cotrans a.ctxid b.ctxid c.ctxid _ _ _ (
    then_by_cotrans a.timestamp b.timestamp c.timestamp _ _ _ (
      then_by_cotrans a.uintptr b.uintptr c.uintptr _ _ _
        (then_by_cotrans a.sid b.sid c.sid _ _ _ (λ p q. p))))

instance abbrev pub aid_key : Key ActorId
aid_key = record {
  lt = aid_lt;
  lt_irrefl = aid_lt_irrefl;
  lt_trans = aid_lt_trans;
  lt_cotrans = aid_lt_cotrans;
}

pub svc_lt_irrefl : (a : ServiceId) → svc_lt a a ≡ false
unfolding svc_lt
svc_lt_irrefl a = ground arith

pub svc_lt_trans : (a b c : ServiceId) → svc_lt a b ≡ true → svc_lt b c ≡ true → svc_lt a c ≡ true
unfolding svc_lt
svc_lt_trans a b c =
    then_by_trans a.ctxid b.ctxid c.ctxid _ _ _
      (then_by_trans a.name b.name c.name _ _ _ (λ p q. p))

pub svc_lt_cotrans :
    (a b c : ServiceId) → svc_lt a c ≡ true → svc_lt a b ≡ false → svc_lt b c ≡ true
unfolding svc_lt
svc_lt_cotrans a b c =
    then_by_cotrans a.ctxid b.ctxid c.ctxid _ _ _
      (then_by_cotrans a.name b.name c.name _ _ _ (λ p q. p))

instance abbrev pub svc_key : Key ServiceId
svc_key = record {
  lt = svc_lt;
  lt_irrefl = svc_lt_irrefl;
  lt_trans = svc_lt_trans;
  lt_cotrans = svc_lt_cotrans;
}

-- Two actor ids are equivalent in their order, neither below the other, exactly if `==` holds.
pub eqv-aid_eq : (a b : ActorId) → eqv a b ≡ aid_eq a b
unfolding eqv aid_lt aid_eq
eqv-aid_eq a b = ground arith

pub eqv-svc_eq : (a b : ServiceId) → eqv a b ≡ svc_eq a b
unfolding eqv svc_lt svc_eq
eqv-svc_eq a b = ground arith
