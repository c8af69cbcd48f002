-- ===== src/Receive/Order.antt =====
-- `cmpAddress` is a strict total order on addresses.
use toy_softswitch.Prelude.{◌<◌, ◌≡◌, ◌⊎◌, true, false, arith}
use toy_softswitch.Context.{Address}
use toy_softswitch.Receive.{cmp_address}

-- No address is before itself, the order is transitive, and of two addresses one is before the
-- other unless they agree in thread, device and pin.
cmp_address-strict_total :
    ((a : Address) → cmp_address a a ≡ false)
    × ((a b c : Address) → cmp_address a b ≡ true → cmp_address b c ≡ true → cmp_address a c ≡ true)
    × ((a b : Address) → (cmp_address a b ≡ true) ⊎ (cmp_address b a ≡ true) ⊎ (a ≡ b))
unfolding cmp_address
cmp_address-strict_total = (λ a. ground arith, λ a b c p q. ground arith, λ a b. total a b)
  where
    total : (a b : Address) → (cmp_address a b ≡ true) ⊎ (cmp_address b a ≡ true) ⊎ (a ≡ b)
    total a b = ground arith

pub cmp_address_trans :
    (a b c : Address) → cmp_address a b ≡ true → cmp_address b c ≡ true → cmp_address a c ≡ true
cmp_address_trans = cmp_address-strict_total.1

pub cmp_address_irrefl : (a : Address) → cmp_address a a ≡ false
cmp_address_irrefl = cmp_address-strict_total.0

-- Devices of one thread are ordered by their numbers.
pub cmp_address-device :
    (a b : Address) → a.thread ≡ b.thread → a.device < b.device → cmp_address a b ≡ true
unfolding cmp_address
cmp_address-device a b e h = ground arith
