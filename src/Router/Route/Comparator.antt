-- ===== src/Router/Route/Comparator.antt =====
-- comparator of Tema_1/router.c is a total order on prefix and mask, as qsort requires.
use communication_protocols.Base.{◌≤◌, ◌≡◌, ◌↔◌, arith}
use communication_protocols.Base.Int.{pos, ◌≤ℤ◌, ◌-ℤ◌}
use communication_protocols.Router.Route.{RouteTable, comparator}

-- comparator(p, q) <= 0
abbrev pub NotAfter : RouteTable → RouteTable → Type 0
NotAfter p q = comparator p q ≤ℤ pos 0

-- comparator orders by the prefix and then by the mask: it answers 0 exactly for equal prefixes and
-- masks, swapping the arguments negates its answer, and "not after" is transitive.
pub comparator_order :
    (p q r : RouteTable)
    → ((comparator p q ≡ pos 0) ↔ ((p.prefix ≡ q.prefix) × (p.mask ≡ q.mask)))
      × (comparator q p ≡ pos 0 -ℤ comparator p q)
      × (NotAfter p q → NotAfter q r → NotAfter p r)
unfolding comparator ◌-ℤ◌
comparator_order p q r =
    (((λ e. ground arith), λ e. ground arith), ground arith, λ h k. ground arith)

pub NotAfter-prefix_le : (p q : RouteTable) → NotAfter p q → p.prefix ≤ q.prefix
unfolding comparator
NotAfter-prefix_le p q h = ground arith
