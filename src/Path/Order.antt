-- ===== src/Path/Order.antt =====
-- `includes_in_order` against the positions of the stops.
use fleet_flow.Base.{
  ℕ, ◌<◌, ◌≡◌, refl, true, Option, none, some, arith, get_elem?, Nodup, get_elem?-index_of,
  index_of-get_elem?, index_of, ltb→lt, ◌↔◌,
}
use fleet_flow.Result.{ok}
use fleet_flow.Location.{LocationCode, str}
use fleet_flow.Location.Laws.{IsCanonical}
use fleet_flow.Path.{RoutePath, includes_in_order, in_order}

-- `a` stands before `b` on the path.
abbrev pub Before : RoutePath → LocationCode → LocationCode → Type 0
Before p a b =
    (i : ℕ) × (j : ℕ) × (get_elem? p.locations i ≡ some a)
    × (get_elem? p.locations j ≡ some b)
    × (i < j)

in_order_positions :
    (x y : Option ℕ)
    → in_order x y ≡ true
    → (i : ℕ) × (j : ℕ) × (x ≡ some i) × (y ≡ some j) × (i < j)
in_order_positions (some i) (some j) h = (i, j, refl, refl, ltb→lt i j h)
in_order_positions (some i) none h = cc
in_order_positions none y h = cc

-- On a path without duplicates, and for canonical codes, `includes_in_order` returns true exactly
-- when the first stands at an earlier position than the second.
pub includes_in_order_iff :
    (p : RoutePath) (a b : LocationCode)
    → Nodup p.locations
    → IsCanonical a
    → IsCanonical b
    → (includes_in_order p (str a) (str b) ≡ ok true) ↔ Before p a b
unfolding includes_in_order
includes_in_order_iff p a b d ca cb = (
  λ h.
      let (i, j, x, y, lt) =
        in_order_positions (index_of p.locations a) (index_of p.locations b) (ground arith) in
      (i, j, get_elem?-index_of p.locations a i x, get_elem?-index_of p.locations b j y, lt),
  λ (i, j, x, y, lt).
      ground
        (arith, index_of-get_elem? p.locations i a d x, index_of-get_elem? p.locations j b d y),
)
