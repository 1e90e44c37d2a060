-- ===== src/Fleet/Placement.antt =====
-- Bin-packing of bots on nodes (src/fleet/placement.ts). Ids and hosts are numbers, the status is one
-- of a node's.
use platform_core.Base.{
  ℕ, Bool, not, ◌&&◌, Option, none, some, List, [], ◌∷◌, filter, head?, includes, if◌then◌else◌,
  nat_eq,
}
use platform_core.Base.Int.{ℤ, ◌-ℤ◌, ltb_ℤ, leb_ℤ}
use platform_core.Fleet.NodeStatus.{NodeStatus, status_eq}
pub mod Best

pub record NodeInput : Type 0 where
  pub id : ℕ
  pub host : ℕ
  pub status : NodeStatus
  pub capacity_mb : ℤ
  pub used_mb : ℤ

pub record PlacementResult : Type 0 where
  pub node_id : ℕ
  pub host : ℕ
  pub available_mb : ℤ

abbrev pub available : NodeInput → ℤ
available n = n.capacity_mb -ℤ n.used_mb

-- The filter's test.
abbrev pub has_room : ℤ → NodeInput → Bool
has_room required_mb n = status_eq n.status NodeStatus.active && leb_ℤ required_mb (available n)

-- `sort((a, b) => available(b) - available(a))`, which is stable.
unfoldable pub insert_node_sorted : NodeInput → List NodeInput → List NodeInput
insert_node_sorted n [] = n ∷ []
insert_node_sorted n (m ∷ ms) =
    let rest = insert_node_sorted n ms in
    if ltb_ℤ (available n) (available m) then m ∷ rest else n ∷ m ∷ ms

unfoldable pub sort_by_available : List NodeInput → List NodeInput
sort_by_available [] = []
sort_by_available (n ∷ ns) = insert_node_sorted n (sort_by_available ns)

abbrev pub result_of : Option NodeInput → Option PlacementResult
result_of none = none
result_of (some n) = some (record { node_id = n.id; host = n.host; available_mb = available n })

unfoldable pub find_placement : List NodeInput → ℤ → Option PlacementResult
find_placement nodes required_mb =
    result_of (head? (sort_by_available (filter (has_room required_mb) nodes)))

unfoldable pub find_placement_excluding : List NodeInput → List ℕ → ℤ → Option PlacementResult
find_placement_excluding nodes [] required_mb = find_placement nodes required_mb
find_placement_excluding nodes (i ∷ is) required_mb =
    find_placement (filter (λ (n : NodeInput). not (includes (i ∷ is) n.id)) nodes) required_mb
