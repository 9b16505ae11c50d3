-- ===== src/Node.antt =====
-- pkg/node.go: an exit node.
use coinsurf_proxy.Base.{ℕ, [], ◌++◌, Bytes, codes, is_empty, length, ltb, if◌then◌else◌}

pub record PoolNode : Type 0 where
  pub id : Bytes
  pub name : Bytes
  pub ranking : ℕ

-- `short_id` and `full_id` are filled on first use.
pub record Node : Type 0 where
  pub id : Bytes
  pub short_id : Bytes
  pub full_id : Bytes
  pub ipv4 : Bytes
  pub ipv6 : Bytes
  pub user_id : Bytes
  pub api_key : Bytes
  pub os : Bytes
  pub version : Bytes
  pub app_version : Bytes
  pub country : Bytes
  pub region : Bytes
  pub city : Bytes

-- `new(Node)`.
abbrev pub new_node : Node
new_node = record {
  id = [];
  short_id = [];
  full_id = [];
  ipv4 = [];
  ipv6 = [];
  user_id = [];
  api_key = [];
  os = [];
  version = [];
  app_version = [];
  country = [];
  region = [];
  city = [];
}

unfoldable pub node_ip : Node → Bytes
node_ip n = if is_empty n.ipv4 then n.ipv6 else n.ipv4

abbrev pub dotted : Bytes → Bytes
dotted s = s ++ codes "."

-- `FullID`; `print_id` is libp2p's `peer.ID.String`.
unfoldable pub node_full_id : (Bytes → Bytes) → Node → Node × Bytes
node_full_id print_id n =
    let fresh =
      dotted n.country ++ (dotted n.region ++ (dotted n.city ++ dotted (print_id n.id))) in
    if ltb 0 (length n.full_id) then (n, n.full_id) else (record n { full_id = fresh }, fresh)

unfoldable pub node_short_id : (Bytes → Bytes) → Node → Node × Bytes
node_short_id print_id n =
    let fresh = dotted n.country ++ (dotted n.city ++ dotted (print_id n.id)) in
    if ltb 0 (length n.short_id) then (n, n.short_id) else (record n { short_id = fresh }, fresh)
