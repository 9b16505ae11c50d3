-- ===== src/ServiceAuth/Tests.antt =====
-- pkg/service_auth.go on a node that connects, and the theorems about it there.
use coinsurf_proxy.Base.{◌≡◌, refl, ◌⊎◌, true, some, [], ◌∷◌, Bytes, codes, split}
use coinsurf_proxy.Node.{Node, new_node}
use coinsurf_proxy.Router.{is_prefix}
use coinsurf_proxy.ServiceAuth.{
  Peer, disconnect, remove, new_stream, write_ok, close_stream, add, register, node_address,
  authorize, on_connect,
}
use coinsurf_proxy.ServiceAuth.Additions.{adds, IsAdmitted, on_connect-adds}

abbrev pid : Bytes
pid = codes "p2"

-- A node replaces another one with its address.
abbrev peer : Peer
peer = record {
  development_ip = [];
  addresses = some (codes "1.2.3.4", []);
  get_by_ip = λ ip. some (record new_node { id = codes "p1" });
  remove_ok = true;
  stream_ok = true;
  service_ok = true;
  message = some (codes "{}");
  unmarshal = λ bytes. some (record { api_key = codes "k"; user_agent = codes "linux#1#2" });
  is_uuid = λ key. true;
  authenticate = λ key. some (codes "u1");
  write_ok = true;
  close_ok = true;
  lookup_ip = λ ip. some (codes "us", codes "texas", codes "austin");
  add_ok = true;
}

abbrev node : Node
node = record new_node {
  id = pid;
  ipv4 = codes "1.2.3.4";
  user_id = codes "u1";
  api_key = codes "k";
  os = codes "linux";
  version = codes "1";
  app_version = codes "2";
  country = codes "us";
  region = codes "texas";
  city = codes "austin";
}

on_connect-effects :
    on_connect peer pid
    ≡ disconnect (codes "p1")
      ∷ remove (codes "p1")
      ∷ new_stream pid
      ∷ write_ok
      ∷ close_stream
      ∷ add node
      ∷ register (codes "u1") (codes "1.2.3.4") node
      ∷ []
unfolding on_connect authorize node_address split is_prefix
on_connect-effects = refl

on_connect-adds_example :
    (adds (on_connect peer pid) ≡ [])
    ⊎ ((n : Node) × IsAdmitted peer pid n × (adds (on_connect peer pid) ≡ n ∷ []))
on_connect-adds_example = on_connect-adds peer pid
