-- ===== src/Router/Genji/Tests.antt =====
-- pkg/router/genji.go on a small database and cache, and the theorems about it there.
pub mod Stores
use coinsurf_proxy.Base.{
  ℕ, ◌≡◌, ◌≢◌, refl, sym, ap, ◌∙◌, inl, inr, true, false, Option, none, some, List, [], ◌∷◌, ◌++◌,
  Bytes, codes, Assoc, lookup, insert, erase, join, All, map, is_empty, arith, if◌then◌else◌,
}
use coinsurf_proxy.Auth.{Outcome, ok, err, panic, other}
use coinsurf_proxy.Node.{Node, new_node}
use coinsurf_proxy.Request.{Request, new_request, country_random, is_random_location}
use coinsurf_proxy.Router.{itoa, clause}
use coinsurf_proxy.Router.Genji.{
  Database, Cache, Codec, Genji, Value, text, integer, Document, text_field, document_to_node,
  nodes_delete_query, sessions_select_by_peer_id,
}
use coinsurf_proxy.Router.Genji.Actions.{Action, return, exec_pools}
use coinsurf_proxy.Router.Genji.Routing.{
  route, pick, pick_from_pool, find_session, route_new, save_session, target_query, has_session,
}
use coinsurf_proxy.Router.Genji.Routing.Sticky.{KeepsSessions, plain, route_sticky}
use coinsurf_proxy.Router.Genji.Routing.Targets.{pick-city, pick_random, pick_refused}
use coinsurf_proxy.Router.Genji.Nodes.{remove, forget_sessions}
use coinsurf_proxy.Router.Genji.Nodes.Removal.{IsForgotten, remove-forgets}
use coinsurf_proxy.Router.Genji.Pools.{pool_add, pool_delete, count_groups}
use coinsurf_proxy.Router.Genji.Pools.Statements.{
  delete_text, pool_delete-clause, inserted, pool_add-inserted,
}
use coinsurf_proxy.Router.Genji.Pools.Stats.{group_doc, count_in, count_groups-count_in}
use coinsurf_proxy.Router.Genji.Tests.Stores.{
  pack, fields, documents, cache, codec, codec-KeepsSessions, cache-Deletes,
}

abbrev field : Bytes → Bytes → Bytes × Value
field name v = (name, text v)

abbrev doc : Document
doc =
    field (codes "peer_id") (codes "p1")
    ∷ field (codes "api_key") (codes "k")
    ∷ field (codes "user_id") (codes "u")
    ∷ field (codes "country") (codes "us")
    ∷ field (codes "region") (codes "texas")
    ∷ field (codes "city") (codes "austin")
    ∷ field (codes "os") (codes "linux")
    ∷ field (codes "version") (codes "1")
    ∷ field (codes "app_version") (codes "2")
    ∷ field (codes "ipv4") (codes "1.2.3.4")
    ∷ field (codes "ipv6") []
    ∷ field (codes "session_id") (codes "7")
    ∷ []

abbrev router : Genji documents cache
router = record { db = doc ∷ []; pools = doc ∷ []; sessions = [] }

abbrev texas : Request
texas = record new_request {
  country = some (codes "us");
  region = some (codes "texas");
  session_id = 7;
}

abbrev germany : Request
germany = record new_request { country = some (codes "de"); session_id = 7 }

abbrev austin : Node
austin = record new_node {
  id = codes "p1";
  ipv4 = codes "1.2.3.4";
  user_id = codes "u";
  api_key = codes "k";
  os = codes "linux";
  version = codes "1";
  app_version = codes "2";
  country = codes "us";
  region = codes "texas";
  city = codes "austin";
}

abbrev with_session : Genji documents cache
with_session = record router { sessions = (codes "7", pack (fields austin)) ∷ [] }

route_texas : route codec texas router ≡ (ok austin, with_session)
unfolding route route_new find_session pick target_query save_session document_to_node text_field
    lookup insert itoa is_random_location
route_texas = refl

route_sticky_example :
    (m : Node) × (route codec germany with_session ≡ (ok m, with_session))
    × (plain m ≡ plain austin)
route_sticky_example =
    route_sticky codec texas germany router with_session austin codec-KeepsSessions refl refl refl
      route_texas

pick-city_case :
    pick {d = documents} {c = cache} codec (record texas { city = some (codes "dallas") })
    ≡ pick codec texas
pick-city_case =
    pick-city codec texas (codes "us") (codes "texas") (some (codes "dallas")) refl refl refl refl

abbrev random : Request
random = record new_request { country = some country_random }

pick_of_random :
    pick {d = documents} {c = cache} codec
      (record random { ip = some (codes "1.1.1.1"); region = some (codes "texas"); city = none })
    ≡ pick codec random
pick_of_random =
    pick_random codec random (some (codes "1.1.1.1")) (some (codes "texas")) none refl refl

pick_refused_case :
    pick {d = documents} {c = cache} codec
      (record new_request { region = some (codes "texas") })
      router
    ≡ (err other, router)
pick_refused_case =
    pick_refused codec (record new_request { region = some (codes "texas") }) router refl refl refl
      (inl λ e. ground (arith, e))

remove_peer : remove codec (codes "p1") with_session ≡ (ok tt, router)
unfolding remove forget_sessions text_field lookup erase
remove_peer = refl

remove-forgets_example :
    (db : documents.Db) × (rows : List Document) × (documents.exec nodes_delete_query
        (text (codes "p1") ∷ [])
        with_session.db
      ≡ some db)
    × (documents.query sessions_select_by_peer_id (text (codes "p1") ∷ []) db ≡ some rows)
    × All (IsForgotten cache router.sessions) rows
remove-forgets_example =
    remove-forgets codec (codes "p1") with_session router cache-Deletes remove_peer

pool_delete-clause_case :
    pool_delete codec (codes "gold") (codes "p1" ∷ codes "p2" ∷ []) router
    ≡ exec_pools
        (codes "DELETE FROM pools WHERE name = \"gold\" AND peer_id IN(\"p1\",\"p2\")")
        []
        router
unfolding clause join
pool_delete-clause_case =
    pool_delete-clause codec (codes "gold") (codes "p1" ∷ codes "p2" ∷ []) router

pool_add-inserted_case : pool_add codec (codes "gold") (codes "p1" ∷ []) router ≡ (ok tt, router)
pool_add-inserted_case = pool_add-inserted codec (codes "gold") (codes "p1" ∷ []) router

count_groups-count_in_case :
    (m : Assoc ℕ) × (count_groups
        (codes "country")
        (map (group_doc (codes "country")) ((codes "us", 3) ∷ (codes "de", 1) ∷ []))
        []
      ≡ some m)
    × ((group : Bytes)
        → lookup group m
          ≡ count_in ((codes "us", 3) ∷ (codes "de", 1) ∷ []) (lookup group []) group)
count_groups-count_in_case =
    count_groups-count_in (codes "country") ((codes "us", 3) ∷ (codes "de", 1) ∷ []) [] refl
