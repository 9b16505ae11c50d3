-- ===== src/Router/Genji/Pools/Stats.antt =====
-- pkg/router/genji.go, `GetPoolStats` and `GetCountryStats`.
use coinsurf_proxy.Base.{
  ℕ, ◌≡◌, refl, ap, ◌∙◌, false, Option, some, List, [], ◌∷◌, map, Bytes, codes, Assoc, lookup,
  insert, lookup-insert, bytes_eq, bytes_eq_refl, if◌then◌else◌, arith,
}
use coinsurf_proxy.Router.Genji.Pools.{count_groups}
use coinsurf_proxy.Router.Genji.{text, integer, Document}

-- A row of a GROUP BY query.
abbrev pub group_doc : Bytes → Bytes × ℕ → Document
group_doc key row = (codes "nodes", integer row.1) ∷ (key, text row.0) ∷ []

-- The count of a group in the rows: the last one if it stands there more than once.
abbrev pub count_in : List (Bytes × ℕ) → Option ℕ → Bytes → Option ℕ
count_in [] before group = before
count_in ((name, n) ∷ rows) before group =
    count_in rows (if bytes_eq name group then some n else before) group

-- Of the rows of a GROUP BY query, the statistics give every group its count and no other group
-- any; they never fail.
pub count_groups-count_in :
    (key : Bytes) (rows : List (Bytes × ℕ)) (nodes : Assoc ℕ)
    → bytes_eq (codes "nodes") key ≡ false
    → (m : Assoc ℕ) × (count_groups key (map (group_doc key) rows) nodes ≡ some m)
      × ((group : Bytes) → lookup group m ≡ count_in rows (lookup group nodes) group)
unfolding count_groups lookup
count_groups-count_in key [] nodes h = (nodes, refl, λ group. refl)
count_groups-count_in key ((name, n) ∷ rows) nodes h =
    let (m, e, all) = count_groups-count_in key rows (insert name n nodes) h in
    let named : lookup key (group_doc key (name, n)) ≡ some (text name) =
      ground (arith, h, bytes_eq_refl key) in
    (
      m,
      rw (named, count_groups) e,
      λ group. all group ∙ ap (λ o. count_in rows o group) (lookup-insert name group n nodes),
    )
