-- ===== src/Router/Genji/Pools/Statements.antt =====
-- pkg/router/genji.go, `PoolDelete`, `PoolCleanNameNotIn` and `PoolAdd`.
use coinsurf_proxy.Base.{
  ◌≡◌, refl, sym, ap, ◌∙◌, true, false, Option, none, some, List, [], ◌∷◌, ◌++◌, append_assoc,
  append-nil, map, Bytes, codes, join, is_empty, if◌then◌else◌,
}
use coinsurf_proxy.Auth.{Outcome, ok}
use coinsurf_proxy.Router.{quoted, clause}
use coinsurf_proxy.Router.Genji.Actions.{exec_pools, with_pools}
use coinsurf_proxy.Router.Genji.Pools.{write_rows, pool_delete_statement, pool_delete, pool_add}
use coinsurf_proxy.Router.Genji.{
  Database, Cache, Codec, Genji, text, pools_delete_bulk_query, pools_insert_atomic_query,
}

-- Each row with a comma in front.
abbrev rows_behind : List Bytes → Bytes
rows_behind [] = []
rows_behind (v ∷ vs) = codes "," ++ (quoted v ++ rows_behind vs)

write_rows_behind :
    (vs : List Bytes) (buf : Bytes) → write_rows false vs buf ≡ buf ++ rows_behind vs
unfolding write_rows
write_rows_behind [] buf = sym (append-nil buf)
write_rows_behind (v ∷ vs) buf =
    write_rows_behind vs ((buf ++ codes ",") ++ quoted v) ∙ simp append_assoc

join-rows :
    (v : Bytes) (vs : List Bytes)
    → join (codes ",") (map quoted (v ∷ vs)) ≡ quoted v ++ rows_behind vs
unfolding join
join-rows v [] = sym (append-nil (quoted v))
join-rows v (w ∷ vs) = ap (λ x. quoted v ++ (codes "," ++ x)) (join-rows w vs)

write_rows-join :
    (v : Bytes) (vs : List Bytes) (buf : Bytes)
    → write_rows true (v ∷ vs) buf ≡ buf ++ join (codes ",") (map quoted (v ∷ vs))
unfolding write_rows
write_rows-join v vs buf =
    write_rows_behind vs (buf ++ quoted v)
    ∙ (append_assoc buf (quoted v) (rows_behind vs) ∙ sym (ap (λ x. buf ++ x) (join-rows v vs)))

-- What the loop writes between parentheses.
rows_lem :
    (buf : Bytes) (v : Bytes) (vs : List Bytes)
    → write_rows true (v ∷ vs) (buf ++ codes "IN(") ++ codes ")"
      ≡ buf ++ (codes "IN(" ++ (join (codes ",") (map quoted (v ∷ vs)) ++ codes ")"))
rows_lem buf v vs = rw (write_rows-join v vs (buf ++ codes "IN(")) (simp append_assoc)

abbrev pub delete_text : Bytes → List Bytes → Bytes
delete_text name pids =
    pools_delete_bulk_query ++ (quoted name ++ (codes " AND " ++ clause (codes "peer_id") pids))

pool_delete_statement_lem :
    (name : Bytes) (pid : Bytes) (pids : List Bytes)
    → pool_delete_statement name (pid ∷ pids) ≡ delete_text name (pid ∷ pids)
unfolding pool_delete_statement clause
pool_delete_statement_lem name pid [] = simp append_assoc
pool_delete_statement_lem name pid (pid' ∷ pids) =
    rows_lem (pools_delete_bulk_query ++ (quoted name ++ codes " AND peer_id ")) pid (pid' ∷ pids)
    ∙ simp append_assoc

module _ (d : Database) where
  -- The pools' table after each insertion that the database accepts.
  abbrev pub inserted : Codec → Bytes → List Bytes → d.Db → d.Db
  inserted codec name [] pools = pools
  inserted codec name (id ∷ ids) pools =
      inserted codec name ids
        (elim (d.exec pools_insert_atomic_query (text (codec.encode id) ∷ text name ∷ []) pools) [
          | none ↦ pools
          | some pools' ↦ pools'
        ])

module _ {d : Database} {c : Cache} where
  -- `PoolDelete` runs nothing for no peers, and else one statement with the pool's name and the
  -- clause on the encoded peers that the query builder would write.
  pub pool_delete-clause :
      (codec : Codec) (name : Bytes) (ids : List Bytes) (g : Genji d c)
      → pool_delete codec name ids g ≡ (
          if is_empty ids
          then (ok tt, g)
          else exec_pools (delete_text name (map codec.encode ids)) [] g)
  unfolding pool_delete
  pool_delete-clause codec name [] g = refl
  pool_delete-clause codec name (id ∷ ids) g =
      ap (λ s. with_pools (d.exec s [] g.pools) g)
        (pool_delete_statement_lem name (codec.encode id) (map codec.encode ids))

  kept :
      (codec : Codec) (name : Bytes) (ids : List Bytes) (g : Genji d c) (o : Option d.Db)
      → ◌≡◌ {A = Outcome (Unit {0}) × Genji d c}
          (
            ok tt,
            record (with_pools o g).1 {
              pools = inserted d codec name ids (with_pools o g).1.pools;
            },
          )
          (
            ok tt,
            record g {
              pools = inserted d codec name ids (elim o [ none ↦ g.pools | some pools ↦ pools ]);
            },
          )
  kept codec name ids g none = refl
  kept codec name ids g (some pools) = refl

  -- `PoolAdd` always succeeds: an insertion that the database refuses is skipped, whatever the
  -- others do, and neither the nodes nor the sessions change.
  pub pool_add-inserted :
      (codec : Codec) (name : Bytes) (ids : List Bytes) (g : Genji d c)
      → pool_add codec name ids g ≡ (ok tt, record g { pools = inserted d codec name ids g.pools })
  unfolding pool_add
  pool_add-inserted codec name [] g = refl
  pool_add-inserted codec name (id ∷ ids) g =
      let key = text (codec.encode id) ∷ text name ∷ [] in
      pool_add-inserted codec name ids
        (with_pools (d.exec pools_insert_atomic_query key g.pools) g).1
      ∙ kept codec name ids g (d.exec pools_insert_atomic_query key g.pools)
