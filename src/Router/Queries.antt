-- ===== src/Router/Queries.antt =====
-- pkg/router/genji.go, `queryBuilder`, against the conjunction that the filters ask for.
mod Tests
use coinsurf_proxy.Base.{
  ℕ, suc, ◌+◌, ◌≤◌, ◌<◌, ◌≡◌, ◌≢◌, refl, sym, ap, ◌∙◌, subst, ◌⊎◌, inl, inr, Bool, true, false, not,
  List, [], ◌∷◌, ◌++◌, append_assoc, append-nil, Bytes, codes, join, map, length, ltb,
  if◌then◌else◌, Bool-cases, arith,
}
use coinsurf_proxy.Router.{
  Query, contains, clause, where_word, lower, add_clause, add_limit, add_offset, query_builder,
}

contains_append : (xs ys : Bytes) → contains (xs ++ (where_word ++ ys)) where_word ≡ true
unfolding contains
contains_append [] ys = refl
contains_append (x ∷ xs) ys = ground (arith, contains_append xs ys)

-- " WHERE a AND b AND c", and nothing where there are no conditions.
abbrev pub where_text : List Bytes → Bytes
where_text [] = []
where_text (c ∷ cs) = codes " WHERE " ++ join (codes " AND ") (c ∷ cs)

join-append :
    (sep c d : Bytes) (cs : List Bytes)
    → join sep ((c ∷ cs) ++ d ∷ []) ≡ join sep (c ∷ cs) ++ (sep ++ d)
unfolding join
join-append sep c d [] = refl
join-append sep c d (e ∷ cs) = rw (join-append sep e d cs) (simp append_assoc)

-- The condition of a filter that names any values.
abbrev pub condition : Bytes → List Bytes → List Bytes
condition column [] = []
condition column (v ∷ vs) = clause column (v ∷ vs) ∷ []

-- The conditions that a query asks for, in the builder's order.
abbrev pub conditions : Query → List Bytes
conditions q =
    condition (codes "country") (map lower q.country)
    ++ (condition (codes "peer_id") (map lower q.peer_id)
        ++ (condition (codes "ipv4") (map lower q.ip)
            ++ (condition (codes "region") q.region ++ condition (codes "app_version") q.version)))

-- At most one of the filters country, peer id and IP is set.
abbrev pub HasOneKey : Query → Type 0
HasOneKey q =
    ((q.peer_id ≡ []) × (q.ip ≡ []))
    ⊎ ((q.country ≡ []) × (q.ip ≡ []))
    ⊎ ((q.country ≡ []) × (q.peer_id ≡ []))

module _ (base : Bytes) (fresh : contains base where_word ≡ false) where
  add_clause_first :
      (connector column v : Bytes) (vs : List Bytes)
      → add_clause connector column (v ∷ vs) base ≡ base ++ where_text (clause column (v ∷ vs) ∷ [])
  unfolding add_clause join
  add_clause_first connector column v vs =
      let given : ltb 0 (suc (length vs)) ≡ true = ground arith in
      rw (given, fresh, add_clause) (simp append_assoc)

  contains_where :
      (c : Bytes) (cs : List Bytes) → contains (base ++ where_text (c ∷ cs)) where_word ≡ true
  contains_where c cs =
      subst (λ t. contains t where_word ≡ true) (append_assoc base (codes " ") _)
        (contains_append (base ++ codes " ") (codes " " ++ join (codes " AND ") (c ∷ cs)))

  -- A block appends its own text to what is there, behind its connector.
  add_clause_next :
      (connector column v : Bytes) (vs : List Bytes) (c : Bytes) (cs : List Bytes)
      → add_clause connector column (v ∷ vs) (base ++ where_text (c ∷ cs))
        ≡ (base ++ where_text (c ∷ cs)) ++ (connector ++ clause column (v ∷ vs))
  unfolding add_clause
  add_clause_next connector column v vs c cs =
      let given : ltb 0 (suc (length vs)) ≡ true = ground arith in
      rw (given, contains_where c cs, add_clause)
        (append_assoc (base ++ where_text (c ∷ cs)) connector _)

  add_clause_none : (connector column text : Bytes) → add_clause connector column [] text ≡ text
  unfolding add_clause
  add_clause_none connector column text = refl

  -- With " AND " as its connector a block adds one more condition.
  add_clause_and :
      (column : Bytes) (vs : List Bytes) (cs : List Bytes)
      → add_clause (codes " AND ") column vs (base ++ where_text cs)
        ≡ base ++ where_text (cs ++ condition column vs)
  add_clause_and column [] cs =
      add_clause_none _ column _ ∙ ap (λ x. base ++ where_text x) (sym (append-nil cs))
  add_clause_and column (v ∷ vs) [] =
      ap (add_clause (codes " AND ") column (v ∷ vs)) (append-nil base)
      ∙ add_clause_first (codes " AND ") column v vs
  add_clause_and column (v ∷ vs) (c ∷ cs) =
      add_clause_next (codes " AND ") column v vs c cs
      ∙ (append_assoc base (where_text (c ∷ cs)) _
          ∙ ap (λ t. base ++ (codes " WHERE " ++ t))
              (sym (join-append (codes " AND ") c (clause column (v ∷ vs)) cs)))

  -- With no connector it does so only where it is the first.
  add_clause_only :
      (column : Bytes) (vs : List Bytes)
      → add_clause [] column vs base ≡ base ++ where_text (condition column vs)
  add_clause_only column [] = add_clause_none [] column base ∙ sym (append-nil base)
  add_clause_only column (v ∷ vs) = add_clause_first [] column v vs

  abbrev key_blocks : List Bytes → List Bytes → List Bytes → Bytes
  key_blocks country peer_id ip =
      add_clause [] (codes "ipv4") ip
        (add_clause [] (codes "peer_id") peer_id (add_clause [] (codes "country") country base))

  key_blocks_lem :
      (q : Query)
      → HasOneKey q
      → key_blocks (map lower q.country) (map lower q.peer_id) (map lower q.ip)
        ≡ base
          ++ where_text (
              condition (codes "country") (map lower q.country)
              ++ (condition (codes "peer_id") (map lower q.peer_id)
                  ++ condition (codes "ipv4") (map lower q.ip)))
  key_blocks_lem q (inl (p, i)) =
      rw (p, i)
        (add_clause_none _ _ _
          ∙ (add_clause_none _ _ _
              ∙ (add_clause_only (codes "country") (map lower q.country)
                  ∙ ap (λ cs. base ++ where_text cs) (sym (append-nil _)))))
  key_blocks_lem q (inr (inl (c, i))) =
      rw (c, i)
        (add_clause_none _ _ _
          ∙ (ap (add_clause [] (codes "peer_id") (map lower q.peer_id)) (add_clause_none _ _ _)
              ∙ (add_clause_only (codes "peer_id") (map lower q.peer_id)
                  ∙ ap (λ cs. base ++ where_text cs) (sym (append-nil _)))))
  key_blocks_lem q (inr (inr (c, p))) =
      rw (c, p)
        (ap (add_clause [] (codes "ipv4") (map lower q.ip))
            (add_clause_none _ _ _ ∙ add_clause_none _ _ _)
          ∙ add_clause_only (codes "ipv4") (map lower q.ip))

  -- Behind a text without WHERE, if at most one of the filters country, peer id and IP is set, the builder writes the
  -- conjunction of all conditions behind the query (WHERE and AND included, and neither where
  -- there is no condition), and then the limit and the offset.
  pub query_builder-where_text :
      (q : Query) (count_query : Bool)
      → HasOneKey q
      → query_builder base q count_query
        ≡ add_offset q count_query (add_limit q count_query (base ++ where_text (conditions q)))
  unfolding query_builder
  query_builder-where_text q count_query one =
      ap (λ t. add_offset q count_query (add_limit q count_query t))
        (ap
            (λ t.
              add_clause (codes " AND ") (codes "app_version") q.version
                (add_clause (codes " AND ") (codes "region") q.region t))
            (key_blocks_lem q one)
          ∙ (ap (add_clause (codes " AND ") (codes "app_version") q.version)
                (add_clause_and (codes "region") q.region _)
              ∙ (add_clause_and (codes "app_version") q.version _
                  ∙ ap (λ cs. base ++ where_text cs) (simp append_assoc))))

  -- Behind a text without WHERE, with a country filter and an IP filter (and no other) the builder writes the two conditions
  -- side by side, with no AND between them.
  pub query_builder_glued :
      (q : Query) (count_query : Bool) (c i : Bytes) (cs is : List Bytes)
      → q.country ≡ c ∷ cs
      → q.ip ≡ i ∷ is
      → q.peer_id ≡ []
      → q.region ≡ []
      → q.version ≡ []
      → query_builder base q count_query
        ≡ add_offset q count_query (
            add_limit q count_query (
              (base ++ where_text (clause (codes "country") (map lower (c ∷ cs)) ∷ []))
              ++ clause (codes "ipv4") (map lower (i ∷ is))))
  unfolding query_builder
  query_builder_glued q count_query c i cs is qc qi qp qr qv =
      ap (λ t. add_offset q count_query (add_limit q count_query t))
        (rw (qv, qr, qp, qi, qc)
          (add_clause_none _ _ _
            ∙ (add_clause_none _ _ _
                ∙ (ap (add_clause [] (codes "ipv4") (map lower (i ∷ is))) (add_clause_none _ _ _)
                    ∙ (ap (add_clause [] (codes "ipv4") (map lower (i ∷ is)))
                          (add_clause_first [] (codes "country") (lower c) (map lower cs))
                        ∙ add_clause_next [] (codes "ipv4") (lower i) (map lower is) _ [])))))
