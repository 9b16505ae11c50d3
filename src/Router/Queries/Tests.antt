-- ===== src/Router/Queries/Tests.antt =====
-- pkg/router/genji.go, `queryBuilder`, on queries that the API makes, and the theorems about it there.
use coinsurf_proxy.Base.{◌≡◌, refl, inl, true, false, [], ◌∷◌, ◌++◌, codes, map}
use coinsurf_proxy.Router.{
  Query, new_query, filter_country, filter_region, filter_limit, apply_all, contains, clause,
  where_word, lower, add_clause, add_limit, add_offset, query_builder, nodes_select_query,
  nodes_count_query,
}
use coinsurf_proxy.Router.Queries.{
  where_text, conditions, query_builder-where_text, query_builder_glued,
}

abbrev in_region : Query
in_region = record new_query {
  country = codes "US" ∷ codes "ca" ∷ [];
  region = codes "ontario" ∷ [];
  limit = 25;
}

select_text :
    query_builder nodes_count_query in_region false
    ≡ codes
        "SELECT COUNT(*) as nodes FROM nodes WHERE country IN(\"us\",\"ca\") AND region = \"ontario\" LIMIT 25"
unfolding query_builder add_clause add_limit add_offset
select_text = refl

filters_text :
    apply_all
      (filter_limit 25
        ∷ filter_region (codes "ontario" ∷ [])
        ∷ filter_country (codes "US" ∷ codes "ca" ∷ [])
        ∷ [])
      new_query
    ≡ in_region
unfolding apply_all
filters_text = refl

fresh_count : contains nodes_count_query where_word ≡ false
unfolding contains
fresh_count = refl

fresh_select : contains nodes_select_query where_word ≡ false
unfolding contains
fresh_select = refl

query_builder-where_text_example :
    query_builder nodes_select_query in_region false
    ≡ add_offset in_region false
        (add_limit in_region false (nodes_select_query ++ where_text (conditions in_region)))
query_builder-where_text_example =
    query_builder-where_text nodes_select_query fresh_select in_region false (inl (refl, refl))

abbrev both : Query
both = record new_query { country = codes "us" ∷ []; ip = codes "1.2.3.4" ∷ [] }

glued_text :
    query_builder nodes_count_query both true
    ≡ codes "SELECT COUNT(*) as nodes FROM nodes WHERE country = \"us\"ipv4 = \"1.2.3.4\""
unfolding query_builder add_clause add_limit add_offset
glued_text = refl

query_builder_glued_case :
    query_builder nodes_count_query both true
    ≡ add_offset both true (
        add_limit both true (
          (nodes_count_query
            ++ where_text (clause (codes "country") (map lower (codes "us" ∷ [])) ∷ []))
          ++ clause (codes "ipv4") (map lower (codes "1.2.3.4" ∷ []))))
query_builder_glued_case =
    query_builder_glued nodes_count_query fresh_count both true (codes "us") (codes "1.2.3.4") [] []
      refl refl refl refl refl
