-- ===== src/Http/Headers.antt =====
-- pkg/service_proxy_http.go, `cleanRequestHeaders` and the two version headers.
use mathlib.Core.List.{Memᴰ}
use mathlib.Core.List.Memᴰ.{head, tail}
use coinsurf_proxy.Base.{
  ◌≡◌, ◌≢◌, refl, ◌∙◌, subst, ◌⊎◌, inl, inr, Bool, true, false, none, List, [], ◌∷◌, Bytes, codes,
  All, if◌then◌else◌, arith,
}
use coinsurf_proxy.Request.{Request}
use coinsurf_proxy.Http.{
  RequestHeader, clean_request_headers, cleaned_headers, set_versions, proxy_authorization,
  header_ipv4, header_ipv6,
}

-- Proxy-Authorization is none of the names that fasthttp stores apart and compares without their
-- case: `Del` removes all headers of just this name, and `Del` of any name, `Set` of another one and
-- `ResetConnectionClose` bring none back.
pub record IsExact (h : RequestHeader) : Type 0 where
  pub peek_del : (x : h.Header) → h.peek proxy_authorization (h.del proxy_authorization x) ≡ none
  pub peek_del_other :
      (k : Bytes) (x : h.Header)
      → h.peek proxy_authorization x ≡ none
      → h.peek proxy_authorization (h.del k x) ≡ none
  pub peek_set_other :
      (k v : Bytes) (x : h.Header)
      → proxy_authorization ≢ k
      → h.peek proxy_authorization x ≡ none
      → h.peek proxy_authorization (h.set k v x) ≡ none
  pub peek_reset :
      (x : h.Header)
      → h.peek proxy_authorization x ≡ none
      → h.peek proxy_authorization (h.reset_connection_close x) ≡ none

-- `Del` and `Set` leave the headers of other names in place.
pub record KeepsOthers (h : RequestHeader) : Type 0 where
  pub del_other :
      (j k v : Bytes) (x : h.Header)
      → j ≢ k
      → Memᴰ (j, v) (h.visit_all x)
      → Memᴰ (j, v) (h.visit_all (h.del k x))
  pub set_other :
      (j k v w : Bytes) (x : h.Header)
      → j ≢ k
      → Memᴰ (j, v) (h.visit_all x)
      → Memᴰ (j, v) (h.visit_all (h.set k w x))
  pub reset_other :
      (j v : Bytes) (x : h.Header)
      → j ≢ codes "Connection"
      → Memᴰ (j, v) (h.visit_all x)
      → Memᴰ (j, v) (h.visit_all (h.reset_connection_close x))

module _ (h : RequestHeader) (P : h.Header → Type 0) where
  set_if :
      (b : Bool) (k v : Bytes) (x : h.Header)
      → ((y : h.Header) → P y → P (h.set k v y))
      → P x
      → P (if b then h.set k v x else x)
  set_if true k v x sets p = sets x p
  set_if false k v x sets p = p

  -- A property that `Set` of the two version headers keeps.
  pub set_versions_lem :
      (req : Request) (x : h.Header)
      → ((k : Bytes) (y : h.Header)
          → (k ≡ header_ipv4) ⊎ (k ≡ header_ipv6)
          → P y
          → P (h.set k (codes "1") y))
      → P x
      → P (set_versions h req x)
  set_versions_lem req x sets p =
      set_if req.ipv6 header_ipv6 (codes "1") _ (λ y. sets header_ipv6 y (inr refl))
        (set_if req.ipv4 header_ipv4 (codes "1") x (λ y. sets header_ipv4 y (inl refl)) p)

pub differs : (k : Bytes) → (k ≡ header_ipv4) ⊎ (k ≡ header_ipv6) → proxy_authorization ≢ k
differs k (inl e) same = ground (arith, e, same)
differs k (inr e) same = ground (arith, e, same)

pub absent :
    {name : Bytes} (k : Bytes) (names : List Bytes)
    → All (λ j. name ≢ j) names
    → Memᴰ k names
    → name ≢ k
absent k [] other m same = elim m [ ]
absent k (j ∷ names) (o, other) (head e) same = o (same ∙ e)
absent k (j ∷ names) (o, other) (tail m) same = absent k names other m same

-- The two version headers are the last of the cleaned ones.
pub version_cleaned : (k : Bytes) → (k ≡ header_ipv4) ⊎ (k ≡ header_ipv6) → Memᴰ k cleaned_headers
version_cleaned k (inl e) =
    tail (tail (tail (tail (tail (tail (tail (tail (tail (tail (head e))))))))))
version_cleaned k (inr e) =
    tail (tail (tail (tail (tail (tail (tail (tail (tail (tail (tail (head e)))))))))))

module _ {h : RequestHeader} where
  clean_keeps_none :
      (names : List Bytes) (x : h.Header)
      → IsExact h
      → h.peek proxy_authorization x ≡ none
      → h.peek proxy_authorization (clean_request_headers h names x) ≡ none
  unfolding clean_request_headers
  clean_keeps_none [] x laws e = e
  clean_keeps_none (k ∷ names) x laws e =
      clean_keeps_none names (h.del k x) laws (laws.peek_del_other k x e)

  pub clean_none :
      (names : List Bytes) (x : h.Header)
      → IsExact h
      → Memᴰ proxy_authorization names
      → h.peek proxy_authorization (clean_request_headers h names x) ≡ none
  unfolding clean_request_headers
  clean_none [] x laws m = elim m [ ]
  clean_none (k ∷ names) x laws (head e) =
      clean_keeps_none names (h.del k x) laws
        (subst (λ i. h.peek proxy_authorization (h.del i x) ≡ none) e (laws.peek_del x))
  clean_none (k ∷ names) x laws (tail m) = clean_none names (h.del k x) laws m

  pub clean_keeps :
      (j v : Bytes) (names : List Bytes) (x : h.Header)
      → KeepsOthers h
      → All (λ k. j ≢ k) names
      → Memᴰ (j, v) (h.visit_all x)
      → Memᴰ (j, v) (h.visit_all (clean_request_headers h names x))
  unfolding clean_request_headers
  clean_keeps j v [] x laws other m = m
  clean_keeps j v (k ∷ names) x laws (o, other) m =
      clean_keeps j v names (h.del k x) laws other (laws.del_other j k v x o m)
