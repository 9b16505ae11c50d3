-- ===== src/Username/Inversion.antt =====
-- pkg/username.go, Parse: an accepted user name passed every stage of it.
use coinsurf_proxy.Base.{ℕ, ◌≡◌, sym, subst, ap, ◌∙◌, none, Bytes, split, arith}
use coinsurf_proxy.Auth.{Outcome, ok, ◌>>=◌, >>=-eq-ok}
use coinsurf_proxy.Request.{Request}
use coinsurf_proxy.Username.{
  LocationLookup, UsernameParser, Parsing, parse_params, check_targeting, check_location,
  add_session, parse,
}

check_targeting-eq-ok : (r r' : Request) → check_targeting r ≡ ok r' → r ≡ r'
unfolding check_targeting
check_targeting-eq-ok r r' h = ground arith

check_location-eq-ok : (l : LocationLookup) (r r' : Request) → check_location l r ≡ ok r' → r ≡ r'
unfolding check_location
check_location-eq-ok l r r' h = ground arith

abbrev pub parsed : Request → Bytes → Outcome Parsing
parsed req username =
    parse_params (split b'-' username) 0 (split b'-' username)
      (record { session_id = none; req = req })

-- The loop's result, the two checks that it passed, and the session that was added to it.
pub record Accepted (sum64 : Bytes → ℕ) (s : UsernameParser) (username : Bytes) (req r : Request)
    : Type 0 where
  pub st : Parsing
  pub loop : parsed req username ≡ ok st
  pub targeted : check_targeting (st.req) ≡ ok st.req
  pub located : check_location s.location (st.req) ≡ ok st.req
  pub finished : add_session sum64 s st.session_id st.req ≡ r

pub ok_lem : {A : Type 0} (a b : A) → ◌≡◌ {A = Outcome A} (ok a) (ok b) → a ≡ b
ok_lem a b h = cc

module _ (sum64 : Bytes → ℕ) (s : UsernameParser) (username : Bytes) (req r : Request) where
  checks-Accepted :
      (st : Parsing)
      → parsed req username ≡ ok st
      → (check_targeting st.req >>= (λ t.
          check_location s.location t >>= (λ l. ok (add_session sum64 s st.session_id l))))
        ≡ ok r
      → Accepted sum64 s username req r
  checks-Accepted st loop h =
      let (t, targeted, h') = >>=-eq-ok (check_targeting st.req) _ h in
      let (l, located, h'') = >>=-eq-ok (check_location s.location t) _ h' in
      let same : st.req ≡ t = check_targeting-eq-ok st.req t targeted in
      let same' : t ≡ l = check_location-eq-ok s.location t l located in
      record {
        st = st;
        loop = loop;
        targeted = targeted ∙ ap ok (sym same);
        located =
            subst (λ x. check_location s.location x ≡ ok x) (sym same)
              (located ∙ ap ok (sym same'));
        finished = ap (add_session sum64 s st.session_id) (same ∙ same') ∙ ok_lem _ r h'';
      }

  pub parse-Accepted : parse sum64 s username req ≡ ok r → Accepted sum64 s username req r
  unfolding parse
  parse-Accepted h =
      let (st, loop, h') = >>=-eq-ok (parsed req username) _ h in checks-Accepted st loop h'
