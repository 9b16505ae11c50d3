-- ===== src/SessionCache/Expiry.antt =====
-- internal/cache/fastcache.go: what is found, and until when.
use mathlib.Core.List.{Memᴰ}
use mathlib.Core.List.Memᴰ.{head, tail, append_right}
use coinsurf_proxy.Base.{
  ℕ, ◌+◌, ◌<◌, ◌≤◌, ◌≡◌, refl, sym, ap, ◌∙◌, subst, inl, inr, Bool, true, false, Option, none, some,
  List, [], ◌∷◌, ◌++◌, Bytes, length, leb, ◌==◌, if◌then◌else◌, Bool-cases, arith,
}
use coinsurf_proxy.Auth.{Outcome, ok}
use coinsurf_proxy.Router.Genji.Nodes.Removal.{Deletes}
use coinsurf_proxy.SessionCache.{
  Fast, Job, FastCache, get, delete, set_with_expire, expire, run_due, advance, fast_cache,
}

-- fastcache keeps an entry in one chunk of 64 KB, with 4 bytes for its lengths.
abbrev pub Fits : Bytes → Bytes → Type 0
Fits k v = length k + length v + 4 < 65536

-- What fastcache promises while nothing is evicted; it drops an entry that does not fit.
pub record Stores (f : Fast) : Type 0 where
  pub get_set : (k v : Bytes) (s : f.Store) → Fits k v → f.get k (f.set k v s) ≡ v
  pub get_del : (k : Bytes) (s : f.Store) → f.get k (f.del k s) ≡ []
  pub get_del_other : (j k : Bytes) (s : f.Store) → f.get j s ≡ [] → f.get j (f.del k s) ≡ []

module _ {f : Fast} (laws : Stores f) where
  abbrev IsGone : Bytes → FastCache f → Type 0
  IsGone k m = f.get k m.cache ≡ []

  get-IsGone : (k : Bytes) (m : FastCache f) → IsGone k m → get k m ≡ none
  unfolding get
  get-IsGone k m h = rw (h, get) refl

  notify-cache :
      (b : Bool) (ns : List (Bytes × Bytes)) (m : FastCache f)
      → (if b then record m { notified = ns } else m).cache ≡ m.cache
  notify-cache true ns m = refl
  notify-cache false ns m = refl

  notify-now :
      (b : Bool) (ns : List (Bytes × Bytes)) (m : FastCache f)
      → (if b then record m { notified = ns } else m).now ≡ m.now
  notify-now true ns m = refl
  notify-now false ns m = refl

  expire-IsGone : (job : Job) (k : Bytes) (m : FastCache f) → IsGone k m → IsGone k (expire job m)
  unfolding expire delete
  expire-IsGone job k m h =
      laws.get_del_other k job.key _ (ap (f.get k) (notify-cache m.on_expired _ m) ∙ h)

  expire-key : (job : Job) (m : FastCache f) → IsGone job.key (expire job m)
  unfolding expire delete
  expire-key job m = laws.get_del job.key _

  run_due-IsGone :
      (jobs : List Job) (k : Bytes) (m : FastCache f) → IsGone k m → IsGone k (run_due jobs m)
  unfolding run_due
  run_due-IsGone [] k m h = h
  run_due-IsGone (job ∷ jobs) k m h = elim (Bool-cases (leb job.time m.now)) [
    | inl due ↦ rw due (run_due-IsGone jobs k (expire job m) (expire-IsGone job k m h))
    | inr later ↦ rw later (run_due-IsGone jobs k (record m { jobs = m.jobs ++ job ∷ [] }) h)
  ]

  run_due-deletes :
      (jobs : List Job) (job : Job) (m : FastCache f)
      → Memᴰ job jobs
      → job.time ≤ m.now
      → IsGone job.key (run_due jobs m)
  unfolding run_due expire delete
  run_due-deletes [] job m among due = elim among [ ]
  run_due-deletes (first ∷ jobs) job m (head e) due =
      let now : leb first.time m.now ≡ true = ground (arith, due, ap (λ (j : Job). j.time) e) in
      rw now (
        run_due-IsGone jobs job.key (expire first m) (
          subst (λ k. IsGone k (expire first m)) (ap (λ (j : Job). j.key) (sym e))
            (expire-key first m)))
  run_due-deletes (first ∷ jobs) job m (tail among) due = elim (Bool-cases (leb first.time m.now)) [
    | inl now ↦ rw now (
        run_due-deletes jobs job (expire first m) among
          (subst (λ t. job.time ≤ t) (sym (notify-now m.on_expired _ m)) due))
    | inr later ↦
        rw later (run_due-deletes jobs job (record m { jobs = m.jobs ++ first ∷ [] }) among due)
  ]

  -- When a pending job becomes due its key is deleted, whatever was set under the key since the job
  -- was scheduled and however long that was to be kept.
  pub advance-deletes :
      (n : ℕ) (job : Job) (m : FastCache f)
      → Memᴰ job m.jobs
      → job.time ≤ m.now + n
      → get job.key (advance n m) ≡ none
  unfolding advance
  advance-deletes n job m among due =
      get-IsGone job.key (advance n m)
        (run_due-deletes m.jobs job (record m { now = m.now + n; jobs = [] }) among due)

  set_with_expire-eq-ok :
      (k v : Bytes) (n : ℕ) (m m' : FastCache f)
      → set_with_expire k v n m ≡ (ok tt, m')
      → record m {
        cache = f.set k v m.cache;
        jobs = m.jobs ++ (record { time = m.now + n; key = k; value = v }) ∷ [];
      }
        ≡ m'
  unfolding set_with_expire
  set_with_expire-eq-ok k v n m m' e = elim (Bool-cases (f.accepts n)) [
    | inl taken ↦
        ap (λ (y : Outcome (Unit {0}) × FastCache f). y.1) (rw (taken, set_with_expire) at e)
    | inr refused ↦
        absurd (ground (arith, refused, ap (λ (y : Outcome (Unit {0}) × FastCache f). y.0) e))
  ]

  -- A value that was set, is not empty and fits is found at once, and is gone when its time is over.
  pub set_with_expire-expires :
      (k v : Bytes) (n later : ℕ) (m m' : FastCache f)
      → 0 < length v
      → Fits k v
      → n ≤ later
      → set_with_expire k v n m ≡ (ok tt, m')
      → (get k m' ≡ some v) × (get k (advance later m') ≡ none)
  unfolding get
  set_with_expire-expires k v n later m m' given fits over e =
      let job : Job = record { time = m.now + n; key = k; value = v } in
      let same = set_with_expire-eq-ok k v n m m' e in
      (
        subst (λ (x : FastCache f). get k x ≡ some v) same
            (ap (λ d. if length d == 0 then none else some d) (laws.get_set k v m.cache fits)
              ∙ ground (arith, given)),
        subst (λ (x : FastCache f). get k (advance later x) ≡ none) same
            (advance-deletes later job _ (append_right m.jobs (head refl)) (omega (arith, over))),
      )

  get-eq-none :
      (bytes : Bytes)
      → ◌≡◌ {A = Option Bytes} (if length bytes == 0 then none else some bytes) none
      → bytes ≡ []
  get-eq-none [] e = refl
  get-eq-none (c ∷ rest) e = ground (arith, e)

  -- The session cache deletes as the router relies on it: a deleted key is gone, and stays gone
  -- when other keys are deleted.
  pub fast_cache-Deletes : Deletes (fast_cache f)
  unfolding get delete
  fast_cache-Deletes = record {
    gone = λ k m. get-IsGone k (delete k m) (laws.get_del k m.cache);
    stays_gone = λ j k m e.
        get-IsGone j (delete k m)
          (laws.get_del_other j k m.cache (get-eq-none (f.get j m.cache) e));
  }
