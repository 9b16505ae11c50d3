-- ===== src/Auth.antt =====
-- pkg/auth.go: the errors and permissions of the proxy, and results of code that may also panic.
use coinsurf_proxy.Base.{ℕ, ◌≡◌, refl, ◌⊎◌, inl, inr}

-- `other` stands for an error value made elsewhere (strconv, redis, genji, libp2p).
pub data Error : Type 0 where
  invalid_auth unauthorized data_ran_out blocked_domain blocked_ip invalid_param : Error
  invalid_targeting unknown_country unknown_region unknown_city : Error
  other : Error

-- `Permission` is a uint; `PermissionUDP` is iota + 1.
abbrev pub Permission : Type 0
Permission = ℕ

abbrev pub permission_udp : Permission
permission_udp = 1

-- The result of Go code that returns an error or panics.
pub data Outcome {ℓ} (A : Type ℓ) : Type ℓ where
  ok : A → Outcome A
  err : Error → Outcome A
  panic : Outcome A

infixl 5 ◌>>=◌
abbrev pub ◌>>=◌ {ℓ κ} : {A : Type ℓ} {B : Type κ} → Outcome A → (A → Outcome B) → Outcome B
ok a >>= f = f a
err e >>= f = err e
panic >>= f = panic

module _ {ℓ κ} {A : Type ℓ} {B : Type κ} where
  pub >>=-eq-ok :
      (r : Outcome A) (next : A → Outcome B) {w : B}
      → (r >>= next) ≡ ok w
      → (v : A) × (r ≡ ok v) × (next v ≡ ok w)
  >>=-eq-ok panic next done = cc
  >>=-eq-ok (err e) next done = cc
  >>=-eq-ok (ok v) next done = (v, refl, done)

  pub >>=-eq-panic :
      (m : Outcome A) (f : A → Outcome B)
      → (m >>= f) ≡ panic
      → (m ≡ panic) ⊎ ((a : A) × (m ≡ ok a) × (f a ≡ panic))
  >>=-eq-panic (ok a) f h = inr (a, refl, h)
  >>=-eq-panic (err e) f h = cc
  >>=-eq-panic panic f h = inl refl

module _ {ℓ} {A B C : Type ℓ} where
  -- Regroup a bind whose continuation is itself a bind.
  pub >>=_through :
      (m : Outcome A) (f : A → Outcome C) (g : A → Outcome B) (k : B → Outcome C)
      → ((a : A) → f a ≡ (g a >>= k))
      → (m >>= f) ≡ ((m >>= g) >>= k)
  >>=_through (ok a) f g k h = h a
  >>=_through (err e) f g k h = refl
  >>=_through panic f g k h = refl

module _ {ℓ κ} {A : Type ℓ} {B : Type κ} where
  pub >>=_cong :
      (m : Outcome A) (f g : A → Outcome B) → ((a : A) → f a ≡ g a) → (m >>= f) ≡ (m >>= g)
  >>=_cong (ok a) f g h = h a
  >>=_cong (err e) f g h = refl
  >>=_cong panic f g h = refl
