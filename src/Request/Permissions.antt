-- ===== src/Request/Permissions.antt =====
-- pkg/request.go, `HasPermissions`.
use mathlib.Core.List.{Memᴰ}
use mathlib.Core.List.Memᴰ.{head, tail}
use coinsurf_proxy.Base.{
  ◌≡◌, refl, sym, subst, ◌↔◌, inl, inr, true, some, List, [], ◌∷◌, ◌==◌, ==_iff, Bool-cases, arith,
}
use coinsurf_proxy.Auth.{Permission}
use coinsurf_proxy.Request.{Request, contains_permission, all_permissions, has_permissions}

contains_permission-Memᴰ :
    (p : Permission) (granted : List Permission)
    → contains_permission p granted ≡ true
    → Memᴰ p granted
unfolding contains_permission
contains_permission-Memᴰ p [] h = cc
contains_permission-Memᴰ p (q ∷ granted) h = elim (Bool-cases (p == q)) [
  | inl same ↦ head ((==_iff p q).0 same)
  | inr other ↦ tail (contains_permission-Memᴰ p granted (rw other at h))
]

Memᴰ-contains_permission :
    (p : Permission) (granted : List Permission)
    → Memᴰ p granted
    → contains_permission p granted ≡ true
unfolding contains_permission
Memᴰ-contains_permission p [] m = elim m [ ]
Memᴰ-contains_permission p (q ∷ granted) (head e) = ground (arith, e)
Memᴰ-contains_permission p (q ∷ granted) (tail m) =
    ground (arith, Memᴰ-contains_permission p granted m)

all_permissions-Memᴰ :
    (granted wanted : List Permission)
    → all_permissions granted wanted ≡ true
    → (p : Permission) → Memᴰ p wanted
    → Memᴰ p granted
unfolding all_permissions
all_permissions-Memᴰ granted [] h p m = elim m [ ]
all_permissions-Memᴰ granted (q ∷ wanted) h p (head e) =
    subst (λ x. Memᴰ x granted) (sym e) (contains_permission-Memᴰ q granted (ground (arith, h)))
all_permissions-Memᴰ granted (q ∷ wanted) h p (tail m) =
    all_permissions-Memᴰ granted wanted (ground (arith, h)) p m

Memᴰ-all_permissions :
    (granted wanted : List Permission)
    → ((p : Permission) → Memᴰ p wanted → Memᴰ p granted)
    → all_permissions granted wanted ≡ true
unfolding all_permissions
Memᴰ-all_permissions granted [] h = refl
Memᴰ-all_permissions granted (q ∷ wanted) h =
    rw (Memᴰ-contains_permission q granted (h q (head refl)))
      (Memᴰ-all_permissions granted wanted (λ p m. h p (tail m)))

-- A request whose permissions are set has the wanted ones just where each of them is among its own.
pub has_permissions_iff :
    (r : Request) (granted wanted : List Permission)
    → r.permissions ≡ some granted
    → (has_permissions r wanted ≡ true) ↔ ((p : Permission) → Memᴰ p wanted → Memᴰ p granted)
unfolding has_permissions
has_permissions_iff r granted wanted e = (
  λ h. all_permissions-Memᴰ granted wanted (rw (e, has_permissions) at h),
  λ h. rw (e, has_permissions) (Memᴰ-all_permissions granted wanted h),
)
