-- ===== src/Request/Tests.antt =====
-- pkg/request.go on a request that may use UDP, and the theorem about it there.
use mathlib.Core.List.{Memᴰ}
use coinsurf_proxy.Base.{◌≡◌, refl, ◌↔◌, true, some, [], ◌∷◌}
use coinsurf_proxy.Auth.{Permission, permission_udp}
use coinsurf_proxy.Request.{Request, new_request, has_permissions}
use coinsurf_proxy.Request.Permissions.{has_permissions_iff}

abbrev udp_request : Request
udp_request = record new_request { permissions = some (permission_udp ∷ []) }

has_permissions_iff_case :
    (has_permissions udp_request (permission_udp ∷ []) ≡ true)
    ↔ ((p : Permission) → Memᴰ p (permission_udp ∷ []) → Memᴰ p (permission_udp ∷ []))
has_permissions_iff_case =
    has_permissions_iff udp_request (permission_udp ∷ []) (permission_udp ∷ []) refl
