-- ===== src/Base/Maps.antt =====
-- Go maps keyed by strings, as association lists. A key stands at most once where `insert` and
-- `erase` built the list; the order of the keys is not a Go map's and nothing reads it.
use mathlib.Core.Path.{◌≡◌, refl}
use mathlib.Core.Bool.{true}
use mathlib.Core.List.{List, [], ◌∷◌}
use mathlib.Core.Option.{Option, none, some}
use native.Mathlib.Omega.{arith}
use coinsurf_proxy.Base.Tests.{if◌then◌else◌}
use coinsurf_proxy.Base.Text.{Bytes, bytes_eq, bytes_eq_iff}

abbrev pub Assoc {ℓ} : Type ℓ → Type ℓ
Assoc V = List (Bytes × V)

module _ {ℓ} {V : Type ℓ} where
  unfoldable pub lookup : Bytes → Assoc V → Option V
  lookup k [] = none
  lookup k ((j, v) ∷ m) = if bytes_eq j k then some v else lookup k m

  unfoldable pub insert : Bytes → V → Assoc V → Assoc V
  insert k v [] = (k, v) ∷ []
  insert k v ((j, w) ∷ m) = if bytes_eq j k then (k, v) ∷ m else (j, w) ∷ insert k v m

  -- `delete(m, k)`.
  unfoldable pub erase : Bytes → Assoc V → Assoc V
  erase k [] = []
  erase k ((j, w) ∷ m) = let rest = erase k m in if bytes_eq j k then rest else (j, w) ∷ rest

  pub lookup-insert :
      (key sought : Bytes) (new : V) (entries : Assoc V)
      → lookup sought (insert key new entries)
        ≡ (if bytes_eq key sought then some new else lookup sought entries)
  unfolding insert lookup
  lookup-insert key sought new [] = refl
  lookup-insert key sought new ((name, old) ∷ entries) = ground (
    arith,
    lookup-insert key sought new entries,
    bytes_eq_iff key sought,
    bytes_eq_iff name key,
    bytes_eq_iff name sought,
  )

  pub lookup-erase :
      (k j : Bytes) (m : Assoc V)
      → lookup j (erase k m) ≡ (if bytes_eq k j then none else lookup j m)
  unfolding lookup erase
  lookup-erase k j [] = ground arith
  lookup-erase k j ((i, w) ∷ m) =
      ground (arith, bytes_eq_iff k j, bytes_eq_iff i k, bytes_eq_iff i j, lookup-erase k j m)

pub bytes_eq_refl : (k : Bytes) → bytes_eq k k ≡ true
bytes_eq_refl k = (bytes_eq_iff k k).1 refl
