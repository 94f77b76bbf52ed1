-- ===== src/Prelude/Maps.antt =====
-- A Go map with byte-string keys as an association list; the newest entry stands first.
use Prim.Native.Nat.{ℕ}
use mathlib.Core.Path.{◌≡◌}
use mathlib.Core.Option.{Option, none, some}
use mathlib.Core.List.{List, [], ◌∷◌}
use native.Mathlib.Omega.{arith}
use sigsum_lib_go.Prelude.Tests.{if◌then◌else◌, eq_bytes, eq_bytes_iff}

abbrev pub Map {ℓ} : Type ℓ → Type ℓ
Map V = List (List ℕ × V)

module _ {ℓ} {V : Type ℓ} where
  unfoldable pub lookup : List ℕ → Map V → Option V
  lookup k [] = none
  lookup k ((j, v) ∷ m) = if eq_bytes j k then some v else lookup k m

  unfoldable pub insert : List ℕ → V → Map V → Map V
  insert k v m = (k, v) ∷ m

  pub lookup-insert :
      (k j : List ℕ) (v : V) (m : Map V)
      → lookup j (insert k v m) ≡ (if eq_bytes k j then some v else lookup j m)
  unfolding lookup insert
  lookup-insert k j v m = ground (arith, eq_bytes_iff k j)

-- A map's entry, also one that a newer entry hides.
pub data Entry {ℓ} {V : Type ℓ} (k : List ℕ) (v : V) : Map V → Type ℓ where
  here : {m : Map V} → Entry k v ((k, v) ∷ m)
  there : {e : List ℕ × V} {m : Map V} → Entry k v m → Entry k v (e ∷ m)
