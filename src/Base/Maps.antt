-- ===== src/Base/Maps.antt =====
-- std::map with number keys, as an association list.
use Prim.Native.Nat.{ℕ}
use mathlib.Core.Path.{◌≡◌, refl}
use mathlib.Core.List.{List, [], ◌∷◌}
use mathlib.Core.Option.{Option, none, some}
use native.Mathlib.Omega.{arith}
use mikan_os_x.Base.Compare.{◌==◌, if◌then◌else◌}

module _ {ℓ} {V : Type ℓ} where
  -- m[k] = v
  unfoldable pub insert : ℕ → V → List (ℕ × V) → List (ℕ × V)
  insert k v [] = (k, v) ∷ []
  insert k v ((k', v') ∷ rest) = if k == k' then (k, v) ∷ rest else (k', v') ∷ insert k v rest

  -- m.erase(k)
  unfoldable pub remove : ℕ → List (ℕ × V) → List (ℕ × V)
  remove k [] = []
  remove k ((k', v') ∷ rest) = if k == k' then remove k rest else (k', v') ∷ remove k rest

  -- m.find(k)
  unfoldable pub lookup : ℕ → List (ℕ × V) → Option V
  lookup k [] = none
  lookup k ((k', v') ∷ rest) = if k == k' then some v' else lookup k rest

  pub lookup-remove :
      (m : List (ℕ × V)) (k sought : ℕ)
      → lookup sought (remove k m) ≡ (if sought == k then none else lookup sought m)
  unfolding remove lookup
  lookup-remove [] k sought = ground arith
  lookup-remove ((k', v') ∷ rest) k sought = ground (arith, lookup-remove rest k sought)

  pub lookup-insert :
      (m : List (ℕ × V)) (k sought : ℕ) (v : V)
      → lookup sought (insert k v m) ≡ (if sought == k then some v else lookup sought m)
  unfolding insert lookup
  lookup-insert [] k sought v = refl
  lookup-insert ((k', v') ∷ rest) k sought v = ground (arith, lookup-insert rest k sought v)
