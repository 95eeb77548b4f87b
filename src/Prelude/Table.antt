-- ===== src/Prelude/Table.antt =====
-- A Go map with string keys, as an association list without repeated keys: `lookup` is `m[k]` with
-- its second result, `insert` is `m[k] = v` and `remove` is `delete(m, k)`.
use Prim.Native.Nat.{◌+◌, ◌≤◌}
use mathlib.Core.Bool.{Bool}
use mathlib.Core.List.{List, [], ◌∷◌}
use mathlib.Core.Option
use mathlib.Core.Option.{Option, none, some}
use mathlib.Core.Path.{◌≡◌, refl}
use native.Mathlib.Omega.{arith}
use meow_frp_server.Prelude.Tests.{if◌then◌else◌}
use meow_frp_server.Prelude.Lists.{length}
use meow_frp_server.Prelude.Text.{Bytes, bytes_eq, bytes_eq_iff}
pub mod Count

abbrev pub Table {ℓ} : Type ℓ → Type ℓ
Table V = List (Bytes × V)

module _ {ℓ} {V : Type ℓ} where
  unfoldable pub lookup : Bytes → Table V → Option V
  lookup k [] = none
  lookup k ((j, v) ∷ m) = if bytes_eq j k then some v else lookup k m

  unfoldable pub insert : Bytes → V → Table V → Table V
  insert k v [] = (k, v) ∷ []
  insert k v ((j, w) ∷ m) = if bytes_eq j k then (k, v) ∷ m else (j, w) ∷ insert k v m

  unfoldable pub remove : Bytes → Table V → Table V
  remove k [] = []
  remove k ((j, w) ∷ m) = if bytes_eq j k then remove k m else (j, w) ∷ remove k m

  -- `m[k]` with the zero value of the element type where the key is missing.
  abbrev pub get_or : Bytes → V → Table V → V
  get_or k d m = elim (lookup k m) [ none ↦ d | some v ↦ v ]

  -- A loop `for k, v := range m { if drops(k, v) { delete(m, k) } }`.
  unfoldable pub remove_where : (V → Bool) → Table V → Table V
  remove_where p [] = []
  remove_where p ((j, w) ∷ m) = if p w then remove_where p m else (j, w) ∷ remove_where p m

  -- A loop `for k, v := range m { m[k] = f(v) }`.
  unfoldable pub map_values : (V → V) → Table V → Table V
  map_values f [] = []
  map_values f ((j, w) ∷ m) = (j, f w) ∷ map_values f m

  pub lookup-insert :
      (k j : Bytes) (v : V) (m : Table V)
      → lookup j (insert k v m) ≡ (if bytes_eq k j then some v else lookup j m)
  unfolding lookup insert
  lookup-insert k j v [] = refl
  lookup-insert k j v ((i, w) ∷ m) =
      ground (arith, bytes_eq_iff k j, bytes_eq_iff i k, bytes_eq_iff i j, lookup-insert k j v m)

  pub lookup-remove :
      (k j : Bytes) (m : Table V)
      → lookup j (remove k m) ≡ (if bytes_eq k j then none else lookup j m)
  unfolding lookup remove
  lookup-remove k j [] = ground arith
  lookup-remove k j ((i, w) ∷ m) =
      ground (arith, bytes_eq_iff k j, bytes_eq_iff i k, bytes_eq_iff i j, lookup-remove k j m)

  pub lookup-map_values :
      (f : V → V) (j : Bytes) (m : Table V) → lookup j (map_values f m) ≡ Option.map f (lookup j m)
  unfolding lookup map_values
  lookup-map_values f j [] = refl
  lookup-map_values f j ((i, w) ∷ m) = ground (arith, lookup-map_values f j m)

  pub length-insert_le : (k : Bytes) (v : V) (m : Table V) → length (insert k v m) ≤ length m + 1
  unfolding insert
  length-insert_le k v [] = omega arith
  length-insert_le k v ((j, w) ∷ m) = ground (arith, length-insert_le k v m)

  pub length-remove_le : (k : Bytes) (m : Table V) → length (remove k m) ≤ length m
  unfolding remove
  length-remove_le k [] = omega arith
  length-remove_le k ((j, w) ∷ m) = ground (arith, length-remove_le k m)
