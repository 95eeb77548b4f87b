-- ===== src/Prelude/Table/Count.antt =====
-- How many entries of a table pass a test, and how the operations of a table move that number.
use Prim.Native.Nat.{ℕ, ◌+◌, ◌≤◌}
use mathlib.Core.Bool.{Bool, true, false}
use mathlib.Core.List.{[], ◌∷◌}
use mathlib.Core.Option.{Option, none, some}
use mathlib.Core.Path.{◌≡◌, refl}
use native.Mathlib.Omega.{arith}
use meow_frp_server.Prelude.Tests.{if◌then◌else◌}
use meow_frp_server.Prelude.Lists.{length}
use meow_frp_server.Prelude.Text.{Bytes, bytes_eq_iff}
use meow_frp_server.Prelude.Table.{
  Table, lookup, insert, remove, remove_where, map_values, lookup-insert, lookup-remove,
  lookup-map_values,
}

module _ {ℓ} {V : Type ℓ} where
  -- No key is repeated.
  abbrev pub Distinct : Table V → Type ℓ
  Distinct [] = Unit
  Distinct ((j, w) ∷ m) = (lookup j m ≡ none) × Distinct m

  pub insert-Distinct : (k : Bytes) (v : V) (m : Table V) → Distinct m → Distinct (insert k v m)
  unfolding insert lookup
  insert-Distinct k v [] d = (refl, tt)
  insert-Distinct k v ((j, w) ∷ m) d =
      ground (
        arith,
        bytes_eq_iff j k,
        bytes_eq_iff k j,
        lookup-insert k j v m,
        insert-Distinct k v m d.1,
      )

  pub remove-Distinct : (k : Bytes) (m : Table V) → Distinct m → Distinct (remove k m)
  unfolding remove
  remove-Distinct k [] d = tt
  remove-Distinct k ((j, w) ∷ m) d = ground (arith, lookup-remove k j m, remove-Distinct k m d.1)

  abbrev pub hit : (V → Bool) → Option V → ℕ
  hit p none = 0
  hit p (some v) = if p v then 1 else 0

  unfoldable pub count : (V → Bool) → Table V → ℕ
  count p [] = 0
  count p ((j, w) ∷ m) = (if p w then 1 else 0) + count p m

  pub count-insert :
      (p : V → Bool) (k : Bytes) (v : V) (m : Table V)
      → count p (insert k v m) + hit p (lookup k m) ≡ count p m + hit p (some v)
  unfolding count insert lookup
  count-insert p k v [] = omega arith
  count-insert p k v ((j, w) ∷ m) = ground (arith, count-insert p k v m)

  pub count-remove_missing :
      (p : V → Bool) (k : Bytes) (m : Table V)
      → lookup k m ≡ none
      → count p (remove k m) ≡ count p m
  unfolding count remove lookup
  count-remove_missing p k [] h = refl
  count-remove_missing p k ((j, w) ∷ m) h = ground (arith, count-remove_missing p k m)

  pub count-remove :
      (p : V → Bool) (k : Bytes) (m : Table V)
      → Distinct m
      → count p (remove k m) + hit p (lookup k m) ≡ count p m
  unfolding count remove lookup
  count-remove p k [] d = refl
  count-remove p k ((j, w) ∷ m) d =
      ground (arith, bytes_eq_iff j k, count-remove_missing p k m, count-remove p k m d.1)

  -- Two tests that agree on every entry that `p` fails count the same, if `p` counts none.
  pub count-congr :
      (p q r : V → Bool) (m : Table V)
      → ((v : V) → p v ≡ false → q v ≡ r v)
      → count p m ≡ 0
      → count q m ≡ count r m
  unfolding count
  count-congr p q r [] h z = refl
  count-congr p q r ((j, w) ∷ m) h z = ground (arith, h w, count-congr p q r m h)

  pub lookup-remove_where_missing :
      (p : V → Bool) (j : Bytes) (m : Table V)
      → lookup j m ≡ none
      → lookup j (remove_where p m) ≡ none
  unfolding lookup remove_where
  lookup-remove_where_missing p j [] h = refl
  lookup-remove_where_missing p j ((i, w) ∷ m) h = ground (arith, lookup-remove_where_missing p j m)

  pub lookup-remove_where_kept :
      (p : V → Bool) (j : Bytes) (v : V) (m : Table V)
      → lookup j m ≡ some v
      → p v ≡ false
      → lookup j (remove_where p m) ≡ some v
  unfolding lookup remove_where
  lookup-remove_where_kept p j v [] h f = h
  lookup-remove_where_kept p j v ((i, w) ∷ m) h f = ground (arith, lookup-remove_where_kept p j v m)

  pub lookup-remove_where_gone :
      (p : V → Bool) (j : Bytes) (v : V) (m : Table V)
      → Distinct m
      → lookup j m ≡ some v
      → p v ≡ true
      → lookup j (remove_where p m) ≡ none
  unfolding lookup remove_where
  lookup-remove_where_gone p j v [] d h t = refl
  lookup-remove_where_gone p j v ((i, w) ∷ m) d h t = ground (
    arith,
    bytes_eq_iff i j,
    lookup-remove_where_missing p j m,
    lookup-remove_where_gone p j v m d.1,
  )

  pub count_none : (m : Table V) → count (λ _. false) m ≡ 0
  unfolding count
  count_none [] = refl
  count_none ((j, w) ∷ m) = ground (arith, count_none m)

  pub hit-le-count : (p : V → Bool) (k : Bytes) (m : Table V) → hit p (lookup k m) ≤ count p m
  unfolding count lookup
  hit-le-count p k [] = omega arith
  hit-le-count p k ((j, w) ∷ m) = ground (arith, hit-le-count p k m)

  pub remove_where-Distinct :
      (p : V → Bool) (m : Table V) → Distinct m → Distinct (remove_where p m)
  unfolding remove_where
  remove_where-Distinct p [] d = tt
  remove_where-Distinct p ((j, w) ∷ m) d =
      ground (arith, lookup-remove_where_missing p j m, remove_where-Distinct p m d.1)

  pub map_values-Distinct : (f : V → V) (m : Table V) → Distinct m → Distinct (map_values f m)
  unfolding map_values
  map_values-Distinct f [] d = tt
  map_values-Distinct f ((j, w) ∷ m) d =
      ground (arith, lookup-map_values f j m, map_values-Distinct f m d.1)

  -- An entry that survives fails the test.
  pub lookup-remove_where_survivor :
      (p : V → Bool) (j : Bytes) (v : V) (m : Table V)
      → lookup j (remove_where p m) ≡ some v
      → p v ≡ false
  unfolding lookup remove_where
  lookup-remove_where_survivor p j v [] h = cc
  lookup-remove_where_survivor p j v ((i, w) ∷ m) h =
      ground (arith, lookup-remove_where_survivor p j v m)

  pub length-insert_new :
      (k : Bytes) (v : V) (m : Table V) → lookup k m ≡ none → length (insert k v m) ≡ length m + 1
  unfolding insert lookup
  length-insert_new k v [] h = omega arith
  length-insert_new k v ((j, w) ∷ m) h = ground (arith, length-insert_new k v m)

  pub length-insert_old :
      (k : Bytes) (v w : V) (m : Table V) → lookup k m ≡ some w → length (insert k v m) ≡ length m
  unfolding insert lookup
  length-insert_old k v w [] h = cc
  length-insert_old k v w ((j, x) ∷ m) h = ground (arith, length-insert_old k v w m)
