-- ===== src/Cluster/Pages/Cursor.antt =====
-- The cursor of a baseline: which rows it selects.
use native.Mathlib.Nat.{le_refl}
use meow_frp_server.Prelude.{
  ℕ, zero, suc, ◌≤◌, ◌<◌, ◌≡◌, refl, sym, ap, ◌∙◌, Bool, true, false, ◌&&◌, inl, inr, List, [], ◌∷◌,
  arith, Bool-cases, ltb, take, drop, filter,
}
use meow_frp_server.Cluster.Types.{SnapshotUser}
use meow_frp_server.Cluster.Pages.{last_id_of, eligible}

-- The ids ascend, and are all above a bound: the order of a primary key.
unfoldable pub is_above : ℕ → List SnapshotUser → Bool
is_above c [] = true
is_above c (u ∷ us) = ltb c u.id && is_above u.id us

is_above_weaken :
    (a c : ℕ) (us : List SnapshotUser) → c ≤ a → is_above a us ≡ true → is_above c us ≡ true
unfolding is_above
is_above_weaken a c [] h k = refl
is_above_weaken a c (u ∷ us) h k = ground (arith, h, k)

above_head :
    (c : ℕ) (u : SnapshotUser) (us : List SnapshotUser)
    → is_above c (u ∷ us) ≡ true
    → (c < u.id) × (is_above u.id us ≡ true)
unfolding is_above
above_head c u us h = (ground (arith, h), ground (arith, h))

is_above-filter :
    (q : SnapshotUser → Bool) (a : ℕ) (us : List SnapshotUser)
    → is_above a us ≡ true
    → is_above a (filter q us) ≡ true
unfolding is_above filter
is_above-filter q a [] h = refl
is_above-filter q a (u ∷ us) h =
    let k = above_head a u us h in
    let rest = is_above-filter q u.id us (k.1) in
    elim (Bool-cases (q u)) [
      | inl e ↦ rw e (ground (arith, k.0, rest))
      | inr e ↦ rw e (is_above_weaken u.id a (filter q us) (omega (arith, k.0)) rest)
    ]

-- The rows above the bound are above it.
pub is_above-eligible :
    (allowed : ℕ → Bool) (c a : ℕ) (us : List SnapshotUser)
    → is_above a us ≡ true
    → is_above c (eligible allowed c us) ≡ true
unfolding is_above filter
is_above-eligible allowed c a [] h = refl
is_above-eligible allowed c a (u ∷ us) h =
    let k = above_head a u us h in
    let rest = is_above-filter (λ v. ltb c v.id && allowed v.id) u.id us (k.1) in
    elim (Bool-cases (ltb c u.id && allowed u.id)) [
      | inl e ↦ rw e (ground (arith, e, rest))
      | inr e ↦ rw e (is_above-eligible allowed c u.id us (k.1))
    ]

filter_above :
    (c : ℕ) (us : List SnapshotUser) → is_above c us ≡ true → filter (λ u. ltb c u.id) us ≡ us
unfolding filter
filter_above c [] h = refl
filter_above c (u ∷ us) h =
    let k = above_head c u us h in
    let e : ltb c u.id ≡ true = ground (arith, k.0) in
    rw e (ap (◌∷◌ u) (filter_above c us (is_above_weaken u.id c us (omega (arith, k.0)) (k.1))))

last_id_le :
    (c k : ℕ) (us : List SnapshotUser) → is_above c us ≡ true → c ≤ last_id_of c (take k us)
last_id_le c zero us h = le_refl _
last_id_le c (suc k) [] h = le_refl _
last_id_le c (suc k) (u ∷ us) h =
    let a = above_head c u us h in omega (arith, a.0, last_id_le u.id k us (a.1))

-- The rows above the last one that was taken are those that were dropped.
filter_rest :
    (c k : ℕ) (us : List SnapshotUser)
    → is_above c us ≡ true
    → filter (λ u. ltb (last_id_of c (take k us)) u.id) us ≡ drop k us
unfolding filter
filter_rest c zero us h = filter_above c us h
filter_rest c (suc k) [] h = refl
filter_rest c (suc k) (u ∷ us) h =
    let a = above_head c u us h in
    let e : ltb (last_id_of u.id (take k us)) u.id ≡ false =
      ground (arith, last_id_le u.id k us (a.1)) in
    rw e (filter_rest u.id k us (a.1))

filter_twice :
    (allowed : ℕ → Bool) (c d : ℕ) (us : List SnapshotUser)
    → c ≤ d
    → filter (λ u. ltb d u.id) (eligible allowed c us) ≡ eligible allowed d us
unfolding filter
filter_twice allowed c d [] h = refl
filter_twice allowed c d (u ∷ us) h =
    let rest = filter_twice allowed c d us h in
    elim (Bool-cases (ltb d u.id)) [
      | inl e ↦
          let f : ltb c u.id ≡ true = ground (arith, h, e) in
          elim (Bool-cases (allowed u.id)) [
            | inl g ↦ rw e (rw f (rw g (rw e (ap (◌∷◌ u) rest))))
            | inr g ↦ rw e (rw f (rw g rest))
          ]
      | inr e ↦ elim (Bool-cases (ltb c u.id && allowed u.id)) [
        | inl f ↦ rw e (rw f (rw e rest))
        | inr f ↦ rw e (rw f rest)
      ]
    ]

-- What the cursor behind a page selects.
pub eligible_rest :
    (allowed : ℕ → Bool) (c k : ℕ) (us : List SnapshotUser)
    → is_above 0 us ≡ true
    → eligible allowed (last_id_of c (take k (eligible allowed c us))) us
      ≡ drop k (eligible allowed c us)
eligible_rest allowed c k us h =
    let a = is_above-eligible allowed c 0 us h in
    let d = last_id_of c (take k (eligible allowed c us)) in
    sym (filter_twice allowed c d us (last_id_le c k (eligible allowed c us) a))
    ∙ filter_rest c k (eligible allowed c us) a
