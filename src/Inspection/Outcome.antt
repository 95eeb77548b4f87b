-- ===== src/Inspection/Outcome.antt =====
-- A run of Go code over a byte slice. Reading or slicing past the length is a panic; slicing between
-- the length and the capacity, which Go lets pass, counts as a panic too, so that what is shown to
-- return depends on no bytes behind the slice. A loop takes fuel, and running out is told apart.
use meow_frp_server.Prelude.{
  ℕ, ◌+◌, ◌-◌, ◌*◌, ◌≤◌, ◌<◌, ◌≡◌, ◌&&◌, arith, Bytes, ltb, leb, length, get_or, slice, drop,
  length-take, length-drop, if◌then◌else◌,
}

pub data Outcome {ℓ} (A : Type ℓ) : Type ℓ where
  returns : A → Outcome A
  panics : Outcome A
  out_of_fuel : Outcome A

infixl 5 ◌>>=◌
abbrev pub ◌>>=◌ {ℓ κ} : {A : Type ℓ} {B : Type κ} → Outcome A → (A → Outcome B) → Outcome B
returns a >>= f = f a
panics >>= f = panics
out_of_fuel >>= f = out_of_fuel

-- The code returns a value, and `P` holds of it.
abbrev pub Returns {ℓ} : {A : Type ℓ} → (A → Type 0) → Outcome A → Type 0
Returns P (returns a) = P a
Returns P panics = ⊥
Returns P out_of_fuel = ⊥

-- `bytes[i]`
unfoldable pub byte_at : Bytes → ℕ → Outcome ℕ
byte_at bytes i = if ltb i (length bytes) then returns (get_or bytes i 0) else panics

-- `bytes[from:to]`
unfoldable pub slice_of : Bytes → ℕ → ℕ → Outcome Bytes
slice_of bytes from to =
    if leb from to && leb to (length bytes) then returns (slice bytes from to) else panics

-- `binary.BigEndian.Uint16`
abbrev pub uint16 : Bytes → ℕ
uint16 b = get_or b 0 0 * 256 + get_or b 1 0

-- `binary.BigEndian.Uint32`
abbrev pub uint32 : Bytes → ℕ
uint32 b = ((get_or b 0 0 * 256 + get_or b 1 0) * 256 + get_or b 2 0) * 256 + get_or b 3 0

pub byte_at-lt :
    (bytes : Bytes) (i : ℕ) → i < length bytes → byte_at bytes i ≡ returns (get_or bytes i 0)
unfolding byte_at
byte_at-lt bytes i h = ground arith

pub slice_of-le :
    (bytes : Bytes) (from to : ℕ)
    → from ≤ to
    → to ≤ length bytes
    → slice_of bytes from to ≡ returns (slice bytes from to)
unfolding slice_of
slice_of-le bytes from to h k = ground arith

pub length-slice :
    (bytes : Bytes) (from to : ℕ)
    → from ≤ to
    → to ≤ length bytes
    → length (slice bytes from to) + from ≡ to
length-slice bytes from to h k =
    omega (arith, length-take (to - from) (drop from bytes), length-drop from bytes)

-- The rule for a sequence of two parts.
pub Returns-bind {ℓ κ} :
    {A : Type ℓ} {B : Type κ} (P : A → Type 0) (Q : B → Type 0) (m : Outcome A) (f : A → Outcome B)
    → Returns P m
    → ((a : A) → P a → Returns Q (f a))
    → Returns Q (m >>= f)
Returns-bind P Q (returns a) f h k = k a h
Returns-bind P Q panics f h k = absurd h
Returns-bind P Q out_of_fuel f h k = absurd h

-- Some value is returned.
abbrev pub Completes {ℓ} : {A : Type ℓ} → Outcome A → Type 0
Completes = Returns (λ _. Unit {0})

pub Completes-byte_at {ℓ} :
    {B : Type ℓ} (Q : B → Type 0) (bytes : Bytes) (i : ℕ) (f : ℕ → Outcome B)
    → i < length bytes
    → Returns Q (f (get_or bytes i 0))
    → Returns Q (byte_at bytes i >>= f)
Completes-byte_at Q bytes i f h k = rw (byte_at-lt bytes i h) k

pub Completes-slice_of {ℓ} :
    {B : Type ℓ} (Q : B → Type 0) (bytes : Bytes) (from to : ℕ) (f : Bytes → Outcome B)
    → from ≤ to
    → to ≤ length bytes
    → Returns Q (f (slice bytes from to))
    → Returns Q (slice_of bytes from to >>= f)
Completes-slice_of Q bytes from to f h k r = rw (slice_of-le bytes from to h k) r
