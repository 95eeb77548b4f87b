-- ===== src/Prelude/Decimal.antt =====
-- Decimal text of a number, as `%d` and `strconv.FormatUint` print it.
use Prim.Native.Nat.{ℕ, zero, suc, ◌+◌, ◌-◌, ◌*◌, ◌/◌, ◌%◌, ◌<◌}
use mathlib.Core.List.{[], ◌∷◌, ◌++◌}
use mathlib.Core.Logic.{inl, inr}
use mathlib.Core.Path.{◌≡◌, refl, sym, ap, ◌∙◌}
use native.Mathlib.Omega.{arith}
use meow_frp_server.Prelude.Tests.{ltb, ltb→lt, if◌then◌else◌, Bool-cases}
use meow_frp_server.Prelude.Text.{Bytes}

-- The digits of `n`, in front of `rest`. The fuel bounds the number of digits.
decimal_onto : ℕ → ℕ → Bytes → Bytes
decimal_onto zero n rest = rest
decimal_onto (suc f) n rest =
    let higher = decimal_onto f (n / 10) ((b'0' + n % 10) ∷ rest) in
    if ltb n 10 then (b'0' + n) ∷ rest else higher

unfoldable pub decimal : ℕ → Bytes
unfolding decimal_onto
decimal n = decimal_onto (suc n) n []

-- The number that a text begins with, read on from `acc`, up to a byte that is no digit.
value_of : ℕ → Bytes → ℕ × Bytes
value_of acc [] = (acc, [])
value_of acc (c ∷ cs) =
    if ltb c b'0'
    then (acc, c ∷ cs)
    else if ltb b'9' c
    then (acc, c ∷ cs)
    else value_of (acc * 10 + c - b'0') cs

value_of-digit :
    (acc d : ℕ) (rest : Bytes)
    → d < 10
    → value_of acc ((b'0' + d) ∷ rest) ≡ value_of (acc * 10 + d) rest
unfolding value_of
value_of-digit acc d rest h =
    let e : acc * 10 + (b'0' + d) - b'0' ≡ acc * 10 + d = omega arith in ground arith

value_of-decimal_onto :
    (f n : ℕ) (rest : Bytes) → n < f → value_of 0 (decimal_onto f n rest) ≡ value_of n rest
unfolding decimal_onto
value_of-decimal_onto zero n rest h = absurd (omega arith)
value_of-decimal_onto (suc f) n rest h = elim (Bool-cases (ltb n 10)) [
  | inl small ↦
      let start : 0 * 10 + n ≡ n = omega arith in
      rw small (value_of-digit 0 n rest (ltb→lt n 10 small) ∙ rw start)
  | inr large ↦
      let split : n / 10 * 10 + n % 10 ≡ n = omega arith in
      let fewer : n / 10 < f = ground arith in
      rw large (
        value_of-decimal_onto f (n / 10) _ fewer
        ∙ value_of-digit (n / 10) (n % 10) rest (omega arith)
        ∙ rw split)
]

decimal_onto-append :
    (f n : ℕ) (xs ys : Bytes) → decimal_onto f n (xs ++ ys) ≡ decimal_onto f n xs ++ ys
unfolding decimal_onto
decimal_onto-append zero n xs ys = refl
decimal_onto-append (suc f) n xs ys =
    ground (arith, decimal_onto-append f (n / 10) ((b'0' + n % 10) ∷ xs) ys)

-- What follows a number and does not begin with a digit is read back with it.
pub decimal-injective :
    {m n : ℕ} (xs ys : Bytes)
    → decimal m ++ (b':' ∷ xs) ≡ decimal n ++ (b':' ∷ ys)
    → (m ≡ n) × (xs ≡ ys)
unfolding decimal value_of
decimal-injective {m} {n} xs ys e =
    let read = λ (k : ℕ) (zs : Bytes).
      ap (value_of 0) (sym (decimal_onto-append (suc k) k [] (b':' ∷ zs)))
      ∙ value_of-decimal_onto (suc k) k (b':' ∷ zs) (omega arith) in
    let same = sym (read m xs) ∙ ap (value_of 0) e ∙ read n ys in ground (arith, same)
