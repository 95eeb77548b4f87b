-- ===== src/Inspection/Tls/Cursor.antt =====
-- Reading at a position of which is known what stands behind it.
use meow_frp_server.Prelude.{
  ℕ, zero, suc, ◌+◌, ◌-◌, ◌≡◌, refl, ap, ◌∙◌, sym, [], ◌∷◌, ◌++◌, arith, Bytes, length, get_or,
  take, drop, length-append,
}
use meow_frp_server.Inspection.Outcome.{returns, byte_at, byte_at-lt, slice_of, slice_of-le}
use meow_frp_server.Inspection.Tls.{uint16_at}
use meow_frp_server.Inspection.Tls.Encoding.{be16}

pub record IsAt (bytes : Bytes) (pos : ℕ) (rest : Bytes) : Type 0 where
  pub behind : drop pos bytes ≡ rest
  pub size : pos + length rest ≡ length bytes

get_or-drop : (n : ℕ) (bytes : Bytes) → get_or bytes n 0 ≡ get_or (drop n bytes) 0 0
get_or-drop zero [] = refl
get_or-drop zero (b ∷ bs) = refl
get_or-drop (suc n) [] = refl
get_or-drop (suc n) (b ∷ bs) = get_or-drop n bs

drop-nil : (n : ℕ) → drop {A = ℕ} n [] ≡ []
drop-nil zero = refl
drop-nil (suc n) = refl

drop-drop : (m n : ℕ) (bytes : Bytes) → drop (m + n) bytes ≡ drop n (drop m bytes)
drop-drop zero n bytes = let e : 0 + n ≡ n = omega arith in ap (λ k. drop k bytes) e
drop-drop (suc m) n [] = drop-nil (suc m + n) ∙ sym (drop-nil n)
drop-drop (suc m) n (b ∷ bs) =
    let e : suc m + n ≡ suc (m + n) = omega arith in ap (λ k. drop k (b ∷ bs)) e ∙ drop-drop m n bs

take-prefix : (xs ys : Bytes) → take (length xs) (xs ++ ys) ≡ xs
take-prefix [] ys = refl
take-prefix (x ∷ xs) ys = ap (◌∷◌ x) (take-prefix xs ys)

drop-prefix : (xs ys : Bytes) → drop (length xs) (xs ++ ys) ≡ ys
drop-prefix [] ys = refl
drop-prefix (x ∷ xs) ys = drop-prefix xs ys

pub IsAt-start : (bytes : Bytes) → IsAt bytes 0 bytes
IsAt-start bytes = record { behind = refl; size = omega arith }

pub IsAt-skip :
    (bytes : Bytes) (pos to : ℕ) (part rest : Bytes)
    → to ≡ pos + length part
    → IsAt bytes pos (part ++ rest)
    → IsAt bytes to rest
IsAt-skip bytes pos to part rest e a = record {
  behind =
      ap (λ k. drop k bytes) e
      ∙ drop-drop pos (length part) bytes
      ∙ ap (drop (length part)) a.behind
      ∙ drop-prefix part rest;
  size = omega (arith, a.size, length-append part rest);
}

pub byte_at-IsAt :
    (bytes : Bytes) (pos b : ℕ) (rest : Bytes)
    → IsAt bytes pos (b ∷ rest)
    → byte_at bytes pos ≡ returns b
byte_at-IsAt bytes pos b rest a =
    byte_at-lt bytes pos (omega (arith, a.size))
    ∙ ap returns (get_or-drop pos bytes ∙ ap (λ bs. get_or bs 0 0) a.behind)

pub slice_of-IsAt :
    (bytes : Bytes) (pos : ℕ) (part rest : Bytes)
    → IsAt bytes pos (part ++ rest)
    → slice_of bytes pos (pos + length part) ≡ returns part
slice_of-IsAt bytes pos part rest a =
    let e : pos + length part - pos ≡ length part = omega arith in
    slice_of-le bytes pos (pos + length part) (omega arith)
      (omega (arith, a.size, length-append part rest))
    ∙ ap returns (
        ap (λ n. take n (drop pos bytes)) e
        ∙ ap (take (length part)) a.behind
        ∙ take-prefix part rest)

pub uint16_at-IsAt :
    (bytes : Bytes) (pos n : ℕ) (rest : Bytes)
    → IsAt bytes pos (be16 n ++ rest)
    → uint16_at bytes pos ≡ returns n
unfolding uint16_at
uint16_at-IsAt bytes pos n rest a =
    rw (slice_of-IsAt bytes pos (be16 n) rest a) (ap returns (omega arith))
