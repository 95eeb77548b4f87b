-- ===== src/Cluster/Pieces.antt =====
-- The text of a snapshot as the pieces that it is sent in, `identity_chunk_bytes` bytes each but the last
-- (`sendIdentityChunkLocked` of internal/cluster/identity_transfer.go).
use native.Mathlib.Nat.{le_refl}
use meow_frp_server.Prelude.{
  ℕ, zero, suc, ◌+◌, ◌-◌, ◌*◌, ◌/◌, ◌≤◌, ◌<◌, ◌≡◌, refl, sym, ap, ◌∙◌, inl, inr, [], ◌∷◌, ◌++◌,
  arith, Bytes, ltb, length, slice, take, drop, take-length, Bool-cases, if◌then◌else◌,
}
use meow_frp_server.Inspection.Outcome.{length-slice}
use meow_frp_server.Cluster.Types.{identity_chunk_bytes}

-- The first `i` pieces of the payload.
abbrev pub first_pieces : ℕ → Bytes → Bytes
first_pieces i payload = take (i * identity_chunk_bytes) payload

drop_enough : (n : ℕ) (xs : Bytes) → length xs ≤ n → drop n xs ≡ []
drop_enough zero [] h = refl
drop_enough zero (x ∷ xs) h = absurd (omega arith)
drop_enough (suc n) [] h = refl
drop_enough (suc n) (x ∷ xs) h = drop_enough n xs (omega arith)

take_nil : (n : ℕ) → take {A = ℕ} n [] ≡ []
take_nil zero = refl
take_nil (suc n) = refl

take-drop : (a b : ℕ) (xs : Bytes) → take a xs ++ take b (drop a xs) ≡ take (a + b) xs
take-drop zero b xs = ap (λ n. take n xs) (omega arith)
take-drop (suc a) b [] = take_nil b ∙ sym (take_nil (suc a + b))
take-drop (suc a) b (x ∷ xs) =
    let e : suc (a + b) ≡ suc a + b = omega arith in
    ap (◌∷◌ x) (take-drop a b xs) ∙ ap (λ n. take n (x ∷ xs)) e

-- The bytes of piece `i`.
abbrev pub piece : ℕ → Bytes → Bytes
piece i payload =
    let start = i * identity_chunk_bytes in
    let past = start + identity_chunk_bytes in
    slice payload start (if ltb (length payload) past then length payload else past)

pub piece-first_pieces :
    (i : ℕ) (payload : Bytes)
    → i * identity_chunk_bytes ≤ length payload
    → first_pieces i payload ++ piece i payload ≡ first_pieces (i + 1) payload
piece-first_pieces i payload h =
    elim (Bool-cases (ltb (length payload) (i * identity_chunk_bytes + identity_chunk_bytes))) [
      | inl e ↦
          let shorter : length payload ≤ (i + 1) * identity_chunk_bytes = ground (arith, e) in
          rw e (
            take-drop (i * identity_chunk_bytes) (length payload - i * identity_chunk_bytes) payload
            ∙ (ap (λ n. take n payload) (omega (arith, h))
                ∙ (take-length (length payload) payload (le_refl _)
                    ∙ sym (take-length ((i + 1) * identity_chunk_bytes) payload shorter))))
      | inr e ↦ rw e (
          take-drop (i * identity_chunk_bytes)
            (i * identity_chunk_bytes + identity_chunk_bytes - i * identity_chunk_bytes) payload
          ∙ ap (λ n. take n payload) (omega arith))
    ]

pub length-piece :
    (i : ℕ) (payload : Bytes)
    → i * identity_chunk_bytes < length payload
    → (0 < length (piece i payload)) × (length (piece i payload) ≤ identity_chunk_bytes)
length-piece i payload h =
    let start = i * identity_chunk_bytes in
    let past = start + identity_chunk_bytes in
    let end : ℕ = if ltb (length payload) past then length payload else past in
    let bounds : (start < end) × (end ≤ past) × (end ≤ length payload) = ground (arith, h) in
    let l = length-slice payload start end (omega (arith, bounds.0)) bounds.2 in
    (omega (arith, l, bounds.0), omega (arith, l, bounds.1))

-- What `chunk_total` counts.
pub last_piece :
    (i total : ℕ) (payload : Bytes)
    → total ≡ (length payload + identity_chunk_bytes - 1) / identity_chunk_bytes
    → i < total
    → i * identity_chunk_bytes < length payload
last_piece i total payload e h = omega (arith, e, h)
