-- ===== src/Inspection/Http/Total.antt =====
-- The indices and the loops of `ParseHTTPHost`.
use meow_frp_server.Prelude.{
  ℕ, zero, suc, ◌+◌, ◌-◌, ◌≤◌, ◌<◌, ◌≡◌, inl, inr, Bool, true, false, Option, none, some, [], ◌∷◌,
  arith, Bytes, codes, ltb, ltb→lt, ◌==◌, length, get_or, take, length-take, Bool-cases,
  Option-cases, if◌then◌else◌,
}
use meow_frp_server.Inspection.Outcome.{
  returns, ◌>>=◌, Returns, Completes, Returns-bind, byte_at-lt, slice_of-le,
}
use meow_frp_server.Inspection.Http.{
  scan, in_line, is_blank, in_value, folds_to, host_value_start, host_value, next_line, host_lines,
  header_limit, index_of, parse_http_host,
}

abbrev Between : ℕ → ℕ → ℕ → Type 0
Between lo hi j = (lo ≤ j) × (j ≤ hi)

pub scan_lem :
    (f : ℕ) (test : ℕ → Bool) (bytes : Bytes) (limit i : ℕ)
    → limit ≤ length bytes
    → i ≤ limit
    → limit < f + i
    → Returns (Between i limit) (scan f test bytes limit i)
unfolding scan
scan_lem zero test bytes limit i b h m = absurd (omega arith)
scan_lem (suc f) test bytes limit i b h m =
    ground (arith, byte_at-lt bytes i, scan_lem f test bytes limit (i + 1))

folds_to_lem :
    (es bytes : Bytes) (i : ℕ) → i + length es ≤ length bytes → Completes (folds_to es bytes i)
unfolding folds_to
folds_to_lem [] bytes i h = tt
folds_to_lem (e ∷ es) bytes i h = ground (arith, byte_at-lt bytes i, folds_to_lem es bytes (i + 1))

-- A value that starts within the line.
abbrev StartsBy : ℕ → Option ℕ → Type 0
StartsBy line_end none = Unit
StartsBy line_end (some start) = start ≤ line_end

named_lem :
    (bytes : Bytes) (line_start line_end : ℕ) (b : ℕ)
    → line_end ≤ length bytes
    → line_start + 5 ≤ line_end
    → Returns (StartsBy line_end) (elim (b == b':') [
      | false ↦ returns none
      | true ↦ do
        start ← scan (suc line_end) is_blank bytes line_end (line_start + 5)
        returns (some start)
    ])
named_lem bytes line_start line_end b h k =
    ground (arith, scan_lem (suc line_end) is_blank bytes line_end (line_start + 5))

host_value_start_lem :
    (bytes : Bytes) (line_start line_end : ℕ)
    → line_start ≤ line_end
    → line_end ≤ length bytes
    → Returns (StartsBy line_end) (host_value_start bytes line_start line_end)
unfolding host_value_start
host_value_start_lem bytes line_start line_end l h = ground (
  arith,
  folds_to_lem (codes "host") bytes line_start,
  byte_at-lt bytes (line_start + 4),
  named_lem bytes line_start line_end (get_or bytes (line_start + 4) 0) h,
)

host_value_lem :
    (bytes : Bytes) (line_end value_start : ℕ)
    → value_start ≤ line_end
    → line_end ≤ length bytes
    → Completes (host_value bytes line_end value_start)
unfolding host_value
host_value_lem bytes line_end value_start h k =
    Returns-bind (Between value_start line_end) (λ _. Unit {0}) _ _
      (scan_lem (suc line_end) in_value bytes line_end value_start k h (omega arith))
      λ value_end w. ground (arith, slice_of-le bytes value_start value_end)

next_line_lem :
    (bytes : Bytes) (limit line_start : ℕ)
    → 0 < line_start
    → limit ≤ length bytes
    → line_start ≤ limit + 1
    → Returns (Between line_start (limit + 1)) (next_line bytes limit line_start)
unfolding next_line
next_line_lem bytes limit line_start p h k =
    ground (arith, byte_at-lt bytes (line_start - 1), byte_at-lt bytes line_start)

host_lines_lem :
    (f : ℕ) (bytes : Bytes) (limit line_start : ℕ)
    → limit ≤ length bytes
    → limit - line_start < f
    → Completes (host_lines f bytes limit line_start)
unfolding host_lines
host_lines_lem zero bytes limit line_start h m = absurd (omega arith)
host_lines_lem (suc f) bytes limit line_start h m = elim (Bool-cases (ltb line_start limit)) [
  | inr past ↦ rw (past, host_lines) tt
  | inl inside ↦
      let lt = ltb→lt line_start limit inside in
      rw (inside, host_lines)
        (Returns-bind (Between line_start limit) (λ _. Unit {0}) _ _
          (scan_lem (suc limit) in_line bytes limit line_start h (omega arith) (omega arith))
          λ line_end w.
            Returns-bind (StartsBy line_end) (λ _. Unit {0}) _ _
              (host_value_start_lem bytes line_start line_end w.0 (omega arith))
              (elim [
                | some value_start ↦ λ s. host_value_lem bytes line_end value_start s (omega arith)
                | none ↦ λ _.
                    Returns-bind (Between (line_end + 1) (limit + 1)) (λ _. Unit {0}) _ _
                      (next_line_lem bytes limit (line_end + 1) (omega arith) h (omega arith))
                      λ next n. host_lines_lem f bytes limit next h (omega arith)
              ]))
]

index_of-le : (bytes pattern : Bytes) (i : ℕ) → index_of bytes pattern ≡ some i → i ≤ length bytes
unfolding index_of
index_of-le [] pattern i h = ground arith
index_of-le (x ∷ xs) pattern i h = elim (Option-cases (index_of xs pattern)) [
  | inl e ↦ ground (arith, e)
  | inr (j, e) ↦ ground (arith, e, index_of-le xs pattern j e)
]

header_limit-le : (bytes : Bytes) → header_limit bytes ≤ length bytes
unfolding header_limit
header_limit-le bytes =
    let limit = if ltb 4096 (length bytes) then 4096 else length bytes in
    elim (Option-cases (index_of (take limit bytes) (codes "\r\n\r\n"))) [
      | inl e ↦ ground (arith, e)
      | inr (i, e) ↦
          ground (
            arith,
            e,
            index_of-le (take limit bytes) (codes "\r\n\r\n") i e,
            length-take limit bytes,
          )
    ]

-- Whatever the payload, `ParseHTTPHost` returns: no index is out of range and every loop ends.
pub parse_http_host_total : (bytes : Bytes) → Completes (parse_http_host bytes)
unfolding parse_http_host
parse_http_host_total bytes =
    let lines =
      host_lines_lem (suc (header_limit bytes)) bytes (header_limit bytes) 0 (header_limit-le bytes)
        (omega arith) in
    ground (arith, lines)
