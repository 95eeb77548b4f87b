-- ===== src/Inspection/Http.antt =====
-- `ParseHTTPHost` of internal/dpiengine/composite.go and what it calls.
pub mod Total
use meow_frp_server.Prelude.{
  ℕ, zero, suc, ◌+◌, ◌-◌, ◌≡◌, Bool, true, false, not, ◌&&◌, ◌||◌, Option, none, some, List, [],
  ◌∷◌, Bytes, codes, has_prefix, ltb, leb, ◌==◌, length, get_or, take, drop, if◌then◌else◌,
}
use meow_frp_server.Inspection.Outcome.{
  Outcome, returns, panics, out_of_fuel, ◌>>=◌, byte_at, slice_of,
}

-- `equalFoldByte`
unfoldable pub equal_fold_byte : ℕ → ℕ → Bool
equal_fold_byte actual expected_lower =
    (if leb b'A' actual && leb actual b'Z' then actual + (b'a' - b'A') else actual)
    == expected_lower

abbrev has_any_prefix : Bytes → List Bytes → Bool
has_any_prefix bytes [] = false
has_any_prefix bytes (p ∷ ps) = has_prefix bytes p || has_any_prefix bytes ps

-- The prefixes of `looksLikeHTTP`.
abbrev pub methods : List Bytes
methods =
    codes "GET "
    ∷ codes "POST "
    ∷ codes "PUT "
    ∷ codes "HEAD "
    ∷ codes "DELETE "
    ∷ codes "PATCH "
    ∷ codes "OPTIONS "
    ∷ codes "CONNECT "
    ∷ []

-- `looksLikeHTTP`
unfoldable pub looks_like_http : Bytes → Bool
looks_like_http bytes = has_any_prefix bytes methods

-- `bytes.Index`
unfoldable pub index_of : Bytes → Bytes → Option ℕ
index_of [] pattern = if has_prefix [] pattern then some 0 else none
index_of (x ∷ xs) pattern =
    if has_prefix (x ∷ xs) pattern
    then some 0
    else elim (index_of xs pattern) [ none ↦ none | some i ↦ some (i + 1) ]

-- A loop `for i < limit && test(data[i]) { i++ }`.
unfoldable pub scan : ℕ → (ℕ → Bool) → Bytes → ℕ → ℕ → Outcome ℕ
scan zero test bytes limit i = out_of_fuel
scan (suc f) test bytes limit i = elim (ltb i limit) [
  | false ↦ returns i
  | true ↦ do
    b ← byte_at bytes i
    elim (test b) [ true ↦ scan f test bytes limit (i + 1) | false ↦ returns i ]
]

abbrev pub in_line : ℕ → Bool
in_line b = not (b == b'\r') && not (b == b'\n')

abbrev pub is_blank : ℕ → Bool
is_blank b = b == b' ' || b == b'\t'

abbrev pub in_value : ℕ → Bool
in_value b = not (b == b' ' || b == b'\t' || b == b':')

-- `equalFoldByte(data[i], e)` for each byte `e` of a word, up to the first that differs.
unfoldable pub folds_to : Bytes → Bytes → ℕ → Outcome Bool
folds_to [] bytes i = returns true
folds_to (e ∷ es) bytes i = do
  b ← byte_at bytes i
  elim (equal_fold_byte b e) [ true ↦ folds_to es bytes (i + 1) | false ↦ returns false ]

-- `hostValueStart`, with `none` for -1.
unfoldable pub host_value_start : Bytes → ℕ → ℕ → Outcome (Option ℕ)
host_value_start bytes line_start line_end = elim (ltb (line_end - line_start) 5) [
  | true ↦ returns none
  | false ↦ do
    named ← folds_to (codes "host") bytes line_start
    elim named [
      | false ↦ returns none
      | true ↦ do
        b ← byte_at bytes (line_start + 4)
        elim (b == b':') [
          | false ↦ returns none
          | true ↦ do
            start ← scan (suc line_end) is_blank bytes line_end (line_start + 5)
            returns (some start)
        ]
    ]
]

-- The value of a `Host` line, from its start.
unfoldable pub host_value : Bytes → ℕ → ℕ → Outcome Bytes
host_value bytes line_end value_start = do
  value_end ← scan (suc line_end) in_value bytes line_end value_start
  elim (ltb value_start value_end) [
    | true ↦ slice_of bytes value_start value_end
    | false ↦ returns []
  ]

-- Where the next line starts: a CR with an LF behind it counts once.
unfoldable pub next_line : Bytes → ℕ → ℕ → Outcome ℕ
next_line bytes limit line_start = elim (ltb line_start limit) [
  | false ↦ returns line_start
  | true ↦ do
    before ← byte_at bytes (line_start - 1)
    elim (before == b'\r') [
      | false ↦ returns line_start
      | true ↦ do
        b ← byte_at bytes line_start
        returns (if b == b'\n' then line_start + 1 else line_start)
    ]
]

-- The loop over the lines.
unfoldable pub host_lines : ℕ → Bytes → ℕ → ℕ → Outcome Bytes
host_lines zero bytes limit line_start = out_of_fuel
host_lines (suc f) bytes limit line_start = elim (ltb line_start limit) [
  | false ↦ returns []
  | true ↦ do
    line_end ← scan (suc limit) in_line bytes limit line_start
    value ← host_value_start bytes line_start line_end
    elim value [
      | some value_start ↦ host_value bytes line_end value_start
      | none ↦ do next ← next_line bytes limit (line_end + 1); host_lines f bytes limit next
    ]
]

-- `limit`: the end of the header, within the first 4096 bytes.
unfoldable pub header_limit : Bytes → ℕ
header_limit bytes =
    let limit = if ltb 4096 (length bytes) then 4096 else length bytes in
    elim (index_of (take limit bytes) (codes "\r\n\r\n")) [ some end ↦ end | none ↦ limit ]

-- `ParseHTTPHost`: empty where no host is found.
unfoldable pub parse_http_host : Bytes → Outcome Bytes
parse_http_host bytes = elim (ltb (length bytes) 16 || not (looks_like_http bytes)) [
  | true ↦ returns []
  | false ↦ let limit = header_limit bytes in host_lines (suc limit) bytes limit 0
]
