-- ===== src/Cluster/Blocklist/Delta.antt =====
-- The differences that are sent, applied to the addresses that the node has.
use meow_frp_server.Prelude.{
  ◌≡◌, refl, sym, ap, ◌∙◌, Bool, true, false, not, ◌&&◌, ◌||◌, inl, inr, Option, none, some, List,
  [], ◌∷◌, arith, Bytes, bytes_eq, bytes_eq_iff, Bool-cases, Option-cases, ltb, ◌==◌, ==_iff,
  filter, if◌then◌else◌,
}
use meow_frp_server.Prelude.Table.{Table, lookup, insert, remove, lookup-insert, lookup-remove}
use meow_frp_server.Identity.{Index}
use meow_frp_server.Cluster.Types.{Block}
use meow_frp_server.Cluster.Session.{NodeSession, add_blocks, drop_blocks, with_applied}
use meow_frp_server.Cluster.Blocklist.{
  find_block, is_wanted, is_changed, removed_addresses, blocked_ip_snapshot,
}

-- No address has two rows: `ip` is the primary key.
unfoldable pub are_distinct : List Block → Bool
unfolding is_wanted
are_distinct [] = true
are_distinct (b ∷ bs) = not (is_wanted b.ip bs) && are_distinct bs

-- Every block stands under its own address.
abbrev pub IsKeyed : Table Block → Type 0
IsKeyed m = (ip : Bytes) (b : Block) → lookup ip m ≡ some b → b.ip ≡ ip

abbrev is_among : Bytes → List Bytes → Bool
is_among ip [] = false
is_among ip (j ∷ js) = bytes_eq j ip || is_among ip js

abbrev or_else : Option Block → Option Block → Option Block
or_else none o = o
or_else (some b) o = some b

block_eq : (a b : Block) → a.ip ≡ b.ip → a.reason ≡ b.reason → a.created_at ≡ b.created_at → a ≡ b
block_eq a b i r c = rw i (rw r (rw c refl))

not_wanted : (ip : Bytes) (bs : List Block) → is_wanted ip bs ≡ false → find_block ip bs ≡ none
unfolding is_wanted find_block
not_wanted ip [] h = refl
not_wanted ip (b ∷ bs) h = ground (arith, h, not_wanted ip bs)

is_wanted_of_none :
    (ip : Bytes) (bs : List Block) → find_block ip bs ≡ none → is_wanted ip bs ≡ false
unfolding is_wanted find_block
is_wanted_of_none ip [] h = refl
is_wanted_of_none ip (b ∷ bs) h = ground (arith, h, is_wanted_of_none ip bs)

is_wanted_of_some :
    (ip : Bytes) (bs : List Block) (b : Block) → find_block ip bs ≡ some b → is_wanted ip bs ≡ true
unfolding is_wanted find_block
is_wanted_of_some ip [] b h = absurd (ground (arith, h))
is_wanted_of_some ip (c ∷ bs) b h = ground (arith, h, is_wanted_of_some ip bs b)

lookup-drop_blocks :
    (ip : Bytes) (ips : List Bytes) (m : Table Block)
    → lookup ip (drop_blocks ips m) ≡ (if is_among ip ips then none else lookup ip m)
unfolding drop_blocks
lookup-drop_blocks ip [] m = refl
lookup-drop_blocks ip (j ∷ js) m =
    ground (arith, lookup-drop_blocks ip js (remove j m), lookup-remove j ip m)

-- A row of the list overrides what was there.
lookup-add_blocks :
    (ip : Bytes) (bs : List Block) (m : Table Block)
    → are_distinct bs ≡ true
    → lookup ip (add_blocks bs m) ≡ or_else (find_block ip bs) (lookup ip m)
unfolding add_blocks find_block are_distinct
lookup-add_blocks ip [] m h = refl
lookup-add_blocks ip (b ∷ bs) m h =
    let both : (is_wanted b.ip bs ≡ false) × (are_distinct bs ≡ true) = ground (arith, h) in
    let rest = lookup-add_blocks ip bs (insert b.ip b m) (both.1) in
    elim (Bool-cases (bytes_eq b.ip ip)) [
      | inl e ↦
          let own = (bytes_eq_iff b.ip ip).0 e in
          let gone : find_block ip bs ≡ none = not_wanted ip bs (rw (sym own) (both.0)) in
          rw e (rest ∙ rw gone (lookup-insert b.ip ip b m ∙ rw e refl))
      | inr e ↦
          rw e (rest ∙ ap (or_else (find_block ip bs)) (lookup-insert b.ip ip b m ∙ rw e refl))
    ]

nothing_left :
    (o : Option Block) (wanted : Bool)
    → wanted ≡ true
    → (elim o [ none ↦ false | some _ ↦ not wanted ]) ≡ not wanted
nothing_left none wanted h = sym (ap not h)
nothing_left (some _) wanted h = refl

is_among-removed_addresses :
    (ip : Bytes) (blocks : List Block) (m : Table Block)
    → is_among ip (removed_addresses blocks m)
      ≡ (elim (lookup ip m) [ none ↦ false | some _ ↦ not (is_wanted ip blocks) ])
unfolding removed_addresses lookup
is_among-removed_addresses ip blocks [] = refl
is_among-removed_addresses ip blocks ((j, b) ∷ m) =
    let rest = is_among-removed_addresses ip blocks m in
    elim (Bool-cases (bytes_eq j ip)) [
      | inl e ↦
          let same : is_wanted j blocks ≡ is_wanted ip blocks =
            ap (λ i. is_wanted i blocks) ((bytes_eq_iff j ip).0 e) in
          elim (Bool-cases (is_wanted j blocks)) [
            | inl w ↦
                rw w (rw e (rest ∙ nothing_left (lookup ip m) (is_wanted ip blocks) (sym same ∙ w)))
            | inr w ↦ rw w (rw e (ap not (sym (sym same ∙ w))))
          ]
      | inr e ↦ elim (Bool-cases (is_wanted j blocks)) [
        | inl w ↦ rw w (rw e rest)
        | inr w ↦ rw w (rw e rest)
      ]
    ]

-- A row that is left out of the differences is what the node has.
unchanged :
    (known : Table Block) (ip : Bytes) (b : Block)
    → IsKeyed known
    → b.ip ≡ ip
    → is_changed known b ≡ false
    → lookup ip known ≡ some b
unchanged known ip b k e h = elim (Option-cases (lookup b.ip known)) [
  | inl n ↦ absurd (ground (arith, h, n))
  | inr (old, f) ↦
      let same : (bytes_eq old.reason b.reason ≡ true) × ((old.created_at == b.created_at) ≡ true) =
        ground (arith, h, f) in
      let block : old ≡ b =
        block_eq old b (k b.ip old f) ((bytes_eq_iff old.reason b.reason).0 (same.0))
          ((==_iff old.created_at b.created_at).0 (same.1)) in
      ap (λ i. lookup i known) (sym e) ∙ f ∙ ap some block
]

find_block-filter :
    (known : Table Block) (ip : Bytes) (bs : List Block)
    → are_distinct bs ≡ true
    → find_block ip (filter (is_changed known) bs) ≡ (elim (find_block ip bs) [
      | none ↦ none
      | some b ↦ if is_changed known b then some b else none
    ])
unfolding find_block filter are_distinct
find_block-filter known ip [] h = refl
find_block-filter known ip (b ∷ bs) h =
    let both : (is_wanted b.ip bs ≡ false) × (are_distinct bs ≡ true) = ground (arith, h) in
    let rest = find_block-filter known ip bs (both.1) in
    elim (Bool-cases (bytes_eq b.ip ip)) [
      | inl e ↦
          let gone : find_block ip bs ≡ none =
            not_wanted ip bs (rw (sym ((bytes_eq_iff b.ip ip).0 e)) (both.0)) in
          elim (Bool-cases (is_changed known b)) [
            | inl c ↦ rw e (rw c (rw e refl))
            | inr c ↦ rw e (rw c (rest ∙ rw gone refl))
          ]
      | inr e ↦ elim (Bool-cases (is_changed known b)) [
        | inl c ↦ rw e (rw c (rw e rest))
        | inr c ↦ rw e (rw c rest)
      ]
    ]

find_block-ip : (ip : Bytes) (bs : List Block) (b : Block) → find_block ip bs ≡ some b → b.ip ≡ ip
unfolding find_block
find_block-ip ip [] b h = absurd (ground (arith, h))
find_block-ip ip (c ∷ bs) b h = elim (Bool-cases (bytes_eq c.ip ip)) [
  | inl e ↦
      let same : some c ≡ some b = sym (rw e refl) ∙ h in
      sym (ap (λ o. elim o [ none ↦ c.ip | some x ↦ x.ip ]) same) ∙ (bytes_eq_iff c.ip ip).0 e
  | inr e ↦ find_block-ip ip bs b (sym (rw e refl) ∙ h)
]

or_else-none : (o : Option Block) → or_else o none ≡ o
or_else-none none = refl
or_else-none (some b) = refl

-- Whether the controller has the address, and whether its row has changed.
delta_cases :
    (blocks : List Block) (known : Table Block) (ip : Bytes)
    → IsKeyed known
    → (if (elim (lookup ip known) [ none ↦ false | some _ ↦ not (is_wanted ip blocks) ])
        then none
        else or_else
            (elim (find_block ip blocks) [
              | none ↦ none
              | some b ↦ if is_changed known b then some b else none
            ])
            (lookup ip known))
      ≡ find_block ip blocks
delta_cases blocks known ip k = elim (Option-cases (find_block ip blocks)) [
  | inl n ↦
      let w = is_wanted_of_none ip blocks n in
      elim (Option-cases (lookup ip known)) [
        | inl m ↦ rw m (rw n refl)
        | inr (x, m) ↦ rw m (rw w (rw n refl))
      ]
  | inr (b, f) ↦
      let w = is_wanted_of_some ip blocks b f in
      elim (Bool-cases (is_changed known b)) [
        | inl c ↦ elim (Option-cases (lookup ip known)) [
          | inl m ↦ rw m (rw f (rw c refl))
          | inr (x, m) ↦ rw m (rw w (rw f (rw c refl)))
        ]
        | inr c ↦
            rw (unchanged known ip b k (find_block-ip ip blocks b f) c) (rw w (rw f (rw c refl)))
      ]
]

not_wanted-filter :
    (p : Block → Bool) (ip : Bytes) (bs : List Block)
    → is_wanted ip bs ≡ false
    → is_wanted ip (filter p bs) ≡ false
unfolding filter is_wanted
not_wanted-filter p ip [] h = refl
not_wanted-filter p ip (b ∷ bs) h =
    let both : (bytes_eq b.ip ip ≡ false) × (is_wanted ip bs ≡ false) = ground (arith, h) in
    let rest = not_wanted-filter p ip bs (both.1) in
    elim (Bool-cases (p b)) [ inl c ↦ rw c (rw (both.0) rest) | inr c ↦ rw c rest ]

are_distinct-filter :
    (p : Block → Bool) (bs : List Block)
    → are_distinct bs ≡ true
    → are_distinct (filter p bs) ≡ true
unfolding filter are_distinct
are_distinct-filter p [] h = refl
are_distinct-filter p (b ∷ bs) h =
    let both : (is_wanted b.ip bs ≡ false) × (are_distinct bs ≡ true) = ground (arith, h) in
    let rest = are_distinct-filter p bs (both.1) in
    elim (Bool-cases (p b)) [
      | inl c ↦ rw c (rw (not_wanted-filter p b.ip bs (both.0)) rest)
      | inr c ↦ rw c rest
    ]

-- What the differences do to one address, by whether the controller has it.
delta_lookup :
    (blocks : List Block) (known : Table Block) (ip : Bytes)
    → are_distinct blocks ≡ true
    → IsKeyed known
    → lookup ip (
        drop_blocks
          (removed_addresses blocks known)
          (add_blocks (filter (is_changed known) blocks) known))
      ≡ find_block ip blocks
delta_lookup blocks known ip d k =
    let changed = filter (is_changed known) blocks in
    let dropped =
      lookup-drop_blocks ip (removed_addresses blocks known) (add_blocks changed known) in
    let added =
      lookup-add_blocks ip changed known (are_distinct-filter (is_changed known) blocks d) in
    let filtered = find_block-filter known ip blocks d in
    let among = is_among-removed_addresses ip blocks known in
    let all : lookup ip (drop_blocks (removed_addresses blocks known) (add_blocks changed known))
        ≡ (if (elim (lookup ip known) [ none ↦ false | some _ ↦ not (is_wanted ip blocks) ])
            then none
            else or_else
                (elim (find_block ip blocks) [
                  | none ↦ none
                  | some b ↦ if is_changed known b then some b else none
                ])
                (lookup ip known)) =
      dropped ∙ rw among (rw added (rw filtered refl)) in
    all ∙ delta_cases blocks known ip k

-- Once the node has acknowledged the differences, what the controller knows the node to have is, address by
-- address, its own table of blocked addresses, whether or not the node understands differences.
pub blocked_ip_delta :
    (blocks : List Block) (s : NodeSession) (index : Index) (ip : Bytes)
    → are_distinct blocks ≡ true
    → IsKeyed s.blocked_ips
    → let r = blocked_ip_snapshot blocks s index in
      (lookup ip (with_applied r.0 r.1).blocked_ips ≡ find_block ip blocks)
      × IsKeyed (with_applied r.0 r.1).blocked_ips
unfolding blocked_ip_snapshot with_applied lookup
blocked_ip_delta blocks s index ip d k =
    let r = blocked_ip_snapshot blocks s index in
    let same : (j : Bytes) → lookup j (with_applied r.0 r.1).blocked_ips ≡ find_block j blocks =
      λ j. elim (Bool-cases (ltb s.admission_protocol 1)) [
        | inl o ↦ rw o (
            lookup-drop_blocks j [] (add_blocks blocks [])
            ∙ (lookup-add_blocks j blocks [] d ∙ or_else-none (find_block j blocks)))
        | inr o ↦ rw o (delta_lookup blocks s.blocked_ips j d k)
      ] in
    (same ip, λ j b h. find_block-ip j blocks b (sym (same j) ∙ h))
