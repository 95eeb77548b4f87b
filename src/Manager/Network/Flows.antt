-- ===== src/Manager/Network/Flows.antt =====
-- Identifiers of connections and the bound on UDP flows.
use native.Mathlib.Nat.{mod-eq_of_lt}
use meow_frp_server.Prelude.{
  ℕ, ◌+◌, ◌%◌, ◌≤◌, ◌<◌, ◌≡◌, refl, ap, ◌∙◌, sym, inl, inr, ◌&&◌, ◌||◌, not, Bool, true, false,
  none, some, Option, [], ◌∷◌, ◌==◌, if◌then◌else◌, bytes_eq_refl, ◌++◌, arith, Bytes, codes,
  bytes_eq, bytes_eq_iff, decimal, decimal-injective, drop, ltb, leb, length, Bool-cases,
  Option-cases,
}
use meow_frp_server.Prelude.Table.{Table, lookup, insert, lookup-insert}
use meow_frp_server.Prelude.Table.Count.{length-insert_new, length-insert_old}
use meow_frp_server.Prelude.Library.{TextLibrary}
use meow_frp_server.Manager.Network.{udp_key, register_tcp_connection, observe_udp_flow}
use meow_frp_server.Manager.Tracking.{Tracking, uint64}
use meow_frp_server.Manager.Types.{ActiveConnection, TcpConnection, ConnectionInfo}

-- The flow is in the table.
abbrev pub is_tracked : Bytes → Tracking → Bool
is_tracked key m = elim (lookup key m.udp_flows) [ none ↦ false | some _ ↦ true ]

-- The table takes one more flow; a limit of 0 is none.
abbrev pub has_room : Tracking → Bool
has_room m = m.max_udp_flows == 0 || ltb (length m.udp_flows) m.max_udp_flows

-- The table is within its limit.
abbrev pub is_within_limit : Tracking → Bool
is_within_limit m = m.max_udp_flows == 0 || leb (length m.udp_flows) m.max_udp_flows

-- What a packet of the flow `key` makes of the table: no other flow changes, the flow is tracked if it was
-- before or there was room, and the table grows by it only if it is new.
pub record Observed (key : Bytes) (m m' : Tracking) : Type 0 where
  pub others :
      (other : Bytes)
      → bytes_eq key other ≡ false
      → lookup other m'.udp_flows ≡ lookup other m.udp_flows
  pub tracked : is_tracked key m' ≡ is_tracked key m || has_room m
  pub grown :
      length m'.udp_flows
      ≡ length m.udp_flows + (if is_tracked key m then 0 else if has_room m then 1 else 0)

unchanged-Observed :
    (key : Bytes) (m : Tracking) → is_tracked key m || not (has_room m) ≡ true → Observed key m m
unchanged-Observed key m h = record {
  others = λ other _. refl;
  tracked = ground (arith, h);
  grown = ground (arith, h);
}

found_again :
    (key : Bytes) (v : ActiveConnection) (t : Table ActiveConnection)
    → lookup key (insert key v t) ≡ some v
found_again key v t = ground (arith, lookup-insert key key v t, bytes_eq_refl key)

tracked_as :
    (key : Bytes) (m : Tracking) (o : Option ActiveConnection)
    → lookup key m.udp_flows ≡ o
    → is_tracked key m ≡ (elim o [ none ↦ false | some _ ↦ true ])
tracked_as key m o e =
    ap (λ (o : Option ActiveConnection). elim o [ none ↦ false | some _ ↦ true ]) e

insert-Observed :
    (key : Bytes) (v : ActiveConnection) (m m' : Tracking)
    → is_tracked key m || has_room m ≡ true
    → m'.udp_flows ≡ insert key v m.udp_flows
    → Observed key m m'
insert-Observed key v m m' h e = record {
  others = λ other d. ap (lookup other) e ∙ lookup-insert key other v m.udp_flows ∙ rw d refl;
  tracked =
      ap (λ (t : Table ActiveConnection). elim (lookup key t) [ none ↦ false | some _ ↦ true ]) e
      ∙ ap (λ (o : Option ActiveConnection). elim o [ none ↦ false | some _ ↦ true ])
          (found_again key v m.udp_flows)
      ∙ sym h;
  grown = elim (Option-cases (lookup key m.udp_flows)) [
    | inl n ↦ rw e (length-insert_new key v m.udp_flows n ∙ ground (arith, n, h))
    | inr (w, n) ↦ rw e (length-insert_old key v w m.udp_flows n ∙ ground (arith, n))
  ];
}

Observed-within :
    (key : Bytes) (m m' : Tracking)
    → Observed key m m'
    → m'.max_udp_flows ≡ m.max_udp_flows
    → is_within_limit m' ≡ is_within_limit m
Observed-within key m m' o e = ground (arith, o.grown, e)

-- A packet of a UDP flow changes no other flow. A flow that is tracked stays tracked, and their number is
-- kept; a new one is added, by itself, exactly if there is no limit or the table is below it. So a table
-- within its limit stays within it.
pub observe_udp_flow-Observed :
    (lib : TextLibrary) (now : ℕ) (info : ConnectionInfo) (m : Tracking)
    → let m' = observe_udp_flow lib now info m in
      Observed (udp_key info) m m' × (is_within_limit m' ≡ is_within_limit m)
unfolding observe_udp_flow
observe_udp_flow-Observed lib now info m =
    let key = udp_key info in
    let full = ltb 0 m.max_udp_flows && leb m.max_udp_flows (length m.udp_flows) in
    let shut : full ≡ true → has_room m ≡ false = λ h. ground (arith, h) in
    let open_ : full ≡ false → has_room m ≡ true = λ h. ground (arith, h) in
    elim (Option-cases (lookup key m.udp_flows)) [
      | inl e ↦
          let new : is_tracked key m ≡ false = tracked_as key m none e in
          elim (Bool-cases full) [
            | inl at_limit ↦
                rw (e, observe_udp_flow)
                  (rw at_limit (unchanged-Observed key m (rw (shut at_limit) (rw new refl)), refl))
            | inr below ↦
                let o = insert-Observed key _ m _ (rw (open_ below) (rw new refl)) refl in
                rw (e, observe_udp_flow) (rw below (o, Observed-within key m _ o refl))
          ]
      | inr (flow, e) ↦
          let old : is_tracked key m ≡ true = tracked_as key m (some flow) e in
          elim (Bool-cases (bytes_eq flow.id [])) [
            | inr named ↦
                let o = insert-Observed key _ m _ (rw old refl) refl in
                rw (e, observe_udp_flow) (rw named (o, Observed-within key m _ o refl))
            | inl nameless ↦ elim (Bool-cases full) [
              | inl at_limit ↦
                  rw (e, observe_udp_flow)
                    (rw (nameless, at_limit) (unchanged-Observed key m (rw old refl), refl))
              | inr below ↦
                  let o = insert-Observed key _ m _ (rw old refl) refl in
                  rw (e, observe_udp_flow)
                    (rw (nameless, below) (o, Observed-within key m _ o refl))
            ]
          ]
    ]

-- The keys of the connections are the names that were given out so far.
abbrev pub AllNamed : ℕ → Table TcpConnection → Type 0
AllNamed n [] = Unit
AllNamed n ((key, _) ∷ m) = ((i : ℕ) × (i ≤ n) × (key ≡ codes "tcp_" ++ decimal i)) × AllNamed n m

tcp_name-injective : (i j : ℕ) → codes "tcp_" ++ decimal i ≡ codes "tcp_" ++ decimal j → i ≡ j
tcp_name-injective i j e = (decimal-injective [] [] (ap (λ k. drop 4 k ++ (b':' ∷ [])) e)).0

fresh_name :
    (n : ℕ) (m : Table TcpConnection)
    → AllNamed n m
    → lookup (codes "tcp_" ++ decimal (n + 1)) m ≡ none
unfolding lookup
fresh_name n [] a = refl
fresh_name n ((key, t) ∷ m) ((i, le, e), a) =
    elim (Bool-cases (bytes_eq key (codes "tcp_" ++ decimal (n + 1)))) [
      | inl same ↦
          let k = sym e ∙ (bytes_eq_iff key (codes "tcp_" ++ decimal (n + 1))).0 same in
          absurd (omega (arith, tcp_name-injective i (n + 1) k))
      | inr other ↦ rw (other, lookup) (fresh_name n m a)
    ]

AllNamed-mono : (n : ℕ) (m : Table TcpConnection) → AllNamed n m → AllNamed (n + 1) m
AllNamed-mono n [] a = tt
AllNamed-mono n ((key, t) ∷ m) ((i, le, e), a) = ((i, omega arith, e), AllNamed-mono n m a)

insert-AllNamed :
    (n : ℕ) (t : TcpConnection) (m : Table TcpConnection)
    → AllNamed n m
    → AllNamed (n + 1) (insert (codes "tcp_" ++ decimal (n + 1)) t m)
unfolding insert
insert-AllNamed n t [] a = ((n + 1, omega arith, refl), tt)
insert-AllNamed n t ((key, w) ∷ m) ((i, le, e), a) =
    elim (Bool-cases (bytes_eq key (codes "tcp_" ++ decimal (n + 1)))) [
      | inl same ↦ rw (same, insert) ((n + 1, omega arith, refl), AllNamed-mono n m a)
      | inr other ↦ rw (other, insert) ((i, omega arith, e), insert-AllNamed n t m a)
    ]

-- While the counter does not wrap, and all names come from earlier values of it, a registered connection gets a name that no tracked connection
-- has, so that it replaces none, and later names are fresh too.
pub register_tcp_connection_fresh :
    (lib : TextLibrary) (now : ℕ) (info : ConnectionInfo) (user_conn : ℕ) (work_conn : Option ℕ)
    (m : Tracking)
    → m.next_connection_id + 1 < uint64
    → AllNamed m.next_connection_id m.tcp_connections
    → let r = register_tcp_connection lib now info user_conn work_conn m in
      (lookup r.1 m.tcp_connections ≡ none)
      × (length r.0.tcp_connections ≡ length m.tcp_connections + 1)
      × AllNamed r.0.next_connection_id r.0.tcp_connections
unfolding register_tcp_connection
register_tcp_connection_fresh lib now info user_conn work_conn m h a =
    let n = m.next_connection_id in
    let next : (n + 1) % uint64 ≡ n + 1 = mod-eq_of_lt h in
    let fresh = fresh_name n m.tcp_connections a in
    rw next (
      fresh,
      length-insert_new _ _ m.tcp_connections fresh,
      insert-AllNamed n _ m.tcp_connections a,
    )
