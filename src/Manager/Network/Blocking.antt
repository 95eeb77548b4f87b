-- ===== src/Manager/Network/Blocking.antt =====
-- What blocking an address and terminating connections do to the connections.
use meow_frp_server.Prelude.{
  not, ◌&&◌, ◌||◌, ℕ, ◌+◌, ◌≡◌, ◌⊎◌, inl, inr, Bool, true, false, some, List, [], ◌∷◌, arith, Bytes,
  bytes_eq, bytes_eq_iff, length, Bool-cases, Option-cases, refl, sym, ap, ◌∙◌,
}
use meow_frp_server.Prelude.Table.{Table, lookup, remove_where, lookup-insert}
use meow_frp_server.Prelude.Table.Count.{lookup-remove_where_survivor, lookup-remove_where_kept}
use meow_frp_server.Prelude.Library.{TextLibrary}
use meow_frp_server.Manager.Network.{split_addr, is_inbound_blocked, block_inbound_ip}
use meow_frp_server.Manager.Tracking.{
  Tracking, of_tcp, from_ip, select, close_handles, set_blocked, terminate_connections,
}
use meow_frp_server.Manager.Types.{
  ActiveConnection, BlockedInboundIp, TcpConnection, ConnectionInfo,
}

abbrev pub Among : ℕ → List ℕ → Type 0
Among h [] = ⊥
Among h (x ∷ xs) = (h ≡ x) ⊎ Among h xs

-- Both ends of a connection are in the list.
abbrev pub AreClosed : TcpConnection → List ℕ → Type 0
AreClosed t hs = Among t.user_conn hs × ((w : ℕ) → t.work_conn ≡ some w → Among w hs)

close_handles-cons :
    (t x : TcpConnection) (xs : List TcpConnection)
    → AreClosed t (close_handles xs)
    → AreClosed t (close_handles (x ∷ xs))
unfolding close_handles
close_handles-cons t x xs c = (ground arith, λ w e. ground (arith, c.1 w e))

close_handles-head :
    (t : TcpConnection) (xs : List TcpConnection) → AreClosed t (close_handles (t ∷ xs))
unfolding close_handles
close_handles-head t xs = (ground arith, λ w e. ground arith)

select_closes :
    (p : TcpConnection → Bool) (key : Bytes) (t : TcpConnection) (m : Table TcpConnection)
    → lookup key m ≡ some t
    → p t ≡ true
    → AreClosed t (close_handles (select p m))
unfolding select lookup
select_closes p key t [] h q = cc
select_closes p key t ((j, x) ∷ m) h q = elim (Bool-cases (bytes_eq j key)) [
  | inl here ↦
      let e : t ≡ x = ground (arith, here) in
      let q' : p x ≡ true = rw e at q in rw (q', select) (rw e (close_handles-head x (select p m)))
  | inr later ↦
      let ih = select_closes p key t m (ground (arith, later)) q in
      elim (Bool-cases (p x)) [
        | inl chosen ↦ rw (chosen, select) (close_handles-cons t x (select p m) ih)
        | inr passed ↦ rw (passed, select) ih
      ]
]

length-select {ℓ} :
    {V : Type ℓ} (p : V → Bool) (m : Table V)
    → length (select p m) + length (remove_where p m) ≡ length m
unfolding select remove_where
length-select p [] = omega arith
length-select p ((j, v) ∷ m) = ground (arith, length-select p m)

-- A row of the table holds the value.
abbrev pub Holds : {V : Type 0} → V → Table V → Type 0
Holds v [] = ⊥
Holds v ((_, w) ∷ m) = (v ≡ w) ⊎ Holds v m

-- One end of a connection.
abbrev pub IsEnd : ℕ → TcpConnection → Type 0
IsEnd h t = (h ≡ t.user_conn) ⊎ (t.work_conn ≡ some h)

Holds-remove_where :
    {V : Type 0} (p : V → Bool) (key : Bytes) (v : V) (m : Table V)
    → lookup key (remove_where p m) ≡ some v
    → Holds v m
unfolding lookup remove_where
Holds-remove_where p key v [] h = cc
Holds-remove_where p key v ((j, w) ∷ m) h = elim (Bool-cases (p w)) [
  | inl gone ↦ inr (Holds-remove_where p key v m (ground (arith, gone)))
  | inr stays ↦ elim (Bool-cases (bytes_eq j key)) [
    | inl here ↦ inl (ground (arith, stays, here))
    | inr later ↦ inr (Holds-remove_where p key v m (ground (arith, stays, later)))
  ]
]

close_handles-IsEnd :
    (h : ℕ) (t : TcpConnection) (ts : List TcpConnection)
    → Among h (close_handles (t ∷ ts))
    → IsEnd h t ⊎ Among h (close_handles ts)
unfolding close_handles
close_handles-IsEnd h t ts a = elim (Option-cases t.work_conn) [
  | inl n ↦ ground (arith, n, a)
  | inr (w, n) ↦ ground (arith, n, a)
]

-- What is closed is an end of a connection that was selected.
closed_by_select :
    (p : TcpConnection → Bool) (h : ℕ) (m : Table TcpConnection)
    → Among h (close_handles (select p m))
    → (t : TcpConnection) × Holds t m × (p t ≡ true) × IsEnd h t
unfolding select close_handles
closed_by_select p h [] a = absurd a
closed_by_select p h ((j, t) ∷ m) a = elim (Bool-cases (p t)) [
  | inr passed ↦
      let rest = closed_by_select p h m (rw passed at a) in (rest.0, inr rest.1, rest.2, rest.3)
  | inl chosen ↦ elim (close_handles-IsEnd h t (select p m) (rw chosen at a)) [
    | inl own ↦ (t, inl refl, chosen, own)
    | inr later ↦ let rest = closed_by_select p h m later in (rest.0, inr rest.1, rest.2, rest.3)
  ]
]

-- Ending the connections that pass a test: what stays was there and does not pass it, what does not pass
-- it stays, both ends of every TCP connection that passes are closed, and nothing else is.
pub record Ends (match : ActiveConnection → Bool) (m m' : Tracking) (closed : List ℕ) : Type 0 where
  pub tcp_left :
      (key : Bytes) (t : TcpConnection)
      → lookup key m'.tcp_connections ≡ some t
      → (match t.connection ≡ false) × Holds t m.tcp_connections
  pub udp_left :
      (key : Bytes) (c : ActiveConnection)
      → lookup key m'.udp_flows ≡ some c
      → (match c ≡ false) × Holds c m.udp_flows
  pub tcp_kept :
      (key : Bytes) (t : TcpConnection)
      → lookup key m.tcp_connections ≡ some t
      → match t.connection ≡ false
      → lookup key m'.tcp_connections ≡ some t
  pub udp_kept :
      (key : Bytes) (c : ActiveConnection)
      → lookup key m.udp_flows ≡ some c
      → match c ≡ false
      → lookup key m'.udp_flows ≡ some c
  pub tcp_closed :
      (key : Bytes) (t : TcpConnection)
      → lookup key m.tcp_connections ≡ some t
      → match t.connection ≡ true
      → AreClosed t closed
  pub only_closed :
      (h : ℕ)
      → Among h closed
      → (t : TcpConnection) × Holds t m.tcp_connections × (match t.connection ≡ true) × IsEnd h t

removed-Ends :
    (match : ActiveConnection → Bool) (m m' : Tracking)
    → m'.tcp_connections ≡ remove_where (of_tcp match) m.tcp_connections
    → m'.udp_flows ≡ remove_where match m.udp_flows
    → Ends match m m' (close_handles (select (of_tcp match) m.tcp_connections))
removed-Ends match m m' d e = record {
  tcp_left = λ key t h.
      let now = sym (ap (lookup key) d) ∙ h in
      (
        lookup-remove_where_survivor (of_tcp match) key t m.tcp_connections now,
        Holds-remove_where (of_tcp match) key t m.tcp_connections now,
      );
  udp_left = λ key c h.
      let now = sym (ap (lookup key) e) ∙ h in
      (
        lookup-remove_where_survivor match key c m.udp_flows now,
        Holds-remove_where match key c m.udp_flows now,
      );
  tcp_kept = λ key t h f.
      ap (lookup key) d ∙ lookup-remove_where_kept (of_tcp match) key t m.tcp_connections h f;
  udp_kept = λ key c h f. ap (lookup key) e ∙ lookup-remove_where_kept match key c m.udp_flows h f;
  tcp_closed = λ key t. select_closes (of_tcp match) key t m.tcp_connections;
  only_closed = λ h. closed_by_select (of_tcp match) h m.tcp_connections;
}

-- `terminateConnections` ends exactly the connections that match, and its count is the number of
-- connections that are gone.
pub terminate_connections-Ends :
    (match : ActiveConnection → Bool) (m : Tracking)
    → let r = terminate_connections match m in
      Ends match m r.0 r.2
      × (r.1 + (length r.0.tcp_connections + length r.0.udp_flows)
          ≡ length m.tcp_connections + length m.udp_flows)
unfolding terminate_connections
terminate_connections-Ends match m = (
  removed-Ends match m _ refl refl,
  omega (arith, length-select (of_tcp match) m.tcp_connections, length-select match m.udp_flows),
)

-- Blocking an address ends its connections, closes their ends and no others, and keeps all other connections.
-- From then on a connection is refused if and only if it comes from that address, or was refused before,
-- and the host of its remote address is not empty.
pub block_inbound_ip-Ends :
    (lib : TextLibrary) (now : ℕ) (ip reason : Bytes) (m : Tracking) (info : ConnectionInfo)
    → let r = block_inbound_ip lib now ip reason m in
      let host = (split_addr lib info.remote_addr).0 in
      Ends (from_ip (lib.trim_space ip)) m r.0 r.1
      × (is_inbound_blocked lib info r.0
          ≡ not (bytes_eq host [])
            && (bytes_eq host (lib.trim_space ip) || is_inbound_blocked lib info m))
unfolding block_inbound_ip set_blocked is_inbound_blocked
block_inbound_ip-Ends lib now ip reason m info =
    let blocked = lib.trim_space ip in
    let host = (split_addr lib info.remote_addr).0 in
    let entry : BlockedInboundIp = record {
      ip = blocked;
      reason = lib.trim_space reason;
      created_at = now;
    } in
    (
      removed-Ends (from_ip blocked) m _ refl refl,
      ground (
        arith,
        bytes_eq_iff host blocked,
        bytes_eq_iff blocked host,
        lookup-insert blocked host entry m.blocked_inbound_ips,
      ),
    )
