-- ===== src/Cluster/Blocklist.antt =====
-- The blocked addresses that a node is to learn: `blockedIPMessage` of internal/cluster/identity_transfer.go
-- sends what has changed since the node's last acknowledgement, and `confirmIdentity` of push.go keeps track
-- of what the node has.
pub mod Delta
use meow_frp_server.Prelude.{
  ℕ, Bool, true, false, not, ◌&&◌, ◌||◌, Option, none, some, List, [], ◌∷◌, Bytes, bytes_eq, ltb,
  ◌==◌, filter, if◌then◌else◌,
}
use meow_frp_server.Prelude.Table.{Table, lookup}
use meow_frp_server.Identity.{Index, next_identity_revision}
use meow_frp_server.Cluster.Types.{Block, IdentitySnapshot}
use meow_frp_server.Cluster.Session.{NodeSession}

-- The row of an address in the controller's table.
unfoldable pub find_block : Bytes → List Block → Option Block
find_block ip [] = none
find_block ip (b ∷ bs) = if bytes_eq b.ip ip then some b else find_block ip bs

-- `wanted[ip]`
unfoldable pub is_wanted : Bytes → List Block → Bool
is_wanted ip [] = false
is_wanted ip (b ∷ bs) = bytes_eq b.ip ip || is_wanted ip bs

-- Whether the node has to learn of a row.
abbrev pub is_changed : Table Block → Block → Bool
is_changed known b = elim (lookup b.ip known) [
  | none ↦ true
  | some old ↦ not (bytes_eq old.reason b.reason) || not (old.created_at == b.created_at)
]

-- The addresses that the node knows and the controller no longer has.
unfoldable pub removed_addresses : List Block → Table Block → List Bytes
unfolding is_wanted
removed_addresses blocks [] = []
removed_addresses blocks ((ip, _) ∷ rest) =
    let others = removed_addresses blocks rest in
    if is_wanted ip blocks then others else ip ∷ others

-- `blockedIPMessage`, with the rows of the table, less the encoding.
unfoldable pub blocked_ip_snapshot :
    List Block → NodeSession → Index → IdentitySnapshot × NodeSession × Index
unfolding removed_addresses next_identity_revision
blocked_ip_snapshot blocks s index =
    let drawn = next_identity_revision index in
    let old = ltb s.admission_protocol 1 in
    (
      record {
        baseline = false;
        baseline_end = false;
        replace_blocked_ips = old;
        incremental = true;
        removed_user_ids = [];
        revision = drawn.revision;
        users = [];
        tokens = [];
        blocked_ips = if old then blocks else filter (is_changed s.blocked_ips) blocks;
        removed_blocked_ips = if old then [] else removed_addresses blocks s.blocked_ips;
      },
      record s { needs_blocked_ips = false },
      drawn,
    )
