-- ===== src/Cluster/Types.antt =====
-- The messages of internal/cluster/protocol.go. The encoding of a payload as JSON loses nothing, so a
-- payload stands here as the value that it encodes; the text of a snapshot is kept as bytes, since it is
-- cut into pieces. A type that is not modelled is `other`.
use meow_frp_server.Prelude.{
  ℕ, ◌*◌, ◌^◌, Bool, false, ◌&&◌, Option, List, [], Bytes, codes, bytes_eq, has_prefix, ltb, leb,
  length, drop, take, ◌-◌, if◌then◌else◌,
}
use meow_frp_server.Prelude.Library.{TextLibrary}

-- `db.BlockedInboundIP`
pub record Block : Type 0 where
  pub ip : Bytes
  pub reason : Bytes
  pub created_at : ℕ

-- `SnapshotUser`
pub record SnapshotUser : Type 0 where
  pub id : ℕ
  pub username : Bytes
  pub role : Bytes
  pub status : Bytes
  pub ban_reason : Bytes

-- `SnapshotToken`; `none` is a token that does not expire.
pub record SnapshotToken : Type 0 where
  pub id : ℕ
  pub user_id : ℕ
  pub name : Bytes
  pub token_hash : Bytes
  pub status : Bytes
  pub ban_reason : Bytes
  pub max_proxy_count : ℕ
  pub expires_at : Option ℕ

-- `IdentitySnapshot`, less the policies and the grants.
pub record IdentitySnapshot : Type 0 where
  pub baseline : Bool
  pub baseline_end : Bool
  pub replace_blocked_ips : Bool
  pub incremental : Bool
  pub removed_user_ids : List ℕ
  pub revision : ℕ
  pub users : List SnapshotUser
  pub tokens : List SnapshotToken
  pub blocked_ips : List Block
  pub removed_blocked_ips : List Bytes

-- `IdentityChunk`
pub record IdentityChunk : Type 0 where
  pub index : ℕ
  pub total : ℕ
  pub data_ : Bytes

-- `HeartbeatAck`, less the clock and the observed address.
pub record HeartbeatAck : Type 0 where
  pub controller_fault : Bool
  pub identity_protocol : ℕ
  pub interval_seconds : ℕ

pub data Payload : Type 0 where
  empty : Payload
  chunk : IdentityChunk → Payload
  ack : HeartbeatAck → Payload
  text : Bytes → Payload

pub data Kind : Type 0 where
  welcome heartbeat_ack controller_state identity_chunk identity_snapshot identity_confirmed : Kind
  cache_cleared identity_ack identity_chunk_ack identity_progress event_ack command hello other :
      Kind

-- `Message`
pub record Message : Type 0 where
  pub kind : Kind
  pub node_id : Bytes
  pub sequence : ℕ
  pub revision : ℕ
  pub cache_session_id : Bytes
  pub sync_complete : Bool
  pub payload : Payload

-- A message of one kind from or to a node, the other fields at their zero values.
abbrev pub message : Kind → Bytes → Message
message kind node = record {
  kind = kind;
  node_id = node;
  sequence = 0;
  revision = 0;
  cache_session_id = [];
  sync_complete = false;
  payload = empty;
}

-- 512 KiB.
abbrev pub identity_chunk_bytes : ℕ
identity_chunk_bytes = 512 * 2 ^ 10

-- The capacity of the channels for messages.
abbrev pub queue_capacity : ℕ
queue_capacity = 128

-- `heartbeatTimeout`, in seconds.
unfoldable pub heartbeat_timeout : ℕ → ℕ
heartbeat_timeout interval = if ltb (interval * 3) 15 then 15 else interval * 3

-- `strings.TrimPrefix` and `strings.TrimSuffix`
abbrev pub trim_prefix : Bytes → Bytes → Bytes
trim_prefix prefix value = if has_prefix value prefix then drop (length prefix) value else value

abbrev pub trim_suffix : Bytes → Bytes → Bytes
trim_suffix suffix value =
    let rest = length value - length suffix in
    if leb (length suffix) (length value) && bytes_eq (drop rest value) suffix
    then take rest value
    else value

-- `NormalizeControllerAddress`
unfoldable pub normalize_controller_address : TextLibrary → Bytes → Bytes
normalize_controller_address lib value =
    trim_suffix (codes "/")
      (trim_prefix (codes "http://") (trim_prefix (codes "https://") (lib.trim_space value)))
