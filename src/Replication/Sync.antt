-- ===== src/Replication/Sync.antt =====
-- ecsdb/src/replication/sync.rs: a client's first copy of the database, and the deltas it missed.
-- The serialization of a message (bincode) is a parameter; the heartbeat does nothing.
pub mod Chunks
pub mod Acks
pub mod Archive
use rodengine.Common.{
  ℕ, zero, suc, ◌+◌, ◌-◌, ◌%◌, ◌^◌, ◌==◌, ltb, leb, min, String, Bool, true, false, ◌&&◌, Option,
  none, some, List, [], ◌∷◌, ◌++◌, length, slice, if◌then◌else◌,
}
use rodengine.Error.{Result, ok, err, panic, ◌>>=◌, replication_error, serialization_error}
use rodengine.Storage.Delta.{Delta}
use rodengine.Replication.Clients.{
  ClientManager, ClientMessage, ClientState, ClientSession, get_client, send_to,
  update_client_state,
}

pub record FullSyncMessage : Type 0 where
  pub schema_toml : String
  pub snapshot_data : List ℕ
  pub version : ℕ
  pub total_chunks : ℕ
  pub chunk_index : ℕ
  pub checksum : Option ℕ

-- The loop of `chunk_data` from `start`; without fuel, it has not ended.
unfoldable pub chunk_from : ℕ → ℕ → List ℕ → ℕ → List (List ℕ) → Option (List (List ℕ))
chunk_from zero max_chunk_size bytes start chunks =
    if ltb start (length bytes) then none else some chunks
chunk_from (suc fuel) max_chunk_size bytes start chunks =
    let finish = min (start + max_chunk_size) (length bytes) in
    let rest =
      chunk_from fuel max_chunk_size bytes finish
        (chunks ++ slice start (finish - start) bytes ∷ []) in
    if ltb start (length bytes) then rest else some chunks

unfoldable pub chunk_data : ℕ → ℕ → List ℕ → Option (List (List ℕ))
unfolding chunk_from
chunk_data fuel max_chunk_size bytes = chunk_from fuel max_chunk_size bytes 0 []

-- The messages of the chunks from the one with this index.
unfoldable pub messages_from : String → ℕ → ℕ → ℕ → List (List ℕ) → List FullSyncMessage
messages_from schema_toml version total_chunks index [] = []
messages_from schema_toml version total_chunks index (chunk ∷ chunks) =
    record {
      schema_toml = if index == 0 then schema_toml else "";
      snapshot_data = chunk;
      version = version;
      total_chunks = total_chunks;
      chunk_index = index;
      checksum = none;
    }
    ∷ messages_from schema_toml version total_chunks (index + 1) chunks

unfoldable pub create_full_sync : ℕ → ℕ → String → List ℕ → ℕ → Option (List FullSyncMessage)
unfolding chunk_data messages_from
create_full_sync fuel max_chunk_size schema_toml snapshot_data version =
    elim (chunk_data fuel max_chunk_size snapshot_data) [
      | none ↦ none
      | some chunks ↦ some (messages_from schema_toml version (length chunks) 0 chunks)
    ]

-- The loop of `send_to_client` over the messages.
unfoldable pub send_messages :
    (FullSyncMessage → Option (List ℕ))
    → ℕ
    → List FullSyncMessage
    → ClientManager
    → Result (Unit {0}) × ClientManager
send_messages serialize client_id [] m = (ok tt, m)
send_messages serialize client_id (msg ∷ msgs) m = elim (serialize msg) [
  | none ↦ (err serialization_error, m)
  | some bytes ↦
      let (result, sent) = send_to client_id (ClientMessage.snapshot bytes) m in
      elim result [
        | ok u ↦ send_messages serialize client_id msgs sent
        | err e ↦ (err e, sent)
        | panic ↦ (panic, sent)
      ]
]

-- `chunk_index == total_chunks - 1`, where the subtraction wraps.
unfoldable pub handle_chunk_ack : ℕ → ℕ → ℕ → ClientManager → ClientManager
unfolding update_client_state
handle_chunk_ack client_id chunk_index total_chunks m =
    if chunk_index == (total_chunks + (2 ^ 64 - 1)) % 2 ^ 64
    then update_client_state client_id ClientState.ready m
    else m

pub record IncrementalSyncMessage : Type 0 where
  pub from_version : ℕ
  pub to_version : ℕ
  pub deltas : List Delta
  pub catch_up : Bool

-- The archive, the newest delta last.
unfoldable pub archive_delta : ℕ → Delta → List Delta → List Delta
archive_delta max_archive_size delta [] = if ltb max_archive_size 1 then [] else delta ∷ []
archive_delta max_archive_size delta (first ∷ archive) =
    if ltb max_archive_size (length ((first ∷ archive) ++ delta ∷ []))
    then archive ++ delta ∷ []
    else (first ∷ archive) ++ delta ∷ []

unfoldable pub in_range : ℕ → ℕ → Delta → Bool
in_range from_version to_version delta =
    leb from_version delta.version && leb delta.version to_version

unfoldable pub collect_range : ℕ → ℕ → List Delta → List Delta
collect_range from_version to_version [] = []
collect_range from_version to_version (delta ∷ archive) =
    let rest = collect_range from_version to_version archive in
    if in_range from_version to_version delta then delta ∷ rest else rest

unfoldable pub create_incremental_sync : ℕ → ℕ → List Delta → Option IncrementalSyncMessage
unfolding collect_range
create_incremental_sync from_version to_version archive =
    elim (collect_range from_version to_version archive) [
      | [] ↦ none
      | delta ∷ deltas ↦ some (record {
        from_version = from_version;
        to_version = to_version;
        deltas = delta ∷ deltas;
        catch_up = true;
      })
    ]

-- `IncrementalSyncProtocol::send_to_client`: what is sent is an empty delta.
unfoldable pub send_incremental :
    (IncrementalSyncMessage → Option (List ℕ))
    → ℕ
    → ℕ
    → ℕ
    → List Delta
    → ClientManager
    → Result (Unit {0}) × ClientManager
unfolding create_incremental_sync
send_incremental serialize client_id from_version to_version archive m =
    elim (create_incremental_sync from_version to_version archive) [
      | none ↦ (ok tt, m)
      | some msg ↦ elim (serialize msg) [
        | none ↦ (err serialization_error, m)
        | some bytes ↦ elim (get_client client_id m) [
          | none ↦ (ok tt, m)
          | some session ↦
              send_to client_id
                (ClientMessage.delta (record { ops = []; version = to_version; timestamp = 0 })) m
        ]
      ]
    ]

unfoldable pub handle_client_request :
    (IncrementalSyncMessage → Option (List ℕ))
    → ℕ
    → ℕ
    → List Delta
    → ClientManager
    → Result (Unit {0}) × ClientManager
unfolding send_incremental
handle_client_request serialize client_id requested_version archive m =
    elim (get_client client_id m) [
      | none ↦ (err (replication_error "Client not found"), m)
      | some session ↦
          if ltb session.client_version requested_version
          then send_incremental serialize client_id (session.client_version + 1) requested_version
              archive m
          else (ok tt, m)
    ]
