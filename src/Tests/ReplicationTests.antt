-- ===== src/Tests/ReplicationTests.antt =====
-- A log of two deltas, two clients, a snapshot of five bytes and a conflict.
use rodengine.Common.{
  ℕ, ◌+◌, ◌-◌, ◌==◌, if◌then◌else◌, contains, ◌≡◌, refl, none, some, List, [], ◌∷◌, arith,
}
use rodengine.Common.HashMap
use rodengine.Common.HashMap.{HashMap}
use rodengine.Error.{IfOk}
use rodengine.Common.{All}
use rodengine.Storage.Delta.{Delta, DeltaOp}
use rodengine.Replication.Clients.{
  ClientManager, ClientSession, ClientState, get_client, add_client,
}
use rodengine.Replication.DeltaLog.{DeltaLog, from_delta}
use rodengine.Replication.DeltaLog.Bounded.{IsWf, Recorded, record_delta-Recorded}
use rodengine.Replication.Broadcast.{BroadcastQueue, DeltaBatch, process, throttled}
use rodengine.Replication.Broadcast
use rodengine.Replication.Broadcast.Closed.{Reach, sends_nothing, process-sends_nothing}
use rodengine.Replication.Sync.{create_full_sync, collect_range}
use rodengine.Replication.Sync.Chunks.{FullSync, create_full_sync-FullSync}
use rodengine.Replication.Sync.Acks.{acknowledge, acknowledged, get_client-acknowledge}
use rodengine.Replication.Sync.Archive.{IsSlice, Consecutive, collect_range-Consecutive}
use rodengine.Replication.Conflict.{ConflictStrategy, ConflictResolver, Server, resolve}
use rodengine.Replication.Conflict
use rodengine.Replication.Conflict.Current.{Current, resolve-Current}

abbrev delta_of : ℕ → Delta
delta_of version = record {
  ops = DeltaOp.insert 4 2 (8 ∷ []) ∷ [];
  version = version;
  timestamp = 100;
}

abbrev log : DeltaLog
log = record {
  entries = from_delta 0 (delta_of 1) ∷ from_delta 1 (delta_of 2) ∷ [];
  max_entries = 2;
  next_seq = 2;
}

log-IsWf : IsWf log
unfolding from_delta
log-IsWf = record { first = 0; numbered = (refl, (refl, refl)); bounded = omega arith }

record_delta-Recorded_example : Recorded log (delta_of 3)
record_delta-Recorded_example =
    record_delta-Recorded log (delta_of 3) log-IsWf (omega arith) (omega arith)

abbrev client : ℕ → ClientSession
client id = record {
  id = id;
  addr = 9;
  state = ClientState.syncing;
  client_version = 1;
  subscribed_tables = [];
  sender = none;
}

abbrev manager : ClientManager
manager = record { sessions = (1, client 1) ∷ (2, client 2) ∷ []; max_clients = 4 }

abbrev batch_of : ℕ → DeltaBatch
batch_of version = record {
  ops = DeltaOp.insert 4 2 (8 ∷ []) ∷ [];
  version = version;
  timestamp = 100;
}

abbrev batches : List DeltaBatch
batches = batch_of 1 ∷ batch_of 2 ∷ []

connected_lem : get_client 2 manager ≡ some (client 2)
unfolding get_client HashMap.get
connected_lem = refl

-- The manager after a client was added.
abbrev connected : ClientManager
connected = (add_client 7 9 (record { sessions = []; max_clients = 4 })).1

abbrev waiting : BroadcastQueue
waiting = record (Broadcast.new) { queue = batches; client_manager = some connected }

connected-Reach : Reach connected
connected-Reach = Reach.added 7 9 (Reach.new 4)

process-sends_nothing_example : process 50 waiting ≡ (
  (sends_nothing 50 none connected.sessions).0,
  record waiting {
    queue = batch_of 2 ∷ [];
    client_manager = some connected;
    last_broadcast = (sends_nothing 50 none connected.sessions).1;
  },
)
unfolding throttled
process-sends_nothing_example =
    process-sends_nothing 50 (batch_of 1) (batch_of 2 ∷ []) connected waiting connected-Reach refl
      refl refl

create_full_sync-FullSync_example :
    FullSync 2 "schema"
      (1 ∷ 2 ∷ 3 ∷ 4 ∷ 5 ∷ [])
      7
      (create_full_sync 5 2 "schema" (1 ∷ 2 ∷ 3 ∷ 4 ∷ 5 ∷ []) 7)
create_full_sync-FullSync_example =
    create_full_sync-FullSync 5 2 "schema" (1 ∷ 2 ∷ 3 ∷ 4 ∷ 5 ∷ []) 7 (omega arith) (omega arith)

get_client-acknowledge_example : get_client 2 (acknowledge 2 3 (0 ∷ 2 ∷ 1 ∷ []) manager) ≡ (
    if 2 == 2
    then some (acknowledged (contains (0 ∷ 2 ∷ 1 ∷ []) (3 - 1)) (client 2))
    else get_client 2 manager)
get_client-acknowledge_example =
    get_client-acknowledge 2 2 3 (0 ∷ 2 ∷ 1 ∷ []) manager (client 2) (omega arith) (omega arith)
      connected_lem

abbrev archive : List Delta
archive = delta_of 1 ∷ delta_of 2 ∷ delta_of 3 ∷ []

collect_range-Consecutive_example :
    IsSlice (collect_range 2 3 archive) archive × Consecutive 2 (collect_range 2 3 archive) (3 + 1)
collect_range-Consecutive_example =
    collect_range-Consecutive 2 3 1 4 archive (refl, (refl, (refl, refl))) (omega arith)
      (omega arith) (omega arith)

-- The server has the same record of all entities.
abbrev server : Server
server t e = some (5 ∷ [])

abbrev resolver : ConflictResolver
resolver = Conflict.new ConflictStrategy.server_authoritative

resolve-Current_example :
    let (result, after) = resolve 8 200 (delta_of 6) server resolver in
    (after.strategy ≡ resolver.strategy)
    × IfOk (λ (d : Delta). All (Current resolver.strategy server) d.ops) result
resolve-Current_example = resolve-Current 8 200 (delta_of 6) server resolver
