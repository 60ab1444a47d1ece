-- ===== src/Replication/Broadcast.antt =====
-- ecsdb/src/replication/broadcast.rs: the queue of deltas for the clients. Times are numbers of
-- milliseconds; the scheduler, a loop of timer ticks, is left out.
pub mod Closed
use rodengine.Common.{
  ℕ, ◌+◌, ◌-◌, ltb, Bool, true, false, Option, none, some, List, [], ◌∷◌, ◌++◌, length,
  if◌then◌else◌,
}
use rodengine.Error.{Result, ok, err, panic}
use rodengine.Storage.Delta.{Delta, DeltaOp}
use rodengine.Replication.Clients
use rodengine.Replication.Clients.{ClientManager, ClientMessage}
use rodengine.Replication.DeltaLog
use rodengine.Replication.DeltaLog.{DeltaLog, DeltaLogEntry, record_delta}

pub record DeltaBatch : Type 0 where
  pub ops : List DeltaOp
  pub version : ℕ
  pub timestamp : ℕ

unfoldable pub from_delta : Delta → DeltaBatch
from_delta d = record { ops = d.ops; version = d.version; timestamp = d.timestamp }

-- The client manager, which others share, is held here.
pub record BroadcastQueue : Type 0 where
  pub queue : List DeltaBatch
  pub client_manager : Option ClientManager
  pub throttle_interval : ℕ
  pub last_broadcast : Option ℕ
  pub delta_log : DeltaLog

abbrev pub new : BroadcastQueue
new = record {
  queue = [];
  client_manager = none;
  throttle_interval = 10;
  last_broadcast = none;
  delta_log = DeltaLog.new 1000;
}

unfoldable pub set_client_manager : ClientManager → BroadcastQueue → BroadcastQueue
set_client_manager manager q = record q { client_manager = some manager }

unfoldable pub enqueue : Delta → BroadcastQueue → Result (Unit {0}) × BroadcastQueue
unfolding record_delta from_delta
enqueue delta q = elim (record_delta q.delta_log delta) [
  | ok log ↦ (ok tt, record q { delta_log = log; queue = q.queue ++ from_delta delta ∷ [] })
  | err e ↦ (err e, q)
  | panic ↦ (panic, q)
]

unfoldable pub throttled : ℕ → ℕ → Option ℕ → Bool
throttled now throttle_interval none = false
throttled now throttle_interval (some instant) = ltb (now - instant) throttle_interval

-- After the clients got a message: the time is kept only where all did.
unfoldable pub broadcasted :
    ℕ → BroadcastQueue → Result ℕ × ClientManager → Result ℕ × BroadcastQueue
broadcasted now q (ok count, m) =
    (ok count, record q { client_manager = some m; last_broadcast = some now })
broadcasted now q (err e, m) = (err e, record q { client_manager = some m })
broadcasted now q (panic, m) = (panic, record q { client_manager = some m })

-- A batch that was taken out of the queue goes to the clients.
unfoldable pub send_batch :
    ℕ → DeltaBatch → Option ClientManager → BroadcastQueue → Result ℕ × BroadcastQueue
unfolding broadcasted
send_batch now batch none q = (ok 0, q)
send_batch now batch (some manager) q =
    let delta : Delta = record {
      ops = batch.ops;
      version = batch.version;
      timestamp = batch.timestamp;
    } in
    broadcasted now q (Clients.broadcast (ClientMessage.delta delta) manager)

-- `process`, at the time `now`.
unfoldable pub process : ℕ → BroadcastQueue → Result ℕ × BroadcastQueue
unfolding throttled send_batch
process now q =
    if throttled now q.throttle_interval q.last_broadcast then (ok 0, q) else elim q.queue [
      | [] ↦ (ok 0, q)
      | batch ∷ queue ↦ send_batch now batch q.client_manager (record q { queue = queue })
    ]

unfoldable pub pending_count : BroadcastQueue → ℕ
pending_count q = length q.queue

unfoldable pub clear : BroadcastQueue → BroadcastQueue
clear q = record q { queue = [] }

unfoldable pub set_throttle_interval : ℕ → BroadcastQueue → BroadcastQueue
set_throttle_interval interval q = record q { throttle_interval = interval }

unfoldable pub delta_log_entries : BroadcastQueue → List DeltaLogEntry
delta_log_entries q = q.delta_log.entries
