-- ===== src/Replication/Clients.antt =====
-- ecsdb/src/replication/client.rs: the connected clients. An identifier stands for a random UUID,
-- an address for a socket address; the socket of a session is left out.
use rodengine.Common.{
  ℕ, ◌+◌, leb, Bool, true, false, Option, none, some, List, [], ◌∷◌, ◌++◌, length, if◌then◌else◌,
}
use rodengine.Common.HashMap
use rodengine.Common.HashMap.{HashMap}
use rodengine.Error.{Result, ok, err, panic, channel_closed, replication_error}
use rodengine.Storage.Delta.{Delta}

pub data ClientState : Type 0 where
  pending_auth awaiting_sync ready syncing disconnected : ClientState

pub data ClientMessage : Type 0 where
  delta : Delta → ClientMessage
  snapshot : List ℕ → ClientMessage
  ping disconnect : ClientMessage

-- The channel `sender`: the messages sent, or none where its receiver was dropped.
pub record ClientSession : Type 0 where
  pub id : ℕ
  pub addr : ℕ
  pub state : ClientState
  pub client_version : ℕ
  pub subscribed_tables : List ℕ
  pub sender : Option (List ClientMessage)

-- The receiver of the new channel is dropped at the end of the function.
unfoldable pub new_session : ℕ → ℕ → ClientSession
new_session id addr = record {
  id = id;
  addr = addr;
  state = ClientState.pending_auth;
  client_version = 0;
  subscribed_tables = [];
  sender = none;
}

-- `ClientSession::send`
unfoldable pub send : ClientMessage → ClientSession → Result ClientSession
send msg session = elim session.sender [
  | none ↦ err channel_closed
  | some messages ↦ ok (record session { sender = some (messages ++ msg ∷ []) })
]

pub record ClientManager : Type 0 where
  pub sessions : HashMap ClientSession
  pub max_clients : ℕ

unfoldable pub add_client : ℕ → ℕ → ClientManager → Result ℕ × ClientManager
unfolding new_session
add_client id addr m =
    if leb m.max_clients (length m.sessions)
    then (err (replication_error "Maximum client count reached"), m)
    else (ok id, record m { sessions = HashMap.insert m.sessions id (new_session id addr) })

unfoldable pub remove_client : ℕ → ClientManager → Option ClientSession × ClientManager
remove_client id m =
    (HashMap.get m.sessions id, record m { sessions = HashMap.remove m.sessions id })

unfoldable pub get_client : ℕ → ClientManager → Option ClientSession
get_client id m = HashMap.get m.sessions id

unfoldable pub connected_count : ClientManager → ℕ
connected_count m = length m.sessions

-- `mem::discriminant(&a) == mem::discriminant(&b)`
unfoldable pub same_state : ClientState → ClientState → Bool
same_state ClientState.pending_auth ClientState.pending_auth = true
same_state ClientState.awaiting_sync ClientState.awaiting_sync = true
same_state ClientState.ready ClientState.ready = true
same_state ClientState.syncing ClientState.syncing = true
same_state ClientState.disconnected ClientState.disconnected = true
same_state a b = false

-- The loop over the sessions that the test selects: the number of messages sent, and the sessions.
-- It ends at the first session that fails; the sessions before it have the message.
unfoldable pub send_each :
    (ClientSession → Bool)
    → ClientMessage
    → HashMap ClientSession
    → ℕ
    → Result ℕ × HashMap ClientSession
send_each selects msg [] count = (ok count, [])
send_each selects msg ((id, session) ∷ sessions) count =
    if selects session
    then elim (send msg session) [
      | ok sent ↦
          let rest = send_each selects msg sessions (count + 1) in (rest.0, (id, sent) ∷ rest.1)
      | err e ↦ (err e, (id, session) ∷ sessions)
      | panic ↦ (panic, (id, session) ∷ sessions)
    ]
    else (let rest = send_each selects msg sessions count in (rest.0, (id, session) ∷ rest.1))

unfoldable pub broadcast_to_state :
    ClientState → ClientMessage → ClientManager → Result ℕ × ClientManager
unfolding send_each same_state
broadcast_to_state state msg m =
    let r = send_each (λ session. same_state session.state state) msg m.sessions 0 in
    (r.0, record m { sessions = r.1 })

unfoldable pub broadcast : ClientMessage → ClientManager → Result ℕ × ClientManager
unfolding send_each
broadcast msg m =
    let r = send_each (λ session. true) msg m.sessions 0 in (r.0, record m { sessions = r.1 })

-- `if let Some(session) = sessions.get_mut(&id) { ... }`
unfoldable pub update_session : (ClientSession → ClientSession) → ℕ → ClientManager → ClientManager
update_session f id m = elim (HashMap.get m.sessions id) [
  | none ↦ m
  | some session ↦ record m { sessions = HashMap.insert m.sessions id (f session) }
]

unfoldable pub update_client_version : ℕ → ℕ → ClientManager → ClientManager
unfolding update_session
update_client_version id version =
    update_session (λ session. record session { client_version = version }) id

unfoldable pub update_client_state : ℕ → ClientState → ClientManager → ClientManager
unfolding update_session
update_client_state id state = update_session (λ session. record session { state = state }) id

-- `client.send(msg)` of a clone, which has the same channel.
unfoldable pub send_to : ℕ → ClientMessage → ClientManager → Result (Unit {0}) × ClientManager
unfolding get_client send update_session
send_to id msg m = elim (get_client id m) [
  | none ↦ (err (replication_error "Client not found"), m)
  | some session ↦ elim (send msg session) [
    | ok sent ↦ (ok tt, update_session (λ s. sent) id m)
    | err e ↦ (err e, m)
    | panic ↦ (panic, m)
  ]
]
