-- ===== src/Replication/Broadcast/Closed.antt =====
-- ecsdb/src/replication/broadcast.rs and client.rs: what a round of `process` does with the sessions
-- that the client manager makes. `ClientSession::new` drops the receiver of the session's channel.
use rodengine.Common.{
  ℕ, ◌≡◌, refl, ap, false, Option, none, some, List, [], ◌∷◌, All, Option-cases, Bool-cases, Bool,
  true, leb, length, inl, inr,
}
use rodengine.Common.HashMap
use rodengine.Common.HashMap.{HashMap, All-insert, All-remove, All-get}
use rodengine.Error.{Result, ok, err, channel_closed}
use rodengine.Replication.Clients
use rodengine.Replication.Clients.{
  ClientManager, ClientMessage, ClientSession, ClientState, send, send_each, send_to, add_client,
  remove_client, update_session, update_client_version, update_client_state, broadcast_to_state,
  new_session, get_client,
}
use rodengine.Replication.Broadcast.{
  BroadcastQueue, DeltaBatch, process, throttled, send_batch, broadcasted,
}

-- The client managers that come about: a new one, and one after an operation.
pub data Reach : ClientManager → Type 0 where
  new : (max_clients : ℕ) → Reach (record { sessions = []; max_clients = max_clients })
  added : (id addr : ℕ) {m : ClientManager} → Reach m → Reach (add_client id addr m).1
  removed : (id : ℕ) {m : ClientManager} → Reach m → Reach (remove_client id m).1
  version_updated :
      (id version : ℕ) {m : ClientManager} → Reach m → Reach (update_client_version id version m)
  state_updated :
      (id : ℕ) (state : ClientState) {m : ClientManager}
      → Reach m
      → Reach (update_client_state id state m)
  sent : (id : ℕ) (msg : ClientMessage) {m : ClientManager} → Reach m → Reach (send_to id msg m).1
  broadcast :
      (msg : ClientMessage) {m : ClientManager} → Reach m → Reach (Clients.broadcast msg m).1
  broadcast_state :
      (state : ClientState) (msg : ClientMessage) {m : ClientManager}
      → Reach m
      → Reach (broadcast_to_state state msg m).1

-- The receiver of the session's channel is gone.
abbrev IsClosed : ClientSession → Type 0
IsClosed session = session.sender ≡ none

abbrev AllClosed : HashMap ClientSession → Type 0
AllClosed = All (λ (entry : ℕ × ClientSession). IsClosed entry.1)

send-closed :
    (msg : ClientMessage) (session : ClientSession)
    → IsClosed session
    → send msg session ≡ err channel_closed
unfolding send
send-closed msg session h = rw (h, send) refl

-- Nothing is sent to closed sessions: the first that is selected ends the loop.
send_each-same :
    (selects : ClientSession → Bool) (msg : ClientMessage) (sessions : HashMap ClientSession)
    (count : ℕ)
    → AllClosed sessions
    → (send_each selects msg sessions count).1 ≡ sessions
unfolding send_each
send_each-same selects msg [] count h = refl
send_each-same selects msg ((id, session) ∷ sessions) count (p, h) =
    elim (Bool-cases (selects session)) [
      | inl e ↦ rw (e, send-closed msg session p) refl
      | inr e ↦ rw e (ap (◌∷◌ (id, session)) (send_each-same selects msg sessions count h))
    ]

update_session-closed :
    (f : ClientSession → ClientSession) (id : ℕ) (m : ClientManager)
    → ((session : ClientSession) → IsClosed session → IsClosed (f session))
    → AllClosed m.sessions
    → AllClosed (update_session f id m).sessions
unfolding update_session
update_session-closed f id m keeps h = elim (Option-cases (HashMap.get m.sessions id)) [
  | inl e ↦ rw (e, update_session) h
  | inr (session, e) ↦
      rw (e, update_session)
        (All-insert IsClosed m.sessions id (f session) h
          (keeps session (All-get IsClosed m.sessions id session h e)))
]

add_client-closed :
    (id addr : ℕ) (m : ClientManager)
    → AllClosed m.sessions
    → AllClosed (add_client id addr m).1.sessions
unfolding add_client new_session
add_client-closed id addr m h = elim (Bool-cases (leb m.max_clients (length m.sessions))) [
  | inl e ↦ rw e h
  | inr e ↦ rw e (All-insert IsClosed m.sessions id (new_session id addr) h refl)
]

send_to-same :
    (id : ℕ) (msg : ClientMessage) (m : ClientManager)
    → AllClosed m.sessions
    → (send_to id msg m).1 ≡ m
unfolding send_to get_client
send_to-same id msg m h = elim (Option-cases (HashMap.get m.sessions id)) [
  | inl e ↦ rw (e, send_to) refl
  | inr (session, e) ↦
      rw (e, send_to, send-closed msg session (All-get IsClosed m.sessions id session h e)) refl
]

Reach-closed : (m : ClientManager) → Reach m → AllClosed m.sessions
unfolding remove_client update_client_version update_client_state Clients.broadcast
    broadcast_to_state
Reach-closed m (new max_clients) = tt
Reach-closed _ (added id addr {m} r) = add_client-closed id addr m (Reach-closed m r)
Reach-closed _ (removed id {m} r) = All-remove IsClosed m.sessions id (Reach-closed m r)
Reach-closed _ (version_updated id version {m} r) =
    update_session-closed _ id m (λ session p. p) (Reach-closed m r)
Reach-closed _ (state_updated id state {m} r) =
    update_session-closed _ id m (λ session p. p) (Reach-closed m r)
Reach-closed _ (sent id msg {m} r) =
    rw (send_to-same id msg m (Reach-closed m r)) (Reach-closed m r)
Reach-closed _ (broadcast msg {m} r) =
    rw (send_each-same (λ session. true) msg m.sessions 0 (Reach-closed m r)) (Reach-closed m r)
Reach-closed _ (broadcast_state state msg {m} r) =
    rw (send_each-same _ msg m.sessions 0 (Reach-closed m r)) (Reach-closed m r)

-- The result of a round that sends nothing, and the time that it keeps.
abbrev pub sends_nothing : ℕ → Option ℕ → HashMap ClientSession → Result ℕ × Option ℕ
sends_nothing now last [] = (ok 0, some now)
sends_nothing now last (entry ∷ sessions) = (err channel_closed, last)

broadcasted-nothing :
    (now : ℕ) (msg : ClientMessage) (m : ClientManager) (sessions : HashMap ClientSession)
    (q : BroadcastQueue)
    → AllClosed sessions
    → broadcasted now q (Clients.broadcast msg (record m { sessions = sessions })) ≡ (
      (sends_nothing now q.last_broadcast sessions).0,
      record q {
        client_manager = some (record m { sessions = sessions });
        last_broadcast = (sends_nothing now q.last_broadcast sessions).1;
      },
    )
unfolding broadcasted Clients.broadcast send_each
broadcasted-nothing now msg m [] q h = refl
broadcasted-nothing now msg m ((id, session) ∷ sessions) q (p, h) =
    rw (send-closed msg session p) refl

-- A round of `process` that is not throttled takes the first batch out of the queue and delivers it
-- to nobody, whatever was done with the client manager before: no session changes. Without
-- a session it succeeds with 0 messages and keeps the time; with one it fails with ChannelClosed
-- and keeps the time of the last broadcast. In both cases the batch is lost.
pub process-sends_nothing :
    (now : ℕ) (batch : DeltaBatch) (queue : List DeltaBatch) (m : ClientManager)
    (q : BroadcastQueue)
    → Reach m
    → throttled now q.throttle_interval q.last_broadcast ≡ false
    → q.queue ≡ batch ∷ queue
    → q.client_manager ≡ some m
    → process now q ≡ (
      (sends_nothing now q.last_broadcast m.sessions).0,
      record q {
        queue = queue;
        client_manager = some m;
        last_broadcast = (sends_nothing now q.last_broadcast m.sessions).1;
      },
    )
unfolding process send_batch
process-sends_nothing now batch queue m q reach idle has known =
    rw (idle, process, has, known, send_batch)
      (broadcasted-nothing now _ m m.sessions (record q { queue = queue }) (Reach-closed m reach))
