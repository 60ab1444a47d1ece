-- ===== src/Replication/Sync/Acks.antt =====
-- ecsdb/src/replication/sync.rs: the acknowledgements of chunks.
use rodengine.Common.{
  ℕ, ◌+◌, ◌-◌, ◌%◌, ◌^◌, ◌<◌, ◌==◌, ◌≡◌, ==_refl, ==_iff, Bool, false, refl, ap, subst, ◌∙◌, true,
  ◌||◌, some, List, [], ◌∷◌, contains, if◌then◌else◌, Bool-cases, inl, inr, arith,
}
use rodengine.Common.HashMap.{get-insert}
use rodengine.Replication.Clients.{
  ClientManager, ClientState, ClientSession, get_client, update_client_state, update_session,
}
use rodengine.Replication.Sync.{handle_chunk_ack}

-- The acknowledgements that arrive, in their order.
abbrev pub acknowledge : ℕ → ℕ → List ℕ → ClientManager → ClientManager
acknowledge client_id total [] m = m
acknowledge client_id total (index ∷ indices) m =
    acknowledge client_id total indices (handle_chunk_ack client_id index total m)

-- The session, ready if the last chunk was acknowledged.
abbrev pub acknowledged : Bool → ClientSession → ClientSession
acknowledged last session = record session {
  state = if last then ClientState.ready else session.state;
}

acknowledged_again :
    (a b : Bool) (session : ClientSession)
    → acknowledged b (acknowledged a session) ≡ acknowledged (a || b) session
acknowledged_again true true session = refl
acknowledged_again true false session = refl
acknowledged_again false true session = refl
acknowledged_again false false session = refl

get-update_client_state :
    (client_id other : ℕ) (m : ClientManager) (session : ClientSession)
    → get_client client_id m ≡ some session
    → get_client other (update_client_state client_id ClientState.ready m)
      ≡ (if client_id == other then some (acknowledged true session) else get_client other m)
unfolding update_client_state get_client update_session
get-update_client_state client_id other m session e =
    rw (e, update_session) (get-insert m.sessions client_id other (acknowledged true session))

unchanged_lem :
    (client_id other : ℕ) (m : ClientManager) (session : ClientSession)
    → get_client client_id m ≡ some session
    → get_client other m ≡ (if client_id == other then some session else get_client other m)
unchanged_lem client_id other m session e = elim (Bool-cases (client_id == other)) [
  | inl here ↦
      rw here (subst (λ k. get_client k m ≡ some session) ((==_iff client_id other).0 here) e)
  | inr apart ↦ rw apart refl
]

last_index : (total : ℕ) → 0 < total → total < 2 ^ 64 → (total + (2 ^ 64 - 1)) % 2 ^ 64 ≡ total - 1
last_index total p q = omega (arith, p, q)

get-handle_chunk_ack :
    (client_id other index total : ℕ) (m : ClientManager) (session : ClientSession)
    → 0 < total
    → total < 2 ^ 64
    → get_client client_id m ≡ some session
    → get_client other (handle_chunk_ack client_id index total m) ≡ (
        if client_id == other
        then some (acknowledged (index == total - 1) session)
        else get_client other m)
unfolding handle_chunk_ack
get-handle_chunk_ack client_id other index total m session p q e =
    elim (Bool-cases (index == total - 1)) [
      | inl last ↦
          rw (last_index total p q, last) (get-update_client_state client_id other m session e)
      | inr early ↦ rw (last_index total p q, early) (unchanged_lem client_id other m session e)
    ]

then_if :
    {A : Type 0} (b : Bool) (x y z : A)
    → (if b then x else (if b then y else z)) ≡ (if b then x else z)
then_if true x y z = refl
then_if false x y z = refl

-- After some acknowledgements of a connected client, in whatever order, its session is as before,
-- except that it is ready if the last chunk is among those acknowledged, and no session of another
-- client has changed. (There is at least one chunk, and their number fits 64 bits. Whether the
-- earlier chunks were acknowledged plays no part.)
pub get_client-acknowledge :
    (client_id other total : ℕ) (indices : List ℕ) (m : ClientManager) (session : ClientSession)
    → 0 < total
    → total < 2 ^ 64
    → get_client client_id m ≡ some session
    → get_client other (acknowledge client_id total indices m) ≡ (
        if client_id == other
        then some (acknowledged (contains indices (total - 1)) session)
        else get_client other m)
get_client-acknowledge client_id other total [] m session p q e =
    unchanged_lem client_id other m session e
get_client-acknowledge client_id other total (index ∷ indices) m session p q e =
    let first = handle_chunk_ack client_id index total m in
    let now : get_client client_id first ≡ some (acknowledged (index == total - 1) session) =
      get-handle_chunk_ack client_id client_id index total m session p q e
      ∙ ap
          (λ b.
            if b then some (acknowledged (index == total - 1) session) else get_client client_id m)
          (==_refl client_id) in
    rw
      (
        get_client-acknowledge client_id other total indices first _ p q now,
        get-handle_chunk_ack client_id other index total m session p q e,
        acknowledged_again (index == total - 1) (contains indices (total - 1)) session,
      )
      (then_if (client_id == other) _ _ _)
