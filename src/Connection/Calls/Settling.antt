-- ===== src/Connection/Calls/Settling.antt =====
-- When the promise of a unary call settles (src/lib/GrpcClient.ts).
use zeebe_client_node_js.Base.{
  ℕ, ◌≡◌, ◌≢◌, ◌⊎◌, inl, inr, true, false, List, [], ◌∷◌, arith, includes,
}
use zeebe_client_node_js.Connection.Channel.{
  Signal, event_ready, Channel, set_ready, set_not_ready, intercept, sync_result,
}
use zeebe_client_node_js.Connection.Calls.{
  GrpcCallStatus, Settlement, resolved, unsettled, rejected, receive_status,
}

-- A status that the interceptor keeps to itself: CANCELLED, for a bad gateway or while closing.
pub record IsKept (s : GrpcCallStatus) (c : Channel) : Type 0 where
  pub cancelled : s.code ≡ 1
  pub excuse : (includes s.details "503" ≡ true) ⊎ (c.closing ≡ true)

-- What the callback makes of a status that it gets.
abbrev pub Answers : ℕ → GrpcCallStatus → Channel → Channel × List Signal × Settlement → Type 0
Answers now s c (c', signals, answer) =
    ((s.code ≡ 0) × (answer ≡ resolved) × (signals ≡ event_ready ∷ []) × (c' ≡ set_ready now c))
    ⊎ ((s.code ≡ 14) × (answer ≡ rejected 14) × (signals ≡ []) × (c' ≡ set_not_ready now c))
    ⊎ ((s.code ≢ 0)
        × (s.code ≢ 14)
        × (answer ≡ rejected s.code)
        × (signals ≡ [])
        × (c' ≡ set_ready now c))

-- A status that it passes on.
abbrev IsPassed : GrpcCallStatus → Channel → Type 0
IsPassed s c = (s.code ≢ 1) ⊎ ((includes s.details "503" ≡ false) × (c.closing ≡ false))

status_cases : (s : GrpcCallStatus) (c : Channel) → IsKept s c ⊎ (¬ IsKept s c × IsPassed s c)
status_cases s c = ground arith

kept :
    (now : ℕ) (s : GrpcCallStatus) (c : Channel)
    → IsKept s c
    → ((receive_status now s c).0 ≡ c) × ((receive_status now s c).2 ≡ unsettled)
unfolding receive_status intercept
kept now s c k = ground arith

answered :
    (now : ℕ) (s : GrpcCallStatus) (c : Channel)
    → IsPassed s c
    → Answers now s c (receive_status now s c)
unfolding receive_status intercept sync_result
answered now s c k = ground arith

-- When the status of a unary call arrives, its promise stays unsettled and the channel as it is just
-- if the status is CANCELLED and its details name the code 503 or the client is closing. Any other
-- status settles it: OK resolves it and signals that the connection is ready, UNAVAILABLE rejects it and
-- starts the fail timer, and every other code rejects it and counts as a sign of life.
pub receive_status_lem :
    (now : ℕ) (s : GrpcCallStatus) (c : Channel)
    → (IsKept s c × ((receive_status now s c).0 ≡ c) × ((receive_status now s c).2 ≡ unsettled))
      ⊎ (¬ IsKept s c × Answers now s c (receive_status now s c))
unfolding receive_status intercept sync_result
receive_status_lem now s c = elim (status_cases s c) [
  | inl k ↦ let (p, q) = kept now s c k in inl (k, p, q)
  | inr (n, k) ↦ inr (n, answered now s c k)
]
