-- ===== src/Connection/Debounce.antt =====
-- The debouncing of the channel's state (src/lib/GrpcClient.ts).
use zeebe_client_node_js.Base.{
  Option-cases, Bool-cases, inl, inr, ℕ, ◌+◌, ◌≡◌, ◌⊎◌, refl, true, false, none, some, List, [],
  ◌∷◌, arith,
}
use zeebe_client_node_js.Connection.Channel.{
  Channel, Signal, new_channel, set_ready, ready_timer_fires, set_not_ready, fail_timer_fires,
}

-- A call of `setReady` or `setNotReady` at a time, or a timer that fires.
pub data Op : Type 0 where
  ready_at not_ready_at : ℕ → Op
  ready_fires fail_fires : Op

-- A timer that is not pending does not fire.
unfoldable pub apply : Channel → Op → Channel × List Signal
apply c (ready_at now) = (set_ready now c, [])
apply c (not_ready_at now) = (set_not_ready now c, [])
apply c ready_fires = elim c.ready_timer [ none ↦ (c, []) | some _ ↦ ready_timer_fires c ]
apply c fail_fires = elim c.fail_timer [ none ↦ (c, []) | some _ ↦ fail_timer_fires c ]

-- The latest call: `setReady` or `setNotReady`, and its time.
pub data Call : Type 0 where
  no_call : Call
  was_ready was_not_ready : ℕ → Call

abbrev pub noted : Call → Op → Call
noted l (ready_at now) = was_ready now
noted l (not_ready_at now) = was_not_ready now
noted l _ = l

pub run : Channel → Call → List Op → Channel × Call
run c l [] = (c, l)
run c l (op ∷ ops) = run (apply c op).0 (noted l op) ops

-- What the latest call says of the timers.
abbrev Timers : ℕ → Channel → Call → Type 0
Timers n c no_call = (c.ready_timer ≡ none) × (c.fail_timer ≡ none)
Timers n c (was_ready t) =
    (c.ready_timer ≡ some (t + n)) ⊎ ((c.ready_timer ≡ none) × (c.fail_timer ≡ none))
Timers n c (was_not_ready t) = (c.ready_timer ≡ none) × (c.connected ≡ false)

record Inv (tolerance : ℕ) (c : Channel) (l : Call) : Type 0 where
  tolerates : c.connection_tolerance ≡ tolerance
  quiet : c.connected ≡ true → c.fail_timer ≡ none
  timers : Timers tolerance c l

apply-Inv :
    (n : ℕ) (c : Channel) (l : Call) (op : Op) → Inv n c l → Inv n (apply c op).0 (noted l op)
unfolding apply set_ready set_not_ready ready_timer_fires fail_timer_fires
apply-Inv n c l (ready_at now) i = ground arith
apply-Inv n c l (not_ready_at now) i = ground arith
apply-Inv n c no_call ready_fires i = ground arith
apply-Inv n c (was_ready t) ready_fires i = ground arith
apply-Inv n c (was_not_ready t) ready_fires i = ground arith
apply-Inv n c no_call fail_fires i = ground arith
apply-Inv n c (was_ready t) fail_fires i = ground arith
apply-Inv n c (was_not_ready t) fail_fires i = ground arith

run-Inv :
    (n : ℕ) (c : Channel) (l : Call) (ops : List Op)
    → Inv n c l
    → Inv n (run c l ops).0 (run c l ops).1
unfolding run
run-Inv n c l [] i = i
run-Inv n c l (op ∷ ops) i = run-Inv n (apply c op).0 (noted l op) ops (apply-Inv n c l op i)

new_channel-Inv : (n : ℕ) → Inv n (new_channel n) no_call
unfolding new_channel
new_channel-Inv n = ground arith

error_cause :
    (n : ℕ) (c : Channel) (l : Call)
    → Inv n c l
    → ((apply c fail_fires).1 ≡ []) ⊎ ((t : ℕ) × (l ≡ was_not_ready t))
unfolding apply fail_timer_fires
error_cause n c no_call i = inl (ground arith)
error_cause n c (was_ready t) i = inl (ground arith)
error_cause n c (was_not_ready t) i = inr (t, refl)

ready_cause :
    (n : ℕ) (c : Channel) (l : Call)
    → Inv n c l
    → (c.ready_timer ≡ none) ⊎ ((t : ℕ) × (l ≡ was_ready t) × (c.ready_timer ≡ some (t + n)))
ready_cause n c no_call i = inl (ground arith)
ready_cause n c (was_ready t) i = elim (Option-cases c.ready_timer) [
  | inl e ↦ inl e
  | inr (d, e) ↦ inr (t, refl, ground arith)
]
ready_cause n c (was_not_ready t) i = inl (ground arith)

connected_cause :
    (n : ℕ) (c : Channel) (l : Call) → Inv n c l → (c.connected ≡ false) ⊎ (c.fail_timer ≡ none)
connected_cause n c l i = elim (Bool-cases c.connected) [ inl e ↦ inr (i.quiet e) | inr e ↦ inl e ]

-- After any calls and timers of a new channel: a connected channel has no fail timer pending; the
-- fail timer reports an error only if the latest call was `setNotReady`; and a ready timer that is
-- pending was set by the latest call, `setReady`, and fires the tolerance after it.
pub debounced :
    (tolerance : ℕ) (ops : List Op)
    → let (c, latest) = run (new_channel tolerance) no_call ops in
      ((c.connected ≡ false) ⊎ (c.fail_timer ≡ none))
      × (((apply c fail_fires).1 ≡ []) ⊎ ((t : ℕ) × (latest ≡ was_not_ready t)))
      × ((c.ready_timer ≡ none)
          ⊎ ((t : ℕ) × (latest ≡ was_ready t) × (c.ready_timer ≡ some (t + tolerance))))
debounced tolerance ops =
    let i = run-Inv tolerance (new_channel tolerance) no_call ops (new_channel-Inv tolerance) in
    (connected_cause tolerance _ _ i, error_cause tolerance _ _ i, ready_cause tolerance _ _ i)
