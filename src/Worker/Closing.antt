-- ===== src/Worker/Closing.antt =====
-- `drainOne` and `close` of a worker (src/lib/ZBWorkerBase.ts). No code sets `closeCallback`, so
-- the branch of `drainOne` that calls it never runs and has no counterpart.
use zeebe_client_node_js.Base.{
  ℕ, true, false, Option, none, some, List, [], ◌∷◌, ◌++◌, pos, ◌-ℤ◌, leb_ℤ, eqb_ℤ, if◌then◌else◌,
  not, ◌&&◌,
}
use zeebe_client_node_js.Worker.State.{
  Worker, CloseState, waiting, closing_idle, closing_drained, resolved, has_capacity,
}
use zeebe_client_node_js.Worker.Polling.{close_called}

-- What a worker does to its surroundings, in the order of the calls.
pub data Effect : Type 0 where
  capacity_available capacity_empty close_channel remove_grpc_listeners emit_close : Effect
  remove_listeners : Effect
  cancel_stream : ℕ → Effect

-- The listener for `CapacityEvent.Empty`, which `close` registers once, up to its `await`.
abbrev on_empty : Worker → CloseState → Worker × List Effect
on_empty w waiting = (record w { close_state = closing_drained }, close_channel ∷ [])
on_empty w _ = (w, [])

unfoldable pub drain_one : Worker → Worker × List Effect
unfolding has_capacity ◌-ℤ◌
drain_one w =
    let w' = record w { active_jobs = w.active_jobs -ℤ pos 1 } in
    let offers = if not w'.closing && has_capacity w' then capacity_available ∷ [] else [] in
    if w'.closing && eqb_ℤ w'.active_jobs (pos 0)
    then (let (w'', called) = on_empty w' w'.close_state in
        (w'', offers ++ capacity_empty ∷ called))
    else (w', offers)

-- `close` up to its `await`. A second call gives the first promise and does nothing.
unfoldable pub close : Worker → Worker × List Effect
close w =
    if close_called w.close_state
    then (w, [])
    else if leb_ℤ w.active_jobs (pos 0)
    then (
      record w { closing = true; poll_loop = false; close_state = closing_idle },
      close_channel ∷ [],
    )
    else (record w { closing = true; poll_loop = false; close_state = waiting }, [])

abbrev cancel_effects : Option ℕ → List Effect
cancel_effects none = []
cancel_effects (some id) = cancel_stream id ∷ []

abbrev resume_from : Worker → CloseState → Worker × List Effect
resume_from w closing_idle = (
  record w { job_stream = none; close_state = resolved },
  remove_grpc_listeners ∷ cancel_effects w.job_stream,
)
resume_from w closing_drained = (
  record w { close_state = resolved },
  remove_grpc_listeners ∷ emit_close ∷ remove_listeners ∷ [],
)
resume_from w _ = (w, [])

-- The rest of `close`, when `grpcClient.close` has settled. (The middleware's `close` never rejects.)
unfoldable pub resume_close : Worker → Worker × List Effect
resume_close w = resume_from w w.close_state
