-- ===== src/Worker/Backoff.antt =====
-- Back pressure: the delays after streams that end by an error (src/lib/ZBWorkerBase.ts).
use zeebe_client_node_js.Base.{
  ℕ, ◌+◌, ◌*◌, ◌^◌, ◌≡◌, ◌≢◌, refl, true, false, Option, none, some, List, [], ◌∷◌, All, arith,
}
use zeebe_client_node_js.Worker.State.{Worker, not_closing, has_capacity}
use zeebe_client_node_js.Worker.Polling.{
  poll, resume_poll, opened, on_end, on_error, is_retryable, handle_stream_end,
}

-- The delays that follow a run of errors, each on a stream of its own.
pub delays : List (ℕ × ℕ) → Worker → List (Option ℕ)
delays [] w = []
delays ((id, code) ∷ rest) w = let (w', d) = on_error id code w in d ∷ delays rest w'

-- 1000, 2000, 4000, … milliseconds, from the `k`-th on.
abbrev pub doubling : {A : Type 0} → ℕ → List A → List (Option ℕ)
doubling k [] = []
doubling k (_ ∷ rest) = some (1000 * 2 ^ k) ∷ doubling (k + 1) rest

delays-doubling :
    (errors : List (ℕ × ℕ)) (w : Worker)
    → All (λ e. is_retryable e.1 ≡ true) errors
    → delays errors w ≡ doubling w.back_pressure_retry_count errors
unfolding delays on_error
delays-doubling [] w h = refl
delays-doubling ((id, code) ∷ rest) w (r, h) = ground (
  arith,
  delays-doubling rest (record w { back_pressure_retry_count = w.back_pressure_retry_count + 1 }) h,
)

-- After a stream that ended normally, a run of errors RESOURCE_EXHAUSTED or INTERNAL is followed by
-- delays of 1, 2, 4, … seconds.
pub back_pressure_delays :
    (id : ℕ) (errors : List (ℕ × ℕ)) (w : Worker)
    → All (λ e. is_retryable e.1 ≡ true) errors
    → delays errors (on_end id w) ≡ doubling 0 errors
unfolding on_end
back_pressure_delays id errors w h = delays-doubling errors _ h

-- A timer that an error has started is not stopped by a later 'end' of the same stream, and drops
-- the reference to whatever stream is open when it fires: the worker then asks for jobs a second
-- time while the new stream is still open.
pub stale_timer_reopens :
    (w : Worker) (a b code : ℕ)
    → is_retryable code ≡ true
    → w.poll_mutex ≡ false
    → w.close_state ≡ not_closing
    → w.closing ≡ false
    → w.stalled ≡ false
    → has_capacity w ≡ true
    → let w₁ = on_end a (on_error a code w).0 in
      let w₂ = resume_poll (poll w₁).0 (opened b) in
      (w₂.job_stream ≡ some b) × ((poll w₂).1 ≡ none) × ((poll (handle_stream_end a w₂)).1 ≢ none)
unfolding on_error on_end poll resume_poll handle_stream_end
stale_timer_reopens w a b code r m s c t h = ground arith
