-- ===== src/Worker/Draining.antt =====
-- Closing a worker that has active jobs (src/lib/ZBWorkerBase.ts).
use zeebe_client_node_js.Base.{
  ◌⊎◌, inl, inr, ◌≤◌, ℕ, zero, suc, ◌+◌, ◌-◌, ◌<◌, ◌≡◌, refl, ap, subst, ◌∙◌, true, pos, ◌-ℤ◌,
  arith,
}
use zeebe_client_node_js.Worker.State.{
  Worker, not_closing, waiting, closing_idle, closing_drained, resolved,
}
use zeebe_client_node_js.Worker.Closing.{drain_one, close, resume_close}

-- `n` jobs end, one after another.
unfoldable pub drains : ℕ → Worker → Worker
drains zero w = w
drains (suc n) w = drains n (drain_one w).0

pub record IsWaiting (n : ℕ) (w : Worker) : Type 0 where
  pub active : w.active_jobs ≡ pos n
  pub closing : w.closing ≡ true
  pub state : w.close_state ≡ waiting

drain_one-IsWaiting :
    (n : ℕ) (w : Worker) → IsWaiting (suc (suc n)) w → IsWaiting (suc n) (drain_one w).0
unfolding drain_one ◌-ℤ◌
drain_one-IsWaiting n w h = ground arith

pub drain_one_last : (w : Worker) → IsWaiting 1 w → (drain_one w).0.close_state ≡ closing_drained
unfolding drain_one ◌-ℤ◌
drain_one_last w h = ground arith

pub drains-IsWaiting :
    (k m : ℕ) (w : Worker) → IsWaiting (suc (k + m)) w → IsWaiting (suc m) (drains k w)
unfolding drains
drains-IsWaiting zero m w h = subst (λ n. IsWaiting (suc n) w) (omega arith) h
drains-IsWaiting (suc k) m w h =
    drains-IsWaiting k m (drain_one w).0
      (drain_one-IsWaiting (k + m) w (subst (λ n. IsWaiting (suc n) w) (omega arith) h))

pub drains-suc : (n : ℕ) (w : Worker) → drains (suc n) w ≡ (drain_one (drains n w)).0
unfolding drains
drains-suc zero w = refl
drains-suc (suc n) w = drains-suc n (drain_one w).0

pub close-IsWaiting :
    (n : ℕ) (w : Worker)
    → w.close_state ≡ not_closing
    → w.active_jobs ≡ pos (suc n)
    → IsWaiting (suc n) (close w).0
unfolding close
close-IsWaiting n w s a = ground arith

pub close_idle :
    (w : Worker)
    → w.close_state ≡ not_closing
    → w.active_jobs ≡ pos 0
    → (close w).0.close_state ≡ closing_idle
unfolding close
close_idle w s a = ground arith

resume_close_idle :
    (w : Worker) → w.close_state ≡ closing_idle → (resume_close w).0.close_state ≡ resolved
unfolding resume_close
resume_close_idle w h = ground arith

resume_close_drained :
    (w : Worker) → w.close_state ≡ closing_drained → (resume_close w).0.close_state ≡ resolved
unfolding resume_close
resume_close_drained w h = ground arith

close_waits :
    (n : ℕ) (w : Worker)
    → w.close_state ≡ not_closing
    → w.active_jobs ≡ pos n
    → (k : ℕ) → k < n
    → (drains k (close w).0).close_state ≡ waiting
close_waits n w s a k h =
    (drains-IsWaiting k (n - suc k) (close w).0 (
      subst (λ m. IsWaiting (suc m) (close w).0) (omega arith)
        (close-IsWaiting (n - 1) w s (a ∙ ap pos (omega arith))))).state

close_resolves :
    (n : ℕ) (w : Worker)
    → w.close_state ≡ not_closing
    → w.active_jobs ≡ pos n
    → (resume_close (drains n (close w).0)).0.close_state ≡ resolved
unfolding drains
close_resolves zero w s a = resume_close_idle _ (close_idle w s a)
close_resolves (suc n) w s a =
    let ready =
      drains-IsWaiting n 0 (close w).0
        (subst (λ m. IsWaiting (suc m) (close w).0) (omega arith) (close-IsWaiting n w s a)) in
    resume_close_drained _ (rw (drains-suc n (close w).0) (drain_one_last _ ready))

-- A worker with `n` active jobs that is told to close still waits after any k < n of them have ended;
-- when all have ended, the closing of its channel is all that its promise waits for.
pub close_completes :
    (n k : ℕ) (w : Worker)
    → w.close_state ≡ not_closing
    → w.active_jobs ≡ pos n
    → ((n ≤ k) ⊎ ((drains k (close w).0).close_state ≡ waiting))
      × ((resume_close (drains n (close w).0)).0.close_state ≡ resolved)
close_completes n k w s a = (
  elim (≤-cases n k) [ inl l ↦ inl l | inr l ↦ inr (close_waits n w s a k l) ],
  close_resolves n w s a,
)
  where
    ≤-cases : (n k : ℕ) → (n ≤ k) ⊎ (k < n)
    ≤-cases n k = ground arith
