-- ===== src/Research/Runs.antt =====
-- The loop as a relation: a run is a sequence of tasks, and ends for a reason that then holds.
use whidby.Prelude.{
  ℕ, zero, suc, ◌≤◌, ◌≡◌, refl, true, false, Bool-cases, List-cases, inl, inr, [], arith, ok, ◌⊎◌,
}
use whidby.Num.Order.{Num, le_num, ◌≼◌}
use whidby.Research.Backlog.{pending_from, select_task}
use whidby.Research.Loop.{
  LoopConfig, Callbacks, StopReason, LoopState, max_iterations, convergence, budget_exceeded,
  backlog_empty, check_convergence, turn, loop_from, stop, next,
}
use whidby.Research.Closed.{IsClosed}
use whidby.Research.Choice.{select_task-max}
use whidby.Research.Progress.{Settles, Unpriced, run_task-Settles}

module _ {F E B : Type 0} ⦃n : Num F⦄ (config : LoopConfig F) (calls : Callbacks F E B) where
  -- `k` tasks, each started with a pending hypothesis, under the budget and before convergence.
  pub data Tasks : ℕ → LoopState F E → LoopState F E → Type 0 where
    done : {s : LoopState F E} → Tasks zero s s
    task :
        {k : ℕ} {s t u : LoopState F E}
        → le_num config.budget_limit_usd s.cumulative_cost ≡ false
        → check_convergence config calls s.results ≡ false
        → Settles config calls s t
        → Tasks k t u
        → Tasks (suc k) s u

  -- Why a run of `k` tasks, of the `left` allowed, ended in `s`.
  pub data Ended (left : ℕ) : ℕ → StopReason → LoopState F E → Type 0 where
    exhausted : {s : LoopState F E} → Ended left left max_iterations s
    emptied :
        {k : ℕ} {s : LoopState F E} → pending_from 0 s.backlog ≡ [] → Ended left k backlog_empty s
    spent :
        {k : ℕ} {s : LoopState F E}
        → config.budget_limit_usd ≼ s.cumulative_cost
        → Ended left k budget_exceeded s
    converged :
        {k : ℕ} {s : LoopState F E}
        → check_convergence config calls s.results ≡ true
        → Ended left k convergence s

  later :
      {left k : ℕ} {r : StopReason} {s : LoopState F E}
      → Ended left k r s
      → Ended (suc left) (suc k) r s
  later exhausted = exhausted
  later (emptied e) = emptied e
  later (spent e) = spent e
  later (converged e) = converged e

  abbrev pub Finished : ℕ → ℕ → LoopState F E → Type 0
  Finished left iteration s =
      (k : ℕ) × (r : StopReason) × (u : LoopState F E) × (loop_from config calls left iteration s
        ≡ ok (r, u))
      × Tasks k s u
      × Ended left k r u
      × (k ≤ left)

  stopped :
      (left iteration : ℕ) (s : LoopState F E) (r : StopReason)
      → turn config calls iteration s ≡ ok (stop r)
      → Ended (suc left) zero r s
      → Finished (suc left) iteration s
  unfolding loop_from
  stopped left iteration s r e z = (zero, r, s, rw e refl, done, z, omega arith)

  stepped :
      (left iteration : ℕ) (s t : LoopState F E)
      → turn config calls iteration s ≡ ok (next t)
      → le_num config.budget_limit_usd s.cumulative_cost ≡ false
      → check_convergence config calls s.results ≡ false
      → Settles config calls s t
      → Finished left (suc iteration) t
      → Finished (suc left) iteration s
  unfolding loop_from
  stepped left iteration s t e b c z (k, r, u, f, ts, d, l) =
      (suc k, r, u, rw (e, f) refl, task b c z ts, later d, omega arith)

  -- What a turn does: it stops for a reason that holds, or settles a hypothesis, or raises what the
  -- cost of an experiment raises.
  data Turned (iteration : ℕ) (s : LoopState F E) : Type 0 where
    stops :
        (r : StopReason)
        → turn config calls iteration s ≡ ok (stop r)
        → ((left : ℕ) → Ended (suc left) zero r s)
        → Turned iteration s
    settles :
        (t : LoopState F E)
        → turn config calls iteration s ≡ ok (next t)
        → le_num config.budget_limit_usd s.cumulative_cost ≡ false
        → check_convergence config calls s.results ≡ false
        → Settles config calls s t
        → Turned iteration s
    unpriced : Unpriced config calls (turn config calls iteration s) → Turned iteration s

  turn-Turned : (iteration : ℕ) (s : LoopState F E) → IsClosed s.graph → Turned iteration s
  unfolding turn
  turn-Turned iteration s g = elim (List-cases (pending_from 0 s.backlog)) [
    | inl none_left ↦ stops backlog_empty (rw (none_left, turn) refl) (λ left. emptied none_left)
    | inr (c, cs, offered) ↦ elim (Bool-cases (le_num config.budget_limit_usd s.cumulative_cost)) [
      | inl over ↦ stops budget_exceeded (rw (offered, turn, over) refl) (λ left. spent over)
      | inr under ↦ elim (Bool-cases (check_convergence config calls s.results)) [
        | inl flat ↦
            stops convergence (rw (offered, turn, under, flat) refl) (λ left. converged flat)
        | inr moving ↦
            let (p, q, m) = select_task-max s.backlog c cs offered in
            elim (run_task-Settles config calls iteration (select_task c cs).0 (select_task c cs).1
              s g p q) [
                | inl (t, e, z) ↦
                    settles t (rw (offered, turn, under, moving, e) refl) under moving z
                | inr (e, x, price, r) ↦
                    unpriced (e, x, price, rw (offered, turn, under, moving, r) refl)
              ]
      ]
    ]
  ]

  -- From a closed graph the loop returns, after tasks, for a reason that holds, unless the cost of an
  -- experiment raises.
  pub loop_from-Finished :
      (left iteration : ℕ) (s : LoopState F E)
      → IsClosed s.graph
      → Finished left iteration s ⊎ Unpriced config calls (loop_from config calls left iteration s)
  unfolding loop_from
  loop_from-Finished zero iteration s g =
      inl (zero, max_iterations, s, refl, done, exhausted, omega arith)
  loop_from-Finished (suc left) iteration s g = elim (turn-Turned iteration s g) [
    | stops r e z ↦ inl (stopped left iteration s r e (z left))
    | settles t e b c z ↦ elim (loop_from-Finished left (suc iteration) t z.closed) [
      | inl f ↦ inl (stepped left iteration s t e b c z f)
      | inr (x, y, price, r) ↦ inr (x, y, price, rw (e, loop_from) r)
    ]
    | unpriced (x, y, price, r) ↦ inr (x, y, price, rw (r, loop_from) refl)
  ]
