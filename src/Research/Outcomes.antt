-- ===== src/Research/Outcomes.antt =====
-- The outcome of a whole run: that it returns, what it counts, why it stopped and what it cost.
use whidby.Prelude.{
  countb-not, ℕ, ◌+◌, ◌≤◌, ◌≡◌, refl, sym, ap, ◌∙◌, subst, ◌⊎◌, true, false, inl, inr, List, [],
  ◌∷◌, ◌++◌, arith, ok, length, ok-injective, raise, Exception, Result,
}
use whidby.Num.Order.{Num, IsOrdered, decimal, le_num, ◌≼◌, ◌⊕◌}
use whidby.Research.Backlog.{Hypothesis}
use whidby.Research.Graph.{Graph}
use whidby.Research.Loop.{
  LoopConfig, Callbacks, StopReason, LoopState, Event, LoopOutcome, max_iterations, convergence,
  budget_exceeded, backlog_empty, external_halt, check_convergence, run, outcome_of, save_backlog,
  save_outcome,
}
use whidby.Research.Closed.{IsClosed}
use whidby.Research.Counts.{count_status}
use whidby.Research.Progress.{Settles, Unpriced}
use whidby.Research.Choice.{length-pending_from}
use whidby.Research.Accounts.{
  waits, works, holds, fails, length-results, count-waits, count-works, count-holds, count-fails,
}
use whidby.Research.Runs.{
  Tasks, done, task, Ended, exhausted, emptied, spent, converged, loop_from-Finished,
}

module _ {F E B : Type 0} ⦃n : Num F⦄ (config : LoopConfig F) (calls : Callbacks F E B) where
  -- The state of a new loop object, once the backlog is saved.
  abbrev initial : List Hypothesis → Graph F → LoopState F E
  initial backlog graph = record {
    backlog = backlog;
    cumulative_cost = decimal 0;
    results = [];
    graph = graph;
    events = save_backlog backlog ∷ [];
  }

  -- A run, as its tasks and its end.
  record Traced (backlog : List Hypothesis) (graph : Graph F) (o : LoopOutcome F)
      (s : LoopState F E) : Type 0 where
    count : ℕ
    reason : StopReason
    last : LoopState F E
    tasks : Tasks config calls count (initial backlog graph) last
    bounded : count ≤ config.max_iterations
    ended : Ended config calls config.max_iterations count reason last
    outcome : o ≡ outcome_of reason last
    final : s ≡ record last { events = s.events }

  run-Traced :
      (backlog : List Hypothesis) (graph : Graph F)
      → IsClosed graph
      → ((o : LoopOutcome F) × (s : LoopState F E) × (run config calls backlog graph ≡ ok (o, s))
          × Traced backlog graph o s)
        ⊎ Unpriced config calls (run config calls backlog graph)
  unfolding run
  run-Traced backlog graph g =
      elim (loop_from-Finished config calls config.max_iterations 1 (initial backlog graph) g) [
        | inr (x, y, price, z) ↦ inr (x, y, price, rw (z, run) refl)
        | inl (k, r, u, e, ts, d, l) ↦ inl (
          outcome_of r u,
          record u { events = u.events ++ (save_outcome (outcome_of r u) ∷ []) },
          rw (e, run) refl,
          record {
            count = k;
            reason = r;
            last = u;
            tasks = ts;
            ended = d;
            bounded = l;
            outcome = refl;
            final = refl;
          },
        )
      ]

  traced :
      (backlog : List Hypothesis) (graph : Graph F) {o : LoopOutcome F} {s : LoopState F E}
      → IsClosed graph
      → run config calls backlog graph ≡ ok (o, s)
      → Traced backlog graph o s
  traced backlog graph {o} {s} g e = elim (run-Traced backlog graph g) [
    | inl (o', s', e', t) ↦ subst (λ x. Traced backlog graph x.0 x.1) (ok-injective (sym e' ∙ e)) t
    | inr (x, y, price, z) ↦
        let bad : ◌≡◌ {A = Result (LoopOutcome F × LoopState F E)} (raise y) (ok (o, s)) =
          sym z ∙ e in
        cc
  ]

  Tasks-IsClosed :
      {k : ℕ} {s u : LoopState F E} → Tasks config calls k s u → IsClosed s.graph → IsClosed u.graph
  Tasks-IsClosed done g = g
  Tasks-IsClosed (task b c z ts) g = Tasks-IsClosed ts z.closed

  -- From a graph whose edges join its nodes, with an evaluator that raises or returns two numbers and
  -- a text, a run returns an outcome, and the edges of the final graph join its nodes; or reading and
  -- adding the cost of an experiment raises, and the run raises the same exception. So an exception of
  -- the experiment runner or of the evaluator never leaves the run.
  pub run_total :
      (backlog : List Hypothesis) (graph : Graph F)
      → IsClosed graph
      → ((o : LoopOutcome F) × (s : LoopState F E) × (run config calls backlog graph ≡ ok (o, s))
          × IsClosed s.graph)
        ⊎ ((e : E) × (x : Exception) × (calls.cost_usd e ≡ raise x)
            × (run config calls backlog graph ≡ raise x))
  run_total backlog graph g = elim (run-Traced backlog graph g) [
    | inl (o, s, e, t) ↦
        inl (o, s, e, subst (λ x. IsClosed x.graph) (sym t.final) (Tasks-IsClosed t.tasks g))
    | inr unpriced ↦ inr unpriced
  ]

  -- A run that starts from a graph whose edges join its nodes completes at most `max_iterations`
  -- iterations, each validated or invalidated; it leaves as many hypotheses in progress as there
  -- were, and has marked as many validated and as many invalidated as the outcome counts.
  pub run_accounts :
      (backlog : List Hypothesis) (graph : Graph F) {o : LoopOutcome F} {s : LoopState F E}
      → IsClosed graph
      → run config calls backlog graph ≡ ok (o, s)
      → (o.iterations_completed ≤ config.max_iterations)
        × (o.validated_count + o.invalidated_count ≡ o.iterations_completed)
        × (count_status works s.backlog ≡ count_status works backlog)
        × (count_status holds s.backlog ≡ count_status holds backlog + o.validated_count)
        × (count_status fails s.backlog ≡ count_status fails backlog + o.invalidated_count)
  unfolding outcome_of
  run_accounts backlog graph {o} {s} g e =
      let t = traced backlog graph g e in
      let u = t.last in
      let ts = t.tasks in
      rw (t.outcome, ap (λ x. x.backlog) t.final)
        (
          omega (arith, length-results config calls ts, t.bounded),
          countb-not (λ r. r.validated) u.results,
          count-works config calls ts,
          omega (arith, count-holds config calls ts),
          omega (arith, count-fails config calls ts),
        )

  -- What a stop reason says of the last state of a run that started with `before` pending hypotheses.
  abbrev pub Explained : StopReason → ℕ → LoopState F E → Type 0
  Explained max_iterations before s = count_status waits s.backlog + config.max_iterations ≡ before
  Explained backlog_empty before s = count_status waits s.backlog ≡ 0
  Explained budget_exceeded before s = config.budget_limit_usd ≼ s.cumulative_cost
  Explained convergence before s = check_convergence config calls s.results ≡ true
  Explained external_halt before s = ⊥

  Ended-Explained :
      (k : ℕ) (r : StopReason) (before : ℕ) (s : LoopState F E) (v : List (Event F E))
      → Ended config calls config.max_iterations k r s
      → count_status waits s.backlog + k ≡ before
      → Explained r before (record s { events = v })
  unfolding count_status
  Ended-Explained k r before s v exhausted e = e
  Ended-Explained k r before s v (emptied h) e = sym (length-pending_from 0 s.backlog) ∙ ap length h
  Ended-Explained k r before s v (spent h) e = h
  Ended-Explained k r before s v (converged h) e = h

  -- The stop reason of a run that starts from a graph whose edges join its nodes holds of its last
  -- state: after `max_iterations` that many pending hypotheses were taken up, after
  -- `backlog_empty` none is pending, after `budget_exceeded` the cost has reached the limit, and
  -- after `convergence` the recent deltas are below the threshold; `external_halt` never occurs.
  pub run_stops :
      (backlog : List Hypothesis) (graph : Graph F) {o : LoopOutcome F} {s : LoopState F E}
      → IsClosed graph
      → run config calls backlog graph ≡ ok (o, s)
      → Explained o.stop_reason (count_status waits backlog) s
  unfolding outcome_of
  run_stops backlog graph {o} {s} g e =
      let t = traced backlog graph g e in
      subst (λ x. Explained x.stop_reason (count_status waits backlog) s) (sym t.outcome)
        (subst (Explained t.reason (count_status waits backlog)) (sym t.final) (
          Ended-Explained t.count t.reason _ t.last s.events t.ended
            (count-waits config calls t.tasks)))

  module _ (laws : IsOrdered F) (most : F)
      (each : (e : E) (c : F) → calls.cost_usd e ≡ ok c → c ≼ most) where
    -- Nothing was spent, or no more than the limit and one experiment.
    abbrev pub Within : F → Type 0
    Within cost = (cost ≡ decimal 0) ⊎ (cost ≼ config.budget_limit_usd ⊕ most)

    paid-Within :
        (s t : LoopState F E)
        → le_num config.budget_limit_usd s.cumulative_cost ≡ false
        → Settles config calls s t
        → Within s.cumulative_cost
        → Within t.cumulative_cost
    paid-Within s t b z w = elim (z.cost) [
      | inl e ↦ subst Within (sym e) w
      | inr (e, c, price, p) ↦ inr (
          subst (λ x. x ≼ config.budget_limit_usd ⊕ most) (sym p)
            (laws.add_mono _ _ _ _
              (ground (arith, laws.le_total s.cumulative_cost config.budget_limit_usd))
              (each e c price)))
    ]

    Tasks-Within :
        {k : ℕ} {s u : LoopState F E}
        → Tasks config calls k s u
        → Within s.cumulative_cost
        → Within u.cumulative_cost
    Tasks-Within done w = w
    Tasks-Within (task b c z ts) w = Tasks-Within ts (paid-Within _ _ b z w)

    -- If no experiment costs more than `most`, the total cost of a run that starts from a graph
    -- whose edges join its nodes is zero, or at most the budget limit plus `most`: an experiment
    -- is started only under the limit.
    pub run_cost :
        (backlog : List Hypothesis) (graph : Graph F) {o : LoopOutcome F} {s : LoopState F E}
        → IsClosed graph
        → run config calls backlog graph ≡ ok (o, s)
        → (o.total_cost_usd ≡ decimal 0) ⊎ (o.total_cost_usd ≼ config.budget_limit_usd ⊕ most)
    unfolding outcome_of
    run_cost backlog graph g e =
        let t = traced backlog graph g e in
        subst (λ x. Within x.total_cost_usd) (sym t.outcome) (Tasks-Within t.tasks (inl refl))
