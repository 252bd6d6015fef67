-- ===== src/Research/Progress.antt =====
-- One task of the loop: unless the cost of its experiment raises, it returns, and settles the hypothesis that was taken up.
use whidby.Prelude.{
  ℕ, ◌+◌, ◌≡◌, refl, sym, ap, subst, ◌⊎◌, ◌∙◌, Bool, true, List, [], ◌∷◌, ◌++◌, Result, ok, raise,
  Exception, ◌>>=◌, Result-cases, inl, inr, if◌then◌else◌,
}
use whidby.Num.Order.{Num, ◌⊕◌}
use whidby.Research.Backlog.{
  Status, pending, in_progress, failed, eval_failed, validated, invalidated, Hypothesis, is_pending,
  set_status,
}
use whidby.Research.Loop.{
  LoopConfig, Callbacks, IterationResult, LoopState, record_result, evaluated, run_task,
  iteration_result, recorded, final_status, gave_up, paid, started, experiment_failed,
}
use whidby.Research.Closed.{IsClosed, promote_to_graph-IsClosed}
use whidby.Research.Counts.{
  Placed, bit, count_status, is_pending-status, count-set_status, set_status_twice,
  count-reprioritize,
}

module _ {F E B : Type 0} ⦃n : Num F⦄ (config : LoopConfig F) (calls : Callbacks F E B) where
  -- What a task does to the results, by the status that it ends with.
  pub data Recorded (rs : List (IterationResult F)) (final : Status)
      (rs' : List (IterationResult F)) : Type 0 where
    nothing : (final ≡ failed) ⊎ (final ≡ eval_failed) → rs' ≡ rs → Recorded rs final rs'
    one :
        (r : IterationResult F)
        → final ≡ (if r.validated then validated else invalidated)
        → rs' ≡ rs ++ (r ∷ [])
        → Recorded rs final rs'

  -- From a state to the one after a task: one pending hypothesis gets a final status, every other
  -- status is kept, the graph is closed, and at most one experiment is paid.
  pub record Settles (s s' : LoopState F E) : Type 0 where
    pub final : Status
    pub counts :
        (q : Status → Bool)
        → count_status q s'.backlog + bit (q pending) ≡ count_status q s.backlog + bit (q final)
    pub outcome : Recorded s.results final s'.results
    pub closed : IsClosed s'.graph
    pub cost :
        (s'.cumulative_cost ≡ s.cumulative_cost)
        ⊎ ((e : E) × (c : F) × (calls.cost_usd e ≡ ok c)
            × (s'.cumulative_cost ≡ s.cumulative_cost ⊕ c))

  -- The cost of an experiment raises, and `m` raises the same.
  abbrev pub Unpriced : {A : Type 0} → Result A → Type 0
  Unpriced m = (e : E) × (x : Exception) × (calls.cost_usd e ≡ raise x) × (m ≡ raise x)

  counts_after :
      (q : Status → Bool) (place : ℕ) (final : Status) (h : Hypothesis) (hs : List Hypothesis)
      → Placed place h hs
      → is_pending h ≡ true
      → count_status q (set_status place final (set_status place in_progress hs)) + bit (q pending)
        ≡ count_status q hs + bit (q final)
  counts_after q place final h hs p e =
      subst (λ x. count_status q x + bit (q pending) ≡ count_status q hs + bit (q final))
        (sym (set_status_twice place in_progress final hs))
        (subst
          (λ x.
            count_status q (set_status place final hs) + bit (q x)
            ≡ count_status q hs + bit (q final))
          (is_pending-status h e) (count-set_status q place final h hs p))

  record_result-Settles :
      (iteration place : ℕ) (h : Hypothesis) (r : IterationResult F) (s s₀ : LoopState F E) (e : E)
      (c : F)
      → Placed place h s₀.backlog
      → is_pending h ≡ true
      → s.backlog ≡ set_status place in_progress s₀.backlog
      → s.results ≡ s₀.results
      → IsClosed s.graph
      → calls.cost_usd e ≡ ok c
      → s.cumulative_cost ≡ s₀.cumulative_cost ⊕ c
      → (s' : LoopState F E) × (record_result config calls iteration place h r s ≡ ok s')
        × Settles s₀ s'
  unfolding record_result recorded
  record_result-Settles iteration place h r s s₀ e c p q b k g price total =
      let (g', eg, cg) = promote_to_graph-IsClosed config calls iteration h r s.graph g in
      let fin = final_status config calls r in
      (
        recorded config calls place r s g',
        ap (λ m. m >>= λ x. ok (recorded config calls place r s x)) eg,
        record {
          final = fin;
          counts = λ t.
              ap (λ x. x + bit (t pending))
                (count-reprioritize t r.validated r.hypothesis_id (set_status place fin s.backlog))
              ∙ (ap (λ x. count_status t (set_status place fin x) + bit (t pending)) b
                  ∙ counts_after t place fin h s₀.backlog p q);
          outcome = one r refl (ap (λ x. x ++ (r ∷ [])) k);
          closed = cg;
          cost = inr (e, c, price, total);
        },
      )

  -- Stages 2 and 3 of a paid experiment return, and settle the hypothesis.
  evaluated-Settles :
      (iteration place : ℕ) (h : Hypothesis) (s : LoopState F E) (e : E) (c : F)
      → IsClosed s.graph
      → Placed place h s.backlog
      → is_pending h ≡ true
      → calls.cost_usd e ≡ ok c
      → (s' : LoopState F E) × (evaluated config calls iteration place h e c
            (paid config calls iteration e c (started config calls iteration place h s))
          ≡ ok s')
        × Settles s s'
  unfolding evaluated gave_up paid started
  evaluated-Settles iteration place h s e c g p q price =
      elim (Result-cases (calls.evaluate calls.baseline e)) [
        | inl (scores, judged) ↦
            let (s', r, z) =
              record_result-Settles iteration place h
                (iteration_result config calls iteration h c scores)
                (paid config calls iteration e c (started config calls iteration place h s)) s e c p
                q refl refl g price refl in
            (s', rw (judged, evaluated) r, z)
        | inr (x, judged) ↦ (
          gave_up config calls place eval_failed []
              (paid config calls iteration e c (started config calls iteration place h s)),
          rw (judged, evaluated) refl,
          record {
            final = eval_failed;
            counts = λ k. counts_after k place eval_failed h s.backlog p q;
            outcome = nothing (inr refl) refl;
            closed = g;
            cost = inr (e, c, price, refl);
          },
        )
      ]

  -- From a closed graph, the task of a pending hypothesis returns and settles it, unless the cost of
  -- its experiment raises.
  pub run_task-Settles :
      (iteration place : ℕ) (h : Hypothesis) (s : LoopState F E)
      → IsClosed s.graph
      → Placed place h s.backlog
      → is_pending h ≡ true
      → ((s' : LoopState F E) × (run_task config calls iteration (place, h) s ≡ ok s')
          × Settles s s')
        ⊎ Unpriced (run_task config calls iteration (place, h) s)
  unfolding run_task gave_up started
  run_task-Settles iteration place h s g p q =
      elim (Result-cases (calls.run_experiment (record h { status = in_progress }))) [
        | inl (experiment, ran) ↦ elim (Result-cases (calls.cost_usd experiment)) [
          | inl (c, price) ↦
              let (s', r, z) = evaluated-Settles iteration place h s experiment c g p q price in
              inl (s', rw (ran, run_task, price) r, z)
          | inr (x, price) ↦ inr (experiment, x, price, rw (ran, run_task, price) refl)
        ]
        | inr (x, ran) ↦ inl (
          gave_up config calls place failed (experiment_failed iteration h.id x ∷ [])
              (started config calls iteration place h s),
          rw (ran, run_task) refl,
          record {
            final = failed;
            counts = λ k. counts_after k place failed h s.backlog p q;
            outcome = nothing (inl refl) refl;
            closed = g;
            cost = inl refl;
          },
        )
      ]
