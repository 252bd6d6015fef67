-- ===== src/Research/Accounts.antt =====
-- What a sequence of tasks leaves: how many hypotheses are pending, in progress, validated and
-- invalidated, and how many results there are.
use whidby.Prelude.{
  countb-append, ℕ, suc, ◌+◌, ◌≤◌, ◌≡◌, refl, ap, ◌∙◌, Bool, true, false, not, Bool-cases, inl, inr,
  List, [], ◌∷◌, arith, countb, length, length-append, if◌then◌else◌,
}
use whidby.Num.Order.{Num}
use whidby.Research.Backlog.{
  Status, pending, in_progress, failed, eval_failed, validated, invalidated,
}
use whidby.Research.Loop.{LoopConfig, Callbacks, IterationResult, LoopState}
use whidby.Research.Counts.{bit, count_status}
use whidby.Research.Progress.{Recorded, nothing, one}
use whidby.Research.Runs.{Tasks, done, task}

abbrev pub waits : Status → Bool
waits s = elim s [ pending ↦ true | _ ↦ false ]

abbrev pub works : Status → Bool
works s = elim s [ in_progress ↦ true | _ ↦ false ]

abbrev pub holds : Status → Bool
holds s = elim s [ validated ↦ true | _ ↦ false ]

abbrev pub fails : Status → Bool
fails s = elim s [ invalidated ↦ true | _ ↦ false ]

pub countb_none {ℓ} : {A : Type ℓ} (xs : List A) → countb (λ x. false) xs ≡ 0
countb_none [] = refl
countb_none (x ∷ xs) = omega (arith, countb_none xs)

module _ {F E B : Type 0} ⦃n : Num F⦄ (config : LoopConfig F) (calls : Callbacks F E B) where
  module _ (q : Status → Bool) (p : IterationResult F → Bool) where
    -- The statuses that satisfy `q` are those that a result with `p` gives.
    abbrev Matches : Type 0
    Matches =
        (q failed ≡ false)
        × (q eval_failed ≡ false)
        × ((r : IterationResult F) → q (if r.validated then validated else invalidated) ≡ p r)

    Recorded-count :
        (rs : List (IterationResult F)) (final : Status) (rs' : List (IterationResult F))
        → Matches
        → Recorded config calls rs final rs'
        → countb p rs' ≡ countb p rs + bit (q final)
    Recorded-count rs final rs' (a, b, c) (nothing (inl e) f) = rw (f, ap q e ∙ a) (omega arith)
    Recorded-count rs final rs' (a, b, c) (nothing (inr e) f) = rw (f, ap q e ∙ b) (omega arith)
    Recorded-count rs final rs' (a, b, c) (one r e f) =
        rw (f, ap q e ∙ c r) (omega (arith, countb-append p rs (r ∷ [])))

    -- The tasks add to the backlog as many such statuses as to the results, and take away as many as
    -- there were pending hypotheses with it.
    pub tally :
        {k : ℕ} {s u : LoopState F E}
        → Matches
        → Tasks config calls k s u
        → count_status q u.backlog + (if q pending then k else 0) + countb p s.results
          ≡ count_status q s.backlog + countb p u.results
    tally m done = ground arith
    tally m (task b c z ts) =
        ground (arith, Recorded-count _ _ _ m z.outcome, z.counts q, tally m ts)

  Recorded-length :
      (rs : List (IterationResult F)) (final : Status) (rs' : List (IterationResult F))
      → Recorded config calls rs final rs'
      → length rs' ≤ suc (length rs)
  Recorded-length rs final rs' (nothing e f) = rw f (omega arith)
  Recorded-length rs final rs' (one r e f) = rw f (omega (arith, length-append rs (r ∷ [])))

  pub length-results :
      {k : ℕ} {s u : LoopState F E}
      → Tasks config calls k s u
      → length u.results ≤ length s.results + k
  length-results done = omega arith
  length-results (task b c z ts) = omega (arith, Recorded-length _ _ _ z.outcome, length-results ts)

  open_statuses :
      (q : Status → Bool)
      → q validated ≡ false
      → q invalidated ≡ false
      → (r : IterationResult F) → q (if r.validated then validated else invalidated) ≡ false
  open_statuses q a b r = elim (Bool-cases r.validated) [ inl e ↦ rw e a | inr e ↦ rw e b ]

  -- Each task takes one pending hypothesis.
  pub count-waits :
      {k : ℕ} {s u : LoopState F E}
      → Tasks config calls k s u
      → count_status waits u.backlog + k ≡ count_status waits s.backlog
  count-waits {s = s} {u} ts = omega (
    arith,
    tally waits (λ r. false) (refl, refl, open_statuses waits refl refl) ts,
    countb_none s.results,
    countb_none u.results,
  )

  -- No task leaves a hypothesis in progress.
  pub count-works :
      {k : ℕ} {s u : LoopState F E}
      → Tasks config calls k s u
      → count_status works u.backlog ≡ count_status works s.backlog
  count-works {s = s} {u} ts = omega (
    arith,
    tally works (λ r. false) (refl, refl, open_statuses works refl refl) ts,
    countb_none s.results,
    countb_none u.results,
  )

  pub count-holds :
      {k : ℕ} {s u : LoopState F E}
      → Tasks config calls k s u
      → count_status holds u.backlog + countb (λ r. r.validated) s.results
        ≡ count_status holds s.backlog + countb (λ r. r.validated) u.results
  count-holds ts = omega (
    arith,
    tally holds (λ r. r.validated)
        (refl, refl, λ r. elim (Bool-cases r.validated) [ inl e ↦ rw e refl | inr e ↦ rw e refl ])
        ts,
  )

  pub count-fails :
      {k : ℕ} {s u : LoopState F E}
      → Tasks config calls k s u
      → count_status fails u.backlog + countb (λ r. not r.validated) s.results
        ≡ count_status fails s.backlog + countb (λ r. not r.validated) u.results
  count-fails ts = omega (
    arith,
    tally fails (λ r. not r.validated)
        (refl, refl, λ r. elim (Bool-cases r.validated) [ inl e ↦ rw e refl | inr e ↦ rw e refl ])
        ts,
  )
