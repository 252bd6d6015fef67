-- ===== src/Costs/Contexts.antt =====
-- The records of one scoring run: draining takes them all, and nothing of another run.
use whidby.Prelude.{
  ℕ, ◌+◌, ◌≡◌, ◌≢◌, ◌⊎◌, refl, sym, ap, ◌∙◌, Bool, true, false, not, Bool-cases, Result-cases,
  List-cases, inl, inr, List, [], ◌∷◌, Option, none, some, String, str_eq, eq_iff, arith, length,
  filterb, map, if◌then◌else◌, Result, ok, raise,
}
use whidby.Costs.{
  CostRecord, CostTracker, UsageRow, in_context, records_for_context, drain_context,
  flush_to_supabase, selected, usage_row,
}

other_option :
    (c d : String) (o : Option String)
    → c ≢ d
    → (elim o as (λ _. Bool) [ none ↦ false | some x ↦ str_eq x d ]) ≡ true
    → (elim o as (λ _. Bool) [ none ↦ false | some x ↦ str_eq x c ]) ≡ false
other_option c d none h e = refl
other_option c d (some x) h e = ground (arith, eq_iff x d, eq_iff x c)

module _ {F : Type 0} where
  in_context-other :
      (c d : String) (r : CostRecord F) → c ≢ d → in_context d r ≡ true → in_context c r ≡ false
  unfolding in_context
  in_context-other c d r h e = other_option c d r.collection_context_id h e

  filterb-not :
      (p : CostRecord F → Bool) (rs : List (CostRecord F))
      → filterb p (filterb (λ r. not (p r)) rs) ≡ []
  filterb-not p [] = refl
  filterb-not p (r ∷ rs) = elim (Bool-cases (p r)) [
    | inl e ↦ rw e (filterb-not p rs)
    | inr e ↦ rw (e, e) (filterb-not p rs)
  ]

  filterb-none :
      (p : CostRecord F → Bool) (rs : List (CostRecord F))
      → filterb p rs ≡ []
      → filterb (λ r. not (p r)) rs ≡ rs
  filterb-none p [] h = refl
  filterb-none p (r ∷ rs) h = elim (Bool-cases (p r)) [
    | inl e ↦
        let bad : r ∷ filterb p rs ≡ [] =
          ap (λ b. if b then r ∷ filterb p rs else filterb p rs) (sym e) ∙ h in
        cc
    | inr e ↦ rw e (
        ap (λ x. r ∷ x)
          (filterb-none p rs (ap (λ b. if b then r ∷ filterb p rs else filterb p rs) (sym e) ∙ h)))
  ]

  length-filterb-not :
      (p : CostRecord F → Bool) (rs : List (CostRecord F))
      → length (filterb p rs) + length (filterb (λ r. not (p r)) rs) ≡ length rs
  length-filterb-not p [] = omega arith
  length-filterb-not p (r ∷ rs) = ground (arith, length-filterb-not p rs)

  filterb-other :
      (c d : String) (rs : List (CostRecord F))
      → c ≢ d
      → filterb (in_context d) (filterb (λ r. not (in_context c r)) rs) ≡ filterb (in_context d) rs
  filterb-other c d [] h = refl
  filterb-other c d (r ∷ rs) h = elim (Bool-cases (in_context c r)) [
    | inl e ↦
        let f = in_context-other d c r (λ p. h (sym p)) e in rw (e, f) (filterb-other c d rs h)
    | inr e ↦ elim (Bool-cases (in_context d r)) [
      | inl f ↦ rw (e, f) (ap (λ x. r ∷ x) (filterb-other c d rs h))
      | inr f ↦ rw (e, f) (filterb-other c d rs h)
    ]
  ]

  -- Draining a run counts its records and leaves none of them; the records of every other run stay,
  -- in order, and nothing else goes.
  pub drain_context-partition :
      (c : String) (t : CostTracker F)
      → ((drain_context c t).1 ≡ length (records_for_context c t))
        × (records_for_context c (drain_context c t).0 ≡ [])
        × ((drain_context c t).1 + length (drain_context c t).0.records ≡ length t.records)
        × ((d : String)
            → c ≢ d
            → records_for_context d (drain_context c t).0 ≡ records_for_context d t)
  unfolding drain_context records_for_context
  drain_context-partition c t =
      let split = length-filterb-not (in_context c) t.records in
      (
        omega (arith, split),
        filterb-not (in_context c) t.records,
        omega (arith, split),
        λ d h. filterb-other c d t.records h,
      )

  -- The rows that are inserted for the run `c`.
  abbrev pub rows_of : String → String → CostTracker F → List (UsageRow F)
  rows_of report_id c t = map (usage_row report_id) (records_for_context c t)

  -- The outcome of a flush with draining, for each client.
  abbrev pub Flushed :
      String
      → String
      → Option (List (UsageRow F) → Result (Unit {0}))
      → CostTracker F
      → Result ℕ × CostTracker F
      → Type 0
  Flushed report_id c none t (r, t') = (r ≡ ok 0) × (t' ≡ t)
  Flushed report_id c (some insert) t (raise e, t') =
      (insert (rows_of report_id c t) ≡ raise e) × (t' ≡ t)
  Flushed report_id c (some insert) t (ok k, t') =
      (k ≡ length (records_for_context c t))
      × (t' ≡ (drain_context c t).0)
      × ((records_for_context c t ≡ []) ⊎ (insert (rows_of report_id c t) ≡ ok tt))

  drain-empty :
      (c : String) (t : CostTracker F) → records_for_context c t ≡ [] → (drain_context c t).0 ≡ t
  unfolding drain_context records_for_context
  drain-empty c t e = ap (λ x. record t { records = x }) (filterb-none (in_context c) t.records e)

  -- A flush of one run with draining. Without a client, neither as an argument nor from the
  -- environment, it reports 0 and leaves the tracker as it was. With a client it fails exactly as the
  -- insert of the rows of the run fails, and leaves the tracker as it was; or it reports as many rows
  -- as the run has records and leaves the tracker without exactly those, and the insert of their rows
  -- succeeded unless there were none.
  pub flush_to_supabase-Flushed :
      (report_id c : String) (client : Option (List (UsageRow F) → Result (Unit {0})))
      (t : CostTracker F)
      → Flushed report_id c client t (flush_to_supabase report_id (some c) true client t)
  unfolding flush_to_supabase selected
  flush_to_supabase-Flushed report_id c none t = elim (List-cases (records_for_context c t)) [
    | inl e ↦ rw (e, flush_to_supabase, selected) (refl, refl)
    | inr (r, rs, e) ↦ rw (e, flush_to_supabase, selected) (refl, refl)
  ]
  flush_to_supabase-Flushed report_id c (some insert) t =
      elim (List-cases (records_for_context c t)) [
        | inl e ↦
            rw (e, flush_to_supabase, selected) (sym (ap length e), sym (drain-empty c t e), inl e)
        | inr (r, rs, e) ↦ elim (Result-cases (insert (map (usage_row report_id) (r ∷ rs)))) [
          | inl (u, i) ↦
              rw (e, flush_to_supabase, selected, usage_row, i)
                (sym (ap length e), refl, inr (inserted r rs e ∙ i))
          | inr (x, i) ↦
              rw (e, flush_to_supabase, selected, usage_row, i) (inserted r rs e ∙ i, refl)
        ]
      ]
    where
      inserted :
          (r : CostRecord F) (rs : List (CostRecord F))
          → records_for_context c t ≡ r ∷ rs
          → insert (rows_of report_id c t) ≡ insert (map (usage_row report_id) (r ∷ rs))
      inserted r rs e = ap (λ xs. insert (map (usage_row report_id) xs)) e
