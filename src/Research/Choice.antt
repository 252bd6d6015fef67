-- ===== src/Research/Choice.antt =====
-- The hypothesis that the loop takes up: a pending one, at its own place, of the highest priority.
use whidby.Prelude.{
  ℕ, zero, suc, ◌+◌, ◌≤◌, ◌≡◌, refl, sym, ap, ◌∙◌, subst, true, Bool-cases, inl, inr, List, [], ◌∷◌,
  arith, All, countb, if◌then◌else◌, length, ltb,
}
use whidby.Research.Backlog.{Hypothesis, is_pending, priority_of, pending_from, best, select_task}
use whidby.Research.Counts.{Placed}

-- Of a pair of a place and a hypothesis: it is pending, and stands there in the backlog, counted
-- from `k`.
abbrev pub Offered : ℕ → List Hypothesis → ℕ × Hypothesis → Type 0
Offered k hs c = (j : ℕ) × (c.0 ≡ k + j) × Placed j c.1 hs × (is_pending c.1 ≡ true)

All-weaken :
    (k : ℕ) (h : Hypothesis) (hs : List Hypothesis) (cs : List (ℕ × Hypothesis))
    → All (Offered (suc k) hs) cs
    → All (Offered k (h ∷ hs)) cs
All-weaken k h hs [] a = tt
All-weaken k h hs (c ∷ cs) ((j, e, p, q), a) =
    ((suc j, e ∙ omega arith, p, q), All-weaken k h hs cs a)

pub pending_from-Offered : (k : ℕ) (hs : List Hypothesis) → All (Offered k hs) (pending_from k hs)
unfolding pending_from
pending_from-Offered k [] = tt
pending_from-Offered k (h ∷ hs) =
    let rest = All-weaken k h hs _ (pending_from-Offered (suc k) hs) in
    elim (Bool-cases (is_pending h)) [
      | inl e ↦ rw e ((zero, omega arith, refl, e), rest)
      | inr e ↦ rw e rest
    ]

pub length-pending_from :
    (k : ℕ) (hs : List Hypothesis) → length (pending_from k hs) ≡ countb is_pending hs
unfolding pending_from
length-pending_from k [] = refl
length-pending_from k (h ∷ hs) = ground (arith, length-pending_from (suc k) hs)

pub best-All :
    (P : ℕ × Hypothesis → Type 0) (b : ℕ × Hypothesis) (cs : List (ℕ × Hypothesis))
    → P b
    → All P cs
    → P (best b cs)
unfolding best
best-All P b [] p a = p
best-All P b (c ∷ cs) p (q, a) = elim (Bool-cases (ltb (priority_of b.1) (priority_of c.1))) [
  | inl e ↦ rw e (best-All P c cs q a)
  | inr e ↦ rw e (best-All P b cs p a)
]

-- No more urgent than.
abbrev pub Under : ℕ × Hypothesis → ℕ × Hypothesis → Type 0
Under b c = priority_of c.1 ≤ priority_of b.1

best-max :
    (b : ℕ × Hypothesis) (cs : List (ℕ × Hypothesis))
    → Under (best b cs) b × All (Under (best b cs)) cs
unfolding best
best-max b [] = (omega arith, tt)
best-max b (c ∷ cs) =
    let goal : ℕ × Hypothesis → Type 0 = λ x. Under x b × All (Under x) (c ∷ cs) in
    elim (Bool-cases (ltb (priority_of b.1) (priority_of c.1))) [
      | inl e ↦
          let (m, a) = best-max c cs in
          subst goal (sym (ap (λ t. best (if t then c else b) cs) e)) (ground arith, (m, a))
      | inr e ↦
          let (m, a) = best-max b cs in
          subst goal (sym (ap (λ t. best (if t then c else b) cs) e)) (m, (ground arith, a))
    ]

-- What holds of all that is offered holds of every pending hypothesis of the backlog.
offered_all :
    (P : ℕ × Hypothesis → Type 0) (k j : ℕ) (h : Hypothesis) (hs : List Hypothesis)
    → All P (pending_from k hs)
    → Placed j h hs
    → is_pending h ≡ true
    → P (k + j, h)
unfolding pending_from
offered_all P k j h [] a p q = absurd p
offered_all P k zero h (g ∷ hs) a p q =
    let e : is_pending g ≡ true = subst (λ x. is_pending x ≡ true) (sym p) q in
    let s : pending_from k (g ∷ hs) ≡ (k, g) ∷ pending_from (suc k) hs =
      ap (λ t. if t then (k, g) ∷ pending_from (suc k) hs else pending_from (suc k) hs) e in
    subst (λ x. P (x, h)) (omega arith) (subst (λ x. P (k, x)) p (subst (All P) s a).0)
offered_all P k (suc j) h (g ∷ hs) a p q =
    let later : All P (pending_from (suc k) hs) = elim (Bool-cases (is_pending g)) [
      | inl e ↦
          (subst (All P)
            (ap (λ t. if t then (k, g) ∷ pending_from (suc k) hs else pending_from (suc k) hs) e)
            a).1
      | inr e ↦
          subst (All P)
            (ap (λ t. if t then (k, g) ∷ pending_from (suc k) hs else pending_from (suc k) hs) e) a
    ] in
    subst (λ x. P (x, h)) (omega arith) (offered_all P (suc k) j h hs later p q)

-- The chosen hypothesis is pending, stands at its place in the backlog, and no pending hypothesis
-- of the backlog has a higher priority.
pub select_task-max :
    (hs : List Hypothesis) (c : ℕ × Hypothesis) (cs : List (ℕ × Hypothesis))
    → pending_from 0 hs ≡ c ∷ cs
    → Placed (select_task c cs).0 (select_task c cs).1 hs
      × (is_pending (select_task c cs).1 ≡ true)
      × ((j : ℕ) (h : Hypothesis)
          → Placed j h hs
          → is_pending h ≡ true
          → priority_of h ≤ priority_of (select_task c cs).1)
unfolding select_task
select_task-max hs c cs e =
    let (o, os) = subst (All (Offered 0 hs)) e (pending_from-Offered 0 hs) in
    let (j, p, q, r) = best-All (Offered 0 hs) c cs o os in
    (
      subst (λ i. Placed i (best c cs).1 hs) (sym (p ∙ omega arith)) q,
      r,
      λ j h s u.
          offered_all (Under (best c cs)) 0 j h hs
            (subst (All (Under (best c cs))) (sym e) (best-max c cs)) s u,
    )
