-- ===== src/Research/Counts.antt =====
-- How many hypotheses have a status, and how setting one status and changing priorities count.
use whidby.Prelude.{
  ℕ, zero, suc, ◌+◌, ◌≡◌, refl, ap, Bool, true, List, [], ◌∷◌, String, arith, countb, if◌then◌else◌,
}
use whidby.Research.Backlog.{
  Status, pending, Hypothesis, is_pending, set_status, reprioritized, reprioritize,
}

-- The hypothesis at a place of the backlog.
abbrev pub Placed : ℕ → Hypothesis → List Hypothesis → Type 0
Placed i h [] = ⊥
Placed zero h (k ∷ ks) = k ≡ h
Placed (suc i) h (k ∷ ks) = Placed i h ks

abbrev pub bit : Bool → ℕ
bit b = if b then 1 else 0

unfoldable pub count_status : (Status → Bool) → List Hypothesis → ℕ
count_status q hs = countb (λ h. q h.status) hs

pub is_pending-status : (h : Hypothesis) → is_pending h ≡ true → h.status ≡ pending
is_pending-status h e = ground arith

pub count-set_status :
    (q : Status → Bool) (i : ℕ) (s : Status) (h : Hypothesis) (hs : List Hypothesis)
    → Placed i h hs
    → count_status q (set_status i s hs) + bit (q h.status) ≡ count_status q hs + bit (q s)
unfolding count_status set_status
count-set_status q i s h [] p = absurd p
count-set_status q zero s h (k ∷ ks) p = grind arith
count-set_status q (suc i) s h (k ∷ ks) p = omega (arith, count-set_status q i s h ks p)

pub set_status_twice :
    (i : ℕ) (s t : Status) (hs : List Hypothesis)
    → set_status i t (set_status i s hs) ≡ set_status i t hs
unfolding set_status
set_status_twice i s t [] = refl
set_status_twice zero s t (h ∷ hs) = refl
set_status_twice (suc i) s t (h ∷ hs) = ap (λ ks. h ∷ ks) (set_status_twice i s t hs)

reprioritized-status :
    (v : Bool) (i : String) (h : Hypothesis) → (reprioritized v i h).status ≡ h.status
unfolding reprioritized
reprioritized-status v i h = ground arith

pub count-reprioritize :
    (q : Status → Bool) (v : Bool) (i : String) (hs : List Hypothesis)
    → count_status q (reprioritize v i hs) ≡ count_status q hs
unfolding count_status reprioritize
count-reprioritize q v i [] = refl
count-reprioritize q v i (h ∷ hs) =
    rw (reprioritized-status v i h) (ap (λ m. bit (q h.status) + m) (count-reprioritize q v i hs))
