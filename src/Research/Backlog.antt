-- ===== src/Research/Backlog.antt =====
-- src/research_agent/loop/ralph_loop.py: the hypothesis dicts of the backlog, the choice of the next
-- one and the change of priorities. The dicts are shared between `current_backlog` and `pending`, so
-- a chosen hypothesis is named by its index in the backlog. Priorities are non-negative ints.
use whidby.Prelude.{
  ℕ, zero, suc, ◌+◌, ◌-◌, Bool, true, false, List, [], ◌∷◌, Option, none, some, String, str_eq, ltb,
  if◌then◌else◌,
}

pub data Status : Type 0 where
  pending in_progress failed eval_failed validated invalidated : Status
  other_status : String → Status

-- A priority is not negative. The source would take a negative one too, and its
-- `max(priority - 1, 0)` would raise it.
pub record Hypothesis : Type 0 where
  pub id : Option String
  pub title : String
  pub description : String
  pub status : Status
  pub priority : Option ℕ
  pub target_proxy : Option String
  pub related_to : Option String

abbrev pub is_pending : Hypothesis → Bool
is_pending h = elim (h.status) [ pending ↦ true | _ ↦ false ]

-- `h.get("priority", 0)` and `h.get("id", "")`
abbrev pub priority_of : Hypothesis → ℕ
priority_of h = elim (h.priority) [ none ↦ 0 | some p ↦ p ]

abbrev pub id_of : Hypothesis → String
id_of h = elim (h.id) [ none ↦ "" | some i ↦ i ]

-- `pending`: the pending hypotheses with their places in the backlog, from place `i` on
unfoldable pub pending_from : ℕ → List Hypothesis → List (ℕ × Hypothesis)
pending_from i [] = []
pending_from i (h ∷ hs) =
    if is_pending h then (i, h) ∷ pending_from (suc i) hs else pending_from (suc i) hs

-- `sorted(pending, key=priority, reverse=True)[0]`: the sort is stable, so the first of the highest.
unfoldable pub best : ℕ × Hypothesis → List (ℕ × Hypothesis) → ℕ × Hypothesis
best b [] = b
best b (c ∷ cs) = best (if ltb (priority_of b.1) (priority_of c.1) then c else b) cs

unfoldable pub select_task : ℕ × Hypothesis → List (ℕ × Hypothesis) → ℕ × Hypothesis
unfolding best
select_task p ps = best p ps

-- `hypothesis["status"] = status`, for the hypothesis at place `i`
unfoldable pub set_status : ℕ → Status → List Hypothesis → List Hypothesis
set_status i s [] = []
set_status zero s (h ∷ hs) = record h { status = s } ∷ hs
set_status (suc i) s (h ∷ hs) = h ∷ set_status i s hs

-- `item.get(key) == hypothesis_id`
abbrev pub names : Option String → String → Bool
names none i = false
names (some j) i = str_eq j i

-- The body of the loop of `_reprioritize`.
unfoldable pub reprioritized : Bool → String → Hypothesis → Hypothesis
reprioritized was_validated hypothesis_id item =
    if is_pending item
    then if was_validated
      then if names item.target_proxy hypothesis_id
        then record item { priority = some (priority_of item + 1) }
        else item
      else if names item.related_to hypothesis_id
      then record item { priority = some (priority_of item - 1) }
      else item
    else item

unfoldable pub reprioritize : Bool → String → List Hypothesis → List Hypothesis
unfolding reprioritized
reprioritize v i [] = []
reprioritize v i (h ∷ hs) = reprioritized v i h ∷ reprioritize v i hs
