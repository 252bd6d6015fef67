-- ===== src/Collection/Levels.antt =====
-- The loop of `dependency_levels` ends with an empty queue, and each of its levels depends on earlier
-- levels only.
use whidby.Prelude.{
  has, ℕ, zero, suc, ◌+◌, ◌≤◌, ◌≡◌, refl, sym, ◌∙◌, subst, true, List, [], ◌∷◌, ◌++◌, String,
  eq_iff, arith, length, length-append, countb, All,
}
use mathlib.Core.List.{append_assoc, append-nil}
use whidby.Collection.TaskGraph.{Edge, process, id_levels}
use whidby.Collection.Members.{has-append, length-DistinctIds}
use whidby.Collection.Kahn.{waits_for, Exact, Queued, IntoIds, process-Queued}

abbrev pub joined : List (List String) → List String
joined [] = []
joined (l ∷ ls) = l ++ joined ls

-- Every edge into `level` comes from `earlier`.
abbrev pub DependsOn : List Edge → List String → List String → Type 0
DependsOn es earlier level = All (λ e. has e.1 level ≡ true → has e.0 earlier ≡ true) es

abbrev pub Layered : List Edge → List String → List (List String) → Type 0
Layered es earlier [] = Unit
Layered es earlier (l ∷ ls) = DependsOn es earlier l × Layered es (earlier ++ l) ls

DependsOn-waits_for :
    (es : List Edge) (earlier level : List String)
    → ((x : String) → has x level ≡ true → countb (waits_for earlier x) es ≡ 0)
    → DependsOn es earlier level
DependsOn-waits_for [] earlier level z = tt
DependsOn-waits_for (e ∷ es) earlier level z = (
  λ h. ground (arith, z e.1 h, eq_iff e.1 e.1),
  DependsOn-waits_for es earlier level (λ x h. ground (arith, z x h)),
)

-- What the loop leaves, from `spent`.
pub record Ran (es : List Edge) (ids spent : List String) (out : List (List String) × List String)
    : Type 0 where
  pub empty : out.1 ≡ []
  pub layered : Layered es spent out.0
  pub degree : String → ℕ
  pub queued : Queued ids degree (spent ++ joined out.0)
  pub exact : Exact es degree (spent ++ joined out.0)

Ran-nil :
    (es : List Edge) (ids spent : List String) (degree : String → ℕ)
    → Queued ids degree (spent ++ [])
    → Exact es degree spent
    → Ran es ids spent ([], [])
Ran-nil es ids spent degree q x = record {
  empty = refl;
  layered = tt;
  degree = degree;
  queued = q;
  exact = subst (Exact es degree) (sym (append-nil spent)) x;
}

-- Without fuel for an id that is not processed, no id is left.
no_fuel :
    (ids spent queue : List String) (degree : String → ℕ)
    → Queued ids degree (spent ++ queue)
    → length ids ≤ length spent
    → queue ≡ []
no_fuel ids spent [] degree q h = refl
no_fuel ids spent (i ∷ queue) degree q h = absurd (
    omega (
      arith,
      length-DistinctIds (spent ++ (i ∷ queue)) ids q.distinct q.within,
      length-append spent (i ∷ queue),
    ))

pub id_levels-Ran :
    (es : List Edge) (ids : List String) (fuel : ℕ) (degree : String → ℕ)
    (queue spent : List String)
    → IntoIds ids es
    → Queued ids degree (spent ++ queue)
    → Exact es degree spent
    → length ids ≤ length spent + fuel
    → Ran es ids spent (id_levels es fuel degree queue)
unfolding id_levels
id_levels-Ran es ids zero degree queue spent w q x h =
    let none_left = no_fuel ids spent queue degree q (omega (arith, h)) in
    subst (λ r. Ran es ids spent ([], r)) (sym none_left)
      (Ran-nil es ids spent degree (subst (λ r. Queued ids degree (spent ++ r)) none_left q) x)
id_levels-Ran es ids (suc fuel) degree [] spent w q x h = Ran-nil es ids spent degree q x
id_levels-Ran es ids (suc fuel) degree (i ∷ rest) spent w q x h =
    let s = process es (i ∷ rest) (degree, []) in
    let done = spent ++ (i ∷ rest) in
    let (a, b) =
      process-Queued es ids (i ∷ rest) spent done (degree, []) w q.distinct
        (subst (Queued ids degree) (sym (append-nil done)) q) x in
    let r =
      id_levels-Ran es ids fuel s.0 s.1 done w a b
        (omega (arith, h, length-append spent (i ∷ rest))) in
    let assoc = append_assoc spent (i ∷ rest) (joined (id_levels es fuel s.0 s.1).0) in
    record {
      empty = r.empty;
      layered = (
        DependsOn-waits_for es spent (i ∷ rest) (λ z inside.
            sym (x z) ∙ q.zero_degree z (ground (arith, has-append z spent (i ∷ rest)))),
        r.layered,
      );
      degree = r.degree;
      queued = subst (Queued ids r.degree) assoc r.queued;
      exact = subst (Exact es r.degree) assoc r.exact;
    }
