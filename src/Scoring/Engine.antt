-- ===== src/Scoring/Engine.antt =====
-- src/scoring/engine.py: one metro, and a batch of metros that share one cohort.
use whidby.Prelude.{ℕ, List, [], ◌∷◌, Option, none, some, String, Result, ok, ◌>>=◌, map}
use whidby.Num.Order.{Num}
use whidby.Signals.{Signals, Value, mapping, none_value, get_or, update}
use whidby.Scoring.Config.{demand_weight, monetization_weight, ai_resilience_weight}
use whidby.Scoring.Competition.{
  compute_demand_score, compute_organic_competition_score, compute_local_competition_score,
}
use whidby.Scoring.Market.{
  compute_monetization_score, compute_ai_resilience_score, compute_gbp_score,
}
use whidby.Scoring.Composite.{Scores, compute_opportunity_score}
use whidby.Scoring.Confidence.{Confidence, compute_confidence}
use whidby.Scoring.Strategy.{StrategyWeights, resolve_strategy_weights}

-- The categories of `_flatten_signal_shape`, in order.
abbrev pub categories : List String
categories =
    "demand" ∷ "organic_competition" ∷ "local_competition" ∷ "monetization" ∷ "ai_resilience" ∷ []

pub record ScoreReport (F : Type 0) : Type 0 where
  pub demand : F
  pub organic_competition : F
  pub local_competition : F
  pub monetization : F
  pub ai_resilience : F
  pub gbp : F
  pub opportunity : F
  pub confidence : Confidence F
  pub resolved_weights : Option (StrategyWeights F)

module _ {F : Type 0} where
  -- One turn of the loop: a block that is a mapping is written over `flattened`.
  unfoldable pub flatten_block : Value F → Signals F → Signals F
  unfolding update
  flatten_block (mapping block) flattened = update flattened block
  flatten_block _ flattened = flattened

  unfoldable pub flatten_blocks : List String → Signals F → Signals F → Signals F
  unfolding flatten_block get_or
  flatten_blocks [] signals flattened = flattened
  flatten_blocks (c ∷ cs) signals flattened =
      flatten_blocks cs signals (flatten_block (get_or c none_value signals) flattened)

  unfoldable pub flatten_signal_shape : Signals F → Signals F
  unfolding flatten_blocks
  flatten_signal_shape signals = flatten_blocks categories signals signals

module _ {F : Type 0} ⦃n : Num F⦄ where
  -- The weights of the composite when they come from a profile.
  abbrev pub composite_weights : StrategyWeights F → List (String × F)
  composite_weights w =
      ("demand", demand_weight)
      ∷ ("organic_competition", w.organic)
      ∷ ("local_competition", w.local)
      ∷ ("monetization", monetization_weight)
      ∷ ("ai_resilience", ai_resilience_weight)
      ∷ []

  -- The weights in use, and what is reported as `resolved_weights`.
  unfoldable pub choose_weights :
      Option (List (String × F))
      → List ℕ
      → Signals F
      → Result (List (String × F) × Option (StrategyWeights F))
  unfolding resolve_strategy_weights
  choose_weights (some weights) profile metro = ok (weights, none)
  choose_weights none profile metro = do
    w ← resolve_strategy_weights profile (some metro)
    ok (composite_weights w, some w)

  -- The dict `component_scores`.
  abbrev pub component_scores : F → F → F → F → F → F → Scores F
  component_scores d o l m a g =
      ("demand", d)
      ∷ ("organic_competition", o)
      ∷ ("local_competition", l)
      ∷ ("monetization", m)
      ∷ ("ai_resilience", a)
      ∷ ("gbp", g)
      ∷ []

  unfoldable pub compute_scores :
      Signals F → List (Signals F) → List ℕ → Option (List (String × F)) → Result (ScoreReport F)
  unfolding flatten_signal_shape choose_weights
  compute_scores metro_signals all_metro_signals profile weights = do
    let metro = flatten_signal_shape metro_signals
    let cohort = map flatten_signal_shape all_metro_signals
    d ← compute_demand_score metro cohort
    let o = compute_organic_competition_score metro
    l ← compute_local_competition_score metro
    m ← compute_monetization_score metro
    a ← compute_ai_resilience_score metro
    g ← compute_gbp_score metro
    (used, resolved) ← choose_weights weights profile metro
    c ← compute_confidence metro
    ok (record {
      demand = d;
      organic_competition = o;
      local_competition = l;
      monetization = m;
      ai_resilience = a;
      gbp = g;
      opportunity = compute_opportunity_score (component_scores d o l m a g) used;
      confidence = c;
      resolved_weights = resolved;
    })

  -- The comprehension of `compute_batch_scores`, over the metros that are left.
  unfoldable pub score_each :
      List (Signals F)
      → List (Signals F)
      → List ℕ
      → Option (List (String × F))
      → Result (List (ScoreReport F))
  score_each [] cohort profile weights = ok []
  score_each (metro ∷ metros) cohort profile weights = do
    r ← compute_scores metro cohort profile weights
    rs ← score_each metros cohort profile weights
    ok (r ∷ rs)

  unfoldable pub compute_batch_scores :
      List (Signals F) → List ℕ → Option (List (String × F)) → Result (List (ScoreReport F))
  unfolding score_each
  compute_batch_scores metros profile weights = score_each metros metros profile weights
