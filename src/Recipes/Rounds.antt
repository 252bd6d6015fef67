-- ===== src/Recipes/Rounds.antt =====
-- src/research_agent/recipes/runner.py: what the rounds leave, and what the result says of them.
use whidby.Prelude.{
  ℕ, zero, suc, ◌+◌, ◌≤◌, ◌≡◌, refl, sym, ap, ◌∙◌, subst, Bool, true, false, Bool-cases, inl, inr,
  List, [], ◌∷◌, ◌++◌, Option, none, some, String, str_eq, arith, Result, ok, raise, ◌>>=◌,
  runner_error, ok-injective, >>=-inv, if◌then◌else◌,
}
use whidby.Num.Order.{Num, of_int, ◌⊕◌}
use whidby.Plugins.{list_plugins, PluginRegistry}
use whidby.Recipes.Json.{extract_json_payload}
use whidby.Recipes.{Recipe}
use mathlib.Core.Option.{some-injective}
use whidby.Recipes.Conversation.{Talk, rounds-Talked}
use whidby.Recipes.Runner.{
  inputs, Response, ToolRecord, ModelServices, RoundsState, Output, RunResult, tool_uses, executed,
  add_costs, answered, turned, seen_by, round_of, rounds, first_state, all_registered, score,
  result_of, finish_run, run_recipe,
}

abbrev pub ends : {A : Type 0} → Option (Response A) → Bool
ends none = false
ends (some r) = str_eq r.stop_reason "end_turn"

module _ {F A R : Type 0} ⦃n : Num F⦄ (registry : PluginRegistry A R)
    (services : ModelServices F A R) where
  add_costs-append :
      (c : F) (rs ss : List (ToolRecord F A R))
      → add_costs registry services c (rs ++ ss)
        ≡ add_costs registry services (add_costs registry services c rs) ss
  add_costs-append c [] ss = refl
  add_costs-append c (r ∷ rs) ss = add_costs-append (c ⊕ r.cost_usd) rs ss

  -- The cost is that of the calls, `hit_end_turn` says how the last response ended, and `k` rounds
  -- were used.
  record IsRun (k : ℕ) (s : RoundsState F A R) : Type 0 where
    costs : s.cost ≡ add_costs registry services (of_int 0) s.tool_calls
    hit : s.hit_end_turn ≡ ends s.last_response
    used : s.rounds_used ≡ k

  answered-IsRun :
      (k : ℕ) (response : Response A) (us : List (String × A)) (s : RoundsState F A R)
      → IsRun k s
      → IsRun k (answered registry services response us s).0
  unfolding answered
  answered-IsRun k response [] s i = i
  answered-IsRun k response (u ∷ us) s i =
      let records = executed registry services (u ∷ us) in
      record {
        costs =
            ap (λ c. add_costs registry services c records) i.costs
            ∙ sym (add_costs-append (of_int 0) s.tool_calls records);
        hit = i.hit;
        used = i.used;
      }

  answered-hit :
      (response : Response A) (us : List (String × A)) (s : RoundsState F A R)
      → (answered registry services response us s).0.hit_end_turn ≡ s.hit_end_turn
  unfolding answered
  answered-hit response [] s = refl
  answered-hit response (u ∷ us) s = refl

  -- After a round that is not the last, no response has ended the turn.
  turned-IsRun :
      (k : ℕ) (is_end uses_tools : Bool) (response : Response A) (s : RoundsState F A R)
      → str_eq response.stop_reason "end_turn" ≡ is_end
      → s.hit_end_turn ≡ false
      → IsRun k s
      → IsRun
          (suc k)
          (turned registry services is_end uses_tools response
            (seen_by registry services response s)).0
        × ((turned registry services is_end uses_tools response
                (seen_by registry services response s)).1
              ≡ true
            → (turned registry services is_end uses_tools response
                (seen_by registry services response s)).0.hit_end_turn
              ≡ false)
  unfolding turned
  turned-IsRun k true uses_tools response s e o i =
      (record { costs = i.costs; hit = sym e; used = ap (λ j. suc j) i.used }, λ h. cc)
  turned-IsRun k false false response s e o i =
      (record { costs = i.costs; hit = o ∙ sym e; used = ap (λ j. suc j) i.used }, λ h. cc)
  turned-IsRun k false true response s e o i =
      let seen = seen_by registry services response s in
      let uses = tool_uses response.content in
      (
        answered-IsRun (suc k) response uses seen
            (record { costs = i.costs; hit = o ∙ sym e; used = ap (λ j. suc j) i.used }),
        λ h. answered-hit response uses seen ∙ o,
      )

  -- The rounds that are used are those before and at most as many as are left.
  rounds-IsRun :
      (left k : ℕ) (s t : RoundsState F A R)
      → s.hit_end_turn ≡ false
      → IsRun k s
      → rounds registry services left s ≡ ok t
      → (j : ℕ) × IsRun j t × (j ≤ k + left)
  unfolding rounds round_of
  rounds-IsRun zero k s t o i e = (k, subst (IsRun k) (ok-injective e) i, omega arith)
  rounds-IsRun (suc left) k s t o i e =
      let (response, f, g) = >>=-inv (services.create s.messages) _ e in
      let next = round_of registry services response s in
      let rest = rounds registry services left next.0 in
      let (i', still) =
        turned-IsRun k (str_eq response.stop_reason "end_turn")
          (str_eq response.stop_reason "tool_use") response s refl o i in
      elim (Bool-cases next.1) [
        | inl b ↦
            let (j, u, l) =
              rounds-IsRun left (suc k) next.0 t (still b) i'
                (ap (λ c. if c then rest else ok next.0) (sym b) ∙ g) in
            (j, u, omega (arith, l))
        | inr b ↦
            let e' : ok next.0 ≡ ok t = ap (λ c. if c then rest else ok next.0) (sym b) ∙ g in
            (suc k, subst (IsRun (suc k)) (ok-injective e') i', omega arith)
      ]

module _ {F A R : Type 0} ⦃n : Num F⦄ (registry : PluginRegistry A R)
    (services : ModelServices F A R) where
  -- The exchange behind the rounds of a run, from a state without tool calls and without a response.
  last_talk :
      (left : ℕ) (s t : RoundsState F A R) (response : Response A)
      → s ≡ first_state registry services
      → rounds registry services left s ≡ ok t
      → t.last_response ≡ some response
      → (used : ℕ) (calls : List (ToolRecord F A R)) → used ≡ t.rounds_used
      → calls ≡ t.tool_calls
      → Talk registry services left used s.messages calls response
  unfolding rounds
  last_talk zero s t response z e last used calls u c =
      let nothing : none ≡ some response =
        ap (λ x. x.last_response) (sym z) ∙ ap (λ x. x.last_response) (ok-injective e) ∙ last in
      cc
  last_talk (suc left) s t response z e last used calls u c =
      let (used', calls', last', talk, calls_eq, used_eq, last_eq) =
        rounds-Talked registry services (suc left) s t e left refl in
      let same_response : last' ≡ response = some-injective _ _ (sym last_eq ∙ last) in
      let same_calls : calls' ≡ calls = sym (c ∙ calls_eq ∙ ap (λ x. x.tool_calls ++ calls') z) in
      let begun : s.rounds_used ≡ 0 = ap (λ x. x.rounds_used) z in
      let same_used : used' ≡ used = omega (arith, u, used_eq, begun) in
      subst (λ r. Talk registry services (suc left) used s.messages calls r) same_response
        (subst (λ cs. Talk registry services (suc left) used s.messages cs last') same_calls
          (subst (λ k. Talk registry services (suc left) k s.messages calls' last') same_used talk))

module _ {F A R D : Type 0} ⦃n : Num F⦄ (registry : PluginRegistry A R)
    (services : ModelServices F A R) (output : Output D) where
  -- What a result says of the last response.
  abbrev pub Reports : RoundsState F A R → RunResult F A R D → Type 0
  Reports s x =
      (x.rounds_used ≡ s.rounds_used)
      × (x.cost_usd ≡ s.cost)
      × (x.tool_calls ≡ s.tool_calls)
      × (x.status ≡ (if s.hit_end_turn then "ok" else "partial"))

  finish_run-Reports :
      (recipe : Recipe D) (s : RoundsState F A R) (last : Option (Response A))
      (x : RunResult F A R D)
      → finish_run output recipe s last ≡ ok x
      → Reports s x
        × (response : Response A) × (last ≡ some response)
        × (extract_json_payload output.loads response.content ≡ ok x.collected)
  unfolding finish_run result_of
  finish_run-Reports recipe s none x e = cc
  finish_run-Reports recipe s (some response) x e =
      let (collected, f, g) = >>=-inv (extract_json_payload output.loads response.content) _ e in
      let (context, h, k) = >>=-inv (score recipe collected) _ g in
      let (report, u, v) =
        >>=-inv (output.compose_report recipe.recipe_id recipe.template_name context) _ k in
      let same : result_of recipe s collected context report ≡ x = ok-injective v in
      (
        subst (Reports s) same (refl, refl, refl, refl),
        response,
        refl,
        f ∙ ap (λ y. ok y.collected) same,
      )

  -- A run that returns a result has the required plugins, used at most the rounds allowed, and cost
  -- what its tool calls cost. Its rounds and its tool calls are those of an exchange with the model
  -- from the first message, in which each response is given the results of the tools that the one
  -- before asked for. The run is `ok` if the last response of this exchange ended the turn and
  -- `partial` otherwise, and what it collected is the JSON object of that response.
  pub run_recipe-Explained :
      (max_tool_rounds : ℕ) (recipe : Recipe D) (x : RunResult F A R D)
      → run_recipe registry services output max_tool_rounds recipe ≡ ok x
      → (all_registered recipe.required_plugins (list_plugins registry) ≡ true)
        × (x.rounds_used ≤ max_tool_rounds)
        × (x.cost_usd ≡ add_costs registry services (of_int 0) x.tool_calls)
        × (response : Response A) × Talk registry services max_tool_rounds x.rounds_used
            (inputs ∷ [])
            x.tool_calls
            response
        × (x.status ≡ (if ends (some response) then "ok" else "partial"))
        × (extract_json_payload output.loads response.content ≡ ok x.collected)
  unfolding run_recipe
  run_recipe-Explained max_tool_rounds recipe x e =
      elim (Bool-cases (all_registered recipe.required_plugins (list_plugins registry))) [
        | inr b ↦
            let wrong : raise runner_error ≡ ok x =
              ap (λ c. if c then returned else raise runner_error) (sym b) ∙ e in
            cc
        | inl b ↦
            let e' : returned ≡ ok x =
              ap (λ c. if c then returned else raise runner_error) (sym b) ∙ e in
            let (s, f, g) = >>=-inv (rounds registry services max_tool_rounds start) _ e' in
            let (j, i, l) =
              rounds-IsRun registry services max_tool_rounds 0 start s refl
                (record { costs = refl; hit = refl; used = refl }) f in
            let ((used, cost, calls, status), response, last, payload) =
              finish_run-Reports recipe s s.last_response x g in
            (
              b,
              omega (arith, l, used, i.used),
              cost ∙ i.costs ∙ ap (add_costs registry services (of_int 0)) (sym calls),
              response,
              last_talk registry services max_tool_rounds start s response refl f last x.rounds_used
                  x.tool_calls used calls,
              status ∙ ap (λ c. if c then "ok" else "partial") (i.hit ∙ ap ends last),
              payload,
            )
      ]
    where
      start : RoundsState F A R
      start = first_state registry services

      returned : Result (RunResult F A R D)
      returned = rounds registry services max_tool_rounds start >>= λ s.
          finish_run output recipe s s.last_response
