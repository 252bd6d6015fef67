-- ===== src/Recipes/Conversation.antt =====
-- src/research_agent/recipes/runner.py: the exchange of messages behind the rounds of a run.
use whidby.Prelude.{
  ℕ, zero, suc, ◌+◌, ◌≡◌, refl, sym, ap, ◌∙◌, subst, Bool, true, false, inl, inr, List, [], ◌∷◌,
  ◌++◌, some, String, str_eq, arith, ok, >>=-inv, ok-injective, if◌then◌else◌, List-cases,
}
use mathlib.Core.List.{append_assoc, append-nil}
use whidby.Num.Order.{Num}
use whidby.Plugins.{PluginRegistry}
use whidby.Recipes.Runner.{
  Response, ToolRecord, ModelMessage, assistant, tool_results, ModelServices, RoundsState,
  tool_uses, executed, answered, turned, seen_by, round_of, rounds,
}

module _ {A : Type 0} where
  abbrev pub asks_if : Bool → Bool → Response A → List (String × A)
  asks_if true uses_tools response = []
  asks_if false false response = []
  asks_if false true response = tool_uses response.content

  -- The tools that a response asks for: none at the end of the turn or for any stop reason but
  -- `tool_use`.
  abbrev pub asks : Response A → List (String × A)
  asks response =
      asks_if (str_eq response.stop_reason "end_turn") (str_eq response.stop_reason "tool_use")
        response

module _ {F A R : Type 0} ⦃n : Num F⦄ (registry : PluginRegistry A R)
    (services : ModelServices F A R) where
  -- The messages after a response and the results of the tools that it asks for.
  abbrev pub told :
      List (ModelMessage F A R) → Response A → List (String × A) → List (ModelMessage F A R)
  told ms response uses =
      ms ++ assistant response.content ∷ tool_results (executed registry services uses) ∷ []

  -- `Talk left used ms calls last`: from the messages `ms` and with `left` rounds allowed, the model
  -- answers `used` times, `calls` are the records of the tools that it asks for, and `last` is its
  -- last answer. It is the last one because it asks for no tool, or because no round is left.
  pub data Talk
      : ℕ → ℕ → List (ModelMessage F A R) → List (ToolRecord F A R) → Response A → Type 0 where
    final :
        {left : ℕ} {ms : List (ModelMessage F A R)} {last : Response A}
        → services.create ms ≡ ok last
        → asks last ≡ []
        → Talk (suc left) 1 ms [] last
    out :
        {ms : List (ModelMessage F A R)} {last : Response A} {u : String × A}
        {us : List (String × A)}
        → services.create ms ≡ ok last
        → asks last ≡ u ∷ us
        → Talk 1 1 ms (executed registry services (u ∷ us)) last
    more :
        {left used : ℕ} {ms : List (ModelMessage F A R)} {calls : List (ToolRecord F A R)}
        {response last : Response A} {u : String × A} {us : List (String × A)}
        → services.create ms ≡ ok response
        → asks response ≡ u ∷ us
        → Talk left used (told ms response (u ∷ us)) calls last
        → Talk (suc left) (suc used) ms (executed registry services (u ∷ us) ++ calls) last

  -- What a round leaves, by the tools that its response asks for.
  abbrev Round :
      RoundsState F A R → Response A → List (String × A) → RoundsState F A R × Bool → Type 0
  Round s response [] p =
      (p.1 ≡ false)
      × (p.0.tool_calls ≡ s.tool_calls)
      × (p.0.rounds_used ≡ s.rounds_used + 1)
      × (p.0.last_response ≡ some response)
  Round s response (u ∷ us) p =
      (p.1 ≡ true)
      × (p.0.tool_calls ≡ s.tool_calls ++ executed registry services (u ∷ us))
      × (p.0.rounds_used ≡ s.rounds_used + 1)
      × (p.0.last_response ≡ some response)
      × (p.0.messages ≡ told s.messages response (u ∷ us))

  answered-Round :
      (response : Response A) (us : List (String × A)) (s : RoundsState F A R)
      → Round s response us
          (answered registry services response us (seen_by registry services response s))
  unfolding answered
  answered-Round response [] s = (refl, refl, omega arith, refl)
  answered-Round response (u ∷ us) s = (refl, refl, omega arith, refl, refl)

  turned-Round :
      (is_end uses_tools : Bool) (response : Response A) (s : RoundsState F A R)
      → Round s response (asks_if is_end uses_tools response) (
          turned registry services is_end uses_tools response
            (seen_by registry services response s))
  unfolding turned
  turned-Round true uses_tools response s = (refl, refl, omega arith, refl)
  turned-Round false false response s = (refl, refl, omega arith, refl)
  turned-Round false true response s = answered-Round response (tool_uses response.content) s

  -- What rounds that return leave: the exchange that took place from the state `s`.
  abbrev pub Talked : ℕ → RoundsState F A R → RoundsState F A R → Type 0
  Talked left s t =
      (used : ℕ) × (calls : List (ToolRecord F A R)) × (last : Response A) × Talk left used
        s.messages calls last
      × (t.tool_calls ≡ s.tool_calls ++ calls)
      × (t.rounds_used ≡ s.rounds_used + used)
      × (t.last_response ≡ some last)

  -- A round after which the loop goes on, from what is known of the rounds that are left.
  goes_on-Talked :
      (left : ℕ) (s next t : RoundsState F A R) (response : Response A) (u : String × A)
      (us : List (String × A))
      → services.create s.messages ≡ ok response
      → asks response ≡ u ∷ us
      → Round s response (u ∷ us) (next, true)
      → rounds registry services left next ≡ ok t
      → ((k : ℕ) → left ≡ suc k → Talked left next t)
      → Talked (suc left) s t
  unfolding rounds
  goes_on-Talked zero s next t response u us f asked (b, calls, used, last, messages) e rest =
      let same : next ≡ t = ok-injective e in
      (
        1,
        executed registry services (u ∷ us),
        response,
        out f asked,
        ap (λ x. x.tool_calls) (sym same) ∙ calls,
        ap (λ x. x.rounds_used) (sym same) ∙ used,
        ap (λ x. x.last_response) (sym same) ∙ last,
      )
  goes_on-Talked (suc k) s next t response u us f asked (b, calls, used, last, messages) e rest =
      let records = executed registry services (u ∷ us) in
      let (used', calls', last', talk, calls_eq, used_eq, last_eq) = rest k refl in
      (
        suc used',
        records ++ calls',
        last',
        more f asked (subst (λ ms. Talk (suc k) used' ms calls' last') messages talk),
        calls_eq ∙ ap (λ xs. xs ++ calls') calls ∙ append_assoc s.tool_calls records calls',
        omega (arith, used_eq, used),
        last_eq,
      )

  pub rounds-Talked :
      (left : ℕ) (s t : RoundsState F A R)
      → rounds registry services left s ≡ ok t
      → (k : ℕ) → left ≡ suc k
      → Talked left s t
  unfolding rounds round_of
  rounds-Talked zero s t e k positive = cc
  rounds-Talked (suc left) s t e k positive =
      let (response, f, g) = >>=-inv (services.create s.messages) _ e in
      let next = round_of registry services response s in
      let rest = rounds registry services left next.0 in
      let shape : Round s response (asks response) next =
        turned-Round (str_eq response.stop_reason "end_turn")
          (str_eq response.stop_reason "tool_use") response s in
      elim (List-cases (asks response)) [
        | inl none_asked ↦
            let (b, calls, used, last) = subst (λ us. Round s response us next) none_asked shape in
            let same : next.0 ≡ t =
              ok-injective (ap (λ c. if c then rest else ok next.0) (sym b) ∙ g) in
            (
              1,
              [],
              response,
              final f none_asked,
              ap (λ x. x.tool_calls) (sym same) ∙ calls ∙ sym (append-nil s.tool_calls),
              ap (λ x. x.rounds_used) (sym same) ∙ used,
              ap (λ x. x.last_response) (sym same) ∙ last,
            )
        | inr (u, us, asked) ↦
            let r = subst (λ us. Round s response us next) asked shape in
            let e' : rest ≡ ok t = ap (λ c. if c then rest else ok next.0) (sym r.0) ∙ g in
            goes_on-Talked left s next.0 t response u us f asked (refl, r.1, r.2, r.3, r.4) e'
              (rounds-Talked left next.0 t e')
      ]
