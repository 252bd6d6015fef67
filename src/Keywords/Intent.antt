-- ===== src/Keywords/Intent.antt =====
-- src/pipeline/intent_classifier.py: the intent of a keyword, by rules or by a classifier, which is a
-- parameter that returns or raises.
use whidby.Prelude.{
  ℕ, Bool, false, ◌||◌, List, [], ◌∷◌, Option, none, some, String, str_eq, starts_with, occurs, has,
  if◌then◌else◌, Result, ok, raise,
}
use whidby.Signals.{codes, strip, lower}
use whidby.Keywords.{allowed_intents}

abbrev any_starts : List String → List ℕ → Bool
any_starts [] t = false
any_starts (p ∷ ps) t = starts_with (codes p) t || any_starts ps t

abbrev pub any_occurs : List String → List ℕ → Bool
any_occurs [] t = false
any_occurs (p ∷ ps) t = occurs (codes p) t || any_occurs ps t

abbrev informational_prefixes : List String
informational_prefixes =
    "how to" ∷ "what is" ∷ "why " ∷ "can i " ∷ "do i " ∷ "guide to" ∷ "tips for" ∷ []

abbrev informational_hints : List String
informational_hints = "tutorial" ∷ "checklist" ∷ "ideas" ∷ "examples" ∷ []

abbrev transactional_hints : List String
transactional_hints =
    "near me" ∷ "emergency" ∷ "24 hour" ∷ "same day" ∷ "repair" ∷ "service" ∷ "services" ∷ "install"
    ∷ "replacement" ∷ []

abbrev commercial_hints : List String
commercial_hints = "best" ∷ "top" ∷ "reviews" ∷ "cost" ∷ "price" ∷ "quote" ∷ "company" ∷ []

-- The rules on a text that is normalized.
unfoldable pub intent_of : List ℕ → Option String
intent_of [] = none
intent_of (c ∷ cs) =
    if any_starts informational_prefixes (c ∷ cs)
    then some "informational"
    else if any_occurs informational_hints (c ∷ cs)
    then some "informational"
    else if any_occurs transactional_hints (c ∷ cs)
    then some "transactional"
    else if any_occurs commercial_hints (c ∷ cs)
    then some "commercial"
    else none

unfoldable pub infer_intent_from_rules : List ℕ → Option String
unfolding strip lower intent_of
infer_intent_from_rules query = intent_of (lower (strip query))

-- The answer of the classifier call, if there is a client; `commercial` otherwise.
unfoldable pub predicted_intent : Option (List ℕ → Result String) → List ℕ → String
predicted_intent none keyword = "commercial"
predicted_intent (some classify_intent) keyword = elim (classify_intent keyword) [
  | ok predicted ↦ if has predicted allowed_intents then predicted else "commercial"
  | raise e ↦ "commercial"
]

-- `llm_intent`, the rules, the classifier, in this order.
unfoldable pub classify_keyword_intent :
    List ℕ → Option (List ℕ → Result String) → Option String → String
unfolding infer_intent_from_rules predicted_intent
classify_keyword_intent keyword client llm_intent =
    let by_rules : String = elim (infer_intent_from_rules keyword) [
      | some inferred ↦ inferred
      | none ↦ predicted_intent client keyword
    ] in
    elim llm_intent [ none ↦ by_rules | some i ↦ if has i allowed_intents then i else by_rules ]

unfoldable pub aio_risk_for_intent : String → String
aio_risk_for_intent intent =
    if str_eq intent "transactional"
    then "low"
    else if str_eq intent "informational"
    then "high"
    else "moderate"

unfoldable pub is_actionable_intent : String → Bool
is_actionable_intent intent = has intent ("transactional" ∷ "commercial" ∷ [])
