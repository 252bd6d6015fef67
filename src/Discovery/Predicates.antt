-- ===== src/Discovery/Predicates.antt =====
-- src/domain/services/discovery_service.py: the predicates of the filters on cities and on services.
-- The comparisons are those of Python on the values that a field can hold: a bool is compared as 0 or
-- 1, texts and lists go by their first difference, and values of two kinds have no order. `text_of` is
-- Python's `str`.
use whidby.Prelude.{
  Order, below, equal, above, order_codes, occurs, ℕ, Bool, true, false, not, ◌&&◌, ◌||◌, List, [],
  ◌∷◌, map, Option, none, some, String, str_eq, if◌then◌else◌, Result, ok, raise, ◌>>=◌, after,
  type_error, value_error, attribute_error,
}
use whidby.Num.Order.{Num, of_int, le_num}
use whidby.Signals.{codes, text_eq, lower}
use whidby.Lenses.Entities.{City, Service}

pub data Atom (F : Type 0) : Type 0 where
  number : F → Atom F
  flag : Bool → Atom F
  text : List ℕ → Atom F

-- A value of a field or of a filter; `object` is the seasonality of a service.
pub data Operand (F : Type 0) : Type 0 where
  atom : Atom F → Operand F
  list : List (Atom F) → Operand F
  dict : List (List ℕ × Atom F) → Operand F
  object : Operand F

abbrev is_equal : Order → Bool
is_equal o = elim o [ equal ↦ true | _ ↦ false ]

abbrev is_below : Order → Bool
is_below o = elim o [ below ↦ true | _ ↦ false ]

abbrev is_above : Order → Bool
is_above o = elim o [ above ↦ true | _ ↦ false ]

-- `CityFilter` and `ServiceFilter`
pub record FieldFilter (F : Type 0) : Type 0 where
  pub field : String
  pub operator : String
  pub value : Operand F

abbrev pub has_text : {F : Type 0} → List ℕ → List (List ℕ × Atom F) → Bool
has_text t [] = false
has_text t ((k, a) ∷ es) = text_eq k t || has_text t es

abbrev pub atom_at : {F : Type 0} → List ℕ → List (List ℕ × Atom F) → Option (Atom F)
atom_at t [] = none
atom_at t ((k, a) ∷ es) = if text_eq k t then some a else atom_at t es

module _ {F : Type 0} ⦃n : Num F⦄ where
  abbrev pub order_numbers : F → F → Order
  order_numbers x y = if le_num x y then (if le_num y x then equal else below) else above

  abbrev pub number_of_flag : Bool → F
  number_of_flag b = if b then of_int 1 else of_int 0

  unfoldable pub order_atoms : Atom F → Atom F → Result Order
  order_atoms (number x) (number y) = ok (order_numbers x y)
  order_atoms (number x) (flag b) = ok (order_numbers x (number_of_flag b))
  order_atoms (flag a) (number y) = ok (order_numbers (number_of_flag a) y)
  order_atoms (flag a) (flag b) = ok (order_numbers (number_of_flag a) (number_of_flag b))
  order_atoms (text s) (text t) = ok (order_codes s t)
  order_atoms (text s) (number y) = raise type_error
  order_atoms (text s) (flag b) = raise type_error
  order_atoms (number x) (text t) = raise type_error
  order_atoms (flag a) (text t) = raise type_error

  unfoldable pub equal_atoms : Atom F → Atom F → Bool
  unfolding order_atoms
  equal_atoms a b = elim (order_atoms a b) [ ok o ↦ is_equal o | raise e ↦ false ]

  unfoldable pub equal_lists : List (Atom F) → List (Atom F) → Bool
  unfolding equal_atoms
  equal_lists [] [] = true
  equal_lists (a ∷ as') (b ∷ bs) = equal_atoms a b && equal_lists as' bs
  equal_lists [] (b ∷ bs) = false
  equal_lists (a ∷ as') [] = false

  -- Every entry of the first dict is in the second.
  unfoldable pub entries_within : List (List ℕ × Atom F) → List (List ℕ × Atom F) → Bool
  unfolding equal_atoms
  entries_within [] es = true
  entries_within ((k, a) ∷ ds) es =
      elim (atom_at k es) [ none ↦ false | some b ↦ equal_atoms a b ] && entries_within ds es

  unfoldable pub equal_operands : Operand F → Operand F → Bool
  unfolding equal_atoms equal_lists entries_within
  equal_operands (atom a) (atom b) = equal_atoms a b
  equal_operands (list as') (list bs) = equal_lists as' bs
  equal_operands (dict ds) (dict es) = entries_within ds es && entries_within es ds
  equal_operands _ _ = false

  unfoldable pub order_lists : List (Atom F) → List (Atom F) → Result Order
  unfolding equal_atoms order_atoms
  order_lists [] [] = ok equal
  order_lists [] (b ∷ bs) = ok below
  order_lists (a ∷ as') [] = ok above
  order_lists (a ∷ as') (b ∷ bs) =
      let rest = order_lists as' bs in if equal_atoms a b then rest else order_atoms a b

  unfoldable pub order_operands : Operand F → Operand F → Result Order
  unfolding order_atoms order_lists
  order_operands (atom a) (atom b) = order_atoms a b
  order_operands (list as') (list bs) = order_lists as' bs
  order_operands _ _ = raise type_error

  abbrev has_atom : Atom F → List (Atom F) → Bool
  has_atom a [] = false
  has_atom a (b ∷ bs) = equal_atoms a b || has_atom a bs

  -- `v in t`
  unfoldable pub member : Operand F → Operand F → Result Bool
  unfolding equal_atoms
  member (atom a) (list bs) = ok (has_atom a bs)
  member _ (list bs) = ok false
  member (atom (text s)) (atom (text t)) = ok (occurs s t)
  member (atom (text s)) (dict es) = ok (has_text s es)
  member (atom (number x)) (dict es) = ok false
  member (atom (flag b)) (dict es) = ok false
  member _ _ = raise type_error

  -- `t.lower() in str(v).lower()`
  unfoldable pub like : (Operand F → List ℕ) → Operand F → Operand F → Result Bool
  unfolding lower
  like text_of v (atom (text t)) = ok (occurs (lower t) (lower (text_of v)))
  like text_of v _ = raise attribute_error

  unfoldable pub evaluate_predicate :
      (Operand F → List ℕ) → Operand F → String → Operand F → Result Bool
  unfolding order_operands equal_operands member like
  evaluate_predicate text_of value operator target =
      if str_eq operator ">"
      then after is_above (order_operands value target)
      else if str_eq operator "<"
      then after is_below (order_operands value target)
      else if str_eq operator ">="
      then after (λ o. not (is_below o)) (order_operands value target)
      else if str_eq operator "<="
      then after (λ o. not (is_above o)) (order_operands value target)
      else if str_eq operator "="
      then ok (equal_operands value target)
      else if str_eq operator "!="
      then ok (not (equal_operands value target))
      else if str_eq operator "in"
      then member value target
      else if str_eq operator "like"
      then like text_of value target
      else raise value_error

module _ {F : Type 0} where
  abbrev pub some_number : Option F → Option (Operand F)
  some_number none = none
  some_number (some x) = some (atom (number x))

  abbrev pub some_text : Option (List ℕ) → Option (Operand F)
  some_text none = none
  some_text (some t) = some (atom (text t))

  abbrev dict_of : List (List ℕ × F) → Operand F
  dict_of es = dict (map (λ e. (e.0, number e.1)) es)

  -- `getattr(city, name, None)`, `none` for `None`
  unfoldable pub city_field : City F → String → Option (Operand F)
  city_field c name =
      if str_eq name "city_id"
      then some (atom (text (codes c.city_id)))
      else if str_eq name "name"
      then some (atom (text c.name))
      else if str_eq name "state"
      then some_text c.state
      else if str_eq name "population"
      then some_number c.population
      else if str_eq name "median_income"
      then some_number c.median_income
      else if str_eq name "homeownership_rate"
      then some_number c.homeownership_rate
      else if str_eq name "housing_age_median"
      then some_number c.housing_age_median
      else if str_eq name "business_density"
      then some (dict_of c.business_density)
      else if str_eq name "broadband_penetration"
      then some_number c.broadband_penetration
      else if str_eq name "growth_rate"
      then some_number c.growth_rate
      else if str_eq name "cbsa_code"
      then some_text c.cbsa_code
      else if str_eq name "dataforseo_location_codes"
      then some (list (map (λ x. number x) c.dataforseo_location_codes))
      else if str_eq name "principal_cities"
      then some (list (map (λ t. text t) c.principal_cities))
      else if str_eq name "archetype"
      then some_text c.archetype
      else if str_eq name "demographics"
      then some (dict_of c.demographics)
      else none

  -- `getattr(service, name, None)`
  unfoldable pub service_field : Service F → String → Option (Operand F)
  service_field s name =
      if str_eq name "service_id"
      then some (atom (text s.service_id))
      else if str_eq name "name"
      then some (atom (text s.name))
      else if str_eq name "naics_code"
      then some_text s.naics_code
      else if str_eq name "acv_estimate"
      then some_number s.acv_estimate
      else if str_eq name "seasonality"
      then (if s.has_seasonality then some object else none)
      else if str_eq name "fulfillment_type"
      then some (atom (text s.fulfillment_type))
      else if str_eq name "ai_resilience_baseline"
      then some_number s.ai_resilience_baseline
      else if str_eq name "keyword_universe"
      then some (list (map (λ t. text t) s.keyword_universe))
      else none

  -- The loop of `_passes_city_filters` and of `_passes_service_filters` over the fields of one value.
  unfoldable pub passes_filters :
      ⦃n : Num F⦄
      → (Operand F → List ℕ)
      → (String → Option (Operand F))
      → List (FieldFilter F)
      → Result Bool
  unfolding evaluate_predicate
  passes_filters text_of field [] = ok true
  passes_filters text_of field (f ∷ fs) =
      let rest = passes_filters text_of field fs in
      elim (field f.field) [
        | none ↦ ok false
        | some value ↦ evaluate_predicate text_of value f.operator f.value >>= λ met.
            if met then rest else ok false
      ]

  unfoldable pub passes_city_filters :
      ⦃n : Num F⦄ → (Operand F → List ℕ) → City F → List (FieldFilter F) → Result Bool
  unfolding passes_filters city_field
  passes_city_filters text_of city filters = passes_filters text_of (city_field city) filters

  unfoldable pub passes_service_filters :
      ⦃n : Num F⦄ → (Operand F → List ℕ) → Service F → List (FieldFilter F) → Result Bool
  unfolding passes_filters service_field
  passes_service_filters text_of service filters =
      passes_filters text_of (service_field service) filters
