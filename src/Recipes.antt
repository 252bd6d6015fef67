-- ===== src/Recipes.antt =====
-- src/research_agent/recipes/base.py: the recipes and their registry. `D` are the JSON dicts.
pub mod Json
pub mod Runner
mod Conversation
mod Rounds
mod Tests
use whidby.Prelude.{
  List, [], ◌∷◌, map, Option, none, some, String, str_eq, if◌then◌else◌, Result, ok, raise,
  value_error, key_error, has, keys, assign, lookup, filterb,
}
use whidby.Plugins.{before_id, sort_ids}

pub record Recipe (D : Type 0) : Type 0 where
  pub recipe_id : String
  pub audience : String
  pub required_plugins : List String
  pub optional_plugins : List String
  pub system_prompt : String
  pub template_name : String
  pub scoring_fn : Option (D → Result D)

-- The registry is the dict of the recipes.
module _ {D : Type 0} where
  unfoldable pub register_recipe :
      Recipe D → List (String × Recipe D) → Result (List (String × Recipe D))
  register_recipe recipe recipes =
      if has recipe.recipe_id (keys recipes)
      then raise value_error
      else ok (assign recipe.recipe_id recipe recipes)

  unfoldable pub get_recipe : String → List (String × Recipe D) → Result (Recipe D)
  get_recipe recipe_id recipes = elim (lookup recipe_id recipes) [
    | none ↦ raise key_error
    | some r ↦ ok r
  ]

  unfoldable pub list_recipes : List (String × Recipe D) → List String
  unfolding sort_ids
  list_recipes recipes = sort_ids (keys recipes)

  unfoldable pub insert_recipe : Recipe D → List (Recipe D) → List (Recipe D)
  insert_recipe r [] = r ∷ []
  insert_recipe r (s ∷ ss) =
      let rest = insert_recipe r ss in
      if before_id r.recipe_id s.recipe_id then r ∷ s ∷ ss else s ∷ rest

  unfoldable pub sort_recipes : List (Recipe D) → List (Recipe D)
  unfolding insert_recipe
  sort_recipes [] = []
  sort_recipes (r ∷ rs) = insert_recipe r (sort_recipes rs)

  unfoldable pub list_by_audience : String → List (String × Recipe D) → List (Recipe D)
  unfolding sort_recipes
  list_by_audience audience recipes =
      sort_recipes (filterb (λ r. str_eq r.audience audience) (map (λ e. e.1) recipes))
