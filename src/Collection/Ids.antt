-- ===== src/Collection/Ids.antt =====
-- The ids and the edges of a list of tasks, the start of the loop, and the tasks of its levels.
use whidby.Prelude.{
  has, ◌≤◌, ◌≡◌, refl, ap, sym, ◌∙◌, subst, Bool, true, not, Bool-cases, Option-cases, Option, none,
  some, inl, inr, List, [], ◌∷◌, map, String, str_eq, eq_iff, arith, length, length-append,
  countb-not, ◌==◌, if◌then◌else◌, All-append, length-filterb, ok, raise, value_error,
}
use whidby.Collection.{CollectionTask}
use whidby.Collection.TaskGraph.{
  Edge, edges, task_ids, indegree, roots, run_levels, by_id, level_tasks, all_level_tasks,
  dependency_levels, sum_lengths,
}
use whidby.Collection.Members.{
  Within, DistinctIds, has-append, has_self, has-filterb, DistinctIds-filterb,
}
use whidby.Collection.Kahn.{IntoIds}
use whidby.Collection.Levels.{joined, Ran, id_levels-Ran}

module _ {P : Type 0} where
  abbrev pub ids_of : List (CollectionTask P) → List String
  ids_of ts = map (λ t. t.task_id) ts

  pub has-task_ids :
      (x : String) (ts : List (CollectionTask P)) → has x (task_ids ts) ≡ has x (ids_of ts)
  unfolding task_ids
  has-task_ids x [] = refl
  has-task_ids x (t ∷ ts) =
      ground (arith, has-task_ids x ts, has-filterb (λ y. not (str_eq t.task_id y)) x (task_ids ts))

  pub task_ids-DistinctIds : (ts : List (CollectionTask P)) → DistinctIds (task_ids ts)
  unfolding task_ids
  task_ids-DistinctIds [] = tt
  task_ids-DistinctIds (t ∷ ts) = (
    ground (
      arith,
      eq_iff t.task_id t.task_id,
      has-filterb (λ y. not (str_eq t.task_id y)) t.task_id (task_ids ts),
    ),
    DistinctIds-filterb _ (task_ids ts) (task_ids-DistinctIds ts),
  )

  IntoIds-more :
      (t : CollectionTask P) (ts : List (CollectionTask P)) (es : List Edge)
      → IntoIds (task_ids ts) es
      → IntoIds (task_ids (t ∷ ts)) es
  unfolding task_ids
  IntoIds-more t ts [] w = tt
  IntoIds-more t ts (e ∷ es) (h, w) = (
    ground (arith, has-filterb (λ y. not (str_eq t.task_id y)) e.1 (task_ids ts)),
    IntoIds-more t ts es w,
  )

  IntoIds-own :
      (t : CollectionTask P) (ids deps : List String)
      → has t.task_id ids ≡ true
      → IntoIds ids (map (λ dep. (dep, t.task_id)) deps)
  IntoIds-own t ids [] h = tt
  IntoIds-own t ids (d ∷ ds) h = (h, IntoIds-own t ids ds h)

  pub edges-IntoIds : (ts : List (CollectionTask P)) → IntoIds (task_ids ts) (edges ts)
  unfolding edges task_ids
  edges-IntoIds [] = tt
  edges-IntoIds (t ∷ ts) =
      All-append _ (map (λ dep. (dep, t.task_id)) t.depends_on) (edges ts)
        (IntoIds-own t (task_ids (t ∷ ts)) t.depends_on (has_self t.task_id _))
        (IntoIds-more t ts (edges ts) (edges-IntoIds ts))

  pub length-task_ids : (ts : List (CollectionTask P)) → length (task_ids ts) ≤ length ts
  unfolding task_ids
  length-task_ids [] = omega arith
  length-task_ids (t ∷ ts) =
      let keep : String → Bool = λ y. not (str_eq t.task_id y) in
      omega (
        arith,
        length-task_ids ts,
        length-filterb keep (task_ids ts),
        countb-not keep (task_ids ts),
      )

  -- The loop starts in the invariant, with enough fuel.
  pub run_levels-Ran :
      (ts : List (CollectionTask P)) → Ran (edges ts) (task_ids ts) [] (run_levels ts)
  unfolding run_levels roots indegree
  run_levels-Ran ts =
      let degree = indegree (edges ts) in
      let root : String → Bool = λ i. degree i == 0 in
      id_levels-Ran (edges ts) (task_ids ts) (length ts) degree (roots ts) [] (edges-IntoIds ts)
        (record {
          distinct = DistinctIds-filterb root (task_ids ts) (task_ids-DistinctIds ts);
          zero_degree = λ x h. ground (arith, has-filterb root x (task_ids ts));
          complete = λ x h z. ground (arith, has-filterb root x (task_ids ts));
          within = λ x h. ground (arith, has-filterb root x (task_ids ts));
        })
        (λ x. refl) (omega (arith, length-task_ids ts))

  abbrev Found : String → Option (CollectionTask P) → Type 0
  Found i none = Unit
  Found i (some t) = t.task_id ≡ i

  by_id-Found : (ts : List (CollectionTask P)) (i : String) → Found i (by_id ts i)
  unfolding by_id
  by_id-Found [] i = tt
  by_id-Found (t ∷ ts) i = elim (Option-cases (by_id ts i)) [
    | inr (v, f) ↦ rw (f, by_id) (subst (Found i) f (by_id-Found ts i))
    | inl f ↦ elim (Bool-cases (str_eq t.task_id i)) [
      | inl e ↦ rw (f, by_id, e) ((eq_iff t.task_id i).0 e)
      | inr e ↦ rw (f, by_id, e) tt
    ]
  ]

  by_id-has :
      (ts : List (CollectionTask P)) (i : String)
      → has i (ids_of ts) ≡ true
      → (t : CollectionTask P) × (by_id ts i ≡ some t) × (t.task_id ≡ i)
  unfolding by_id
  by_id-has [] i h = ground arith
  by_id-has (t ∷ ts) i h = elim (Bool-cases (has i (ids_of ts))) [
    | inl e ↦ let (u, f, g) = by_id-has ts i e in rw (f, by_id) (u, refl, g)
    | inr e ↦ elim (Option-cases (by_id ts i)) [
      | inl f ↦
          let same : str_eq t.task_id i ≡ true = ground (arith, h, e) in
          rw (f, by_id, same) (t, refl, (eq_iff t.task_id i).0 same)
      | inr (u, f) ↦ rw (f, by_id) (u, refl, subst (Found i) f (by_id-Found ts i))
    ]
  ]

  level_tasks-has :
      (ts : List (CollectionTask P)) (ids : List String)
      → Within ids (ids_of ts)
      → (level : List (CollectionTask P)) × (level_tasks ts ids ≡ ok level) × (ids_of level ≡ ids)
  unfolding level_tasks
  level_tasks-has ts [] w = ([], refl, refl)
  level_tasks-has ts (i ∷ ids) w =
      let (t, e, f) = by_id-has ts i (w i (has_self i ids)) in
      let (level, g, h) = level_tasks-has ts ids (λ x k. w x (ground arith)) in
      (t ∷ level, rw (e, level_tasks, g) refl, cc)

  all_level_tasks-has :
      (ts : List (CollectionTask P)) (ls : List (List String))
      → Within (joined ls) (ids_of ts)
      → (levels : List (List (CollectionTask P))) × (all_level_tasks ts ls ≡ ok levels)
        × (map ids_of levels ≡ ls)
  unfolding all_level_tasks
  all_level_tasks-has ts [] w = ([], refl, refl)
  all_level_tasks-has ts (l ∷ ls) w =
      let (level, e, f) =
        level_tasks-has ts l (λ x k. w x (ground (arith, has-append x l (joined ls)))) in
      let (levels, g, h) =
        all_level_tasks-has ts ls (λ x k. w x (ground (arith, has-append x l (joined ls)))) in
      (level ∷ levels, rw (e, g) refl, rw (f, h) refl)

  pub length-ids_of : (ts : List (CollectionTask P)) → length (ids_of ts) ≡ length ts
  length-ids_of [] = refl
  length-ids_of (t ∷ ts) = omega (arith, length-ids_of ts)

  sum_lengths-joined :
      (levels : List (List (CollectionTask P)))
      → sum_lengths levels ≡ length (joined (map ids_of levels))
  sum_lengths-joined [] = refl
  sum_lengths-joined (l ∷ ls) = omega (
    arith,
    sum_lengths-joined ls,
    length-append (ids_of l) (joined (map ids_of ls)),
    length-ids_of l,
  )

  -- `dependency_levels` compares the number of ids that were queued with the number of tasks.
  pub dependency_levels-computed :
      (ts : List (CollectionTask P))
      → (levels : List (List (CollectionTask P))) × (map ids_of levels ≡ (run_levels ts).0)
        × (dependency_levels ts ≡ (
            if length (joined (run_levels ts).0) == length ts
            then ok levels
            else raise value_error))
  unfolding dependency_levels
  dependency_levels-computed ts =
      let ran = run_levels-Ran ts in
      let inside : Within (joined (run_levels ts).0) (ids_of ts) =
        λ x h. sym (has-task_ids x ts) ∙ ran.queued.within x h in
      let (levels, e, f) = all_level_tasks-has ts (run_levels ts).0 inside in
      let same : sum_lengths levels ≡ length (joined (run_levels ts).0) =
        sum_lengths-joined levels ∙ ap (λ ls. length (joined ls)) f in
      (levels, f, rw (e, same) refl)
