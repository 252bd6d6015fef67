-- ===== src/Collection/Plan/Numbers.antt =====
-- collection_plan.py: the numbers of the planned tasks.
use whidby.Prelude.{
  has, ℕ, suc, ◌+◌, ◌<◌, ◌≡◌, refl, ap, sym, ◌∙◌, subst, false, Bool-cases, inl, inr, List, [], ◌∷◌,
  ◌++◌, map, String, str_eq, eq_iff, arith, length,
}
use whidby.Collection.{CollectionTask, Payload}
use whidby.Collection.TaskGraph.{edges}
use whidby.Collection.Members.{DistinctIds}
use whidby.Collection.Ids.{ids_of}
use whidby.Collection.Plan.{
  KeywordDescriptor, MetroInput, CollectionProfile, CollectionRequest, chunked,
  max_volume_batch_size, eligible_keywords, volume_tasks, organic_tasks, maps_tasks, plan_metros,
}

module _ (format_id : ℕ → String) where
  -- The tasks have the ids from a number on, and no dependencies.
  abbrev pub Numbered : ℕ → List (CollectionTask Payload) → Type 0
  Numbered start [] = Unit
  Numbered start (t ∷ ts) =
      (t.task_id ≡ format_id start) × (t.depends_on ≡ []) × Numbered (suc start) ts

  Numbered-append :
      (start : ℕ) (xs ys : List (CollectionTask Payload))
      → Numbered start xs
      → Numbered (start + length xs) ys
      → Numbered start (xs ++ ys)
  Numbered-append start [] ys a b = subst (λ n. Numbered n ys) (omega arith) b
  Numbered-append start (x ∷ xs) ys (e, d, a) b =
      (e, d, Numbered-append (suc start) xs ys a (subst (λ n. Numbered n ys) (omega arith) b))

  volume_tasks-Numbered :
      (metro : MetroInput) (n i : ℕ) (bs : List (List String))
      → Numbered n (volume_tasks format_id metro n i bs)
        × (length (volume_tasks format_id metro n i bs) ≡ length bs)
  unfolding volume_tasks
  volume_tasks-Numbered metro n i [] = (tt, refl)
  volume_tasks-Numbered metro n i (b ∷ bs) =
      let (a, l) = volume_tasks-Numbered metro (suc n) (suc i) bs in
      ((refl, refl, a), omega (arith, l))

  organic_tasks-Numbered :
      (metro : MetroInput) (n : ℕ) (ks : List KeywordDescriptor)
      → Numbered n (organic_tasks format_id metro n ks)
        × (length (organic_tasks format_id metro n ks) ≡ length ks)
  unfolding organic_tasks
  organic_tasks-Numbered metro n [] = (tt, refl)
  organic_tasks-Numbered metro n (k ∷ ks) =
      let (a, l) = organic_tasks-Numbered metro (suc n) ks in ((refl, refl, a), omega (arith, l))

  maps_tasks-Numbered :
      (metro : MetroInput) (p : CollectionProfile) (first n : ℕ) (ks : List KeywordDescriptor)
      → Numbered n ((maps_tasks format_id metro p first n ks).0)
  unfolding maps_tasks
  maps_tasks-Numbered metro p first n [] = tt
  maps_tasks-Numbered metro p first n (k ∷ ks) = (refl, refl, tt)

  pub plan_metros-Numbered :
      (request : CollectionRequest) (metros : List MetroInput) (n : ℕ)
      → Numbered n ((plan_metros format_id request metros n).base_tasks)
  unfolding plan_metros
  plan_metros-Numbered request [] n = tt
  plan_metros-Numbered request (metro ∷ metros) n =
      let batches = chunked (map (λ k. k.keyword) request.keywords) max_volume_batch_size in
      let eligible = eligible_keywords request in
      let first = n + length batches in
      let maps = first + length eligible in
      let profile = request.collection_profile in
      let mapped = maps_tasks format_id metro profile first maps eligible in
      let next = maps + length mapped.0 in
      let rest = (plan_metros format_id request metros next).base_tasks in
      let (a, l) = volume_tasks-Numbered metro n 1 batches in
      let (b, k) = organic_tasks-Numbered metro first eligible in
      Numbered-append n (volume_tasks format_id metro n 1 batches) _ a (
        subst (λ i. Numbered i (organic_tasks format_id metro first eligible ++ (mapped.0 ++ rest)))
          (ap (λ c. n + c) (sym l))
          (Numbered-append first (organic_tasks format_id metro first eligible) _ b (
            subst (λ i. Numbered i (mapped.0 ++ rest)) (ap (λ c. first + c) (sym k))
              (Numbered-append maps mapped.0 rest
                (maps_tasks-Numbered metro profile first maps eligible)
                (plan_metros-Numbered request metros next)))))

  Numbered-above :
      (start : ℕ) (ts : List (CollectionTask Payload)) (i : ℕ)
      → ((a b : ℕ) → format_id a ≡ format_id b → a ≡ b)
      → i < start
      → Numbered start ts
      → has (format_id i) (ids_of ts) ≡ false
  Numbered-above start [] i inj l h = refl
  Numbered-above start (t ∷ ts) i inj l (e, d, h) =
      let later = Numbered-above (suc start) ts i inj (omega (arith, l)) h in
      elim (Bool-cases (str_eq t.task_id (format_id i))) [
        | inl same ↦
            absurd (omega (arith, l, inj start i (sym e ∙ (eq_iff t.task_id (format_id i)).0 same)))
        | inr other ↦ ground (arith, later)
      ]

  pub Numbered-DistinctIds :
      (start : ℕ) (ts : List (CollectionTask Payload))
      → ((a b : ℕ) → format_id a ≡ format_id b → a ≡ b)
      → Numbered start ts
      → DistinctIds (ids_of ts)
  Numbered-DistinctIds start [] inj h = tt
  Numbered-DistinctIds start (t ∷ ts) inj (e, d, h) = (
    subst (λ i. has i (ids_of ts) ≡ false) (sym e)
        (Numbered-above (suc start) ts start inj (omega arith) h),
    Numbered-DistinctIds (suc start) ts inj h,
  )

  pub Numbered-edges :
      (start : ℕ) (ts : List (CollectionTask Payload)) → Numbered start ts → edges ts ≡ []
  unfolding edges
  Numbered-edges start [] h = refl
  Numbered-edges start (t ∷ ts) (e, d, h) = rw (d, Numbered-edges (suc start) ts h) refl
