-- ===== src/Collection/Acyclic.antt =====
-- When `validate_task_graph` accepts a list of tasks, and what the levels promise then.
use whidby.Prelude.{
  has, ℕ, zero, suc, ◌<◌, ◌≡◌, refl, ap, sym, ◌∙◌, subst, Bool, true, false, not, ◌↔◌, Bool-cases,
  inl, inr, List, [], ◌∷◌, map, String, str_eq, eq_iff, arith, length, countb, countb-not,
  length-filterb, ◌==◌, ==_iff, if◌then◌else◌, All, ok, raise, Result, value_error, ok-injective,
  >>=-inv, ◌>>=◌,
}
use whidby.Collection.{CollectionTask}
use whidby.Collection.TaskGraph.{
  Edge, edges, task_ids, run_levels, all_known, dependency_levels, validate_task_graph,
}
use whidby.Collection.Members.{All-has, Within, DistinctIds, length-DistinctIds}
use whidby.Collection.Kahn.{waits_for}
use whidby.Collection.Levels.{joined, Layered}
use whidby.Collection.Order.{Within-length, position, edges_forward}
use whidby.Collection.Ids.{
  ids_of, has-task_ids, task_ids-DistinctIds, edges-IntoIds, length-task_ids, run_levels-Ran,
  dependency_levels-computed, length-ids_of,
}

-- If the ids of lower rank are queued, the edges into `x` wait for nothing.
countb-waits_for :
    (es : List Edge) (seen ids : List String) (rank : String → ℕ) (x : String)
    → All (λ e. has e.0 ids ≡ true) es
    → All (λ e. rank e.0 < rank e.1) es
    → ((d : String) → has d ids ≡ true → rank d < rank x → has d seen ≡ true)
    → countb (waits_for seen x) es ≡ 0
countb-waits_for [] seen ids rank x k r h = refl
countb-waits_for (e ∷ es) seen ids rank x (k, ks) (r, rs) h = elim (Bool-cases (str_eq e.1 x)) [
  | inl same ↦
      let inside = h e.0 k (subst (λ i. rank e.0 < rank i) ((eq_iff e.1 x).0 same) r) in
      ground (arith, inside, countb-waits_for es seen ids rank x ks rs h)
  | inr other ↦ ground (arith, countb-waits_for es seen ids rank x ks rs h)
]

module _ {P : Type 0} where
  -- Distinct ids, known dependencies, and a rank that grows along every dependency.
  pub record IsAcyclic (ts : List (CollectionTask P)) : Type 0 where
    pub distinct : DistinctIds (ids_of ts)
    pub known : All (λ e. has e.0 (ids_of ts) ≡ true) (edges ts)
    pub rank : String → ℕ
    pub forward : All (λ e. rank e.0 < rank e.1) (edges ts)

  ranked_queued :
      (ts : List (CollectionTask P)) (a : IsAcyclic ts) (n : ℕ) (x : String)
      → a.rank x < n
      → has x (ids_of ts) ≡ true
      → has x (joined (run_levels ts).0) ≡ true
  ranked_queued ts a zero x r h = absurd (omega (arith, r))
  ranked_queued ts a (suc n) x r h =
      let ran = run_levels-Ran ts in
      ran.queued.complete x (has-task_ids x ts ∙ h) (
        ran.exact x
        ∙ countb-waits_for (edges ts) (joined (run_levels ts).0) (ids_of ts) a.rank x a.known
            a.forward (λ d k l. ranked_queued ts a n d (omega (arith, r, l)) k))

  distinct-length :
      (ts : List (CollectionTask P)) → DistinctIds (ids_of ts) → length (task_ids ts) ≡ length ts
  distinct-length ts d = omega (
    arith,
    length-task_ids ts,
    length-ids_of ts,
    length-DistinctIds (ids_of ts) (task_ids ts) d (λ x h. has-task_ids x ts ∙ h),
  )

  length-distinct :
      (ts : List (CollectionTask P)) → length (task_ids ts) ≡ length ts → DistinctIds (ids_of ts)
  unfolding task_ids
  length-distinct [] h = tt
  length-distinct (t ∷ ts) h =
      let keep : String → Bool = λ y. not (str_eq t.task_id y) in
      let kept = length-filterb keep (task_ids ts) in
      let counted = countb-not keep (task_ids ts) in
      let fresh : has t.task_id (ids_of ts) ≡ false =
        elim (Bool-cases (has t.task_id (ids_of ts))) [
          | inr e ↦ e
          | inl e ↦
              let again : Within (task_ids (t ∷ ts)) (ids_of ts) = λ x k.
                elim (Bool-cases (str_eq t.task_id x)) [
                  | inl same ↦ subst (λ i. has i (ids_of ts) ≡ true) ((eq_iff t.task_id x).0 same) e
                  | inr other ↦ ground (arith, has-task_ids x (t ∷ ts))
                ] in
              absurd (
                omega (
                  arith,
                  h,
                  length-ids_of ts,
                  length-DistinctIds (task_ids (t ∷ ts)) (ids_of ts) (task_ids-DistinctIds (t ∷ ts))
                      again,
                ))
        ] in
      (fresh, length-distinct ts (omega (arith, h, kept, counted, length-task_ids ts)))

  -- All tasks are queued if there are as many queued ids as tasks.
  all_queued :
      (ts : List (CollectionTask P))
      → length (joined (run_levels ts).0) ≡ length ts
      → Within (task_ids ts) (joined (run_levels ts).0)
  all_queued ts h =
      let ran = run_levels-Ran ts in
      Within-length (joined (run_levels ts).0) (task_ids ts) ran.queued.distinct ran.queued.within
        (omega (arith, h, length-task_ids ts))

  returned-length :
      (ts : List (CollectionTask P)) (levels : List (List (CollectionTask P)))
      → dependency_levels ts ≡ ok levels
      → (length (joined (run_levels ts).0) ≡ length ts) × (map ids_of levels ≡ (run_levels ts).0)
  returned-length ts levels e =
      let (made, f, g) = dependency_levels-computed ts in
      let queued = length (joined (run_levels ts).0) in
      let outcome : Bool → Result (List (List (CollectionTask P))) =
        λ b. if b then ok made else raise value_error in
      elim (Bool-cases (queued == length ts)) [
        | inl same ↦
            let returned : ok made ≡ ok levels = ap outcome (sym same) ∙ sym g ∙ e in
            (
              (==_iff queued (length ts)).0 same,
              ap (λ ls. map ids_of ls) (sym (ok-injective returned)) ∙ f,
            )
        | inr other ↦
            let raised : raise value_error ≡ ok levels = ap outcome (sym other) ∙ sym g ∙ e in cc
      ]

  pub dependency_levels-Within :
      (ts : List (CollectionTask P)) (levels : List (List (CollectionTask P)))
      → dependency_levels ts ≡ ok levels
      → Within (ids_of ts) (joined (map ids_of levels))
  dependency_levels-Within ts levels e =
      let (h, f) = returned-length ts levels e in
      subst (λ ls. Within (ids_of ts) (joined ls)) (sym f)
        (λ x k. all_queued ts h x (has-task_ids x ts ∙ k))

  -- The levels that are returned hold the id of every task once, and each level depends only on the
  -- levels before it; the queue is then empty.
  pub dependency_levels-Layered :
      (ts : List (CollectionTask P)) (levels : List (List (CollectionTask P)))
      → dependency_levels ts ≡ ok levels
      → Layered (edges ts) [] (map ids_of levels)
        × DistinctIds (joined (map ids_of levels))
        × All (λ i. has i (joined (map ids_of levels)) ≡ true) (ids_of ts)
        × ((run_levels ts).1 ≡ [])
  dependency_levels-Layered ts levels e =
      let (h, f) = returned-length ts levels e in
      let ran = run_levels-Ran ts in
      (
        subst (Layered (edges ts) []) (sym f) ran.layered,
        subst (λ ls. DistinctIds (joined ls)) (sym f) ran.queued.distinct,
        All-has _ (ids_of ts) (dependency_levels-Within ts levels e),
        ran.empty,
      )

  pub IsAcyclic-returned :
      (ts : List (CollectionTask P))
      → IsAcyclic ts
      → (levels : List (List (CollectionTask P))) × (dependency_levels ts ≡ ok levels)
  IsAcyclic-returned ts a =
      let ran = run_levels-Ran ts in
      let (made, f, g) = dependency_levels-computed ts in
      let queued = joined (run_levels ts).0 in
      let all : Within (ids_of ts) queued =
        λ x h. ranked_queued ts a (suc (a.rank x)) x (omega arith) h in
      let more = length-DistinctIds (ids_of ts) queued a.distinct all in
      let fewer = length-DistinctIds queued (task_ids ts) ran.queued.distinct ran.queued.within in
      let same : (length queued == length ts) ≡ true =
        (==_iff (length queued) (length ts)).1
          (omega (arith, more, fewer, length-ids_of ts, length-task_ids ts)) in
      (made, g ∙ ap (λ b. if b then ok made else raise value_error) same)

  all_known-true :
      (ts : List (CollectionTask P)) (es : List Edge)
      → all_known ts es ≡ true
      → All (λ e. has e.0 (ids_of ts) ≡ true) es
  all_known-true ts [] h = tt
  all_known-true ts (e ∷ es) h =
      (ground (arith, has-task_ids e.0 ts), all_known-true ts es (ground arith))

  true-all_known :
      (ts : List (CollectionTask P)) (es : List Edge)
      → All (λ e. has e.0 (ids_of ts) ≡ true) es
      → all_known ts es ≡ true
  true-all_known ts [] h = refl
  true-all_known ts (e ∷ es) (h, hs) = ground (arith, has-task_ids e.0 ts, true-all_known ts es hs)

  accepted-IsAcyclic :
      (ts : List (CollectionTask P)) → validate_task_graph ts ≡ ok tt → IsAcyclic ts
  unfolding validate_task_graph
  accepted-IsAcyclic ts v =
      let accepted : Result (Unit {0}) = dependency_levels ts >>= (λ l. ok tt) in
      let outcome : Bool → Result (Unit {0}) = λ b. if b then accepted else raise value_error in
      elim (Bool-cases (all_known ts (edges ts))) [
        | inr e ↦ let raised : raise value_error ≡ ok (tt {0}) = ap outcome (sym e) ∙ v in cc
        | inl e ↦
            let returned : accepted ≡ ok tt = ap outcome (sym e) ∙ v in
            let (levels, f, g) = >>=-inv (dependency_levels ts) (λ l. ok (tt {0})) returned in
            let (h, k) = returned-length ts levels f in
            let ran = run_levels-Ran ts in
            record {
              distinct = length-distinct ts (
                  omega (
                    arith,
                    h,
                    length-task_ids ts,
                    length-DistinctIds (joined (run_levels ts).0) (task_ids ts) ran.queued.distinct
                        ran.queued.within,
                  ));
              known = all_known-true ts (edges ts) e;
              rank = λ x. position x (joined (run_levels ts).0);
              forward =
                  edges_forward (edges ts) (task_ids ts) (run_levels ts).0 ran.layered
                    ran.queued.distinct (edges-IntoIds ts) (all_queued ts h);
            }
      ]

  pub IsAcyclic-accepted :
      (ts : List (CollectionTask P)) → IsAcyclic ts → validate_task_graph ts ≡ ok tt
  unfolding validate_task_graph
  IsAcyclic-accepted ts a =
      let (levels, e) = IsAcyclic-returned ts a in rw (true-all_known ts (edges ts) a.known, e) refl

  -- What `validate_task_graph` accepts: the lists with distinct ids, known dependencies and no cycle,
  -- stated as a rank that every dependency is below; it raises on all other lists.
  pub validate_task_graph_iff :
      (ts : List (CollectionTask P)) → (validate_task_graph ts ≡ ok tt) ↔ IsAcyclic ts
  validate_task_graph_iff ts = (accepted-IsAcyclic ts, IsAcyclic-accepted ts)
