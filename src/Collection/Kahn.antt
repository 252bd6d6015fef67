-- ===== src/Collection/Kahn.antt =====
-- The invariant of the loop of `dependency_levels`: which ids have been queued, and that a degree
-- counts the edges from ids that are not yet processed.
use whidby.Prelude.{
  has, ℕ, ◌+◌, ◌-◌, ◌≡◌, refl, ap, sym, subst, Bool, true, false, not, ◌&&◌, Bool-cases, inl, inr,
  List, [], ◌∷◌, ◌++◌, String, str_eq, eq_iff, arith, countb, ◌==◌, if◌then◌else◌, All,
}
use mathlib.Core.List.{append_assoc, append-nil}
use whidby.Collection.TaskGraph.{Edge, outgoing, decremented, release, process}
use whidby.Collection.Members.{Within, DistinctIds, has-append, has_self, DistinctIds-snoc}

-- An edge to `x` from an id that is not processed.
abbrev pub waits_for : List String → String → Edge → Bool
waits_for spent x e = not (has e.0 spent) && str_eq e.1 x

abbrev pub Exact : List Edge → (String → ℕ) → List String → Type 0
Exact es degree spent = (x : String) → degree x ≡ countb (waits_for spent x) es

-- `seen` has the ids that were ever queued: those of degree 0, each once.
pub record Queued (ids : List String) (degree : String → ℕ) (seen : List String) : Type 0 where
  pub distinct : DistinctIds seen
  pub zero_degree : (x : String) → has x seen ≡ true → degree x ≡ 0
  pub complete : (x : String) → has x ids ≡ true → degree x ≡ 0 → has x seen ≡ true
  pub within : Within seen ids

Queued-decremented_again :
    (ids : List String) (c : String) (degree : String → ℕ) (seen : List String)
    → (degree c == 1) ≡ false
    → Queued ids degree seen
    → Queued ids (decremented c degree) seen
unfolding decremented
Queued-decremented_again ids c degree seen f q = record {
  distinct = q.distinct;
  zero_degree = λ x h. ground (arith, q.zero_degree x h);
  complete = λ x h z. elim (Bool-cases (str_eq c x)) [
    | inl e ↦ q.complete x h (ground (arith, ap degree ((eq_iff c x).0 e)))
    | inr e ↦ q.complete x h (ground arith)
  ];
  within = q.within;
}

Queued-decremented_first :
    (ids : List String) (c : String) (degree : String → ℕ) (seen : List String)
    → (degree c == 1) ≡ true
    → has c ids ≡ true
    → Queued ids degree seen
    → Queued ids (decremented c degree) (seen ++ (c ∷ []))
unfolding decremented
Queued-decremented_first ids c degree seen f inside q = record {
  distinct =
      DistinctIds-snoc seen c q.distinct
        (elim (Bool-cases (has c seen)) [ inl e ↦ ground (arith, q.zero_degree c e) | inr e ↦ e ]);
  zero_degree = λ x h. elim (Bool-cases (str_eq c x)) [
    | inl e ↦ ground (arith, ap degree ((eq_iff c x).0 e))
    | inr e ↦
        let before = q.zero_degree x (ground (arith, has-append x seen (c ∷ []))) in
        ground (arith, before)
  ];
  complete = λ x h z. elim (Bool-cases (str_eq c x)) [
    | inl e ↦ ground (arith, has-append x seen (c ∷ []))
    | inr e ↦
        let before = q.complete x h (ground arith) in
        ground (arith, before, has-append x seen (c ∷ []))
  ];
  within = λ x h. elim (Bool-cases (str_eq c x)) [
    | inl e ↦ subst (λ i. has i ids ≡ true) ((eq_iff c x).0 e) inside
    | inr e ↦ q.within x (ground (arith, has-append x seen (c ∷ [])))
  ];
}

-- `release` queues the children whose last dependency is processed.
release-Queued :
    (ids children : List String) (s : (String → ℕ) × List String) (done : List String)
    → Within children ids
    → Queued ids s.0 (done ++ s.1)
    → Queued ids ((release children s).0) (done ++ (release children s).1)
unfolding release
release-Queued ids [] s done w q = q
release-Queued ids (c ∷ cs) (degree, queue) done w q =
    let later : Within cs ids = λ x h. w x (ground arith) in
    elim (Bool-cases (degree c == 1)) [
      | inl e ↦
          rw (e, release)
            (release-Queued ids cs (decremented c degree, queue ++ (c ∷ [])) done later
              (subst (Queued ids (decremented c degree)) (append_assoc done queue (c ∷ []))
                (Queued-decremented_first ids c degree (done ++ queue) e (w c (has_self c cs)) q)))
      | inr e ↦
          rw (e, release)
            (release-Queued ids cs (decremented c degree, queue) done later
              (Queued-decremented_again ids c degree (done ++ queue) e q))
    ]

release-degree :
    (children : List String) (s : (String → ℕ) × List String) (x : String)
    → (release children s).0 x ≡ s.0 x - countb (λ c. str_eq c x) children
unfolding release decremented
release-degree [] s x = omega arith
release-degree (c ∷ cs) (degree, queue) x = ground (
  arith,
  release-degree cs (decremented c degree, if degree c == 1 then queue ++ (c ∷ []) else queue) x,
)

countb-outgoing :
    (es : List Edge) (i x : String) (spent : List String)
    → has i spent ≡ false
    → countb (waits_for spent x) es
      ≡ countb (waits_for (spent ++ (i ∷ [])) x) es + countb (λ c. str_eq c x) (outgoing es i)
unfolding outgoing
countb-outgoing [] i x spent f = omega arith
countb-outgoing ((d, t) ∷ es) i x spent f = elim (Bool-cases (str_eq d i)) [
  | inl e ↦ ground (
    arith,
    countb-outgoing es i x spent f,
    has-append d spent (i ∷ []),
    (eq_iff i d).1 (sym ((eq_iff d i).0 e)),
    ap (λ z. has z spent) ((eq_iff d i).0 e),
  )
  | inr e ↦
      ground
        (arith, countb-outgoing es i x spent f, has-append d spent (i ∷ []), eq_iff i d, eq_iff d i)
]

-- Every edge goes to one of `ids`.
abbrev pub IntoIds : List String → List Edge → Type 0
IntoIds ids es = All (λ e. has e.1 ids ≡ true) es

pub outgoing-Within :
    (es : List Edge) (i : String) (ids : List String) → IntoIds ids es → Within (outgoing es i) ids
unfolding outgoing
outgoing-Within [] i ids h x f = ground arith
outgoing-Within ((d, t) ∷ es) i ids (h, hs) x f = elim (Bool-cases (str_eq d i)) [
  | inl e ↦ elim (Bool-cases (str_eq t x)) [
    | inl same ↦ subst (λ z. has z ids ≡ true) ((eq_iff t x).0 same) h
    | inr other ↦ outgoing-Within es i ids hs x (ground arith)
  ]
  | inr e ↦ outgoing-Within es i ids hs x (ground arith)
]

pub DistinctIds-fresh :
    (xs : List String) (y : String) (ys : List String)
    → DistinctIds (xs ++ (y ∷ ys))
    → has y xs ≡ false
DistinctIds-fresh [] y ys d = refl
DistinctIds-fresh (x ∷ xs) y ys (f, d) =
    ground (arith, has-append x xs (y ∷ ys), DistinctIds-fresh xs y ys d, eq_iff x y, eq_iff y x)

-- The loop over `current_ids`, from `spent` to `spent ++ current`.
pub process-Queued :
    (es : List Edge) (ids current spent done : List String) (s : (String → ℕ) × List String)
    → IntoIds ids es
    → DistinctIds (spent ++ current)
    → Queued ids s.0 (done ++ s.1)
    → Exact es s.0 spent
    → Queued ids ((process es current s).0) (done ++ (process es current s).1)
      × Exact es ((process es current s).0) (spent ++ current)
unfolding process
process-Queued es ids [] spent done s w d q x = (q, subst (Exact es s.0) (sym (append-nil spent)) x)
process-Queued es ids (i ∷ rest) spent done s w d q x =
    let s' = release (outgoing es i) s in
    let queued = release-Queued ids (outgoing es i) s done (outgoing-Within es i ids w) q in
    let exact : Exact es s'.0 (spent ++ (i ∷ [])) = λ z.
      let after = release-degree (outgoing es i) s z in
      let split = countb-outgoing es i z spent (DistinctIds-fresh spent i rest d) in
      omega (arith, after, split, x z) in
    let assoc = append_assoc spent (i ∷ []) rest in
    let (a, b) =
      process-Queued es ids rest (spent ++ (i ∷ [])) done s' w (subst DistinctIds (sym assoc) d)
        queued exact in
    (a, subst (Exact es ((process es rest s').0)) assoc b)
