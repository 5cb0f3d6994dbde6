-- ===== src/Controller/Scoring/Best.antt =====
-- betterNode returns a healthiest candidate, and only where it beats the current node.
use mathlib.Core.Path.{subst}
use foip_operator.Prelude.{
  String, Bool, true, false, not, not_true, none, some, List, [], ◌∷◌, All, ◌≡◌, refl, sym, ◌∙◌, ap,
  ◌≢◌, ◌⊎◌, inl, inr, ◌↔◌, arith, str_eq, str_eq_iff, Bool-cases, All-Occurs,
}
use foip_operator.Prelude.Lists.{Occurs, here, there}
use foip_operator.Controller.Node.{Node}
use foip_operator.Controller.Scoring.{
  worse_than, same_issues, score_node, better_of, best_node, find_node, better_node, NodeScore,
}
use foip_operator.Controller.Scoring.Order.{
  issues, lex_worse, lex_worse_irrefl, SameLength, lex_worse_total, worse_than-lex,
  worse_than_irrefl, worse_than_trans, worse_than_total,
}

-- `best` is at least as good as `n`.
abbrev pub NoWorse : Node → Node → Type 0
NoWorse best n = worse_than (score_node best) (score_node n) ≡ false

NoWorse-trans : (a b c : Node) → NoWorse a b → NoWorse b c → NoWorse a c
NoWorse-trans a b c h k = ground (
  arith,
  worse_than_trans (score_node a) (score_node c) (score_node b),
  worse_than_trans (score_node c) (score_node b) (score_node a),
  worse_than_total (score_node b) (score_node c),
  worse_than_trans (score_node b) (score_node a) (score_node c),
  worse_than_total (score_node a) (score_node b),
)

-- One round keeps the better of the two.
better_of-NoWorse : (best n : Node) → NoWorse (better_of best n) best × NoWorse (better_of best n) n
better_of-NoWorse best n = ground (
  arith,
  worse_than_irrefl (score_node best),
  worse_than_irrefl (score_node n),
  worse_than_trans (score_node n) (score_node best) (score_node n),
)

best_node-NoWorse :
    (best : Node) (ns : List Node)
    → NoWorse (best_node best ns) best × All (NoWorse (best_node best ns)) ns
unfolding best_node
best_node-NoWorse best [] = (worse_than_irrefl (score_node best), tt)
best_node-NoWorse best (n ∷ ns) =
    let (first, others) = best_node-NoWorse (better_of best n) ns in
    let (left, right) = better_of-NoWorse best n in
    (
      NoWorse-trans _ (better_of best n) best first left,
      (NoWorse-trans _ (better_of best n) n first right, others),
    )

better_of-member : (best n : Node) → (better_of best n ≡ best) ⊎ (better_of best n ≡ n)
better_of-member best n = ground arith

best_node-Occurs : (best : Node) (ns : List Node) → Occurs (best_node best ns) (best ∷ ns)
unfolding best_node
best_node-Occurs best [] = here refl
best_node-Occurs best (n ∷ ns) = elim (best_node-Occurs (better_of best n) ns) [
  | here e ↦ elim (better_of-member best n) [
    | inl p ↦ here (sym p ∙ e)
    | inr p ↦ there (here (sym p ∙ e))
  ]
  | there o ↦ there (there o)
]

-- All nodes of a list are no better than its best one, which it holds.
best_node-All : (best : Node) (ns : List Node) → All (NoWorse (best_node best ns)) (best ∷ ns)
best_node-All best ns = best_node-NoWorse best ns

find_node-Occurs :
    (nodes : List Node) (name : String) (c : Node)
    → find_node nodes name ≡ some c
    → Occurs c nodes × (c.name ≡ name)
unfolding find_node
find_node-Occurs [] name c h = cc
find_node-Occurs (n ∷ ns) name c h = elim (Bool-cases (str_eq n.name name)) [
  | inl e ↦
      let same : n ≡ c = ground arith in
      (here same, ap (λ (x : Node). x.name) (sym same) ∙ (str_eq_iff n.name name).0 e)
  | inr e ↦ let (o, named) = find_node-Occurs ns name c (ground arith) in (there o, named)
]

-- `a` has strictly milder issues than `b`: the first issue that they differ in is one of `b`.
abbrev pub healthier : Node → Node → Bool
healthier a b = lex_worse (issues (score_node b)) (issues (score_node a)) false

same_issues_iff : (s o : NodeScore) → (same_issues s o ≡ true) ↔ (issues s ≡ issues o)
unfolding same_issues
same_issues_iff s o = (λ h. ground arith, λ h. ground arith)

lex_worse-tie :
    (xs ys : List Bool) (tie : Bool) → lex_worse xs ys tie ≡ false → lex_worse xs ys false ≡ false
unfolding lex_worse
lex_worse-tie [] ys tie h = refl
lex_worse-tie (x ∷ xs) [] tie h = refl
lex_worse-tie (x ∷ xs) (y ∷ ys) tie h = ground (arith, lex_worse-tie xs ys tie)

NoWorse-healthier : (a b : Node) → NoWorse a b → healthier b a ≡ false
NoWorse-healthier a b h = lex_worse-tie _ _ _ (rw worse_than-lex at h)

issues-length : (s o : NodeScore) → SameLength (issues s) (issues o)
issues-length s o = tt

-- Of a node that does not beat `b`: it has the same issues, or `b` is strictly healthier.
same_issues-healthier :
    (b c : Node) → NoWorse b c → same_issues (score_node b) (score_node c) ≡ not (healthier b c)
same_issues-healthier b c h = elim (Bool-cases (healthier b c)) [
  | inl e ↦ rw e (
      not_true λ same.
        let eq = (same_issues_iff (score_node b) (score_node c)).0 same in
        let self : lex_worse (issues (score_node c)) (issues (score_node c)) false ≡ true =
          rw eq at e in
        cc (self, lex_worse_irrefl (issues (score_node c)) false))
  | inr e ↦ rw e (
      (same_issues_iff (score_node b) (score_node c)).1
        (lex_worse_total _ _ false false (issues-length (score_node b) (score_node c))
          (NoWorse-healthier b c h) e).0)
]

All-NoWorse-healthier :
    (b c : Node) (nodes : List Node)
    → issues (score_node b) ≡ issues (score_node c)
    → All (NoWorse b) nodes
    → All (λ n. healthier n c ≡ false) nodes
All-NoWorse-healthier b c [] e h = tt
All-NoWorse-healthier b c (n ∷ ns) e h =
    (rw e at (NoWorse-healthier b n h.0), All-NoWorse-healthier b c ns e h.1)

better_node-best :
    (n : Node) (ns : List Node) (current : String) (b : Node)
    → better_node (n ∷ ns) current ≡ some b
    → best_node n ns ≡ b
unfolding better_node
better_node-best n ns current b h = ground arith

-- betterNode keeps the current node, given that it is among the candidates, exactly when no
-- candidate is strictly healthier than it.
pub better_node-none_iff :
    (nodes : List Node) (current : String) (c : Node)
    → current ≢ ""
    → find_node nodes current ≡ some c
    → (better_node nodes current ≡ none) ↔ All (λ n. healthier n c ≡ false) nodes
unfolding better_node find_node
better_node-none_iff [] current c h f = absurd (cc)
better_node-none_iff (n ∷ ns) current c h f =
    let best = best_node n ns in
    let all = best_node-All n ns in
    let kept = All-Occurs (NoWorse best) (n ∷ ns) all (find_node-Occurs (n ∷ ns) current c f).0 in
    let split = same_issues-healthier best c kept in
    (
      λ e.
          All-NoWorse-healthier best c (n ∷ ns)
            ((same_issues_iff (score_node best) (score_node c)).0
              (ground (arith, f, str_eq_iff current "")))
            all,
      λ none_healthier.
          let beaten =
            All-Occurs (λ m. healthier m c ≡ false) (n ∷ ns) none_healthier
              (best_node-Occurs n ns) in
          ground (arith, f, str_eq_iff current "", split, beaten),
    )

-- A node that betterNode returns is one of the candidates, and no candidate beats it.
pub better_node-NoWorse :
    (nodes : List Node) (current : String) (b : Node)
    → better_node nodes current ≡ some b
    → Occurs b nodes × All (NoWorse b) nodes
better_node-NoWorse [] current b h = absurd (unfold better_node in cc)
better_node-NoWorse (n ∷ ns) current b h =
    subst (λ x. Occurs x (n ∷ ns) × All (NoWorse x) (n ∷ ns)) (better_node-best n ns current b h)
      (best_node-Occurs n ns, best_node-All n ns)

-- A node that betterNode returns is strictly healthier than the current node, given that this is
-- among the candidates.
better_node-healthier :
    (nodes : List Node) (current : String) (b c : Node)
    → current ≢ ""
    → find_node nodes current ≡ some c
    → better_node nodes current ≡ some b
    → healthier b c ≡ true
unfolding better_node find_node
better_node-healthier [] current b c named f h = absurd (cc)
better_node-healthier (n ∷ ns) current b c named f h =
    let best = best_node n ns in
    let kept =
      All-Occurs (NoWorse best) (n ∷ ns) (best_node-All n ns)
        (find_node-Occurs (n ∷ ns) current c f).0 in
    rw (← better_node-best n ns current b h)
      (ground (arith, f, str_eq_iff current "", same_issues-healthier best c kept))
