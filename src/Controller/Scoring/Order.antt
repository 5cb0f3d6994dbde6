-- ===== src/Controller/Scoring/Order.antt =====
-- The order on scores: worseThan compares the issues first, and the names last.
use foip_operator.Prelude.{
  Bool, true, false, List, [], ◌∷◌, ◌≡◌, refl, ap, ◌⊎◌, inl, inr, arith, if◌then◌else◌, differ,
  Bool-cases,
}
use foip_operator.Prelude.Text.{str_lt, str_lt_irrefl, str_lt_trans, str_lt_total}
use foip_operator.Controller.Scoring.{NodeScore, worse_than}

-- The issues of a score, the gravest first.
abbrev pub issues : NodeScore → List Bool
issues s =
    s.network_unavailable ∷ s.ready_false ∷ s.ready_unknown ∷ s.unschedulable ∷ s.pid_pressure
    ∷ s.memory_pressure ∷ s.disk_pressure ∷ []

-- The first list is the worse at the first place where they differ; `tie` where they do not.
unfoldable pub lex_worse : List Bool → List Bool → Bool → Bool
lex_worse [] ys tie = tie
lex_worse (x ∷ xs) [] tie = tie
lex_worse (x ∷ xs) (y ∷ ys) tie = if differ x y then x else lex_worse xs ys tie

pub worse_than-lex :
    (s t : NodeScore) → worse_than s t ≡ lex_worse (issues s) (issues t) (str_lt t.name s.name)
unfolding worse_than lex_worse
worse_than-lex s t = refl

abbrev pub SameLength : List Bool → List Bool → Type 0
SameLength [] [] = Unit
SameLength (x ∷ xs) (y ∷ ys) = SameLength xs ys
SameLength _ _ = ⊥

pub lex_worse_irrefl : (xs : List Bool) (tie : Bool) → lex_worse xs xs tie ≡ tie
unfolding lex_worse
lex_worse_irrefl [] tie = refl
lex_worse_irrefl (x ∷ xs) tie = ground (arith, lex_worse_irrefl xs tie)

lex_worse_trans :
    (xs ys zs : List Bool) (p q r : Bool)
    → SameLength xs ys
    → SameLength ys zs
    → (p ≡ true → q ≡ true → r ≡ true)
    → lex_worse xs ys p ≡ true
    → lex_worse ys zs q ≡ true
    → lex_worse xs zs r ≡ true
unfolding lex_worse
lex_worse_trans [] [] [] p q r l m f h k = f h k
lex_worse_trans [] (y ∷ ys) zs p q r l m f h k = elim l [ ]
lex_worse_trans (x ∷ xs) [] zs p q r l m f h k = elim l [ ]
lex_worse_trans [] [] (z ∷ zs) p q r l m f h k = elim m [ ]
lex_worse_trans (x ∷ xs) (y ∷ ys) [] p q r l m f h k = elim m [ ]
lex_worse_trans (x ∷ xs) (y ∷ ys) (z ∷ zs) p q r l m f h k =
    ground (arith, lex_worse_trans xs ys zs p q r l m f)

pub lex_worse_total :
    (xs ys : List Bool) (p q : Bool)
    → SameLength xs ys
    → lex_worse xs ys p ≡ false
    → lex_worse ys xs q ≡ false
    → (xs ≡ ys) × (p ≡ false) × (q ≡ false)
unfolding lex_worse
lex_worse_total [] [] p q l h k = (refl, h, k)
lex_worse_total [] (y ∷ ys) p q l h k = elim l [ ]
lex_worse_total (x ∷ xs) [] p q l h k = elim l [ ]
lex_worse_total (true ∷ xs) (true ∷ ys) p q l h k =
    let (e, a, b) = lex_worse_total xs ys p q l h k in (ap (◌∷◌ true) e, a, b)
lex_worse_total (false ∷ xs) (false ∷ ys) p q l h k =
    let (e, a, b) = lex_worse_total xs ys p q l h k in (ap (◌∷◌ false) e, a, b)
lex_worse_total (true ∷ xs) (false ∷ ys) p q l h k = cc
lex_worse_total (false ∷ xs) (true ∷ ys) p q l h k = cc

pub worse_than_irrefl : (s : NodeScore) → worse_than s s ≡ false
worse_than_irrefl s = rw (worse_than-lex, lex_worse_irrefl) (str_lt_irrefl s.name)

-- worseThan is transitive.
pub worse_than_trans :
    (s t u : NodeScore) → worse_than s t ≡ true → worse_than t u ≡ true → worse_than s u ≡ true
worse_than_trans s t u h k = rw worse_than-lex (
    lex_worse_trans (issues s) (issues t) (issues u) _ _ _ tt tt
      (λ p q. str_lt_trans u.name t.name s.name q p) (rw worse_than-lex at h)
      (rw worse_than-lex at k))

pub worse_than_total : (s t : NodeScore) → worse_than s t ≡ false → worse_than t s ≡ false → s ≡ t
worse_than_total s t h k =
    let (same, p, q) =
      lex_worse_total (issues s) (issues t) _ _ tt (rw worse_than-lex at h)
        (rw worse_than-lex at k) in
    ground (arith, same, str_lt_total s.name t.name q p)

-- Of two scores exactly one is the worse, or they are equal: worseThan is never both ways, and
-- neither way only for equal scores.
worse_than_trichotomy :
    (s t : NodeScore)
    → ((worse_than s t ≡ true) × (worse_than t s ≡ false))
      ⊎ ((worse_than t s ≡ true) × (worse_than s t ≡ false))
      ⊎ ((s ≡ t) × (worse_than s t ≡ false) × (worse_than t s ≡ false))
worse_than_trichotomy s t =
    let both : worse_than s t ≡ true → worse_than t s ≡ false = λ h.
      elim (Bool-cases (worse_than t s)) [
        | inl k ↦ absurd (cc (worse_than_trans s t s h k, worse_than_irrefl s))
        | inr k ↦ k
      ] in
    elim (Bool-cases (worse_than s t)) [
      | inl h ↦ inl (h, both h)
      | inr h ↦ elim (Bool-cases (worse_than t s)) [
        | inl k ↦ inr (inl (k, h))
        | inr k ↦ inr (inr (worse_than_total s t h k, h, k))
      ]
    ]
