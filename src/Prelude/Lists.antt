-- ===== src/Prelude/Lists.antt =====
-- Lists measured by native numbers, and predicates on their members.
use Prim.Native.Nat.{ℕ, suc}
use mathlib.Core.Bool.{Bool, false, ◌||◌}
use mathlib.Core.Path.{◌≡◌}
use mathlib.Core.Logic.{inl, inr}
use mathlib.Core.List.{List, [], ◌∷◌, ◌++◌}
use foip_operator.Prelude.Tests.{if◌then◌else◌, Bool-cases}

module _ {ℓ} {A : Type ℓ} where
  abbrev pub length : List A → ℕ
  length [] = 0
  length (x ∷ xs) = suc (length xs)

  abbrev pub All {κ} : (A → Type κ) → List A → Type κ
  All P [] = Unit
  All P (x ∷ xs) = P x × All P xs

  pub All-append {κ} : (P : A → Type κ) (xs ys : List A) → All P xs → All P ys → All P (xs ++ ys)
  All-append P [] ys h k = k
  All-append P (x ∷ xs) ys h k = (h.0, All-append P xs ys h.1 k)

  -- Occurrence in a list, with the place kept.
  pub data Occurs (a : A) : List A → Type ℓ where
    here : {x : A} {xs : List A} → x ≡ a → Occurs a (x ∷ xs)
    there : {x : A} {xs : List A} → Occurs a xs → Occurs a (x ∷ xs)

  -- The entries that pass a test, in order.
  unfoldable pub keep : (A → Bool) → List A → List A
  keep p [] = []
  keep p (x ∷ xs) = if p x then x ∷ keep p xs else keep p xs

  -- Whether some entry passes a test.
  unfoldable pub exists : (A → Bool) → List A → Bool
  exists p [] = false
  exists p (x ∷ xs) = p x || exists p xs

  pub All-Occurs {κ} : (P : A → Type κ) (xs : List A) {a : A} → All P xs → Occurs a xs → P a
  All-Occurs P [] h o = elim o [ ]
  All-Occurs P (x ∷ xs) h (here e) = rw (← e) h.0
  All-Occurs P (x ∷ xs) h (there o) = All-Occurs P xs h.1 o

  pub All-keep {κ} :
      (P : A → Type κ) (test : A → Bool) (xs : List A) → All P xs → All P (keep test xs)
  unfolding keep
  All-keep P test [] h = tt
  All-keep P test (x ∷ xs) h = elim (Bool-cases (test x)) [
    | inl passes ↦ rw (passes, keep) (h.0, All-keep P test xs h.1)
    | inr fails ↦ rw (fails, keep) (All-keep P test xs h.1)
  ]
