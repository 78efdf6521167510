-- ===== src/Base/Sort.antt =====
-- Python's `sorted`, and the order of str: insertion sort keeps the order of equal keys, as Python's
-- does, and code points are compared one after another.
use Prim.Native.Nat.{ℕ, suc, ◌+◌}
use mathlib.Core.Path.{◌≡◌, refl}
use mathlib.Core.Bool.{Bool, true, false}
use mathlib.Core.List.{List, [], ◌∷◌}
use native.Mathlib.Omega.{arith}
use harness_solomon.Base.Tests.{HasEq, ◌==◌, nat_eq, ltb, if◌then◌else◌}
use harness_solomon.Base.Lists.{length, All}
use harness_solomon.Base.Text.{Text}

-- `s <= t` of two strings.
abbrev pub text_leb : Text → Text → Bool
text_leb [] t = true
text_leb (c ∷ s) [] = false
text_leb (c ∷ s) (d ∷ t) = if ltb c d then true else if ltb d c then false else text_leb s t

pub text_leb-total : (s t : Text) → text_leb s t ≡ false → text_leb t s ≡ true
text_leb-total [] t h = ground arith
text_leb-total (c ∷ s) [] h = ground arith
text_leb-total (c ∷ s) (d ∷ t) h = ground (arith, text_leb-total s t)

module _ {ℓ} {A : Type ℓ} (le : A → A → Bool) where
  unfoldable pub insert_by : A → List A → List A
  insert_by x [] = x ∷ []
  insert_by x (y ∷ ys) = if le x y then x ∷ y ∷ ys else y ∷ insert_by x ys

  unfoldable pub sort_by : List A → List A
  unfolding insert_by
  sort_by [] = []
  sort_by (x ∷ xs) = insert_by x (sort_by xs)

  -- Each element comes before the next.
  abbrev pub IsSortedBy : List A → Type 0
  IsSortedBy [] = Unit
  IsSortedBy (x ∷ []) = Unit
  IsSortedBy (x ∷ y ∷ ys) = (le x y ≡ true) × IsSortedBy (y ∷ ys)

  module _ (total : (x y : A) → le x y ≡ false → le y x ≡ true) where
    insert_by-IsSortedBy : (x : A) (ys : List A) → IsSortedBy ys → IsSortedBy (insert_by x ys)
    unfolding insert_by
    insert_by-IsSortedBy x [] h = tt
    insert_by-IsSortedBy x (y ∷ []) h = ground (arith, total x y)
    insert_by-IsSortedBy x (y ∷ z ∷ zs) h =
        ground (arith, total x y, insert_by-IsSortedBy x (z ∷ zs) h.1)

    pub sort_by-IsSortedBy : (xs : List A) → IsSortedBy (sort_by xs)
    unfolding sort_by
    sort_by-IsSortedBy [] = tt
    sort_by-IsSortedBy (x ∷ xs) = insert_by-IsSortedBy x (sort_by xs) (sort_by-IsSortedBy xs)

-- How often a value stands in a list.
abbrev pub times {ℓ} : {A : Type ℓ} ⦃e : HasEq A⦄ → A → List A → ℕ
times x [] = 0
times x (y ∷ ys) = (if y == x then 1 else 0) + times x ys

module _ {ℓ} {A : Type ℓ} ⦃e : HasEq A⦄ (le : A → A → Bool) where
  times-insert_by : (x y : A) (ys : List A) → times x (insert_by le y ys) ≡ times x (y ∷ ys)
  unfolding insert_by
  times-insert_by x y [] = refl
  times-insert_by x y (z ∷ zs) = ground (arith, times-insert_by x y zs)

  pub times-sort_by : (x : A) (ys : List A) → times x (sort_by le ys) ≡ times x ys
  unfolding sort_by
  times-sort_by x [] = refl
  times-sort_by x (y ∷ ys) = omega (arith, times-insert_by x y (sort_by le ys), times-sort_by x ys)

module _ {ℓ} {A : Type ℓ} (le : A → A → Bool) where
  length-insert_by : (y : A) (ys : List A) → length (insert_by le y ys) ≡ suc (length ys)
  unfolding insert_by
  length-insert_by y [] = refl
  length-insert_by y (z ∷ zs) = ground (arith, length-insert_by y zs)

  pub length-sort_by : (ys : List A) → length (sort_by le ys) ≡ length ys
  unfolding sort_by
  length-sort_by [] = refl
  length-sort_by (y ∷ ys) = omega (arith, length-insert_by y (sort_by le ys), length-sort_by ys)

  module _ {κ} (P : A → Type κ) where
    All-insert_by : (y : A) (ys : List A) → P y → All P ys → All P (insert_by le y ys)
    unfolding insert_by
    All-insert_by y [] p ps = (p, tt)
    All-insert_by y (z ∷ zs) p ps = ground (arith, All-insert_by y zs p)

    pub All-sort_by : (ys : List A) → All P ys → All P (sort_by le ys)
    unfolding sort_by
    All-sort_by [] ps = tt
    All-sort_by (y ∷ ys) ps = All-insert_by y (sort_by le ys) ps.0 (All-sort_by ys ps.1)
