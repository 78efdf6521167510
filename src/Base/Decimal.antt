-- ===== src/Base/Decimal.antt =====
-- `str(n)` of a number from 0 up. The fuel `n + 1` is enough, since each step divides by ten.
use Prim.Native.Nat.{ℕ, zero, suc, ◌+◌, ◌-◌, ◌*◌, ◌/◌, ◌%◌, ◌<◌}
use mathlib.Core.Path.{◌≡◌, refl, sym, ap, ◌∙◌}
use mathlib.Core.Logic.{inl, inr}
use mathlib.Core.Bool.{false}
use mathlib.Core.List.{[], ◌∷◌, ◌++◌}
use native.Mathlib.Omega.{arith}
use harness_solomon.Base.Tests.{ltb, if◌then◌else◌, Bool-cases}
use harness_solomon.Base.Text.{Text}

decimal_from : ℕ → ℕ → Text
decimal_from zero n = []
decimal_from (suc k) n =
    let rest = decimal_from k (n / 10) in
    if ltb n 10 then (48 + n) ∷ [] else rest ++ (48 + n % 10) ∷ []

unfoldable pub decimal : ℕ → Text
unfolding decimal_from
decimal n = decimal_from (suc n) n

-- The number that a text of digits spells, read on from `a`.
read_from : ℕ → Text → ℕ
read_from a [] = a
read_from a (c ∷ s) = read_from (10 * a + (c - 48)) s

read_from-append : (a c : ℕ) (s : Text) → read_from a (s ++ c ∷ []) ≡ 10 * read_from a s + (c - 48)
unfolding read_from
read_from-append a c [] = refl
read_from-append a c (d ∷ s) = read_from-append (10 * a + (d - 48)) c s

tenth-lt : (k n : ℕ) → n < suc k → ltb n 10 ≡ false → n / 10 < k
tenth-lt k n h e = ground arith

last_digit : (n : ℕ) → 10 * (n / 10) + (48 + n % 10 - 48) ≡ n
last_digit n = omega arith

read_from-decimal_from : (k n : ℕ) → n < k → read_from 0 (decimal_from k n) ≡ n
unfolding decimal_from read_from
read_from-decimal_from zero n h = ground arith
read_from-decimal_from (suc k) n h = elim (Bool-cases (ltb n 10)) [
  | inl e ↦ rw e (omega arith)
  | inr e ↦
      let tenth = read_from-decimal_from k (n / 10) (tenth-lt k n h e) in
      rw (e, read_from-append 0 (48 + n % 10) (decimal_from k (n / 10)), tenth) (last_digit n)
]

pub decimal-injective : (m n : ℕ) → decimal m ≡ decimal n → m ≡ n
unfolding decimal
decimal-injective m n h =
    sym (read_from-decimal_from (suc m) m (omega arith))
    ∙ ap (read_from 0) h
    ∙ read_from-decimal_from (suc n) n (omega arith)
