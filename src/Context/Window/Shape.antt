-- ===== src/Context/Window/Shape.antt =====
-- harness/context/compaction.py: what `_sliding_window` leaves of a conversation.
use harness_solomon.Base.{
  ℕ, zero, suc, ◌+◌, ◌-◌, ◌≤◌, ◌<◌, Bool, false, List, [], ◌∷◌, ◌++◌, ◌==◌, nat_eq, string_eq, ltb,
  leb, length, ◌≡◌, refl, sym, ap, ◌∙◌, ◌⊎◌, inl, inr, Bool-cases, arith,
}
use mathlib.Core.List.{reverse, reverse_aux}
use harness_solomon.Context.Messages.{Message, total_chars, estimate_tokens, keep_for_pairs}
use harness_solomon.Context.Window.{
  drop, has_system, keep_recent, recent_start, protected, candidates, system_part, add_back,
  hard_drop, cut, sliding_window,
}

-- No tool message comes before the call that it answers.
abbrev pub IsOrdered : List Message → Type 0
IsOrdered [] = Unit
IsOrdered (m ∷ ms) = (keep_for_pairs m ms ≡ false) × IsOrdered ms

pub protected_tail :
    (system : Bool) (start i : ℕ) (ms : List Message) → start ≤ i → protected system start i ms ≡ ms
unfolding protected
protected_tail system start i [] h = refl
protected_tail system start i (m ∷ ms) h = ground (arith, protected_tail system start (suc i) ms)

protected_ordered :
    (system : Bool) (k start i : ℕ) (ms : List Message)
    → start ≡ k + i
    → 0 < i
    → IsOrdered ms
    → protected system start i ms ≡ drop k ms
unfolding protected
protected_ordered system zero start i ms e h o = protected_tail system start i ms (omega arith)
protected_ordered system (suc k) start i [] e h o = refl
protected_ordered system (suc k) start i (m ∷ ms) e h o =
    ground (arith, protected_ordered system k start (suc i) ms)

-- From index 0 on.
protected_all :
    (k : ℕ) (m : Message) (ms : List Message)
    → IsOrdered (m ∷ ms)
    → protected (has_system (m ∷ ms)) (suc k) 0 (m ∷ ms) ≡ system_part (m ∷ ms) ++ drop k ms
unfolding protected
protected_all k m ms o = ground (arith, protected_ordered (m.role == "system") k (suc k) 1 ms)

module _ (json_length : Message → ℕ) where
  pub total_chars-append :
      (xs ys : List Message)
      → total_chars json_length (xs ++ ys) ≡ total_chars json_length xs + total_chars json_length ys
  total_chars-append [] ys = omega arith
  total_chars-append (x ∷ xs) ys = omega (arith, total_chars-append xs ys)

  total_chars-reverse_aux :
      (xs ys : List Message)
      → total_chars json_length (reverse_aux xs ys)
        ≡ total_chars json_length xs + total_chars json_length ys
  total_chars-reverse_aux [] ys = omega arith
  total_chars-reverse_aux (x ∷ xs) ys = omega (arith, total_chars-reverse_aux xs (x ∷ ys))

  estimate-reverse :
      (xs ys : List Message)
      → estimate_tokens json_length (reverse xs ++ ys) ≡ estimate_tokens json_length (xs ++ ys)
  unfolding estimate_tokens
  estimate-reverse xs ys = omega (
    arith,
    total_chars-append (reverse xs) ys,
    total_chars-append xs ys,
    total_chars-reverse_aux xs [],
  )

  estimate_middle :
      (xs : List Message) (m : Message) (ys : List Message)
      → estimate_tokens json_length (xs ++ ys) ≤ estimate_tokens json_length ((xs ++ m ∷ []) ++ ys)
  unfolding estimate_tokens
  estimate_middle xs m ys = omega (
    arith,
    total_chars-append (xs ++ m ∷ []) ys,
    total_chars-append xs (m ∷ []),
    total_chars-append xs ys,
  )

  reverse-system_part : (ms : List Message) → reverse (system_part ms) ≡ system_part ms
  reverse-system_part [] = refl
  reverse-system_part (m ∷ ms) = ground arith

  -- What does not fit with nothing added has nothing added.
  add_back_none :
      (target : ℕ) (tail trimmed ms : List Message)
      → target < estimate_tokens json_length (trimmed ++ tail)
      → add_back json_length target tail trimmed ms ≡ trimmed
  unfolding add_back
  add_back_none target tail trimmed [] h = refl
  add_back_none target tail trimmed (m ∷ ms) h = ground (arith, estimate_middle trimmed m tail)

  add_back_fits :
      (target : ℕ) (tail trimmed ms : List Message)
      → (add_back json_length target tail trimmed ms ≡ trimmed)
        ⊎ (estimate_tokens json_length (add_back json_length target tail trimmed ms ++ tail)
            ≤ target)
  unfolding add_back
  add_back_fits target tail trimmed [] = inl refl
  add_back_fits target tail trimmed (m ∷ ms) =
      elim (Bool-cases (ltb target (estimate_tokens json_length ((trimmed ++ m ∷ []) ++ tail)))) [
        | inl e ↦ inl (rw e)
        | inr e ↦ inr (elim (add_back_fits target tail (trimmed ++ m ∷ []) ms) [
          | inl same ↦ rw (e, same) (ground arith)
          | inr fits ↦ rw e fits
        ])
      ]

  pub hard_drop_over :
      (target start : ℕ) (ms : List Message)
      → target < estimate_tokens json_length (system_part ms ++ drop start ms)
      → hard_drop json_length target start ms ≡ system_part ms ++ drop start ms
  unfolding hard_drop
  hard_drop_over target start ms h =
      ap (λ (front : List Message). reverse front ++ drop start ms)
        (add_back_none target (drop start ms) (system_part ms) (reverse (candidates start 0 ms)) h)
      ∙ ap (λ (front : List Message). front ++ drop start ms) (reverse-system_part ms)

  pub hard_drop_fits :
      (target start : ℕ) (ms : List Message)
      → (front : List Message) × (hard_drop json_length target start ms ≡ front ++ drop start ms)
        × ((front ≡ system_part ms)
            ⊎ (estimate_tokens json_length (front ++ drop start ms) ≤ target))
  unfolding hard_drop
  hard_drop_fits target start ms =
      let tail = drop start ms in
      let added =
        add_back json_length target tail (system_part ms) (reverse (candidates start 0 ms)) in
      (
        reverse added,
        refl,
        elim (add_back_fits target tail (system_part ms) (reverse (candidates start 0 ms))) [
          | inl same ↦
              inl (ap (λ (front : List Message). reverse front) same ∙ reverse-system_part ms)
          | inr fits ↦ inr (omega (arith, estimate-reverse added tail, fits))
        ],
      )

  cut_ordered :
      (target k : ℕ) (m : Message) (ms : List Message)
      → IsOrdered (m ∷ ms)
      → cut json_length target (suc k) (m ∷ ms) ≡ system_part (m ∷ ms) ++ drop k ms
  unfolding cut
  cut_ordered target k m ms o =
      let all = protected_all k m ms o in
      let kept = protected (has_system (m ∷ ms)) (suc k) 0 (m ∷ ms) in
      elim (Bool-cases (leb (estimate_tokens json_length kept) target)) [
        | inl e ↦ rw e all
        | inr e ↦ rw e (
            hard_drop_over target (suc k) (m ∷ ms)
              (ground (arith, ap (λ (l : List Message). estimate_tokens json_length l) all)))
      ]

  -- Of a conversation in which no tool message comes before its call, and that is longer than the
  -- recent messages, the window is the system message and these, whatever the target: the rest is
  -- dropped even if it fits.
  pub sliding_window_forgets :
      (turns target : ℕ) (ms : List Message)
      → IsOrdered ms
      → keep_recent turns < length ms
      → sliding_window json_length turns target ms
        ≡ system_part ms ++ drop (recent_start turns ms) ms
  unfolding sliding_window
  sliding_window_forgets turns target [] o h = absurd (omega arith)
  sliding_window_forgets turns target (m ∷ ms) o h =
      let k = length ms - keep_recent turns in
      let e : recent_start turns (m ∷ ms) ≡ suc k = omega arith in
      ap (λ (start : ℕ). cut json_length target start (m ∷ ms)) e
      ∙ cut_ordered target k m ms o
      ∙ ap (λ (start : ℕ). system_part (m ∷ ms) ++ drop start (m ∷ ms)) (sym e)
