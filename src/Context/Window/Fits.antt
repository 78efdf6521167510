-- ===== src/Context/Window/Fits.antt =====
-- harness/context/compaction.py: when the window keeps to its target, and when it repeats a message.
use harness_solomon.Base.{
  ℕ, zero, suc, ◌+◌, ◌≤◌, ◌<◌, Bool, true, false, List, [], ◌∷◌, ◌++◌, ◌==◌, nat_eq, string_eq,
  ◌&&◌, ◌||◌, leb, leb→le, length, ◌≡◌, refl, ap, ◌∙◌, ◌⊎◌, inl, inr, Bool-cases, arith,
}
use harness_solomon.Context.Messages.{Message, estimate_tokens, keep_for_pairs}
use harness_solomon.Context.Window.{
  drop, has_system, keep_recent, recent_start, protected, system_part, cut, sliding_window,
}
use harness_solomon.Context.Window.Shape.{
  protected_tail, total_chars-append, hard_drop_over, hard_drop_fits,
}

protected_suffix :
    (system : Bool) (k start i : ℕ) (ms : List Message)
    → start ≡ k + i
    → (front : List Message) × (protected system start i ms ≡ front ++ drop k ms)
unfolding protected
protected_suffix system zero start i ms e = ([], protected_tail system start i ms (omega arith))
protected_suffix system (suc k) start i [] e = ([], refl)
protected_suffix system (suc k) start i (m ∷ ms) e =
    let (front, rest) = protected_suffix system k start (suc i) ms (omega arith) in
    elim (Bool-cases ((i == 0 && system) || leb start i || keep_for_pairs m ms)) [
      | inl kept ↦ (m ∷ front, rw kept (ap (λ (l : List Message). m ∷ l) rest))
      | inr dropped ↦ (front, rw dropped rest)
    ]

drop_nil : (n : ℕ) → Path (List Message) [] (drop n [])
drop_nil zero = refl
drop_nil (suc n) = refl

module _ (json_length : Message → ℕ) where
  abbrev Fits : ℕ → ℕ → List Message → List Message → Type 0
  Fits target start ms window =
      (front : List Message) × (window ≡ front ++ drop start ms)
      × ((front ≡ system_part ms) ⊎ (estimate_tokens json_length window ≤ target))

  cut-Fits :
      (target start : ℕ) (ms : List Message)
      → Fits target start ms (cut json_length target start ms)
  unfolding cut
  cut-Fits target start ms =
      let kept = protected (has_system ms) start 0 ms in
      elim (Bool-cases (leb (estimate_tokens json_length kept) target)) [
        | inl e ↦
            let (front, shape) = protected_suffix (has_system ms) start start 0 ms (omega arith) in
            (front, rw e shape, inr (rw e (leb→le (estimate_tokens json_length kept) target e)))
        | inr e ↦
            let (front, shape, fits) = hard_drop_fits json_length target start ms in
            (
              front,
              rw e shape,
              elim fits [ inl same ↦ inl same | inr small ↦ inr (rw (e, shape) small) ],
            )
      ]

  -- The window ends with the recent messages, all of them and in order, and its estimate keeps to the
  -- target unless there is nothing before them but the system message.
  pub sliding_window_fits :
      (turns target : ℕ) (ms : List Message)
      → (front : List Message) × (sliding_window json_length turns target ms
          ≡ front ++ drop (recent_start turns ms) ms)
        × ((front ≡ system_part ms)
            ⊎ (estimate_tokens json_length (sliding_window json_length turns target ms) ≤ target))
  unfolding sliding_window
  sliding_window_fits turns target [] = ([], drop_nil (recent_start turns []), inl refl)
  sliding_window_fits turns target (m ∷ ms) = cut-Fits target (recent_start turns (m ∷ ms)) (m ∷ ms)

  cut_short :
      (target : ℕ) (m : Message) (ms : List Message)
      → has_system (m ∷ ms) ≡ true
      → target < estimate_tokens json_length (m ∷ ms)
      → cut json_length target 0 (m ∷ ms) ≡ m ∷ m ∷ ms
  unfolding cut
  cut_short target m ms system over =
      let all = protected_tail (has_system (m ∷ ms)) 0 0 (m ∷ ms) (omega arith) in
      let kept = protected (has_system (m ∷ ms)) 0 0 (m ∷ ms) in
      let full : leb (estimate_tokens json_length kept) target ≡ false = rw all (ground arith) in
      rw full (hard_drop_over json_length target 0 (m ∷ ms) (omega (arith, over_twice)) ∙ rw system)
    where
      over_twice : target < estimate_tokens json_length (system_part (m ∷ ms) ++ m ∷ ms)
      over_twice = ground (arith, total_chars-append json_length (system_part (m ∷ ms)) (m ∷ ms))

  -- A conversation that is over the target though it has no more than the recent messages is not cut:
  -- its system message stands twice in the window.
  pub sliding_window_repeats :
      (turns target : ℕ) (m : Message) (ms : List Message)
      → has_system (m ∷ ms) ≡ true
      → length (m ∷ ms) ≤ keep_recent turns
      → target < estimate_tokens json_length (m ∷ ms)
      → sliding_window json_length turns target (m ∷ ms) ≡ m ∷ m ∷ ms
  unfolding sliding_window
  sliding_window_repeats turns target m ms system short over =
      let e : recent_start turns (m ∷ ms) ≡ 0 = omega arith in
      ap (λ (start : ℕ). cut json_length target start (m ∷ ms)) e
      ∙ cut_short target m ms system over
