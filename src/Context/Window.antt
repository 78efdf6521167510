-- ===== src/Context/Window.antt =====
-- harness/context/compaction.py: `_sliding_window`, `_extract_dropped` and `_inject_summary`.
pub mod Fits
pub mod Shape
use harness_solomon.Base.{
  ℕ, zero, suc, ◌-◌, max, String, Bool, true, false, Option, none, some, List, [], ◌∷◌, ◌++◌, ◌==◌,
  nat_eq, string_eq, ◌&&◌, ◌||◌, not, ltb, leb, take, length, if◌then◌else◌,
}
use harness_solomon.Base.Text.{Text, codes}
use harness_solomon.Context.Messages.{Message, estimate_tokens, keep_for_pairs}
use mathlib.Core.List.{reverse}

abbrev pub drop {ℓ} : {A : Type ℓ} → ℕ → List A → List A
drop zero xs = xs
drop (suc n) [] = []
drop (suc n) (x ∷ xs) = drop n xs

abbrev pub has_system : List Message → Bool
has_system [] = false
has_system (m ∷ ms) = m.role == "system"

abbrev pub keep_recent : ℕ → ℕ
keep_recent turns = max 2 turns

abbrev pub recent_start : ℕ → List Message → ℕ
recent_start turns ms = length ms - keep_recent turns

-- The loop over the indices: the system message, the tail from `start`, and the tool messages that a
-- later call refers to.
unfoldable pub protected : Bool → ℕ → ℕ → List Message → List Message
unfolding keep_for_pairs
protected system start i [] = []
protected system start i (m ∷ ms) =
    let rest = protected system start (suc i) ms in
    if (i == 0 && system) || leb start i || keep_for_pairs m ms then m ∷ rest else rest

-- The candidate zone, from index 1 to the tail.
unfoldable pub candidates : ℕ → ℕ → List Message → List Message
unfolding keep_for_pairs
candidates start i [] = []
candidates start i (m ∷ ms) =
    let rest = candidates start (suc i) ms in
    if ltb 0 i && ltb i start && not (keep_for_pairs m ms) then m ∷ rest else rest

abbrev pub system_part : List Message → List Message
system_part [] = []
system_part (m ∷ ms) = if m.role == "system" then m ∷ [] else []

module _ (json_length : Message → ℕ) where
  -- The loop that adds the most recent candidates.
  unfoldable pub add_back : ℕ → List Message → List Message → List Message → List Message
  unfolding estimate_tokens
  add_back target tail trimmed [] = trimmed
  add_back target tail trimmed (m ∷ ms) =
      let more = add_back target tail (trimmed ++ m ∷ []) ms in
      if ltb target (estimate_tokens json_length ((trimmed ++ m ∷ []) ++ tail))
      then trimmed
      else more

  abbrev pub hard_drop : ℕ → ℕ → List Message → List Message
  unfolding add_back candidates
  hard_drop target start ms =
      let tail = drop start ms in
      reverse (add_back target tail (system_part ms) (reverse (candidates start 0 ms))) ++ tail

  -- The window whose tail begins at `start`.
  abbrev pub cut : ℕ → ℕ → List Message → List Message
  unfolding protected hard_drop estimate_tokens
  cut target start ms =
      let kept = protected (has_system ms) start 0 ms in
      if leb (estimate_tokens json_length kept) target then kept else hard_drop target start ms

  -- `_sliding_window`, where `turns` is the setting `compaction_keep_recent_turns`.
  unfoldable pub sliding_window : ℕ → ℕ → List Message → List Message
  unfolding cut
  sliding_window turns target [] = []
  sliding_window turns target (m ∷ ms) = cut target (recent_start turns (m ∷ ms)) (m ∷ ms)

-- `_extract_dropped`; the trimmed messages only count as empty or not.
unfoldable pub extract_dropped : ℕ → List Message → List Message → List Message
extract_dropped turns [] trimmed = []
extract_dropped turns (m ∷ ms) [] = []
extract_dropped turns (m ∷ ms) (t ∷ trimmed) =
    let drop_start = if m.role == "system" then 1 else 0 in
    let drop_end = max drop_start (recent_start turns (m ∷ ms)) in
    if leb drop_end drop_start then [] else drop drop_start (take drop_end (m ∷ ms))

abbrev pub marker : Text
marker = codes "[Compaction summary — earlier turns condensed]"

abbrev pub summary_message : Text → Message
summary_message summary = record {
  role = "user";
  content = some (marker ++ 10 ∷ 10 ∷ summary);
  tool_calls = [];
  tool_call_id = none;
}

-- `_inject_summary`.
unfoldable pub inject_summary : List Message → Text → List Message
inject_summary [] summary = summary_message summary ∷ []
inject_summary (m ∷ ms) summary =
    if m.role == "system"
    then m ∷ summary_message summary ∷ ms
    else summary_message summary ∷ m ∷ ms
