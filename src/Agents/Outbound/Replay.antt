-- ===== src/Agents/Outbound/Replay.antt =====
-- A dead letter is replayed once.
use harness_solomon.Base.{
  ℕ, ◌+◌, ◌≡◌, refl, Bool, false, List, [], ◌∷◌, ◌==◌, nat_eq, nat_beq_iff, ◌&&◌, any,
  if◌then◌else◌, arith,
}
use harness_solomon.Agents.Outbound.{DlqEntry, Tables, is_null, mark_rows, mark_dlq_replayed}

-- Whether the entry is there and not replayed.
abbrev pub pending : ℕ → List DlqEntry → Bool
pending dlq_id = any λ e. e.id == dlq_id && is_null e.replayed_at

mark_rows-changed : (i now : ℕ) (es : List DlqEntry) → (mark_rows i now es).1 ≡ pending i es
unfolding mark_rows
mark_rows-changed i now [] = refl
mark_rows-changed i now (e ∷ es) = ground (arith, mark_rows-changed i now es)

pub mark_rows-pending :
    (d i now : ℕ) (es : List DlqEntry)
    → pending d (mark_rows i now es).0 ≡ (if i == d then false else pending d es)
unfolding mark_rows
mark_rows-pending d i now [] = ground arith
mark_rows-pending d i now (e ∷ es) =
    ground
      (arith, mark_rows-pending d i now es, nat_beq_iff e.id i, nat_beq_iff e.id d, nat_beq_iff i d)

-- How often the marking of this entry says that it was changed, among markings of any entries.
pub replays : ℕ → Tables → List (ℕ × ℕ) → ℕ
replays d t [] = 0
replays d t ((i, now) ∷ marks) =
    let (t', changed) = mark_dlq_replayed t i now in
    (if i == d then (if changed then 1 else 0) else 0) + replays d t' marks

-- Among any markings of any entries, those of one entry report a change exactly once if the entry is
-- there and not replayed and is marked at all, and never otherwise.
pub replays_once :
    (d : ℕ) (t : Tables) (marks : List (ℕ × ℕ))
    → replays d t marks
      ≡ (if pending d t.dlq then (if any (λ m. m.0 == d) marks then 1 else 0) else 0)
unfolding replays mark_dlq_replayed
replays_once d t [] = ground arith
replays_once d t ((i, now) ∷ marks) =
    let changed = mark_rows-changed i now t.dlq in
    let still = mark_rows-pending d i now t.dlq in
    ground
      (arith, replays_once d (mark_dlq_replayed t i now).0 marks, changed, still, nat_beq_iff i d)
