-- ===== src/Agents/Scratchpad/Tests.antt =====
-- The third hot note of an agent pushes out the first.
use harness_solomon.Base.{none, List, [], ◌∷◌, ◌≡◌, refl, arith}
use harness_solomon.Base.Text.{codes}
use harness_solomon.Base.Dict.{get, put, pop}
use harness_solomon.Agents.Scratchpad.{
  l0, l2, Notes, ScratchpadStore, l0_size_bytes, write_note, room_for, make_room, prune_until,
  prune_oldest_l0, oldest_l0, find_note, promote_note, promote_found, set_level,
}
use harness_solomon.Agents.Scratchpad.Views.{store_of}
use harness_solomon.Agents.Scratchpad.Cap.{
  Call, writes, promotes, step, run, IsCapped, run-IsCapped,
}

abbrev store : ScratchpadStore
store = store_of "s" "a" 8

abbrev anyone : ScratchpadStore
anyone = record store { agent_id = none }

abbrev empty : Notes
empty = record { rows = []; next_id = 1 }

abbrev calls : List (ScratchpadStore × Call)
calls =
    (store, writes 1 l0 (codes "one") [])
    ∷ (store, writes 2 l2 (codes "two") [])
    ∷ (store, writes 3 l0 (codes "four") [])
    ∷ (anyone, promotes 2 l0)
    ∷ []

-- "two" and "four" stay in L0.
seven_bytes : l0_size_bytes store (run empty calls).rows ≡ 7
unfolding run step write_note room_for make_room prune_until prune_oldest_l0 oldest_l0 find_note
    promote_note promote_found set_level get put pop
seven_bytes = refl

run-IsCapped_example : IsCapped "s" "a" 8 (run empty calls)
run-IsCapped_example =
    run-IsCapped "s" "a" 8 empty calls (refl, (refl, (refl, (refl, tt)))) (omega arith)
