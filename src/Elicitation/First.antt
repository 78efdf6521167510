-- ===== src/Elicitation/First.antt =====
-- harness/elicitation.py: a wait ends with the first answer that came while it waited, and with the
-- default if there was none, whatever happens to other questions.
use harness_solomon.Base.{
  ℕ, String, Bool, true, false, some, List, [], ◌∷◌, ◌==◌, string_eq, ==_refl, if◌then◌else◌, ◌≡◌,
  refl, ap, ◌∙◌, Bool-cases, inl, inr, any,
}
use harness_solomon.Base.Dict.{get, get-put}
use harness_solomon.Elicitation.{
  Future, absent, waiting, done, PendingQuestion, Broker, Asked, new_question, publish, begin_wait,
  wait_found, end_wait, end_found, resolve, time_out,
}
use harness_solomon.Elicitation.Events.{
  Event, publishes, begins, cancels, answers, ends, run, disturbs, found, settle, settled,
  run-settled,
}

-- The first answer of a question, or the default.
abbrev pub first_answer : String → String → List Event → String
first_answer k default_answer [] = default_answer
first_answer k default_answer (answers qid value source ∷ es) =
    let later = first_answer k default_answer es in if qid == k then value else later
first_answer k default_answer (publishes qid a now_mono now_wall records ∷ es) =
    first_answer k default_answer es
first_answer k default_answer (begins qid ∷ es) = first_answer k default_answer es
first_answer k default_answer (cancels qid ∷ es) = first_answer k default_answer es
first_answer k default_answer (ends qid now_wall records ∷ es) = first_answer k default_answer es

if_both : {f g : Future} (b : Bool) (P : Future → Type 0) → P f → P g → P (if b then f else g)
if_both true P p q = p
if_both false P p q = q

settle-absent : (k : String) (es : List Event) → settle k absent es ≡ absent
settle-absent k [] = refl
settle-absent k (publishes qid a now_mono now_wall records ∷ es) = settle-absent k es
settle-absent k (begins qid ∷ es) = settle-absent k es
settle-absent k (cancels qid ∷ es) = settle-absent k es
settle-absent k (ends qid now_wall records ∷ es) = settle-absent k es
settle-absent k (answers qid value source ∷ es) =
    if_both (qid == k) (λ f. settle k f es ≡ absent) (settle-absent k es) (settle-absent k es)

settle-done : (k value : String) (es : List Event) → settle k (done value) es ≡ done value
settle-done k value [] = refl
settle-done k value (publishes qid a now_mono now_wall records ∷ es) = settle-done k value es
settle-done k value (begins qid ∷ es) = settle-done k value es
settle-done k value (cancels qid ∷ es) = settle-done k value es
settle-done k value (ends qid now_wall records ∷ es) = settle-done k value es
settle-done k value (answers qid later source ∷ es) =
    if_both (qid == k) (λ f. settle k f es ≡ done value) (settle-done k value es)
      (settle-done k value es)

abbrev result : String → Future → String
result default_answer (done value) = value
result default_answer absent = default_answer
result default_answer waiting = default_answer

settle-first_answer :
    (k default_answer : String) (es : List Event)
    → result default_answer (settle k waiting es) ≡ first_answer k default_answer es
settle-first_answer k default_answer [] = refl
settle-first_answer k default_answer (publishes qid a now_mono now_wall records ∷ es) =
    settle-first_answer k default_answer es
settle-first_answer k default_answer (begins qid ∷ es) = settle-first_answer k default_answer es
settle-first_answer k default_answer (cancels qid ∷ es) = settle-first_answer k default_answer es
settle-first_answer k default_answer (ends qid now_wall records ∷ es) =
    settle-first_answer k default_answer es
settle-first_answer k default_answer (answers qid value source ∷ es) =
    elim (Bool-cases (qid == k)) [
      | inl e ↦ rw e (ap (result default_answer) (settle-done k value es))
      | inr e ↦ rw e (settle-first_answer k default_answer es)
    ]

end_found-result :
    (k : String) (now_wall : ℕ) (records : Bool) (b : Broker) (q : PendingQuestion)
    → (end_found b k now_wall records (some q)).1 ≡ some (result q.default_answer q.future)
unfolding end_found resolve time_out
end_found-result k now_wall records b q = by_future q.future
  where
    by_future :
        (f : Future) → (resolve b k q now_wall records f).1 ≡ some (result q.default_answer f)
    by_future absent = refl
    by_future (done value) = refl
    by_future waiting = refl

-- What the wait of a question returns, from when it is published: the first answer that comes after the
-- wait has begun, or the default if none does. Answers before that are lost, and nothing that happens
-- to other questions counts, as long as the id is not drawn again and the question has this one waiter.
pub published_wait :
    (k : String) (b : Broker) (a : Asked) (now_mono now_wall : ℕ) (records : Bool)
    (early late : List Event) (ended_at : ℕ) (records_end : Bool)
    → any (disturbs k) early ≡ false
    → any (disturbs k) late ≡ false
    → (end_wait
        (run (begin_wait (run (publish b k a now_mono now_wall records) early) k).0 late)
        k
        ended_at
        records_end).1
      ≡ some (first_answer k a.default_answer late)
unfolding publish begin_wait end_wait settled get found
published_wait k b a now_mono now_wall records early late ended_at records_end calm_early
      calm_late =
    let q = new_question a now_mono in
    let start = publish b k a now_mono now_wall records in
    let begun = run start early in
    let there : found k begun ≡ some q =
      run-settled k start q early (get-put k k q b.pending_questions ∙ rw (==_refl k)) calm_early
      ∙ ap (settled q) (settle-absent k early) in
    let waits : found k (begin_wait begun k).0 ≡ some (record q { future = waiting }) =
      ap (λ o. found k (wait_found begun k o).0) there
      ∙ get-put k k (record q { future = waiting }) begun.pending_questions
      ∙ rw (==_refl k) in
    let last = run (begin_wait begun k).0 late in
    let after =
      run-settled k (begin_wait begun k).0 (record q { future = waiting }) late waits calm_late in
    ap (λ o. (end_found last k ended_at records_end o).1) after
    ∙ end_found-result k ended_at records_end last (record q { future = settle k waiting late })
    ∙ ap (λ answer. some answer) (settle-first_answer k a.default_answer late)
