-- ===== src/Elicitation/Events.antt =====
-- harness/elicitation.py: what happens at the broker, and what a pending question sees of it.
use harness_solomon.Base.{
  ℕ, String, Bool, false, Option, none, some, List, [], ◌∷◌, ◌==◌, string_eq, ==_refl,
  if◌then◌else◌, ◌≡◌, refl, ap, ◌∙◌, arith, Bool-cases, inl, inr, any,
}
use harness_solomon.Base.Dict.{Dict, get, put, pop, get-put, get-pop}
use harness_solomon.Elicitation.{
  Future, absent, waiting, done, PendingQuestion, Broker, Asked, new_question, publish, begin_wait,
  wait_found, opened, answer, answer_found, answer_future, end_wait, end_found, resolve, time_out,
  clean_up, record_resolve, cancel_wait,
}

-- What happens at the broker.
pub data Event : Type 0 where
  publishes : String → Asked → ℕ → ℕ → Bool → Event
  begins cancels : String → Event
  answers : String → String → String → Event
  ends : String → ℕ → Bool → Event

unfoldable pub step : Broker → Event → Broker
unfolding publish begin_wait answer end_wait clean_up
step b (publishes qid a now_mono now_wall records) = publish b qid a now_mono now_wall records
step b (begins qid) = (begin_wait b qid).0
step b (cancels qid) = cancel_wait b qid
step b (answers qid value source) = (answer b qid value source).0
step b (ends qid now_wall records) = (end_wait b qid now_wall records).0

unfoldable pub run : Broker → List Event → Broker
unfolding step
run b [] = b
run b (e ∷ es) = run (step b e) es

-- Whether an event draws the id of a question anew, or is of its one waiter.
abbrev pub disturbs : String → Event → Bool
disturbs k (publishes qid a now_mono now_wall records) = qid == k
disturbs k (begins qid) = qid == k
disturbs k (cancels qid) = qid == k
disturbs k (answers qid value source) = false
disturbs k (ends qid now_wall records) = qid == k

abbrev pub settle_to : String → Future → Future
settle_to value absent = absent
settle_to value (done earlier) = done earlier
settle_to value waiting = done value

abbrev pub settle_one : String → Future → Event → Future
settle_one k f (answers qid value source) = if qid == k then settle_to value f else f
settle_one k f (publishes qid a now_mono now_wall records) = f
settle_one k f (begins qid) = f
settle_one k f (cancels qid) = f
settle_one k f (ends qid now_wall records) = f

-- The future after the answers among some events.
abbrev pub settle : String → Future → List Event → Future
settle k f [] = f
settle k f (e ∷ es) = settle k (settle_one k f e) es

-- The question under an id.
unfoldable pub found : String → Broker → Option PendingQuestion
unfolding get
found k b = get k b.pending_questions

found-other :
    (k qid : String) (q : PendingQuestion) (m : Dict String PendingQuestion)
    → (qid == k) ≡ false
    → get k (put qid q m) ≡ get k m
found-other k qid q m e = get-put qid k q m ∙ ap (λ b. if b then some q else get k m) e

pop-other :
    (k qid : String) (m : Dict String PendingQuestion)
    → (qid == k) ≡ false
    → get k (pop qid m) ≡ get k m
pop-other k qid m e = get-pop qid k m ∙ ap (λ b. if b then none else get k m) e

wait_found-other :
    (k qid : String) (b : Broker) (o : Option PendingQuestion)
    → (qid == k) ≡ false
    → found k (wait_found b qid o).0 ≡ found k b
unfolding wait_found get found
wait_found-other k qid b none e = refl
wait_found-other k qid b (some q) e =
    found-other k qid (record q { future = opened q.future }) b.pending_questions e

answer_found-other :
    (k qid value source : String) (b : Broker) (o : Option PendingQuestion)
    → (qid == k) ≡ false
    → found k (answer_found b qid value source o).0 ≡ found k b
unfolding answer_found answer_future get found
answer_found-other k qid value source b none e = refl
answer_found-other k qid value source b (some q) e = by_future q.future
  where
    by_future : (f : Future) → found k (answer_future b qid value source q f).0 ≡ found k b
    by_future absent = refl
    by_future (done earlier) = refl
    by_future waiting = found-other k qid (record q { future = done value }) b.pending_questions e

end_found-other :
    (k qid : String) (now_wall : ℕ) (records : Bool) (b : Broker) (o : Option PendingQuestion)
    → (qid == k) ≡ false
    → found k (end_found b qid now_wall records o).0 ≡ found k b
unfolding end_found resolve time_out clean_up record_resolve get found
end_found-other k qid now_wall records b none e = refl
end_found-other k qid now_wall records b (some q) e = by_future q.future
  where
    by_future : (f : Future) → found k (resolve b qid q now_wall records f).0 ≡ found k b
    by_future absent = pop-other k qid b.pending_questions e
    by_future (done earlier) = pop-other k qid b.pending_questions e
    by_future waiting = pop-other k qid b.pending_questions e

unfoldable pub settled : PendingQuestion → Future → Option PendingQuestion
settled q f = some (record q { future = f })

answer_found-same :
    (k value source : String) (b : Broker) (q : PendingQuestion)
    → found k b ≡ some q
    → found k (answer_found b k value source (some q)).0 ≡ settled q (settle_to value q.future)
unfolding answer_found answer_future get settled found
answer_found-same k value source b q e = by_future q.future refl
  where
    by_future :
        (f : Future)
        → q.future ≡ f
        → found k (answer_future b k value source q f).0
          ≡ some (record q { future = settle_to value f })
    by_future absent h = e ∙ ap (λ f. some (record q { future = f })) h
    by_future (done earlier) h = e ∙ ap (λ f. some (record q { future = f })) h
    by_future waiting h =
        get-put k k (record q { future = done value }) b.pending_questions ∙ rw (==_refl k)

answer-same :
    (k value source : String) (b : Broker) (q : PendingQuestion)
    → found k b ≡ some q
    → found k (answer b k value source).0 ≡ settled q (settle_to value q.future)
unfolding answer found
answer-same k value source b q e =
    ap (λ o. found k (answer_found b k value source o).0) e ∙ answer_found-same k value source b q e

step-settled :
    (k : String) (b : Broker) (q : PendingQuestion) (e : Event)
    → found k b ≡ some q
    → disturbs k e ≡ false
    → found k (step b e) ≡ settled q (settle_one k q.future e)
unfolding step publish begin_wait end_wait clean_up settled get answer found
step-settled k b q (publishes qid a now_mono now_wall records) h d =
    found-other k qid (new_question a now_mono) b.pending_questions d ∙ h
step-settled k b q (begins qid) h d = wait_found-other k qid b (found qid b) d ∙ h
step-settled k b q (cancels qid) h d = pop-other k qid b.pending_questions d ∙ h
step-settled k b q (ends qid now_wall records) h d =
    end_found-other k qid now_wall records b (found qid b) d ∙ h
step-settled k b q (answers qid value source) h d = elim (Bool-cases (qid == k)) [
  | inl e ↦
      ap (λ j. found k (answer b j value source).0) ((string_eq.same_iff qid k).0 e)
      ∙ answer-same k value source b q h
      ∙ rw e
  | inr e ↦ answer_found-other k qid value source b (found qid b) e ∙ h ∙ rw e
]

pub run-settled :
    (k : String) (b : Broker) (q : PendingQuestion) (es : List Event)
    → found k b ≡ some q
    → any (disturbs k) es ≡ false
    → found k (run b es) ≡ settled q (settle k q.future es)
unfolding run settled found
run-settled k b q [] h d = h
run-settled k b q (e ∷ es) h d =
    let calm : (disturbs k e ≡ false) × (any (disturbs k) es ≡ false) = ground arith in
    run-settled k (step b e) (record q { future = settle_one k q.future e }) es
      (step-settled k b q e h calm.0) calm.1
