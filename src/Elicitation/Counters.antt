-- ===== src/Elicitation/Counters.antt =====
-- harness/elicitation.py: the counters of the broker.
use harness_solomon.Base.{
  ℕ, suc, ◌+◌, ◌≤◌, String, Bool, Option, none, some, List, [], ◌∷◌, length, string_eq, ◌≡◌, refl,
  arith,
}
use harness_solomon.Base.Dict.{Dict, get, put, pop}
use harness_solomon.Elicitation.{
  Future, absent, waiting, done, PendingQuestion, Broker, new_question, publish, begin_wait,
  wait_found, opened, answer, answer_found, answer_future, end_wait, end_found, resolve, time_out,
  clean_up, record_resolve,
}
use harness_solomon.Elicitation.Events.{Event, publishes, begins, cancels, answers, ends, step, run}

module _ {V : Type 0} where
  length-put-le : (k : String) (v : V) (m : Dict String V) → length (put k v m) ≤ suc (length m)
  unfolding put
  length-put-le k v [] = omega arith
  length-put-le k v ((j, w) ∷ m) = ground (arith, length-put-le k v m)

  length-put_found :
      (k : String) (v w : V) (m : Dict String V) → get k m ≡ some w → length (put k v m) ≡ length m
  unfolding put get
  length-put_found k v w [] h = absurd cc
  length-put_found k v w ((j, u) ∷ m) h = ground (arith, length-put_found k v w m)

  length-pop-le : (k : String) (m : Dict String V) → length (pop k m) ≤ length m
  unfolding pop
  length-pop-le k [] = omega arith
  length-pop-le k ((j, u) ∷ m) = ground (arith, length-pop-le k m)

  length-pop_found :
      (k : String) (w : V) (m : Dict String V)
      → get k m ≡ some w
      → suc (length (pop k m)) ≤ length m
  unfolding pop get
  length-pop_found k w [] h = absurd cc
  length-pop_found k w ((j, u) ∷ m) h = ground (arith, length-pop_found k w m, length-pop-le k m)

-- No more questions are answered, timed out or pending than were published.
abbrev pub IsCounted : Broker → Type 0
IsCounted b = b.answered_total + b.timed_out_total + length b.pending_questions ≤ b.published_total

begin_wait-IsCounted : (b : Broker) (qid : String) → IsCounted b → IsCounted (begin_wait b qid).0
unfolding begin_wait
begin_wait-IsCounted b qid c = by_question (get qid b.pending_questions) refl
  where
    by_question :
        (o : Option PendingQuestion)
        → get qid b.pending_questions ≡ o
        → IsCounted (wait_found b qid o).0
    by_question none h = c
    by_question (some q) h =
        let same =
          length-put_found qid (record q { future = opened q.future }) q b.pending_questions h in
        omega (arith, same, c)

answer-IsCounted :
    (b : Broker) (qid value source : String) → IsCounted b → IsCounted (answer b qid value source).0
unfolding answer answer_future answer_found
answer-IsCounted b qid value source c = by_question (get qid b.pending_questions) refl
  where
    by_future :
        (q : PendingQuestion) (f : Future)
        → get qid b.pending_questions ≡ some q
        → IsCounted (answer_future b qid value source q f).0
    by_future q absent h = c
    by_future q (done earlier) h = c
    by_future q waiting h =
        let same =
          length-put_found qid (record q { future = done value }) q b.pending_questions h in
        omega (arith, same, c)

    by_question :
        (o : Option PendingQuestion)
        → get qid b.pending_questions ≡ o
        → IsCounted (answer_found b qid value source o).0
    by_question none h = c
    by_question (some q) h = by_future q q.future h

end_wait-IsCounted :
    (b : Broker) (qid : String) (now_wall : ℕ) (records : Bool)
    → IsCounted b
    → IsCounted (end_wait b qid now_wall records).0
unfolding end_wait end_found resolve time_out clean_up record_resolve
end_wait-IsCounted b qid now_wall records c = by_question (get qid b.pending_questions) refl
  where
    by_future :
        (q : PendingQuestion) (f : Future)
        → get qid b.pending_questions ≡ some q
        → IsCounted (resolve b qid q now_wall records f).0
    by_future q absent h = omega (arith, length-pop_found qid q b.pending_questions h, c)
    by_future q (done value) h = omega (arith, length-pop_found qid q b.pending_questions h, c)
    by_future q waiting h = omega (arith, length-pop_found qid q b.pending_questions h, c)

    by_question :
        (o : Option PendingQuestion)
        → get qid b.pending_questions ≡ o
        → IsCounted (end_found b qid now_wall records o).0
    by_question none h = c
    by_question (some q) h = by_future q q.future h

step-IsCounted : (b : Broker) (e : Event) → IsCounted b → IsCounted (step b e)
unfolding step publish clean_up
step-IsCounted b (publishes qid a now_mono now_wall records) c =
    omega (arith, length-put-le qid (new_question a now_mono) b.pending_questions, c)
step-IsCounted b (begins qid) c = begin_wait-IsCounted b qid c
step-IsCounted b (cancels qid) c = omega (arith, length-pop-le qid b.pending_questions, c)
step-IsCounted b (answers qid value source) c = answer-IsCounted b qid value source c
step-IsCounted b (ends qid now_wall records) c = end_wait-IsCounted b qid now_wall records c

-- Whatever happens at the broker, no more questions are answered, timed out or pending than were
-- published, if it was so before.
pub run-IsCounted : (b : Broker) (es : List Event) → IsCounted b → IsCounted (run b es)
unfolding run
run-IsCounted b [] c = c
run-IsCounted b (e ∷ es) c = run-IsCounted (step b e) es (step-IsCounted b e c)
