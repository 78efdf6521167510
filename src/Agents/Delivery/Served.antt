-- ===== src/Agents/Delivery/Served.antt =====
-- harness/agents/outbound.py: what one event makes of a url that does not accept it.
use harness_solomon.Base.{
  ℕ, suc, ◌+◌, String, Bool, true, false, Option, some, List, [], ◌∷◌, ◌++◌, ◌==◌, string_eq, ◌&&◌,
  ◌||◌, not, if◌then◌else◌, ◌≡◌, refl, sym, ap, subst, ◌∙◌, inl, inr, Bool-cases, keep, arith,
}
use harness_solomon.Agents.Outbound.{OutboundWebhook, Tables, is_null, get_outbound}
use harness_solomon.Agents.Delivery.Attempts.{Outcome, attempts}
use harness_solomon.Agents.Delivery.Dispatcher.{
  Event, Dispatcher, World, Delivery, filtering, is_disabled, settle, should_fire, value_or,
  filter_disabled, deliver_one, deliver_all, deliver, is_off, fire, run_tasks,
}
use harness_solomon.Agents.Delivery.Budget.{refuses, answers, attempts_from-refuses}
use harness_solomon.Agents.Delivery.Rows.{letters}
use harness_solomon.Agents.Delivery.Settled.{Calm, failed_row, settle-failed, settle-other}

abbrev pub occurrences : String → List String → ℕ
occurrences url [] = 0
occurrences url (u ∷ us) = (if u == url then 1 else 0) + occurrences url us

-- The deliveries to a url.
abbrev pub attempted : String → List Delivery → ℕ
attempted url [] = 0
attempted url (d ∷ ds) = (if d.url == url then 1 else 0) + attempted url ds

pub attempted-append :
    (url : String) (ds es : List Delivery)
    → attempted url (ds ++ es) ≡ attempted url ds + attempted url es
attempted-append url [] es = omega arith
attempted-append url (d ∷ ds) es = omega (arith, attempted-append url ds es)

occurrences-keep :
    (p : String → Bool) (url : String) (us : List String)
    → occurrences url (keep p us) ≡ (if p url then occurrences url us else 0)
occurrences-keep p url [] = ground arith
occurrences-keep p url (u ∷ us) = grind (arith, string_eq.same_iff u url, occurrences-keep p url us)

not_first : (b : Bool) {n : ℕ} → (if b then 1 else 0) + n ≡ 0 → (b ≡ false) × (n ≡ 0)
not_first b h = ground arith

first_only : (b : Bool) {n : ℕ} → b ≡ true → (if b then 1 else 0) + n ≡ 1 → n ≡ 0
first_only b e h = ground arith

later_only : (b : Bool) {n : ℕ} → b ≡ false → (if b then 1 else 0) + n ≡ 1 → n ≡ 1
later_only b e h = ground arith

module _ (w : World) (d : Dispatcher) (e : Event) where
  abbrev outcome : String → Outcome
  outcome u = (attempts d.retries (w.jitter u) (w.post u)).outcome

  -- The tables after the deliveries to `urls`.
  abbrev serve : Tables → List String → Tables
  serve t [] = t
  serve t (u ∷ us) = serve (settle w d t u e (outcome u)) us

  deliver_all-serve :
      (t : Tables) (us : List String) → (deliver_all w d (some t) us e).0 ≡ some (serve t us)
  unfolding deliver_all deliver_one
  deliver_all-serve t [] = refl
  deliver_all-serve t (u ∷ us) = deliver_all-serve (settle w d t u e (outcome u)) us

  deliver_all-attempted :
      (url : String) (us : List String) (store : Option Tables)
      → attempted url (deliver_all w d store us e).1 ≡ occurrences url us
  unfolding deliver_all deliver_one
  deliver_all-attempted url [] store = refl
  deliver_all-attempted url (u ∷ us) store =
      ap (λ n. (if u == url then 1 else 0) + n)
        (deliver_all-attempted url us (deliver_one w d store u e).0)

  serve-none :
      (t : Tables) (url : String) (us : List String) {row : OutboundWebhook}
      → occurrences url us ≡ 0
      → get_outbound t url ≡ some row
      → (get_outbound (serve t us) url ≡ some row) × (letters url (serve t us) ≡ letters url t)
  serve-none t url [] o h = (h, refl)
  serve-none t url (u ∷ us) {row} o h =
      let (ne, rest) = not_first (u == url) o in
      let (r, l) = settle-other w d u e t (outcome u) url ne h in
      let (r', l') = serve-none (settle w d t u e (outcome u)) url us rest r in (r', l' ∙ l)

  abbrev pub IsServed : Tables → String → OutboundWebhook → Tables → Type 0
  IsServed t url row t' =
      (get_outbound t' url ≡ some (failed_row w d url e row))
      × (letters url t' ≡ letters url t + (if d.dlq_enabled then 1 else 0))

  serve-head :
      (t : Tables) (url : String) {row : OutboundWebhook}
      → Calm w url
      → refuses (answers (w.post url) (suc d.retries.max_retries) 0) ≡ true
      → get_outbound t url ≡ some row
      → IsServed t url row (settle w d t url e (outcome url))
  unfolding attempts
  serve-head t url calm un h =
      settle-failed w d url e t (outcome url) calm
        (attempts_from-refuses d.retries (w.jitter url) (w.post url) (suc d.retries.max_retries) 0
            []
          ∙ un)
        h

  serve-once :
      (t : Tables) (url : String) (us : List String) {row : OutboundWebhook}
      → Calm w url
      → refuses (answers (w.post url) (suc d.retries.max_retries) 0) ≡ true
      → occurrences url us ≡ 1
      → get_outbound t url ≡ some row
      → IsServed t url row (serve t us)
  serve-once t url [] calm un o h = absurd (omega (arith, o))
  serve-once t url (u ∷ us) {row} calm un o h = elim (Bool-cases (u == url)) [
    | inl same ↦
        let t' = settle w d t u e (outcome u) in
        let q : u ≡ url = (string_eq.same_iff u url).0 same in
        let (r, l) =
          subst (λ (v : String). IsServed t url row (settle w d t v e (outcome v))) (sym q)
            (serve-head t url calm un h) in
        let (r', l') = serve-none t' url us (first_only (u == url) same o) r in (r', l' ∙ l)
    | inr ne ↦
        let t' = settle w d t u e (outcome u) in
        let (r, l) = settle-other w d u e t (outcome u) url ne h in
        let (r', l') = serve-once t' url us calm un (later_only (u == url) ne o) r in
        (r', omega (arith, l, l'))
  ]

  abbrev pub IsFired : Type 0
  IsFired = (should_fire (value_or "" e.kind) && not (is_off d.urls) && w.has_loop) ≡ true

  -- The event fired while no task waits, and its task run to its end.
  abbrev pub fired_alone : Option Tables → Option Tables × List Delivery
  fired_alone store = run_tasks w d store (fire w d [] e)

  -- How often a url that stands once among the urls of the dispatcher is served.
  abbrev served : Option OutboundWebhook → ℕ
  served o = if is_disabled o then 0 else 1

  occurrences-filter :
      (t : Tables) (url : String)
      → Calm w url
      → occurrences url d.urls ≡ 1
      → occurrences url (filter_disabled w (some t) d.urls) ≡ served (get_outbound t url)
  occurrences-filter t url calm once =
      occurrences-keep (λ u. w.raises filtering u || not (is_disabled (get_outbound t u))) url
        d.urls
      ∙ rw (calm filtering, once) (ground arith)

  -- The event is fired: the url is served if its row is not parked.
  fire-lem :
      (t : Tables) (url : String)
      → Calm w url
      → occurrences url d.urls ≡ 1
      → IsFired
      → ((fired_alone (some t)).0 ≡ some (serve t (filter_disabled w (some t) d.urls)))
        × (attempted url (fired_alone (some t)).1 ≡ served (get_outbound t url))
  unfolding fire run_tasks deliver
  fire-lem t url calm once fired = rw fired (
    deliver_all-serve t (filter_disabled w (some t) d.urls),
    attempted-append url (deliver w d (some t) e).1 []
        ∙ omega (arith, deliver_all-attempted url (filter_disabled w (some t) d.urls) (some t))
        ∙ occurrences-filter t url calm once,
  )

  pub fire-parked :
      (t : Tables) (url : String) {row : OutboundWebhook}
      → Calm w url
      → occurrences url d.urls ≡ 1
      → IsFired
      → get_outbound t url ≡ some row
      → is_null row.disabled_at ≡ false
      → (t' : Tables) × ((fired_alone (some t)).0 ≡ some t')
        × (attempted url (fired_alone (some t)).1 ≡ 0)
        × (get_outbound t' url ≡ some row)
        × (letters url t' ≡ letters url t)
  fire-parked t url {row} calm once fired h off =
      let (q, n) = fire-lem t url calm once fired in
      let us = filter_disabled w (some t) d.urls in
      let zero_served : served (get_outbound t url) ≡ 0 = ap served h ∙ rw off refl in
      let (r, l) = serve-none t url us (occurrences-filter t url calm once ∙ zero_served) h in
      (serve t us, q, n ∙ zero_served, r, l)

  pub fire-active :
      (t : Tables) (url : String) {row : OutboundWebhook}
      → Calm w url
      → refuses (answers (w.post url) (suc d.retries.max_retries) 0) ≡ true
      → occurrences url d.urls ≡ 1
      → IsFired
      → get_outbound t url ≡ some row
      → is_null row.disabled_at ≡ true
      → (t' : Tables) × ((fired_alone (some t)).0 ≡ some t')
        × (attempted url (fired_alone (some t)).1 ≡ 1)
        × IsServed t url row t'
  fire-active t url {row} calm un once fired h on =
      let (q, n) = fire-lem t url calm once fired in
      let us = filter_disabled w (some t) d.urls in
      let one_served : served (get_outbound t url) ≡ 1 = ap served h ∙ rw on refl in
      (
        serve t us,
        q,
        n ∙ one_served,
        serve-once t url us calm un (occurrences-filter t url calm once ∙ one_served) h,
      )
