-- ===== src/Agents/Outbound/Park.antt =====
-- A url is parked when its failures reach the threshold.
use harness_solomon.Base.{
  ℕ, suc, ◌+◌, ◌<◌, ◌≡◌, refl, ap, ◌∙◌, String, true, false, some, List, [], ◌∷◌, leb, ◌==◌,
  string_eq, ==_refl, length, if◌then◌else◌, ◌⊎◌, inl, inr, arith,
}
use harness_solomon.Base.Dict.{get-put}
use harness_solomon.Agents.Outbound.{
  OutboundWebhook, Tables, is_null, or_new, get_outbound, set_outbound, get_or_create_outbound,
  fail_row, record_outbound_failure,
}

pub get_outbound-set_outbound :
    (t : Tables) (url other : String) (w : OutboundWebhook)
    → get_outbound (set_outbound t url w) other
      ≡ (if url == other then some w else get_outbound t other)
get_outbound-set_outbound t url other w = get-put url other w t.webhooks

-- A failure changes the row of its url by `fail_row`, and no other row.
pub failure-row :
    (t : Tables) (url : String) (threshold now later : ℕ) {w : OutboundWebhook}
    → get_outbound t url ≡ some w
    → (get_outbound (record_outbound_failure t url threshold now later).0 url
        ≡ some (fail_row threshold now later w).0)
      × ((record_outbound_failure t url threshold now later).1 ≡ (fail_row threshold now later w).1)
unfolding record_outbound_failure get_or_create_outbound
failure-row t url threshold now later {w} h =
    let v = or_new t url 1 now (get_outbound t url) in
    let q : v ≡ w = ap (or_new t url 1 now) h in
    (
      get_outbound-set_outbound (set_outbound t url v) url url (fail_row threshold now later v).0
          ∙ rw (==_refl url) (ap (λ k. some (fail_row threshold now later k).0) q),
      ap (λ k. (fail_row threshold now later k).1) q,
    )

pub failure-other :
    (t : Tables) (url other : String) (threshold now later : ℕ)
    → (url == other) ≡ false
    → get_outbound (record_outbound_failure t url threshold now later).0 other
      ≡ get_outbound t other
unfolding record_outbound_failure get_or_create_outbound
failure-other t url other threshold now later ne =
    let v = or_new t url 1 now (get_outbound t url) in
    get_outbound-set_outbound (set_outbound t url v) url other (fail_row threshold now later v).0
    ∙ rw ne (get_outbound-set_outbound t url other v ∙ rw ne)

-- How many of the failures of a url, one after another, park it.
pub parks : ℕ → Tables → String → List (ℕ × ℕ) → ℕ
parks threshold t url [] = 0
parks threshold t url ((now, later) ∷ times) =
    let (t', parked) = record_outbound_failure t url threshold now later in
    (if parked then 1 else 0) + parks threshold t' url times

pub fail_row-parked :
    (threshold now later : ℕ) (w : OutboundWebhook)
    → is_null w.disabled_at ≡ false
    → ((fail_row threshold now later w).1 ≡ false)
      × (is_null (fail_row threshold now later w).0.disabled_at ≡ false)
unfolding fail_row
fail_row-parked threshold now later w h = ground arith

pub fail_row-active :
    (threshold now later : ℕ) (w : OutboundWebhook)
    → is_null w.disabled_at ≡ true
    → w.consecutive_failures < threshold
    → (((fail_row threshold now later w).1 ≡ true)
        × (is_null (fail_row threshold now later w).0.disabled_at ≡ false)
        × (threshold ≡ w.consecutive_failures + 1))
      ⊎ (((fail_row threshold now later w).1 ≡ false)
          × (is_null (fail_row threshold now later w).0.disabled_at ≡ true)
          × ((fail_row threshold now later w).0.consecutive_failures ≡ w.consecutive_failures + 1)
          × (w.consecutive_failures + 1 < threshold))
unfolding fail_row
fail_row-active threshold now later w h less = ground arith

parks_parked :
    (threshold : ℕ) (t : Tables) (url : String) (times : List (ℕ × ℕ)) {w : OutboundWebhook}
    → get_outbound t url ≡ some w
    → is_null w.disabled_at ≡ false
    → parks threshold t url times ≡ 0
unfolding parks
parks_parked threshold t url [] h off = refl
parks_parked threshold t url ((now, later) ∷ times) {w} h off =
    let t' = (record_outbound_failure t url threshold now later).0 in
    let (row, said) = failure-row t url threshold now later h in
    let (unparked, still) = fail_row-parked threshold now later w off in
    rw (said, unparked) (omega (arith, parks_parked threshold t' url times row still))

-- An active url below the threshold is parked by exactly one of a row of failures if these, with the
-- ones already counted, reach the threshold, and by none otherwise.
pub parks_once :
    (threshold : ℕ) (t : Tables) (url : String) (times : List (ℕ × ℕ)) {w : OutboundWebhook}
    → get_outbound t url ≡ some w
    → is_null w.disabled_at ≡ true
    → w.consecutive_failures < threshold
    → parks threshold t url times
      ≡ (if leb threshold (w.consecutive_failures + length times) then 1 else 0)
unfolding parks
parks_once threshold t url [] h on less = ground arith
parks_once threshold t url ((now, later) ∷ times) {w} h on less =
    let t' = (record_outbound_failure t url threshold now later).0 in
    let (row, said) = failure-row t url threshold now later h in
    elim (fail_row-active threshold now later w on less) [
      | inl (yes_parked, off, exact) ↦
          let rest = parks_parked threshold t' url times row off in
          rw (said, yes_parked, rest)
            (parks_now threshold w.consecutive_failures (length times) exact)
      | inr (unparked, still, count, below) ↦
          let rest = parks_once threshold t' url times row still (omega (arith, count, below)) in
          rw (said, unparked, rest, count)
            (parks_later threshold w.consecutive_failures (length times))
    ]
  where
    parks_now : (th c n : ℕ) → th ≡ c + 1 → 1 + 0 ≡ (if leb th (c + suc n) then 1 else 0)
    parks_now th c n e = ground arith

    parks_later :
        (th c n : ℕ)
        → 0 + (if leb th (c + 1 + n) then 1 else 0) ≡ (if leb th (c + suc n) then 1 else 0)
    parks_later th c n = ground arith
