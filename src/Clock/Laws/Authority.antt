-- ===== src/Clock/Laws/Authority.antt =====
-- Which source has authority, lib/ESPRack/src/time/TimeArbiter.cpp.
use esp_rack.Prelude.{
  ℕ, ◌<◌, ◌≤◌, ◌≡◌, ◌≢◌, refl, sym, ◌∙◌, ap, subst, arith, Bool, true, false, if◌then◌else◌,
}
use esp_rack.Clock.{
  TimeSource, no_source, rtc_hold, manual, ext_rtc, gps, ntp, rank, Now, Arbiter, is_fresh,
  authority, accept,
}

pick : Bool → Bool → Bool → Bool → Bool → TimeSource
pick n g e m h =
    if n
    then ntp
    else if g
    then gps
    else if e
    then ext_rtc
    else if m
    then manual
    else if h
    then rtc_hold
    else no_source

authority-pick :
    (a : Arbiter) (now : Now)
    → authority a now
      ≡ pick
          (is_fresh a now ntp)
          (is_fresh a now gps)
          (is_fresh a now ext_rtc)
          (is_fresh a now manual)
          (is_fresh a now rtc_hold)
unfolding authority pick
authority-pick a now = refl

pub authority_cong :
    (a b : Arbiter) (now : Now)
    → ((r : TimeSource) → is_fresh b now r ≡ is_fresh a now r)
    → authority b now ≡ authority a now
unfolding authority
authority_cong a b now h = cc (h ntp, h gps, h ext_rtc, h manual, h rtc_hold)

fresh_by : Bool → Bool → Bool → Bool → Bool → TimeSource → Bool
fresh_by n g e m h ntp = n
fresh_by n g e m h gps = g
fresh_by n g e m h ext_rtc = e
fresh_by n g e m h manual = m
fresh_by n g e m h rtc_hold = h
fresh_by n g e m h no_source = false

pick_lem :
    (n g e m h : Bool) (r : TimeSource)
    → rank (pick n g e m h) < rank r
    → fresh_by n g e m h r ≡ false
unfolding pick fresh_by
pick_lem n g e m h no_source l = refl
pick_lem n g e m h rtc_hold l = ground arith
pick_lem n g e m h manual l = ground arith
pick_lem n g e m h ext_rtc l = ground arith
pick_lem n g e m h gps l = ground arith
pick_lem n g e m h ntp l = ground arith

pick-fresh :
    (n g e m h : Bool) → pick n g e m h ≢ no_source → fresh_by n g e m h (pick n g e m h) ≡ true
unfolding pick fresh_by
pick-fresh true g e m h d = refl
pick-fresh false true e m h d = refl
pick-fresh false false true m h d = refl
pick-fresh false false false true h d = refl
pick-fresh false false false false true d = refl
pick-fresh false false false false false d = absurd (d refl)

fresh-no_source : (a : Arbiter) (now : Now) → is_fresh a now no_source ≡ false
unfolding is_fresh
fresh-no_source a now = ground arith

fresh-by :
    (a : Arbiter) (now : Now) (r : TimeSource)
    → is_fresh a now r
      ≡ fresh_by
          (is_fresh a now ntp)
          (is_fresh a now gps)
          (is_fresh a now ext_rtc)
          (is_fresh a now manual)
          (is_fresh a now rtc_hold)
          r
unfolding fresh_by
fresh-by a now no_source = fresh-no_source a now
fresh-by a now rtc_hold = refl
fresh-by a now manual = refl
fresh-by a now ext_rtc = refl
fresh-by a now gps = refl
fresh-by a now ntp = refl

-- The authority is a source whose last accepted sync is younger than its freshness time, unless it is
-- no source.
pub authority-fresh :
    (a : Arbiter) (now : Now)
    → authority a now ≢ no_source
    → is_fresh a now (authority a now) ≡ true
authority-fresh a now d =
    let n = is_fresh a now ntp in
    let g = is_fresh a now gps in
    let e = is_fresh a now ext_rtc in
    let m = is_fresh a now manual in
    let h = is_fresh a now rtc_hold in
    let p = authority-pick a now in
    fresh-by a now (authority a now)
    ∙ ap (fresh_by n g e m h) p
    ∙ pick-fresh n g e m h (λ q. d (p ∙ q))

-- No source of a higher rank than the authority's is fresh.
pub authority_highest :
    (a : Arbiter) (now : Now) (r : TimeSource)
    → rank (authority a now) < rank r
    → is_fresh a now r ≡ false
authority_highest a now r l =
    fresh-by a now r
    ∙ pick_lem (is_fresh a now ntp) (is_fresh a now gps) (is_fresh a now ext_rtc)
        (is_fresh a now manual) (is_fresh a now rtc_hold) r
        (subst (λ x. rank x < rank r) (authority-pick a now) l)

not_above : (m n : ℕ) → ¬ (m < n) → n ≤ m
not_above m n h = ground arith

true_not_false : ¬ (true ≡ false)
true_not_false p = cc

accept-fresh :
    (a : Arbiter) (src : TimeSource) (now : Now) (acc : ℕ)
    → src ≢ no_source
    → 0 < a.policy.fresh_ms src
    → is_fresh (accept a src now acc) now src ≡ true
unfolding accept is_fresh
accept-fresh a no_source now acc s f = absurd (s refl)
accept-fresh a rtc_hold now acc s f = ground arith
accept-fresh a manual now acc s f = ground arith
accept-fresh a ext_rtc now acc s f = ground arith
accept-fresh a gps now acc s f = ground arith
accept-fresh a ntp now acc s f = ground arith

-- A source that was just accepted, and whose freshness time is not 0, has authority or yields it to
-- one of a higher rank.
pub authority-accept :
    (a : Arbiter) (src : TimeSource) (now : Now) (acc : ℕ)
    → src ≢ no_source
    → 0 < a.policy.fresh_ms src
    → rank src ≤ rank (authority (accept a src now acc) now)
authority-accept a src now acc s f =
    let i = accept-fresh a src now acc s f in
    not_above (rank (authority (accept a src now acc) now)) (rank src)
      (λ l. true_not_false (sym i ∙ authority_highest (accept a src now acc) now src l))
