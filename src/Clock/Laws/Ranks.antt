-- ===== src/Clock/Laws/Ranks.antt =====
-- Which samples are turned down for a source of a higher rank, `submit` of
-- lib/ESPRack/src/time/TimeArbiter.cpp.
use esp_rack.Prelude.{
  ℕ, ◌<◌, ◌≡◌, ◌≢◌, ◌↔◌, refl, sym, ◌∙◌, arith, Bool, true, false, not, ◌||◌, if◌then◌else◌,
  if_elim,
}
use esp_rack.Prelude.Int.{ℤ}
use esp_rack.Clock.Laws.Authority.{authority_cong}
use esp_rack.Clock.{
  TimeSource, no_source, rank, src_of, Now, Arbiter, Verdict, TimeSample, pending,
  rejected_outranked, rejected_unconfirmed, submit, submit_eligible, take_sample, turned_down, pend,
  unconfirmed, is_big_jump, eligible, base_of, delta_of, eval_dispute, record_base, valid,
  plausible, is_fresh, is_source, stale, authority, operator_override,
}

unfoldable pub seen : Arbiter → TimeSample → Now → Arbiter
seen a smp now =
    eval_dispute (record_base a smp.src (base_of smp) smp.sample_mono (delta_of smp now)) now

fresh-record_base :
    (a : Arbiter) (src : TimeSource) (b d : ℤ) (m : ℕ) (now : Now) (r : TimeSource)
    → is_fresh (eval_dispute (record_base a src b m d) now) now r ≡ is_fresh a now r
unfolding is_fresh eval_dispute record_base
fresh-record_base a src b d m now r = ground arith

authority-seen :
    (a : Arbiter) (smp : TimeSample) (now : Now) → authority (seen a smp now) now ≡ authority a now
unfolding seen
authority-seen a smp now =
    authority_cong a (seen a smp now) now
      (fresh-record_base a smp.src (base_of smp) (delta_of smp now) smp.sample_mono now)

stale-seen : (a : Arbiter) (smp : TimeSample) (now : Now) → stale (seen a smp now) now ≡ stale a now
unfolding seen stale eval_dispute record_base
stale-seen a smp now = refl

eligible-seen :
    (a : Arbiter) (smp : TimeSample) (now : Now) (w : Bool)
    → eligible (seen a smp now) smp now w ≡ eligible a smp now w
unfolding eligible
eligible-seen a smp now w = cc (authority-seen a smp now, stale-seen a smp now)

take_sample-result :
    (a : Arbiter) (smp : TimeSample) (now : Now) (w : Bool)
    → (take_sample a smp now w).0.result ≢ rejected_outranked
unfolding take_sample
take_sample-result a smp now w = ground arith

not_ranked :
    (b : Bool) (d : ℤ) (w : Bool)
    → (turned_down (if b then rejected_unconfirmed else pending) d w).result ≢ rejected_outranked
not_ranked b d w = ground arith

submit_eligible-result :
    (a : Arbiter) (smp : TimeSample) (now : Now) (w : Bool)
    → (submit_eligible a smp now w).0.result ≢ rejected_outranked
unfolding submit_eligible
submit_eligible-result a smp now w =
    let P : Verdict × Arbiter → Type 0 = λ v. v.0.result ≢ rejected_outranked in
    let (_, s') = pend a.policy (src_of a.sources smp.src) (base_of smp) smp.sample_mono in
    if_elim P (is_big_jump a.policy smp (delta_of smp now) w)
      (if_elim P (unconfirmed a.policy s' smp.sample_mono) (not_ranked _ (delta_of smp now) w)
        (take_sample-result _ smp now w))
      (take_sample-result _ smp now w)

outranked_lem :
    (t e : Bool) (x y z : Verdict × Arbiter)
    → t ≡ false
    → y.0.result ≡ rejected_outranked
    → z.0.result ≢ rejected_outranked
    → ((if t then x else if not e then y else z).0.result ≡ rejected_outranked) ↔ (e ≡ false)
outranked_lem t e x y z h i j = ground arith

pub offered :
    (src : TimeSource) (b : Bool)
    → src ≢ no_source
    → b ≡ true
    → (not (is_source src) || not b) ≡ false
offered src b s h = ground arith

submit-eligible :
    (a : Arbiter) (smp : TimeSample) (now : Now)
    → smp.src ≢ no_source
    → plausible a smp.utc_ms ≡ true
    → ((submit a smp now).0.result ≡ rejected_outranked)
      ↔ (eligible (seen a smp now) smp now (valid a now) ≡ false)
unfolding submit seen
submit-eligible a smp now s p =
    let w = valid a now in
    outranked_lem (not (is_source smp.src) || not (plausible a smp.utc_ms))
      (eligible (seen a smp now) smp now w) _ _ _ (offered smp.src (plausible a smp.utc_ms) s p)
      refl (submit_eligible-result (seen a smp now) smp now w)

not_eligible :
    (a : Arbiter) (smp : TimeSample) (now : Now) (w : Bool)
    → (eligible a smp now w ≡ false)
      ↔ (w ≡ true)
        × (rank smp.src < rank (authority a now))
        × (stale a now ≡ false)
        × (operator_override smp (authority a now) ≡ false)
unfolding eligible
not_eligible a smp now w = ground arith

-- A plausible sample of a source is turned down for its rank exactly when the clock is valid and not
-- stale, the authority ranks above the source, and no operator overrides it.
pub submit-outranked :
    (a : Arbiter) (smp : TimeSample) (now : Now)
    → smp.src ≢ no_source
    → plausible a smp.utc_ms ≡ true
    → ((submit a smp now).0.result ≡ rejected_outranked)
      ↔ (valid a now ≡ true)
        × (rank smp.src < rank (authority a now))
        × (stale a now ≡ false)
        × (operator_override smp (authority a now) ≡ false)
submit-outranked a smp now s p =
    let (f, g) = submit-eligible a smp now s p in
    let (k, l) = not_eligible a smp now (valid a now) in
    let q = eligible-seen a smp now (valid a now) in (λ h. k (sym q ∙ f h), λ h. g (q ∙ l h))
