-- ===== src/Pump/Session/Protocol.antt =====
-- The order in which lib/ESPRack/src/net/UploadPumpCore.cpp lets the sink be called.
use esp_rack.Prelude.{
  ℕ, ◌≡◌, ◌⊎◌, inl, inr, refl, sym, subst, arith, Bool, true, false, not, ◌==◌, if◌then◌else◌,
  Bool-cases, Option,
}
use esp_rack.Pump.{
  Pump, UploadResult, Phase, idle, running, settled, failed, accepting, begin, set_ring, take_ring,
  set_final, fail, reserve, commit, window, next, claim, done, opened, overflow, is_some,
  note_progress,
}
use esp_rack.Pump.Session.{
  Sink, fresh, ready, ending, broken, committed, gone, violation, Call, no_call, planned, direct,
  System, Event, begins, rings, reclaims, reserves, commits, last_pushed, fails, windows, claims,
  direct_write, takes, confirms, acts, gives_back, step, confirm_step, give_back_step, direct_step,
  on_write, push_direct, push_open, push_write,
}
use esp_rack.Pump.Session.Calls.{
  Knows, Ready, InStep, Failing, opened-Knows, wrote-Knows, done-InStep, given-back-InStep,
  act-InStep,
}

-- Two cores that say the same of the session; their rings, windows and counts may differ.
record Same (p q : Pump) : Type 0 where
  phase : q.phase ≡ p.phase
  result : q.result ≡ p.result
  busy : q.busy ≡ p.busy
  live : q.live ≡ p.live
  is_open : q.is_open ≡ p.is_open
  finishing : q.finishing ≡ p.finishing
  final : q.final ≡ p.final
  revocable : q.revocable ≡ p.revocable

Same-Knows : (p q : Pump) (f : Phase) (k : Sink) → Same p q → Knows f k p → Knows f k q
unfolding failed
Same-Knows p q idle gone s h = tt
Same-Knows p q settled k s h = ground arith
Same-Knows p q running fresh s h = ground arith
Same-Knows p q running k s h = ground arith
Same-Knows p q idle k s h = ground arith

Same-Ready : (p q : Pump) (c : Call) (k : Sink) → Same p q → Ready c k p → Ready c k q
unfolding failed
Same-Ready p q no_call k s h = ground arith
Same-Ready p q direct k s h = ground arith
Same-Ready p q (planned c) k s h = ground arith

Same-InStep :
    (p q : Pump) (c : Call) (k : Sink)
    → Same p q
    → InStep (record { core = p; call = c; sink = k })
    → InStep (record { core = q; call = c; sink = k })
Same-InStep p q c k s v = record {
  knows = subst (λ (x : Phase). Knows x k q) (sym s.phase) (Same-Knows p q p.phase k s v.knows);
  turn = Same-Ready p q c k s v.turn;
}

take_ring-Same : (p : Pump) → Same p (take_ring p).1
unfolding take_ring
take_ring-Same p = ground arith

commit-Same : (p : Pump) (n : ℕ) → Same p (commit p n)
unfolding commit
commit-Same p n = ground arith

window-Same : (p : Pump) → Same p (window p).1
unfolding window
window-Same p = ground arith

ring-InStep : (s : System) (b : Option ℕ) (n : ℕ) → InStep s → InStep (step s (rings b n))
unfolding step set_ring
ring-InStep s b n v = elim (Bool-cases (is_some s.core.buf)) [
  | inl e ↦ rw (e, step) v
  | inr e ↦ rw (e, step) (Same-InStep s.core _ s.call s.sink (ground arith) v)
]

confirm-InStep :
    (p : Pump) (c : Call) (k : Sink)
    → InStep (record { core = p; call = c; sink = k })
    → InStep (confirm_step p c k)
unfolding confirm_step failed
confirm-InStep p no_call k v = v
confirm-InStep p direct k v = v
confirm-InStep p (planned c) k v = ground arith

give_back-InStep :
    (p : Pump) (c : Call) (k : Sink)
    → InStep (record { core = p; call = c; sink = k })
    → InStep (give_back_step p c k)
unfolding give_back_step
give_back-InStep p no_call k v = v
give_back-InStep p direct k v = given-back-InStep p k v.knows
give_back-InStep p (planned c) k v = given-back-InStep p k v.knows

begin-InStep : (s : System) (h now : ℕ) (r : Bool) → InStep s → InStep (step s (begins h now r))
unfolding step begin failed
begin-InStep s h now r v = ground arith

take-InStep : (s : System) → InStep s → InStep (step s takes)
unfolding step next failed
take-InStep s v = ground arith

claim-InStep : (s : System) → InStep s → InStep (step s claims)
unfolding step claim accepting
claim-InStep s v = ground arith

fail-cases :
    (p : Pump) (r : UploadResult) (k : Sink)
    → Knows p.phase k p
    → (fail p r ≡ p) ⊎ ((p.phase ≡ running) × Failing p (fail p r))
unfolding fail failed
fail-cases p r k h = ground arith

Failing-Knows : (p q : Pump) (k : Sink) → Failing p q → Knows running k p → Knows running k q
Failing-Knows p q fresh f h = ground arith
Failing-Knows p q k f h = ground arith

Failing-Ready : (p q : Pump) (c : Call) (k : Sink) → Failing p q → Ready c k p → Ready c k q
Failing-Ready p q no_call k f h = ground arith
Failing-Ready p q direct k f h = ground arith
Failing-Ready p q (planned c) k f h = ground arith

fail-InStep :
    (p : Pump) (r : UploadResult) (c : Call) (k : Sink)
    → InStep (record { core = p; call = c; sink = k })
    → InStep (record { core = fail p r; call = c; sink = k })
fail-InStep p r c k v = elim (fail-cases p r k v.knows) [
  | inl e ↦ rw e v
  | inr (e, f) ↦ record {
    knows =
        subst (λ (x : Phase). Knows x k (fail p r)) (sym f.phase)
          (Failing-Knows p (fail p r) k f (subst (λ (x : Phase). Knows x k p) e v.knows));
    turn = Failing-Ready p (fail p r) c k f v.turn;
  }
]

-- A reservation that does not fit fails the session; any other keeps what the core knows.
reserve-cases : (p : Pump) (n : ℕ) → Same p (reserve p n).2 ⊎ ((reserve p n).2 ≡ fail p overflow)
unfolding reserve
reserve-cases p n = ground arith

reserve-InStep :
    (p : Pump) (n : ℕ) (c : Call) (k : Sink)
    → InStep (record { core = p; call = c; sink = k })
    → InStep (record { core = (reserve p n).2; call = c; sink = k })
reserve-InStep p n c k v = elim (reserve-cases p n) [
  | inl h ↦ Same-InStep p _ c k h v
  | inr e ↦ rw e (fail-InStep p overflow c k v)
]

final-InStep : (s : System) → InStep s → InStep (step s last_pushed)
unfolding step set_final failed
final-InStep s v = ground arith

push_write-Knows :
    (p : Pump) (n : ℕ) (w : Bool)
    → p.phase ≡ running
    → Knows running ready p
    → p.finishing ≡ false
    → let q = push_write (true, p) n w in
      Knows q.phase (if not (n == 0) then on_write ready w else ready) q
unfolding push_write
push_write-Knows p n w e h f = elim (Bool-cases (n == 0)) [
  | inl z ↦ rw z (subst (λ (x : Phase). Knows x ready p) (sym e) h)
  | inr z ↦ rw z (wrote-Knows p ready n w false e h f)
]

-- The end of the direct branch: the last chunk is noted, and the sink is free again.
direct_done-InStep :
    (p : Pump) (k : Sink) (final : Bool) (now : ℕ)
    → Knows p.phase k p
    → InStep (record {
      core = done (note_progress (if final then set_final p else p) now);
      call = no_call;
      sink = k;
    })
unfolding set_final failed
direct_done-InStep p k false now h = done-InStep p k now h
direct_done-InStep p k true now h = done-InStep _ k now (ground arith)

opened_write-Knows :
    (p : Pump) (n : ℕ) (w : Bool)
    → p.phase ≡ running
    → Knows running fresh p
    → p.finishing ≡ false
    → let q = push_write (true, opened p true) n w in
      Knows q.phase (if not (n == 0) then on_write ready w else ready) q
unfolding opened
opened_write-Knows p n w e h quiet = push_write-Knows _ n w e (h.0, refl, inl quiet) quiet

not_opened-Knows :
    (p : Pump) (n : ℕ) (w : Bool)
    → p.phase ≡ running
    → Knows running fresh p
    → let q = push_write (false, opened p false) n w in Knows q.phase broken q
unfolding push_write
not_opened-Knows p n w e h = opened-Knows p fresh false e h tt

direct_fresh-InStep :
    (p : Pump) (n : ℕ) (f o w : Bool) (now : ℕ)
    → p.phase ≡ running
    → Knows running fresh p
    → p.finishing ≡ false
    → InStep (direct_step p direct fresh n f o w now)
unfolding direct_step push_direct push_open
direct_fresh-InStep p n f true w now e h quiet =
    simp h.1 (direct_done-InStep _ _ f now (opened_write-Knows p n w e h quiet))
direct_fresh-InStep p n f false w now e h quiet =
    simp h.1 (direct_done-InStep _ _ f now (not_opened-Knows p n w e h))

direct-InStep :
    (p : Pump) (c : Call) (k : Sink) (n : ℕ) (f o w : Bool) (now : ℕ)
    → InStep (record { core = p; call = c; sink = k })
    → InStep (direct_step p c k n f o w now)
unfolding direct_step push_direct push_open
direct-InStep p no_call k n f o w now v = v
direct-InStep p (planned c) k n f o w now v = v
direct-InStep p direct fresh n f o w now v =
    let (_, e, quiet) = v.turn in
    let h : Knows running fresh p = subst (λ (x : Phase). Knows x fresh p) e v.knows in
    direct_fresh-InStep p n f o w now e h quiet
direct-InStep p direct ready n f o w now v =
    let (_, e, quiet) = v.turn in
    let h : Knows running ready p = subst (λ (x : Phase). Knows x ready p) e v.knows in
    simp h.1 (direct_done-InStep _ _ f now (push_write-Knows p n w e h quiet))
direct-InStep p direct ending n f o w now v = absurd v.turn
direct-InStep p direct broken n f o w now v = absurd v.turn
direct-InStep p direct committed n f o w now v = absurd v.turn
direct-InStep p direct gone n f o w now v = absurd v.turn
direct-InStep p direct violation n f o w now v = absurd v.turn

-- Whatever the tasks do in whatever order, the core and the sink stay in step.
pub step-InStep : (s : System) (e : Event) → InStep s → InStep (step s e)
unfolding step
step-InStep s (begins h now r) v = begin-InStep s h now r v
step-InStep s (rings b n) v = ring-InStep s b n v
step-InStep s reclaims v = Same-InStep s.core _ s.call s.sink (take_ring-Same s.core) v
step-InStep s (reserves n) v = reserve-InStep s.core n s.call s.sink v
step-InStep s (commits n) v = Same-InStep s.core _ s.call s.sink (commit-Same s.core n) v
step-InStep s last_pushed v = final-InStep s v
step-InStep s (fails r) v = fail-InStep s.core r s.call s.sink v
step-InStep s windows v = Same-InStep s.core _ s.call s.sink (window-Same s.core) v
step-InStep s claims v = claim-InStep s v
step-InStep s (direct_write n f o w now) v = direct-InStep s.core s.call s.sink n f o w now v
step-InStep s takes v = take-InStep s v
step-InStep s confirms v = confirm-InStep s.core s.call s.sink v
step-InStep s (acts n a now) v = act-InStep s.core s.call s.sink n a now v
step-InStep s gives_back v = give_back-InStep s.core s.call s.sink v
