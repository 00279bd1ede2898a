-- ===== src/Pump/Session/Calls.antt =====
-- What lib/ESPRack/src/net/UploadPumpCore.cpp knows of its sink, and what it learns from a call.
use esp_rack.Prelude.{ℕ, zero, suc, ◌≡◌, ◌⊎◌, refl, subst, arith, Bool, true, false}
use esp_rack.Prelude.Int.{ℤ, pos, negsuc}
use esp_rack.Pump.{
  Pump, UploadResult, Phase, idle, running, settled, Action, no_action, open_call, write_call,
  finish_call, abort_call, failed, fail, sink_failed, is_success, opened, wrote, finished, aborted,
  done, note_progress,
}
use esp_rack.Pump.Session.{
  Sink, fresh, ready, ending, broken, committed, gone, violation, Answer, Call, no_call, planned,
  direct, System, told, act_step, on_open, on_write, on_finish, on_abort, heard,
}

-- What the core knows of the sink, for each phase and each state of the sink.
abbrev pub Knows : Phase → Sink → Pump → Type 0
Knows idle gone p = Unit {0}
Knows idle _ p = ⊥
Knows settled gone p = failed p ≡ true
Knows settled committed p = Unit {0}
Knows settled _ p = ⊥
Knows running fresh p = (p.live ≡ true) × (p.is_open ≡ false) × (p.finishing ≡ false)
Knows running ready p =
    (p.live ≡ true) × (p.is_open ≡ true) × ((p.finishing ≡ false) ⊎ (p.final ≡ true))
Knows running ending p =
    (p.live ≡ true) × (p.is_open ≡ true) × (p.finishing ≡ true) × (p.final ≡ true)
Knows running broken p = (p.live ≡ true) × (failed p ≡ true) × (p.finishing ≡ false)
Knows running committed p =
    (p.live ≡ true) × (failed p ≡ true) × (p.revocable ≡ true) × (p.finishing ≡ false)
Knows running gone p = ⊥
Knows running violation p = ⊥

-- A call that `next` gave, or `confirm` made of it, is one that the sink allows now.
abbrev pub Allowed : Action → Sink → Pump → Type 0
Allowed no_action s p = ⊥
Allowed open_call fresh p = Unit {0}
Allowed open_call _ p = ⊥
Allowed write_call ready p = p.finishing ≡ false
Allowed write_call _ p = ⊥
Allowed finish_call ready p = (p.finishing ≡ true) × (p.final ≡ true)
Allowed finish_call ending p = Unit {0}
Allowed finish_call _ p = ⊥
Allowed abort_call ending p = (failed p ≡ true) × (p.revocable ≡ true)
Allowed abort_call _ p = failed p ≡ true

abbrev pub Ready : Call → Sink → Pump → Type 0
Ready no_call s p = p.busy ≡ false
Ready (planned a) s p = (p.busy ≡ true) × (p.phase ≡ running) × Allowed a s p
Ready direct fresh p = (p.busy ≡ true) × (p.phase ≡ running) × (p.finishing ≡ false)
Ready direct ready p = (p.busy ≡ true) × (p.phase ≡ running) × (p.finishing ≡ false)
Ready direct _ p = ⊥

pub record InStep (s : System) : Type 0 where
  pub knows : Knows s.core.phase s.sink s.core
  pub turn : Ready s.call s.sink s.core

-- What `fail` does to a session that runs, with its sink still to be closed.
pub record Failing (p q : Pump) : Type 0 where
  pub phase : q.phase ≡ running
  pub live : q.live ≡ true
  pub failed_now : failed q ≡ true
  pub busy : q.busy ≡ p.busy
  pub is_open : q.is_open ≡ p.is_open
  pub finishing : q.finishing ≡ p.finishing
  pub final : q.final ≡ p.final
  pub revocable : q.revocable ≡ p.revocable

pub fail-Failing :
    (p : Pump) (r : UploadResult)
    → p.phase ≡ running
    → p.live ≡ true
    → is_success r ≡ false
    → Failing p (fail p r)
unfolding fail failed
fail-Failing p r e l h = ground arith

pub opened-Knows :
    (p : Pump) (k : Sink) (ok : Bool)
    → p.phase ≡ running
    → Knows running k p
    → Allowed open_call k p
    → Knows (opened p ok).phase (on_open k ok) (opened p ok)
unfolding opened
opened-Knows p fresh true e h a = ground arith
opened-Knows p fresh false e h a = ground (arith, fail-Failing p sink_failed e h.0 refl)
opened-Knows p ready ok e h a = absurd a
opened-Knows p ending ok e h a = absurd a
opened-Knows p broken ok e h a = absurd a
opened-Knows p committed ok e h a = absurd a
opened-Knows p gone ok e h a = absurd a
opened-Knows p violation ok e h a = absurd a

pub wrote-Knows :
    (p : Pump) (k : Sink) (n : ℕ) (ok ring : Bool)
    → p.phase ≡ running
    → Knows running k p
    → Allowed write_call k p
    → Knows (wrote p n ok ring).phase (on_write k ok) (wrote p n ok ring)
unfolding wrote
wrote-Knows p ready n true ring e h a = ground arith
wrote-Knows p ready n false ring e h a = ground (arith, fail-Failing p sink_failed e h.0 refl)
wrote-Knows p fresh n ok ring e h a = absurd a
wrote-Knows p ending n ok ring e h a = absurd a
wrote-Knows p broken n ok ring e h a = absurd a
wrote-Knows p committed n ok ring e h a = absurd a
wrote-Knows p gone n ok ring e h a = absurd a
wrote-Knows p violation n ok ring e h a = absurd a

finished-Knows :
    (p : Pump) (k : Sink) (c : ℤ)
    → p.phase ≡ running
    → Knows running k p
    → Allowed finish_call k p
    → Knows (finished p c).phase (on_finish k c) (finished p c)
unfolding finished failed
finished-Knows p ready (pos zero) e h a = ground arith
finished-Knows p ready (pos (suc zero)) e h a = ground arith
finished-Knows p ready (pos (suc (suc c))) e h a =
    ground (arith, fail-Failing (record p { finishing = false }) sink_failed e h.0 refl)
finished-Knows p ready (negsuc c) e h a =
    ground (arith, fail-Failing (record p { finishing = false }) sink_failed e h.0 refl)
finished-Knows p ending (pos zero) e h a = ground arith
finished-Knows p ending (pos (suc zero)) e h a = ground arith
finished-Knows p ending (pos (suc (suc c))) e h a =
    ground (arith, fail-Failing (record p { finishing = false }) sink_failed e h.0 refl)
finished-Knows p ending (negsuc c) e h a =
    ground (arith, fail-Failing (record p { finishing = false }) sink_failed e h.0 refl)
finished-Knows p fresh c e h a = absurd a
finished-Knows p broken c e h a = absurd a
finished-Knows p committed c e h a = absurd a
finished-Knows p gone c e h a = absurd a
finished-Knows p violation c e h a = absurd a

aborted-Knows :
    (p : Pump) (k : Sink)
    → Knows running k p
    → Allowed abort_call k p
    → Knows (aborted p).phase (on_abort p.revocable k) (aborted p)
unfolding aborted failed
aborted-Knows p fresh h a = a
aborted-Knows p ready h a = a
aborted-Knows p broken h a = a
aborted-Knows p ending h a = ground arith
aborted-Knows p committed h a = ground arith
aborted-Knows p gone h a = absurd h
aborted-Knows p violation h a = absurd h

-- The core hears of a call that the sink allows, and keeps knowing the sink.
heard-Knows :
    (p : Pump) (c : Action) (k : Sink) (n : ℕ) (a : Answer)
    → p.phase ≡ running
    → Knows running k p
    → Allowed c k p
    → Knows (heard p c n a).phase (told p.revocable k c a) (heard p c n a)
unfolding heard
heard-Knows p no_action k n a e h l = absurd l
heard-Knows p open_call k n a e h l = opened-Knows p k a.worked e h l
heard-Knows p write_call k n a e h l = wrote-Knows p k n a.worked true e h l
heard-Knows p finish_call k n a e h l = finished-Knows p k a.code e h l
heard-Knows p abort_call k n a e h l = aborted-Knows p k h l

-- The end of a call: the sink is free again.
pub done-InStep :
    (p : Pump) (k : Sink) (now : ℕ)
    → Knows p.phase k p
    → InStep (record { core = done (note_progress p now); call = no_call; sink = k })
unfolding done note_progress failed
done-InStep p k now h = ground arith

pub given-back-InStep :
    (p : Pump) (k : Sink)
    → Knows p.phase k p
    → InStep (record { core = done p; call = no_call; sink = k })
unfolding done failed
given-back-InStep p k h = ground arith

pub act-InStep :
    (p : Pump) (c : Call) (k : Sink) (n : ℕ) (a : Answer) (now : ℕ)
    → InStep (record { core = p; call = c; sink = k })
    → InStep (act_step p c k n a now)
unfolding act_step
act-InStep p no_call k n a now v = v
act-InStep p direct k n a now v = v
act-InStep p (planned c) k n a now v =
    let (_, e, l) = v.turn in
    done-InStep (heard p c n a) _ now
      (heard-Knows p c k n a e (subst (λ f. Knows f k p) e v.knows) l)
