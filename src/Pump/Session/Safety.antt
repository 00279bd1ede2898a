-- ===== src/Pump/Session/Safety.antt =====
-- What a sink and a client may rely on, whatever lib/ESPRack/src/net/UploadPump.cpp's tasks do.
use esp_rack.Prelude.{ℕ, ◌≡◌, ◌≢◌, ◌⊎◌, refl, arith, true, false, List, [], ◌∷◌}
use esp_rack.Pump.{
  Pump, running, settled, finish_call, abort_call, success, client_gone, k_done, failed, fail, peek,
  pending, next, done,
}
use esp_rack.Pump.Session.{committed, violation, System, Event, act, step, run, start, Answer}
use esp_rack.Pump.Session.Calls.{InStep}
use esp_rack.Pump.Session.Protocol.{step-InStep}

run-InStep : (s : System) (es : List Event) → InStep s → InStep (run s es)
unfolding run
run-InStep s [] v = v
run-InStep s (e ∷ es) v = run-InStep (step s e) es (step-InStep s e v)

start-InStep : (es : List Event) → InStep (run start es)
start-InStep es = run-InStep start es (record { knows = tt; turn = refl })

-- Whatever the producer, the writer and the client do in whatever order, the sink is only called as
-- its contract allows: one call at a time, open once and first, writes after a successful open and
-- before the first finish, none but the abort behind a call that failed, finish again only while
-- it says more, the abort at most once and, where the finish said more or done, only of a sink whose
-- finish can be taken back, nothing after the abort, and after the commit nothing but that abort.
pub sink_contract : (es : List Event) → (run start es).sink ≢ violation
sink_contract es h = ground (arith, start-InStep es)

-- A session that settled with the result Ok was committed by its sink's finish.
pub settled-committed :
    (es : List Event)
    → let s = run start es in s.core.phase ≡ settled → s.core.result ≡ success → s.sink ≡ committed
unfolding failed
settled-committed es e r = ground (arith, start-InStep es)

-- A failed session whose sink nobody is calling has a call due: the abort, or the finish where one
-- was begun and cannot be taken back.
pub failed_due :
    (es : List Event)
    → let p = (run start es).core in
      p.phase ≡ running
      → p.busy ≡ false
      → failed p ≡ true
      → ((peek p ≡ abort_call) × ((p.finishing ≡ false) ⊎ (p.revocable ≡ true)))
        ⊎ ((peek p ≡ finish_call) × (p.finishing ≡ true) × (p.revocable ≡ false))
unfolding peek pending
failed_due es e b f = ground (arith, start-InStep es)

-- An abort call ends the session, whatever the sink answers.
pub act-abort : (p : Pump) (n now : ℕ) (a : Answer) → (act p abort_call n a now).phase ≡ settled
unfolding act
act-abort p n now a = ground arith

-- A finish call that cannot be taken back and says done ends the session.
pub act-finish :
    (p : Pump) (n now : ℕ) (a : Answer)
    → p.revocable ≡ false
    → a.code ≡ k_done
    → (act p finish_call n a now).phase ≡ settled
unfolding act
act-finish p n now a r h = ground arith

-- Once `next` has given the finish call of a sink whose finish cannot be taken back, the finish stays
-- due after the client goes, also where the call itself was put off and never made.
pub finish_put_off :
    (p : Pump)
    → p.phase ≡ running
    → p.live ≡ true
    → p.revocable ≡ false
    → (next p).0 ≡ finish_call
    → peek (fail (done (next p).3) client_gone) ≡ finish_call
unfolding next peek pending fail done
finish_put_off p e l r h = ground arith
