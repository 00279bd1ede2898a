-- ===== src/Pump/Session/Tests.antt =====
-- An upload of ten bytes, and one whose client goes, through lib/ESPRack/src/net/UploadPumpCore.cpp.
use esp_rack.Prelude.{◌≡◌, ◌≢◌, ◌⊎◌, refl, true, false, some, List, [], ◌∷◌}
use esp_rack.Pump.{
  Pump, running, settled, finish_call, abort_call, success, client_gone, k_done, new_pump, failed,
  fail, peek, next, done,
}
use esp_rack.Pump.Session.{
  committed, violation, System, Event, begins, rings, reserves, commits, last_pushed, takes,
  confirms, acts, fails, Answer, act, run, start,
}
use esp_rack.Pump.Session.Safety.{sink_contract, settled-committed, failed_due, finish_put_off}

abbrev yes : Answer
yes = record { worked = true; code = k_done }

abbrev upload : List Event
upload =
    begins 100 0 false
    ∷ rings (some 1) 4096
    ∷ reserves 10
    ∷ commits 10
    ∷ last_pushed
    ∷ takes
    ∷ confirms
    ∷ acts 0 yes 1
    ∷ takes
    ∷ confirms
    ∷ acts 10 yes 2
    ∷ takes
    ∷ confirms
    ∷ acts 0 yes 3
    ∷ []

abbrev broken_off : List Event
broken_off = begins 100 0 true ∷ rings (some 1) 4096 ∷ fails client_gone ∷ []

sink_contract_example : (run start upload).sink ≢ violation
sink_contract_example = sink_contract upload

upload_settles : (run start upload).core.phase ≡ settled
unfolding run esp_rack.Pump.Session.step next esp_rack.Pump.set_final esp_rack.Pump.commit
    esp_rack.Pump.reserve esp_rack.Pump.begin esp_rack.Pump.set_ring
upload_settles = refl

upload_works : (run start upload).core.result ≡ success
unfolding run esp_rack.Pump.Session.step next esp_rack.Pump.set_final esp_rack.Pump.commit
    esp_rack.Pump.reserve esp_rack.Pump.begin esp_rack.Pump.set_ring
upload_works = refl

settled-committed_example : (run start upload).sink ≡ committed
settled-committed_example = settled-committed upload upload_settles upload_works

off_runs : (run start broken_off).core.phase ≡ running
unfolding run esp_rack.Pump.Session.step esp_rack.Pump.begin esp_rack.Pump.set_ring
off_runs = refl

off_idle : (run start broken_off).core.busy ≡ false
unfolding run esp_rack.Pump.Session.step esp_rack.Pump.begin esp_rack.Pump.set_ring
off_idle = refl

off_failed : failed (run start broken_off).core ≡ true
unfolding failed run esp_rack.Pump.Session.step esp_rack.Pump.begin esp_rack.Pump.set_ring
off_failed = refl

failed_due_example :
    ((peek (run start broken_off).core ≡ abort_call)
      × (((run start broken_off).core.finishing ≡ false)
          ⊎ ((run start broken_off).core.revocable ≡ true)))
    ⊎ ((peek (run start broken_off).core ≡ finish_call)
        × ((run start broken_off).core.finishing ≡ true)
        × ((run start broken_off).core.revocable ≡ false))
failed_due_example = failed_due broken_off off_runs off_idle off_failed

abbrev at_end : Pump
at_end = record new_pump {
  phase = running;
  live = true;
  is_open = true;
  final = true;
  size = 4096;
  buf = some 1;
}

end_is_next : (next at_end).0 ≡ finish_call
unfolding next
end_is_next = refl

finish_put_off_example : peek (fail (done (next at_end).3) client_gone) ≡ finish_call
finish_put_off_example = finish_put_off at_end refl refl refl end_is_next
