-- ===== src/Hw/Laws/Answers.antt =====
-- What the registry answers, lib/ESPRack/src/hw/HwRegistry.cpp.
use esp_rack.Prelude.{ℕ, ◌≡◌, ◌↔◌, arith, false}
use esp_rack.Hw.{Text, HwDescriptor, HwClaims, HwState, conflict, evaluate, validate}

-- `validate` refuses a descriptor exactly when an evaluation of it would end in a conflict, whatever the
-- instance's state.
pub validate-evaluate :
    (h : HwClaims) (id : Text) (state : HwState) (d : HwDescriptor) (now : ℕ)
    → ((validate h id d).ok ≡ false) ↔ ((evaluate h id state d now).0 ≡ conflict)
unfolding validate evaluate
validate-evaluate h id state d now = ground arith
