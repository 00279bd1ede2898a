-- ===== src/Hw/Registry.antt =====
-- One instance of lib/ESPRack/src/hw/HwRegistry.cpp, as it stands when the registry's lock is held:
-- `evaluate`, and the calls that change the claims.
use esp_rack.Prelude.{
  any, ◌&&◌, ℕ, Bool, true, false, none, some, List, [], ◌∷◌, not, ◌==◌, if◌then◌else◌,
}
use esp_rack.Hw.Types.{
  HwKind, HwClaim, is_pin, is_kind, eq_ℤ, Text, HwResource, HwDescriptor, missing, BoardInfo,
  reserved, add_note, in_mask, HwState, ok, unset, conflict, off, HwClaims,
}
use esp_rack.Prelude.Int.{ℤ}
use esp_rack.Hw.Claims.{replace, release_all, released, reserve}
use esp_rack.Hw.Check.{HwCheck, good, check}

abbrev pub was_ok : HwState → Bool
was_ok ok = true
was_ok _ = false

-- `evaluate` of the instance `id`: its state and the claims.
unfoldable pub evaluate : HwClaims → Text → HwState → HwDescriptor → ℕ → HwState × HwClaims
evaluate h id state d now =
    if d.disabled
    then (off, release_all h id (was_ok state) now)
    else if not (check h id d).ok
    then (conflict, release_all h id (was_ok state) now)
    else elim (missing d) [
      | some r ↦ (unset, release_all h id (was_ok state) now)
      | none ↦ (ok, replace h id d (was_ok state) now)
    ]

-- `reserveGpio`, with what it returns.
unfoldable pub reserve_gpio : HwClaims → ℤ → Text → Bool × HwClaims
reserve_gpio h pin why =
    if not (in_mask h.board.valid_mask pin)
    then (false, h)
    else (let (done, b) =
          add_note h.board (record { gpio = pin; level = reserved; reason = why }) in
        (done, record h { board = b }))

-- The states of the instances, by id, and the claims.
pub record HwRegistry : Type 0 where
  pub states : Text → HwState
  pub held : HwClaims

abbrev pub put_state : (Text → HwState) → Text → HwState → Text → HwState
put_state f id s x = if x == id then s else f x

-- `update` of a registered instance, and its part in the loop of `boot`: it is evaluated under its
-- descriptor.
unfoldable pub update : HwRegistry → Text → HwDescriptor → ℕ → HwState × HwRegistry
update g id d now =
    let (s, h) = evaluate g.held id (g.states id) d now in
    (s, record { states = put_state g.states id s; held = h })

-- `boot`: the instances with what they describe, in the order of their installation.
unfoldable pub boot : HwRegistry → List (Text × HwDescriptor) → ℕ → HwRegistry
unfolding update
boot g [] now = g
boot g ((id, d) ∷ ds) now = boot (update g id d now).1 ds now

-- `validate`.
unfoldable pub validate : HwClaims → Text → HwDescriptor → HwCheck
validate h id d = if d.disabled then good else check h id d

abbrev held_so : Text → HwKind → ℤ → HwClaim → Bool
held_so id kind index c =
    not (c.owner == id)
    && eq_ℤ c.res.index index
    && (if is_pin kind then is_pin c.res.kind else is_kind c.res.kind kind)

-- `heldByOther`.
unfoldable pub held_by_other : HwClaims → Text → HwKind → ℤ → Bool
held_by_other h id kind index = any (held_so id kind index) h.claims

-- What reaches the claims: an instance is evaluated (at the boot and on `update`), says that it let
-- go, or a resource is reserved.
pub data Call : Type 0 where
  on_update : Text → HwDescriptor → ℕ → Call
  on_released : Text → Call
  on_reserve : HwResource → Text → Call
  on_reserve_gpio : ℤ → Text → Call

unfoldable pub run_call : HwRegistry → Call → HwRegistry
unfolding update
run_call g (on_update id d now) = (update g id d now).1
run_call g (on_released id) = record g { held = released g.held id }
run_call g (on_reserve r why) = record g { held = (reserve g.held r why).1 }
run_call g (on_reserve_gpio pin why) = record g { held = (reserve_gpio g.held pin why).1 }

unfoldable pub run_calls : HwRegistry → List Call → HwRegistry
run_calls g [] = g
run_calls g (c ∷ cs) = run_calls (run_call g c) cs

abbrev pub new_registry : BoardInfo → HwRegistry
new_registry b = record {
  states = λ _. unset;
  held = record { board = b; claims = []; reserved_claims = [] };
}
