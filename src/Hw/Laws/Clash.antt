-- ===== src/Hw/Laws/Clash.antt =====
-- The rules between two resources, in either order, lib/ESPRack/src/hw/HwClaims.cpp.
use esp_rack.Prelude.{ℕ, ◌≡◌, refl, arith, Bool, true, false, not, ◌&&◌, ◌||◌, ◌==◌, if◌then◌else◌}
use esp_rack.Prelude.Int.{ℤ, pos, negsuc, leb_ℤ}
use esp_rack.Hw.{
  HwKind, code, is_kind, is_pin, is_rmt, eq_ℤ, HwResource, same_thing, sharable, clash, bus_clash,
  i2c_addr, other, bus_of,
}

pub eq_ℤ_comm : (a b : ℤ) → eq_ℤ a b ≡ eq_ℤ b a
eq_ℤ_comm (pos m) (pos n) = ground arith
eq_ℤ_comm (pos m) (negsuc n) = refl
eq_ℤ_comm (negsuc m) (pos n) = refl
eq_ℤ_comm (negsuc m) (negsuc n) = ground arith

pub eq_ℤ_sound : (a b : ℤ) → eq_ℤ a b ≡ true → a ≡ b
eq_ℤ_sound a b h = ground arith

==_comm : (a b : ℕ) → (a == b) ≡ (b == a)
==_comm a b = ground arith

code_inj : (j k : HwKind) → code j ≡ code k → j ≡ k
code_inj j k h = ground arith

-- What `same_thing` and `sharable` read of the kinds.
clash_of : Bool → HwKind → HwKind → Bool → Bool → Bool → Bool → Bool → Bool → Bool
clash_of s j k same same_bus same_pin_bus shared_j shared_k roles =
    (if is_pin j && is_pin k
      then same
      else if s && is_rmt j && is_rmt k
      then same
      else if not (is_kind j k)
      then false
      else if is_kind j i2c_addr
      then same_bus && same
      else if is_kind j other
      then false
      else same)
    && not (
        if not shared_j || not shared_k || is_kind j i2c_addr
        then false
        else if is_pin j
        then is_kind j k && same_pin_bus && roles
        else true)

clash_of_comm :
    (s : Bool) (j k : HwKind) (same same_bus same_pin_bus shared_j shared_k roles : Bool)
    → clash_of s j k same same_bus same_pin_bus shared_j shared_k roles
      ≡ clash_of s k j same same_bus same_pin_bus shared_k shared_j roles
unfolding clash_of
clash_of_comm s j k same same_bus same_pin_bus shared_j shared_k roles = ground arith

clash-of :
    (s : Bool) (r o : HwResource)
    → clash s r o
      ≡ clash_of s r.kind o.kind
          (eq_ℤ r.index o.index)
          (eq_ℤ (bus_of r) (bus_of o))
          (eq_ℤ r.bus o.bus)
          r.shared
          o.shared
          (r.role == o.role)
unfolding clash clash_of same_thing sharable
clash-of s r o = refl

-- Two resources clash in either order.
pub clash_comm : (s : Bool) (r o : HwResource) → clash s r o ≡ clash s o r
clash_comm s r o = cc (
  clash-of s r o,
  clash-of s o r,
  clash_of_comm s r.kind o.kind (eq_ℤ r.index o.index) (eq_ℤ (bus_of r) (bus_of o))
      (eq_ℤ r.bus o.bus) r.shared o.shared (r.role == o.role),
  eq_ℤ_comm r.index o.index,
  eq_ℤ_comm (bus_of r) (bus_of o),
  eq_ℤ_comm r.bus o.bus,
  ==_comm r.role o.role,
)

bus_comm :
    (p u q v e f i j : Bool) (a b : ℤ)
    → e ≡ f
    → i ≡ j
    → (p && u && leb_ℤ (pos 0) b && q && v && eq_ℤ a b && e && not i) ≡ true
    → (q && v && leb_ℤ (pos 0) a && p && u && eq_ℤ b a && f && not j) ≡ true
bus_comm p u q v e f i j a b x y h = ground arith

pub bus_clash_comm : (r o : HwResource) → bus_clash r o ≡ true → bus_clash o r ≡ true
unfolding bus_clash
bus_clash_comm r o h =
    bus_comm (is_pin r.kind) r.shared (is_pin o.kind) o.shared (o.role == r.role) (r.role == o.role)
      (eq_ℤ o.index r.index) (eq_ℤ r.index o.index) o.bus r.bus (==_comm o.role r.role)
      (eq_ℤ_comm o.index r.index) h
