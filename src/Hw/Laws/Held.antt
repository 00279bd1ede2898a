-- ===== src/Hw/Laws/Held.antt =====
-- The claims of two owners as the registry's calls leave them, lib/ESPRack/src/hw/HwRegistry.cpp.
use mathlib.Core.List.{Memᴰ}
use esp_rack.Prelude.{
  ℕ, ◌≡◌, ◌≢◌, refl, ◌∙◌, inl, inr, arith, Bool, true, false, not, ◌&&◌, ◌==◌, List, [], ◌∷◌,
  if_split, leb, length, sym, subst, none, some,
}
use esp_rack.Prelude.Int.{ℤ}
use esp_rack.Hw.{
  Text, HwResource, HwDescriptor, HwClaim, HwClaims, BoardInfo, PinNote, max_notes, check,
  unnumbered, bus_clash, shares_rmt, release_all, replace, released, reserve, reserve_gpio,
  add_note, HwRegistry, Call, on_update, on_released, on_reserve, on_reserve_gpio, run_call,
  run_calls, new_registry, evaluate, missing, HwState, ok, unset, was_ok, let_go,
}
use esp_rack.Hw.Laws.Clash.{clash_comm, bus_clash_comm}
use esp_rack.Hw.Laws.Lists.{From, Made, let_go-From, take_all-Mem, erase_if-Mem}
use esp_rack.Hw.Laws.Exclusion.{Apart, check-Apart}

-- Claims of two owners with numbered resources are apart.
unfoldable pub AllApart : Bool → List HwClaim → Type 0
AllApart s cs =
    (c o : HwClaim)
    → Memᴰ c cs
    → Memᴰ o cs
    → c.owner ≢ o.owner
    → unnumbered c.res ≡ false
    → unnumbered o.res ≡ false
    → Apart s c.res o.res

unfoldable pub Exclusive : HwClaims → Type 0
unfolding AllApart
Exclusive h = AllApart (shares_rmt h.board) h.claims

not_true : (a b : Bool) → (b ≡ true → a ≡ true) → a ≡ false → b ≡ false
not_true a b f h = ground arith

Apart-comm : (s : Bool) (r o : HwResource) → Apart s r o → Apart s o r
Apart-comm s r o a = record {
  hardware = clash_comm s o r ∙ a.hardware;
  line = not_true (bus_clash r o) (bus_clash o r) (bus_clash_comm o r) a.line;
}

From-Apart :
    (s : Bool) (cs : List HwClaim) (c o : HwClaim)
    → From cs c
    → From cs o
    → AllApart s cs
    → c.owner ≢ o.owner
    → unnumbered c.res ≡ false
    → unnumbered o.res ≡ false
    → Apart s c.res o.res
unfolding AllApart
From-Apart s cs c o p q h d u v =
    subst (λ r. Apart s r o.res) p.res
      (subst (Apart s p.was.res) q.res (
        h p.was q.was p.mem q.mem (λ e. d (sym p.owner ∙ e ∙ q.owner))
          (subst (λ r. unnumbered r ≡ false) (sym p.res) u)
          (subst (λ r. unnumbered r ≡ false) (sym q.res) v)))

From-AllApart :
    (s : Bool) (cs ds : List HwClaim)
    → ((c : HwClaim) → Memᴰ c ds → From cs c)
    → AllApart s cs
    → AllApart s ds
unfolding AllApart
From-AllApart s cs ds f h c o m n d u v =
    let p = f c m in let q = f o n in From-Apart s cs c o p q h d u v

-- A claim made of the resources of an owner whose descriptor passed, and one of another's.
Made-Apart :
    (h : HwClaims) (id : Text) (d : HwDescriptor) (c o : HwClaim)
    → (check h id d).ok ≡ true
    → Made id d.res c
    → From h.claims o
    → c.owner ≢ o.owner
    → unnumbered c.res ≡ false
    → unnumbered o.res ≡ false
    → Apart (shares_rmt h.board) c.res o.res
Made-Apart h id d c o k p q n u v = subst (Apart (shares_rmt h.board) c.res) q.res (
    check-Apart h id d c.res q.was k p.mem u q.mem (λ e. n (p.owner ∙ sym e ∙ q.owner))
      (subst (λ r. unnumbered r ≡ false) (sym q.res) v))

replace-Exclusive :
    (h : HwClaims) (id : Text) (d : HwDescriptor) (applied : Bool) (now : ℕ)
    → (check h id d).ok ≡ true
    → Exclusive h
    → Exclusive (replace h id d applied now)
unfolding Exclusive AllApart replace
replace-Exclusive h id d applied now k x c o m n e u v =
    let left = let_go id d.res applied now h.claims in
    let s = shares_rmt h.board in
    let old : (z : HwClaim) → Memᴰ z left → From h.claims z =
      λ z i. let_go-From id d.res applied now z h.claims i in
    elim (take_all-Mem id d.res c left m) [
      | inl i ↦ elim (take_all-Mem id d.res o left n) [
        | inl j ↦ From-Apart s h.claims c o (old c i) (old o j) x e u v
        | inr j ↦
            Apart-comm s o.res c.res (Made-Apart h id d o c k j (old c i) (λ q. e (sym q)) v u)
      ]
      | inr i ↦ elim (take_all-Mem id d.res o left n) [
        | inl j ↦ Made-Apart h id d c o k i (old o j) e u v
        | inr j ↦ absurd (e (i.owner ∙ sym j.owner))
      ]
    ]

release_all-Exclusive :
    (h : HwClaims) (id : Text) (applied : Bool) (now : ℕ)
    → Exclusive h
    → Exclusive (release_all h id applied now)
unfolding Exclusive release_all
release_all-Exclusive h id applied now x =
    From-AllApart (shares_rmt h.board) h.claims (let_go id [] applied now h.claims)
      (λ c m. let_go-From id [] applied now c h.claims m) x

passed : (b : Bool) → not b ≡ false → b ≡ true
passed b h = ground arith

evaluate-Exclusive :
    (h : HwClaims) (id : Text) (state : HwState) (d : HwDescriptor) (now : ℕ)
    → Exclusive h
    → Exclusive (evaluate h id state d now).1
unfolding evaluate
evaluate-Exclusive h id state d now x =
    let P : HwState × HwClaims → Type 0 = λ z. Exclusive z.1 in
    let gone = release_all-Exclusive h id (was_ok state) now x in
    if_split P d.disabled (λ _. gone)
      (λ _.
        if_split P (not (check h id d).ok) (λ _. gone)
          (λ k.
            elim (missing d)
              as (λ m.
                Exclusive
                  (elim m as (λ _. HwState × HwClaims) [
                    | none ↦ (ok, replace h id d (was_ok state) now)
                    | some r ↦ (unset, release_all h id (was_ok state) now)
                  ]).1) [
                    | some r ↦ gone
                    | none ↦
                        replace-Exclusive h id d (was_ok state) now (passed (check h id d).ok k) x
                  ]))

released-Exclusive : (h : HwClaims) (id : Text) → Exclusive h → Exclusive (released h id)
unfolding Exclusive released AllApart
released-Exclusive h id x c o m n =
    let p = λ (z : HwClaim). z.releasing && (z.owner == id) in
    x c o (erase_if-Mem p c h.claims m) (erase_if-Mem p o h.claims n)

reserve-Exclusive :
    (h : HwClaims) (r : HwResource) (why : Text) → Exclusive h → Exclusive (reserve h r why).1
unfolding Exclusive reserve
reserve-Exclusive h r why x =
    if_split (λ (z : Bool × HwClaims). AllApart (shares_rmt z.1.board) z.1.claims) _ (λ _. x)
      (λ _. x)

add_note-shares : (b : BoardInfo) (n : PinNote) → shares_rmt (add_note b n).1 ≡ shares_rmt b
unfolding add_note
add_note-shares b n =
    if_split (λ (z : Bool × BoardInfo). shares_rmt z.1 ≡ shares_rmt b)
      (leb max_notes (length b.notes)) (λ _. refl) (λ _. refl)

reserve_gpio-Exclusive :
    (h : HwClaims) (pin : ℤ) (why : Text) → Exclusive h → Exclusive (reserve_gpio h pin why).1
unfolding Exclusive reserve_gpio
reserve_gpio-Exclusive h pin why x =
    if_split (λ (z : Bool × HwClaims). AllApart (shares_rmt z.1.board) z.1.claims) _ (λ _. x)
      (λ _. subst (λ s. AllApart s h.claims) (sym (add_note-shares h.board _)) x)

run_call-Exclusive : (g : HwRegistry) (c : Call) → Exclusive g.held → Exclusive (run_call g c).held
unfolding run_call
run_call-Exclusive g (on_update id d now) x = evaluate-Exclusive g.held id (g.states id) d now x
run_call-Exclusive g (on_released id) x = released-Exclusive g.held id x
run_call-Exclusive g (on_reserve r why) x = reserve-Exclusive g.held r why x
run_call-Exclusive g (on_reserve_gpio pin why) x = reserve_gpio-Exclusive g.held pin why x

run_calls-Exclusive :
    (g : HwRegistry) (cs : List Call) → Exclusive g.held → Exclusive (run_calls g cs).held
unfolding run_calls
run_calls-Exclusive g [] x = x
run_calls-Exclusive g (c ∷ cs) x = run_calls-Exclusive (run_call g c) cs (run_call-Exclusive g c x)

none_held : (b : BoardInfo) → Exclusive (new_registry b).held
unfolding Exclusive AllApart
none_held b c o m = elim m [ ]

-- From a registry that holds no claim, whatever instances are evaluated, let go of hardware and have
-- resources reserved: no two owners' claims are ever the same hardware, unless both may share it,
-- or put one line of a shared bus on two pins.
pub new_registry-Exclusive :
    (b : BoardInfo) (cs : List Call) → Exclusive (run_calls (new_registry b) cs).held
new_registry-Exclusive b cs = run_calls-Exclusive (new_registry b) cs (none_held b)
