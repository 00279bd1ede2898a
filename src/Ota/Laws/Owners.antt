-- ===== src/Ota/Laws/Owners.antt =====
-- The writers of a device side by side.
use esp_rack.Prelude.{
  ==_iff, ℕ, suc, ◌≡◌, refl, sym, ◌∙◌, subst, Bool, true, false, ◌||◌, Option, none, some, List, [],
  ◌∷◌, arith, ◌==◌, if_split,
}
use esp_rack.Ota.Update.{Source, is_set, is_source}
use esp_rack.Ota.Types.{OtaError, EspOta, Writer, Ota}
use esp_rack.Ota.Writer.{reserve, claim, begin, write, end_image, activate, abort, unclaim, fail}
use esp_rack.Ota.Calls.{
  Call, reserves, begins, writes, ends, activates, aborts, do_call, Device, seen_by, device_call,
  device_calls,
}
use esp_rack.Ota.Laws.Idle.{
  shape, gave_up, do_call-kept, begin-Good, write-Good, end_image-Good, activate-Good,
}

abbrev pub is_reserve : Call → Bool
is_reserve (reserves source now) = true
is_reserve _ = false

answered : (b : Bool) (c : Bool) → (b || c) ≡ true → b ≡ false → c ≡ true
answered b c h f = ground arith

apart : (i j : ℕ) → (j == i) ≡ false → is_source (some i) j ≡ false
apart i j h = ground arith

apart_back : (i j : ℕ) → (j == i) ≡ false → (i == j) ≡ false
apart_back i j h = ground arith

next_apart : (i : ℕ) → (suc i == i) ≡ false
next_apart i = ground arith

module _ {P Ctx : Type 0} where
  -- A writer holds the update exactly when it is the owner, and its image is in shape.
  abbrev pub IsOwned : Device P Ctx → Type 0
  IsOwned d =
      (i : ℕ)
      → (is_set (d.writers i).source ≡ is_source d.owner_of i) × (shape (d.writers i) ≡ true)

module _ {P Ctx : Type 0} (io : EspOta P Ctx) where
  -- What another writer sees of a call.
  seen_apart :
      (d : Device P Ctx) (i j : ℕ) (c : Call)
      → IsOwned d
      → (j == i) ≡ false
      → is_source (do_call io (seen_by d i) i c).1.owner j ≡ is_source d.owner_of j
  seen_apart d i j c h n =
      let k =
        do_call-kept io j (is_source d.owner_of j) i (seen_by d i) c ((h i).0, refl, n) (h i).1 in
      k.0.1

  seen_self :
      (d : Device P Ctx) (i : ℕ) (c : Call)
      → IsOwned d
      → let s : Ota P Ctx = (do_call io (seen_by d i) i c).1 in
        (is_set s.w.source ≡ is_source s.owner i) × (shape s.w ≡ true)
  seen_self d i c h =
      let k =
        do_call-kept io (suc i) (is_source d.owner_of (suc i)) i (seen_by d i) c
          ((h i).0, refl, next_apart i) (h i).1 in
      (k.0.0, k.1)

  device_call-IsOwned :
      (d : Device P Ctx) (i : ℕ) (c : Call) → IsOwned d → IsOwned (device_call io d i c)
  unfolding device_call
  device_call-IsOwned d i c h j =
      let s : Ota P Ctx = (do_call io (seen_by d i) i c).1 in
      if_split (λ (w : Writer Ctx). (is_set w.source ≡ is_source s.owner j) × (shape w ≡ true))
        (j == i) {x = s.w} {y = d.writers j}
        (λ t.
          subst (λ n. (is_set s.w.source ≡ is_source s.owner n) × (shape s.w ≡ true))
            (sym ((==_iff j i).0 t)) (seen_self d i c h))
        (λ f. ((h j).0 ∙ sym (seen_apart d i j c h f), (h j).1))

  device_calls-IsOwned :
      (d : Device P Ctx) (cs : List (ℕ × Call)) → IsOwned d → IsOwned (device_calls io d cs)
  unfolding device_calls
  device_calls-IsOwned d [] h = h
  device_calls-IsOwned d (c ∷ cs) h =
      device_calls-IsOwned (device_call io d c.0 c.1) cs (device_call-IsOwned d c.0 c.1 h)

  -- A writer that holds nothing has no image, so that its calls are turned away or claim first.
  abbrev Outside : ℕ → Ota P Ctx → Type 0
  Outside o s = (s.w.source ≡ none) × (s.w.handle ≡ 0) × (s.w.ended ≡ false) × (s.owner ≡ some o)

  outside_shape :
      (w : Writer Ctx)
      → is_set w.source ≡ false
      → shape w ≡ true
      → (w.handle ≡ 0) × (w.ended ≡ false)
  outside_shape w n h = ground arith

  no_source : (o : Option Source) → is_set o ≡ false → o ≡ none
  no_source none h = refl
  no_source (some x) h = absurd (ground arith)

  owner_of_source : (o : Option ℕ) (i : ℕ) → is_source o i ≡ true → o ≡ some i
  owner_of_source none i h = absurd (ground arith)
  owner_of_source (some x) i h = ground arith

  -- A call that leaves the platform and what is claimed as they were.
  abbrev Harmless : Ota P Ctx → Bool × Ota P Ctx → Type 0
  Harmless s r = (r.1.esp ≡ s.esp) × (r.1.owner ≡ s.owner)

  fail-Harmless : (o : ℕ) (s : Ota P Ctx) (e : OtaError) → Outside o s → Harmless s (fail io s e)
  unfolding fail abort unclaim
  fail-Harmless o s e h = rw (h.0, h.1) (refl, refl)

  do_call-Harmless :
      (o me : ℕ) (s : Ota P Ctx) (c : Call) → Outside o s → Harmless s (do_call io s me c)
  unfolding do_call reserve claim begin write end_image activate abort unclaim fail
  do_call-Harmless o me s (reserves source now) h = rw (h.0, h.3) (refl, refl)
  do_call-Harmless o me s (begins source hint hex now) h = rw (h.0, h.1, h.3) (refl, refl)
  do_call-Harmless o me s (writes bytes now) h = rw (h.0, h.1) (refl, refl)
  do_call-Harmless o me s ends h = rw (h.0, h.1) (refl, refl)
  do_call-Harmless o me s activates h = rw (h.0, h.1, h.2) (refl, refl)
  do_call-Harmless o me s aborts h = rw (h.0, h.1) (refl, refl)

  -- Whatever the writers of a device call in whatever order, where each holds the update exactly when
  -- it is the owner and its image is in shape at first: while one of them holds the update, no
  -- other does, and no call of another touches the platform, the owner or the holder.
  pub device_calls-exclusive :
      (d : Device P Ctx) (cs : List (ℕ × Call)) (i j : ℕ) (c : Call)
      → IsOwned d
      → is_set ((device_calls io d cs).writers i).source ≡ true
      → (j == i) ≡ false
      → let e : Device P Ctx = device_calls io d cs in
        (is_set (e.writers j).source ≡ false)
        × ((device_call io e j c).platform ≡ e.platform)
        × ((device_call io e j c).owner_of ≡ e.owner_of)
        × ((device_call io e j c).writers i ≡ e.writers i)
  unfolding device_call
  device_calls-exclusive d cs i j c h a n =
      let e : Device P Ctx = device_calls io d cs in
      let o = device_calls-IsOwned d cs h in
      let own : e.owner_of ≡ some i = owner_of_source e.owner_of i (sym (o i).0 ∙ a) in
      let out : is_set (e.writers j).source ≡ false =
        (o j).0 ∙ subst (λ x. is_source x j ≡ false) (sym own) (apart i j n) in
      let sh = outside_shape (e.writers j) out (o j).1 in
      let k =
        do_call-Harmless i j (seen_by e j) c
          (no_source (e.writers j).source out, sh.0, sh.1, own) in
      (out, k.0, k.1, rw (apart_back i j n) refl)

  -- A call that begins, writes, ends or activates an image and says no has given it up: no image is
  -- under way or ended, the update is given back and an error is said.
  pub do_call-gave_up :
      (me : ℕ) (s : Ota P Ctx) (c : Call)
      → is_set s.w.source ≡ is_source s.owner me
      → shape s.w ≡ true
      → is_reserve c ≡ false
      → (do_call io s me c).0 ≡ false
      → gave_up (do_call io s me c).1.w ≡ true
  unfolding do_call
  do_call-gave_up me s (reserves source now) h sh r f = absurd (ground arith)
  do_call-gave_up me s (begins source hint hex now) h sh r f =
      let g =
        begin-Good io (suc me) (is_source s.owner (suc me)) me now hint s source hex
          (h, refl, next_apart me) in
      answered _ _ g.2 f
  do_call-gave_up me s (writes bytes now) h sh r f =
      let g =
        write-Good io (suc me) (is_source s.owner (suc me)) me now s bytes (h, refl, next_apart me)
          sh in
      answered _ _ g.2 f
  do_call-gave_up me s ends h sh r f =
      let g =
        end_image-Good io (suc me) (is_source s.owner (suc me)) me s (h, refl, next_apart me) sh in
      answered _ _ g.2 f
  do_call-gave_up me s activates h sh r f =
      let g =
        activate-Good io (suc me) (is_source s.owner (suc me)) me s (h, refl, next_apart me) sh in
      answered _ _ g.2 f
  do_call-gave_up me s aborts h sh r f = absurd (ground arith)
