-- ===== src/Ota/Laws/Whole.antt =====
-- An image from its begin to its end.
use esp_rack.Prelude.{
  Bool-cases, inl, inr, sym, ◌∙◌, ℕ, ◌+◌, ◌^◌, ◌≤◌, ◌<◌, ◌≡◌, refl, ap, subst, Bool, true, false,
  not, ◌&&◌, ◌||◌, Option, none, some, List, [], ◌∷◌, length, ltb, arith, ◌==◌, if_split,
}
use esp_rack.Flash.Laws.{starts, starts_zero}
use esp_rack.Ota.Update.{Source, Update, is_set, or_unnamed, try_begin}
use esp_rack.Ota.Types.{
  OtaError, err_not_begun, err_too_big, err_md5, err_bad_md5, err_busy, esp_err, Partition, EspOta,
  Writer, Ota,
}
use esp_rack.Ota.Writer.{
  fail, fresh, claim, claim_free, claim_updated, begun, begin_md5, begin_hex, begin_part,
  begin_claimed, begin, ended_so, end_image, same_bytes, parse_md5,
}
use esp_rack.Ota.Laws.Image.{Plan, Made, planned, planned_all, total, write_all, write_all-Made}

module _ {P Ctx : Type 0} (io : EspOta P Ctx) where
  -- A writer of an image with nothing written.
  abbrev Empty : Ota P Ctx → Type 0
  Empty s = (s.w.written ≡ 0) × (s.w.erases ≡ 0) × (s.w.md5 ≡ false)

  -- The plan of an image just begun.
  abbrev pub plan : Ota P Ctx → Plan P Ctx
  plan s = record {
    digest = io.md5_init;
    flash = s.esp;
    under = s.w.handle;
    checked = s.w.md5;
    want = s.w.md5_want;
    room = s.w.slot_size;
  }

  -- An MD5 that was given is read, and it is the one that is checked; none is checked else.
  abbrev pub Checks : Option (List ℕ) → Writer Ctx → Type 0
  Checks none w = w.md5 ≡ false
  Checks (some []) w = w.md5 ≡ false
  Checks (some (c ∷ cs)) w = (w.md5 ≡ true) × (parse_md5 (c ∷ cs) ≡ some w.md5_want)

  -- The platform began an image in the slot.
  abbrev pub Opened : Ota P Ctx → Type 0
  Opened s =
      (p : P) × (part : Partition) × (s.w.part ≡ some part)
      × (s.w.slot_size ≡ part.size)
      × (s.w.handle ≡ (io.ota_begin p part).1)
      × (s.esp ≡ (io.ota_begin p part).2)

  abbrev Starts : Option (List ℕ) → Bool × Ota P Ctx → Type 0
  Starts hex r = r.0 ≡ true → Made 0 (plan r.1) r.1 × Checks hex r.1.w × Opened r.1

  fail-Starts : (hex : Option (List ℕ)) (s : Ota P Ctx) (e : OtaError) → Starts hex (fail io s e)
  unfolding fail
  fail-Starts hex s e h = absurd (ground arith)

  -- The counts of an image that begins, in its slot.
  abbrev Ready : Partition → Ota P Ctx → Type 0
  Ready part s =
      (s.w.written ≡ 0)
      × (s.w.erases ≡ starts 0 0)
      × (s.w.slot_size < 2 ^ 31)
      × (s.w.md5 ≡ true → s.w.md5_ctx ≡ io.md5_init)
      × (s.w.part ≡ some part)
      × (s.w.slot_size ≡ part.size)

  Checks-kept :
      (hex : Option (List ℕ)) (s : Ota P Ctx) (h : ℕ)
      → Checks hex s.w
      → Checks hex (record s.w { handle = h })
  Checks-kept none s h c = c
  Checks-kept (some []) s h c = c
  Checks-kept (some (d ∷ ds)) s h c = c

  begun-Starts :
      (hex : Option (List ℕ)) (s : Ota P Ctx) (now : ℕ) (part : Partition) (r : ℕ × ℕ × P)
      → Ready part s
      → Checks hex s.w
      → io.ota_begin s.esp part ≡ r
      → Starts hex (begun io s now r)
  begun-Starts hex s now part (e, h, p) m c g =
      if_split (Starts hex) (not (e == 0)) (λ t. fail-Starts hex (record s { esp = p }) (esp_err e))
        (λ t u. (
          (m.0, m.1, omega arith, m.2, m.3, refl, refl, refl, refl, refl),
          Checks-kept hex s h c,
          (
            s.esp,
            part,
            m.4,
            m.5,
            ap (λ (x : ℕ × ℕ × P). x.1) (sym g),
            ap (λ (x : ℕ × ℕ × P). x.2) (sym g),
          ),
        ))

  begin_md5-Starts :
      (s : Ota P Ctx) (now : ℕ) (part : Partition) (d : ℕ) (ds : List ℕ) (w : Option (List ℕ))
      → Ready part s
      → parse_md5 (d ∷ ds) ≡ w
      → Starts (some (d ∷ ds)) (begin_md5 io s now part w)
  begin_md5-Starts s now part d ds none m e = fail-Starts (some (d ∷ ds)) s err_bad_md5
  begin_md5-Starts s now part d ds (some want) m e =
      begun-Starts (some (d ∷ ds))
        (record s { w = record s.w { md5_want = want; md5 = true; md5_ctx = io.md5_init } }) now
        part (io.ota_begin s.esp part) (m.0, m.1, m.2, (λ h. refl), m.4, m.5) (refl, e) refl

  begin_hex-Starts :
      (s : Ota P Ctx) (now : ℕ) (part : Partition) (hex : Option (List ℕ))
      → Ready part s
      → s.w.md5 ≡ false
      → Starts hex (begin_hex io s now part hex)
  begin_hex-Starts s now part none m f =
      begun-Starts none s now part (io.ota_begin s.esp part) m f refl
  begin_hex-Starts s now part (some []) m f =
      begun-Starts (some []) s now part (io.ota_begin s.esp part) m f refl
  begin_hex-Starts s now part (some (x ∷ xs)) m f =
      begin_md5-Starts s now part x xs (parse_md5 (x ∷ xs)) m refl

  begin_part-Starts :
      (s : Ota P Ctx) (now hint : ℕ) (hex : Option (List ℕ)) (o : Option Partition)
      → Empty s
      → ((part : Partition) → o ≡ some part → part.size < 2 ^ 31)
      → Starts hex (begin_part io s now hint hex o)
  begin_part-Starts s now hint hex none m small = fail-Starts hex _ (esp_err 0x105)
  begin_part-Starts s now hint hex (some part) m small =
      let t : Ota P Ctx = record s { w = record s.w { part = some part; slot_size = part.size } } in
      if_split (Starts hex) (ltb part.size hint) (λ x. fail-Starts hex t err_too_big)
        (λ x.
          begin_hex-Starts t now part hex
            (
              m.0,
              m.1 ∙ sym starts_zero,
              small part refl,
              (λ h. absurd (ground (arith, m.2))),
              refl,
              refl,
            )
            m.2)

  -- `claim` leaves the image alone.
  claim_updated-Empty :
      (s : Ota P Ctx) (src : Source) (me : ℕ) (u : Bool × Update)
      → Empty s
      → Empty (claim_updated s src me u).1
  claim_updated-Empty s src me (false, u) m = m
  claim_updated-Empty s src me (true, u) m = m

  claim_free-Empty :
      (s : Ota P Ctx) (o : Option ℕ) (src : Source) (me now : ℕ)
      → Empty s
      → Empty (claim_free s o src me now).1
  claim_free-Empty s none src me now m =
      claim_updated-Empty s src me (try_begin s.update (some src) now) m
  claim_free-Empty s (some o) src me now m = m

  claim-Empty :
      (s : Ota P Ctx) (source : Option Source) (me now : ℕ)
      → Empty s
      → Empty (claim s source me now).1
  unfolding claim
  claim-Empty s source me now m =
      if_split (λ (r : Bool × Ota P Ctx). Empty r.1) (is_set s.w.source) (λ t. m)
        (λ t. claim_free-Empty s s.owner (or_unnamed source) me now m)

  -- What the platform names as the next slot is smaller than 2 GB.
  abbrev pub SmallSlots : Type 0
  SmallSlots = (p : P) (part : Partition) → io.next_partition p ≡ some part → part.size < 2 ^ 31

  begin_claimed-Starts :
      (now hint : ℕ) (hex : Option (List ℕ)) (r : Bool × Ota P Ctx)
      → SmallSlots
      → Empty r.1
      → Starts hex (begin_claimed io now hint hex r)
  begin_claimed-Starts now hint hex (false, t) small m = fail-Starts hex t err_busy
  begin_claimed-Starts now hint hex (true, t) small m =
      begin_part-Starts t now hint hex (io.next_partition t.esp) m (small t.esp)

  begin-Starts :
      (s : Ota P Ctx) (source : Option Source) (hint : ℕ) (hex : Option (List ℕ)) (me now : ℕ)
      → SmallSlots
      → Starts hex (begin io s source hint hex me now)
  unfolding begin
  begin-Starts s source hint hex me now small =
      begin_claimed-Starts now hint hex (claim (fresh io s) source me now) small
        (claim-Empty (fresh io s) source me now (refl, refl, refl))

  -- An image that ended: its counts are as made, its MD5 was the one asked for, if one was, and the
  -- platform ended the image behind the writes.
  abbrev Whole : ℕ → Plan P Ctx → Bool × Ota P Ctx → Type 0
  Whole n k r =
      r.0 ≡ true
      → (r.1.w.written ≡ n)
        × (r.1.w.erases ≡ starts 0 n)
        × (n ≤ k.room)
        × ((not k.checked || same_bytes (io.md5_final k.digest) k.want) ≡ true)
        × (r.1.esp ≡ (io.ota_end k.flash k.under).1)

  fail-Whole : (n : ℕ) (k : Plan P Ctx) (s : Ota P Ctx) (e : OtaError) → Whole n k (fail io s e)
  unfolding fail
  fail-Whole n k s e h = absurd (ground arith)

  ended_so-Whole :
      (n : ℕ) (k : Plan P Ctx) (s : Ota P Ctx) (r : ℕ × P)
      → (s.w.written ≡ n) × (s.w.erases ≡ starts 0 n) × (n ≤ k.room)
      → (not k.checked || same_bytes (io.md5_final k.digest) k.want) ≡ true
      → r.1 ≡ (io.ota_end k.flash k.under).1
      → Whole n k (ended_so io s r)
  ended_so-Whole n k s (e, p) m c g =
      if_split (Whole n k) (not (e == 0)) (λ t. fail-Whole n k (record s { esp = p }) (esp_err e))
        (λ t u. (m.0, m.1, m.2, c, g))

  md5_checked : (on want : Bool) → (on && not want) ≡ false → (not on || want) ≡ true
  md5_checked on want h = ground arith

  md5_of :
      (n : ℕ) (k : Plan P Ctx) (s : Ota P Ctx)
      → Made n k s
      → (not s.w.md5 || same_bytes (io.md5_final s.w.md5_ctx) s.w.md5_want) ≡ true
      → (not k.checked || same_bytes (io.md5_final k.digest) k.want) ≡ true
  md5_of n k s m c = elim (Bool-cases s.w.md5) [
    | inl t ↦
        rw⁻¹ (m.7, m.8)
          (subst (λ x. (not s.w.md5 || same_bytes (io.md5_final x) s.w.md5_want) ≡ true) (m.4 t) c)
    | inr f ↦ rw (sym m.7 ∙ f) refl
  ]

  end_image-Whole :
      (n : ℕ) (k : Plan P Ctx) (s : Ota P Ctx) → Made n k s → Whole n k (end_image io s)
  unfolding end_image
  end_image-Whole n k s m =
      if_split (Whole n k) ((s.w.handle == 0) || s.w.ended) (λ t. fail-Whole n k s err_not_begun)
        (λ t.
          if_split (Whole n k) (s.w.md5 && not (same_bytes (io.md5_final s.w.md5_ctx) s.w.md5_want))
            (λ t. fail-Whole n k s err_md5)
            (λ f.
              ended_so-Whole n k (record s { w = record s.w { handle = 0 } })
                (io.ota_end s.esp s.w.handle) (m.0, m.1, subst (λ x. n ≤ x) m.9 m.2)
                (md5_of n k s m
                  (md5_checked s.w.md5 (same_bytes (io.md5_final s.w.md5_ctx) s.w.md5_want) f))
                (rw (m.5, m.6) refl)))

  -- An MD5 that was given could be read, and it is that of the bytes.
  abbrev pub HasMd5 : Option (List ℕ) → List (List ℕ × ℕ) → Ota P Ctx → Type 0
  HasMd5 none bs t = Unit
  HasMd5 (some []) bs t = Unit
  HasMd5 (some (c ∷ cs)) bs t =
      (want : List ℕ) × (parse_md5 (c ∷ cs) ≡ some want)
      × (same_bytes (io.md5_final (planned_all io (plan t) bs).digest) want ≡ true)

  planned_all-kept :
      (k : Plan P Ctx) (bs : List (List ℕ × ℕ))
      → ((planned_all io k bs).under ≡ k.under)
        × ((planned_all io k bs).checked ≡ k.checked)
        × ((planned_all io k bs).want ≡ k.want)
        × ((planned_all io k bs).room ≡ k.room)
  planned_all-kept k [] = (refl, refl, refl, refl)
  planned_all-kept k (b ∷ bs) =
      let r = planned_all-kept (planned io k b.0) bs in
      if_split
        (λ (q : Plan P Ctx).
          ((planned_all io q bs).under ≡ k.under)
          × ((planned_all io q bs).checked ≡ k.checked)
          × ((planned_all io q bs).want ≡ k.want)
          × ((planned_all io q bs).room ≡ k.room))
        (length b.0 == 0) (λ z. planned_all-kept k bs)
        (λ z.
          planned_all-kept
            (record k {
              digest = io.md5_update k.digest b.0;
              flash = (io.ota_write k.flash k.under b.0).1;
            })
            bs)

  md5_asked :
      (hex : Option (List ℕ)) (bs : List (List ℕ × ℕ)) (t : Ota P Ctx)
      → Checks hex t.w
      → (not (planned_all io (plan t) bs).checked
          || same_bytes
              (io.md5_final (planned_all io (plan t) bs).digest)
              (planned_all io (plan t) bs).want)
        ≡ true
      → HasMd5 hex bs t
  md5_asked none bs t c h = tt
  md5_asked (some []) bs t c h = tt
  md5_asked (some (d ∷ ds)) bs t c h =
      let k = planned_all-kept (plan t) bs in
      let on : (planned_all io (plan t) bs).checked ≡ true = k.1 ∙ c.0 in
      let got : (not true
            || same_bytes (io.md5_final (planned_all io (plan t) bs).digest)
                (planned_all io (plan t) bs).want)
          ≡ true =
        subst
          (λ x.
            (not x
              || same_bytes (io.md5_final (planned_all io (plan t) bs).digest)
                  (planned_all io (plan t) bs).want)
            ≡ true)
          on h in
      (
        t.w.md5_want,
        c.1,
        subst (λ x. same_bytes (io.md5_final (planned_all io (plan t) bs).digest) x ≡ true) k.2 got,
      )

  -- An image that was begun, written in any steps and ended, with every call answered yes, fits its
  -- slot and counts all of the bytes given and one erase for each sector that starts in them. The
  -- platform began it in the slot, was handed each of the steps that is not empty, in order and as
  -- given, and then ended it. Where an MD5 was given (not empty), it was readable and the bytes given have it.
  -- For slots under 2 GB.
  pub image_written :
      (s t u v : Ota P Ctx) (source : Option Source) (hint : ℕ) (hex : Option (List ℕ)) (me now : ℕ)
      (bs : List (List ℕ × ℕ))
      → SmallSlots
      → begin io s source hint hex me now ≡ (true, t)
      → write_all io t bs ≡ some u
      → end_image io u ≡ (true, v)
      → (v.w.written ≡ total io bs)
        × (v.w.erases ≡ starts 0 (total io bs))
        × (total io bs ≤ t.w.slot_size)
        × Opened t
        × (v.esp ≡ (io.ota_end (planned_all io (plan t) bs).flash t.w.handle).1)
        × HasMd5 hex bs t
  image_written s t u v source hint hex me now bs small hb hw he =
      let b = subst (Starts hex) hb (begin-Starts s source hint hex me now small) refl in
      let k : Plan P Ctx = planned_all io (plan t) bs in
      let w = write_all-Made io 0 (plan t) t u bs b.0 hw in
      let e = subst (Whole (0 + total io bs) k) he (end_image-Whole (0 + total io bs) k u w) refl in
      let z : 0 + total io bs ≡ total io bs = omega arith in
      let h : k.under ≡ t.w.handle = (planned_all-kept (plan t) bs).0 in
      (
        e.0 ∙ z,
        e.1 ∙ ap (starts 0) z,
        subst (λ x. x ≤ t.w.slot_size) z
            (subst (λ x. 0 + total io bs ≤ x) (planned_all-kept (plan t) bs).3 e.2),
        b.2,
        e.4 ∙ ap (λ x. (io.ota_end k.flash x).1) h,
        md5_asked hex bs t b.1 e.3,
      )
