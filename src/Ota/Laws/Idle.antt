-- ===== src/Ota/Laws/Idle.antt =====
-- What holds of a writer between its calls, and what a call that fails leaves.
use esp_rack.Prelude.{
  ℕ, ◌+◌, ◌≡◌, refl, Bool, true, false, not, ◌&&◌, ◌||◌, Option, none, some, List, [], ◌∷◌, length,
  ltb, arith, ◌==◌, if◌then◌else◌, if_split,
}
use esp_rack.Prelude.Word.{u32}
use esp_rack.Ota.Update.{Source, Update, or_unnamed, is_set, is_source, try_begin}
use esp_rack.Ota.Types.{
  OtaError, err_md5, err_bad_md5, err_too_big, err_step, err_not_begun, err_busy, esp_err,
  longest_write, Partition, EspOta, Writer, Ota,
}
use esp_rack.Ota.Calls.{Call, reserves, begins, writes, ends, activates, aborts, do_call}
use esp_rack.Ota.Writer.{
  is_no_error, claim_updated, claim_free, claim, unclaim, reserved, reserve, drop_handle, abort,
  fail, fresh, begun, begin_md5, begin_hex, begin_part, begin_claimed, begin, wrote_image, write,
  ended_so, end_image, activated, activate, has_part, same_bytes, parse_md5,
}

unset : (s : Option Source) → is_set s ≡ false → s ≡ none
unset none e = refl
unset (some s) e = absurd (ground arith)

module _ {Ctx : Type 0} where
  abbrev pub IsIdle : Writer Ctx → Type 0
  IsIdle w = (w.handle ≡ 0) × (w.ended ≡ false) × (w.source ≡ none)

  -- An image under way or ended is the holder's, and not both.
  abbrev pub shape : Writer Ctx → Bool
  shape w =
      ((w.handle == 0) || (is_set w.source && not w.ended)) && (not w.ended || is_set w.source)

  -- Nothing under way, nothing held, and an error said.
  abbrev pub gave_up : Writer Ctx → Bool
  gave_up w =
      (w.handle == 0) && (not w.ended && (not (is_set w.source) && not (is_no_error w.error)))

module _ {P Ctx : Type 0} where
  -- The writer says that it holds the update exactly when it is the owner, and whether another
  -- one, k, is the owner is b.
  abbrev pub Held : ℕ → Bool → ℕ → Ota P Ctx → Type 0
  Held k b me s =
      (is_set s.w.source ≡ is_source s.owner me) × (is_source s.owner k ≡ b) × ((k == me) ≡ false)

  unclaim-none : (s : Ota P Ctx) → (unclaim s).w.source ≡ none
  unfolding unclaim
  unclaim-none s = ground arith

  unclaim-Held :
      (k : ℕ) (b : Bool) (me : ℕ) (s : Ota P Ctx) → Held k b me s → Held k b me (unclaim s)
  unfolding unclaim
  unclaim-Held k b me s h = ground arith

  -- What a call leaves: a false answer means that the writer gave up.
  abbrev pub Good : ℕ → Bool → ℕ → Bool × Ota P Ctx → Type 0
  Good k b me r = Held k b me r.1 × (shape r.1.w ≡ true) × ((r.0 || gave_up r.1.w) ≡ true)

module _ {P Ctx : Type 0} (io : EspOta P Ctx) where
  abort-IsIdle : (s : Ota P Ctx) → IsIdle (abort io s).w
  unfolding abort unclaim
  abort-IsIdle s = ground arith

  abort-shape : (s : Ota P Ctx) → shape (abort io s).w ≡ true
  abort-shape s = let i = abort-IsIdle s in ground arith

  abort-error : (s : Ota P Ctx) → (abort io s).w.error ≡ s.w.error
  unfolding abort unclaim
  abort-error s = ground arith

module _ {P Ctx : Type 0} (io : EspOta P Ctx) (k : ℕ) (b : Bool) where
  abort-Held : (me : ℕ) (s : Ota P Ctx) → Held k b me s → Held k b me (abort io s)
  unfolding abort
  abort-Held me s h =
      unclaim-Held k b me
        (record s { esp = drop_handle io s; w = record s.w { handle = 0; ended = false } }) h

  fail-Good :
      (me : ℕ) (s : Ota P Ctx) (e : OtaError)
      → Held k b me s
      → is_no_error e ≡ false
      → Good k b me (fail io s e)
  unfolding fail
  fail-Good me s e h n =
      let t : Ota P Ctx = record s {
        w = record s.w { error = if is_no_error s.w.error then e else s.w.error };
      } in
      (
        abort-Held me t h,
        abort-shape io t,
        let i = abort-IsIdle io t in let k = abort-error io t in ground arith,
      )

  -- The writer that has claimed the update, between two images.
  abbrev Clear : ℕ → Ota P Ctx → Type 0
  Clear me s = Held k b me s × (is_set s.w.source ≡ true) × (s.w.ended ≡ false)

  begun-Good :
      (me : ℕ) (s : Ota P Ctx) (now : ℕ) (r : ℕ × ℕ × P)
      → Clear me s
      → Good k b me (begun io s now r)
  begun-Good me s now (e, h, p) c =
      if_split (Good k b me) (not (e == 0))
        (λ t. fail-Good me (record s { esp = p }) (esp_err e) c.0 refl)
        (λ t. (c.0, ground arith, refl))

  begin_md5-Good :
      (me : ℕ) (s : Ota P Ctx) (now : ℕ) (part : Partition) (w : Option (List ℕ))
      → Clear me s
      → Good k b me (begin_md5 io s now part w)
  begin_md5-Good me s now part none c = fail-Good me s err_bad_md5 c.0 refl
  begin_md5-Good me s now part (some want) c =
      begun-Good me
        (record s { w = record s.w { md5_want = want; md5 = true; md5_ctx = io.md5_init } }) now
        (io.ota_begin s.esp part) c

  begin_hex-Good :
      (me : ℕ) (s : Ota P Ctx) (now : ℕ) (part : Partition) (hex : Option (List ℕ))
      → Clear me s
      → Good k b me (begin_hex io s now part hex)
  begin_hex-Good me s now part none c = begun-Good me s now (io.ota_begin s.esp part) c
  begin_hex-Good me s now part (some []) c = begun-Good me s now (io.ota_begin s.esp part) c
  begin_hex-Good me s now part (some (x ∷ xs)) c =
      begin_md5-Good me s now part (parse_md5 (x ∷ xs)) c

  begin_part-Good :
      (me : ℕ) (s : Ota P Ctx) (now hint : ℕ) (hex : Option (List ℕ)) (part : Option Partition)
      → Clear me s
      → Good k b me (begin_part io s now hint hex part)
  begin_part-Good me s now hint hex none c = fail-Good me _ (esp_err 0x105) c.0 refl
  begin_part-Good me s now hint hex (some part) c =
      if_split (Good k b me) (ltb part.size hint) (λ t. fail-Good me _ err_too_big c.0 refl)
        (λ t. begin_hex-Good me _ now part hex c)

  -- What `claim` answers and leaves.
  abbrev Claimed : ℕ → Ota P Ctx → Bool × Ota P Ctx → Type 0
  Claimed me s r =
      Held k b me r.1
      × (r.1.w.ended ≡ s.w.ended)
      × (r.1.w.handle ≡ s.w.handle)
      × (r.0 ≡ is_set r.1.w.source)

  claim_updated-Claimed :
      (me : ℕ) (s : Ota P Ctx) (src : Source) (u : Bool × Update)
      → s.w.source ≡ none
      → s.owner ≡ none
      → Held k b me s
      → Claimed me s (claim_updated s src me u)
  claim_updated-Claimed me s src (false, u) n o h = (ground arith, refl, refl, ground arith)
  claim_updated-Claimed me s src (true, u) n o h = (ground arith, refl, refl, refl)

  claim_free-Claimed :
      (me now : ℕ) (s : Ota P Ctx) (o : Option ℕ) (src : Source)
      → s.owner ≡ o
      → Held k b me s
      → is_set s.w.source ≡ false
      → Claimed me s (claim_free s o src me now)
  claim_free-Claimed me now s (some o) src e h n = (h, refl, refl, ground arith)
  claim_free-Claimed me now s none src e h n =
      claim_updated-Claimed me s src (try_begin s.update (some src) now) (unset s.w.source n) e h

  claim-Claimed :
      (me now : ℕ) (s : Ota P Ctx) (source : Option Source)
      → Held k b me s
      → Claimed me s (claim s source me now)
  unfolding claim
  claim-Claimed me now s source h =
      if_split (Claimed me s) (is_set s.w.source) (λ t. (h, refl, refl, ground arith))
        (λ t. claim_free-Claimed me now s s.owner (or_unnamed source) refl h t)

  begin_claimed-Good :
      (me now hint : ℕ) (hex : Option (List ℕ)) (s : Ota P Ctx) (r : Bool × Ota P Ctx)
      → s.w.ended ≡ false
      → Claimed me s r
      → Good k b me (begin_claimed io now hint hex r)
  begin_claimed-Good me now hint hex s (false, t) n c = fail-Good me t err_busy c.0 refl
  begin_claimed-Good me now hint hex s (true, t) n c =
      begin_part-Good me t now hint hex (io.next_partition t.esp) (c.0, ground arith, ground arith)

  pub begin-Good :
      (me now hint : ℕ) (s : Ota P Ctx) (source : Option Source) (hex : Option (List ℕ))
      → Held k b me s
      → Good k b me (begin io s source hint hex me now)
  unfolding begin
  begin-Good me now hint s source hex h =
      begin_claimed-Good me now hint hex (fresh io s) (claim (fresh io s) source me now) refl
        (claim-Claimed me now (fresh io s) source h)

  wrote_image-Good :
      (me now : ℕ) (s : Ota P Ctx) (bytes : List ℕ) (r : ℕ × P)
      → Held k b me s
      → shape s.w ≡ true
      → Good k b me (wrote_image io s bytes now r)
  wrote_image-Good me now s bytes (e, p) h sh =
      if_split (Good k b me) (not (e == 0))
        (λ t. fail-Good me (record s { esp = p }) (esp_err e) h refl) (λ t. (h, sh, refl))

  pub write-Good :
      (me now : ℕ) (s : Ota P Ctx) (bytes : List ℕ)
      → Held k b me s
      → shape s.w ≡ true
      → Good k b me (write io s bytes now)
  unfolding write
  write-Good me now s bytes h sh =
      if_split (Good k b me) ((s.w.handle == 0) || s.w.ended)
        (λ t. fail-Good me s err_not_begun h refl)
        (λ t.
          if_split (Good k b me) (ltb longest_write (length bytes))
            (λ t. fail-Good me s err_step h refl)
            (λ t.
              if_split (Good k b me) (length bytes == 0) (λ t. (h, sh, refl))
                (λ t.
                  if_split (Good k b me) (ltb s.w.slot_size (u32 (s.w.written + length bytes)))
                    (λ t. fail-Good me s err_too_big h refl)
                    (λ t.
                      wrote_image-Good me now s bytes (io.ota_write s.esp s.w.handle bytes) h sh))))

  ended_so-Good :
      (me : ℕ) (s : Ota P Ctx) (r : ℕ × P)
      → Held k b me s
      → (s.w.handle ≡ 0) × (is_set s.w.source ≡ true)
      → Good k b me (ended_so io s r)
  ended_so-Good me s (e, p) h sh =
      if_split (Good k b me) (not (e == 0))
        (λ t. fail-Good me (record s { esp = p }) (esp_err e) h refl) (λ t. (h, ground arith, refl))

  pub end_image-Good :
      (me : ℕ) (s : Ota P Ctx) → Held k b me s → shape s.w ≡ true → Good k b me (end_image io s)
  unfolding end_image
  end_image-Good me s h sh =
      if_split (Good k b me) ((s.w.handle == 0) || s.w.ended)
        (λ t. fail-Good me s err_not_begun h refl)
        (λ f.
          if_split (Good k b me)
            (s.w.md5 && not (same_bytes (io.md5_final s.w.md5_ctx) s.w.md5_want))
            (λ t. fail-Good me s err_md5 h refl)
            (λ t.
              ended_so-Good me (record s { w = record s.w { handle = 0 } })
                (io.ota_end s.esp s.w.handle) h (refl, ground arith)))

  activated-Good :
      (me : ℕ) (s : Ota P Ctx) (r : ℕ × P)
      → Held k b me s
      → shape s.w ≡ true
      → Good k b me (activated io s r)
  activated-Good me s (e, p) h sh =
      if_split (Good k b me) (not (e == 0))
        (λ t. fail-Good me (record s { esp = p }) (esp_err e) h refl) (λ t. (h, sh, refl))

  pub activate-Good :
      (me : ℕ) (s : Ota P Ctx) → Held k b me s → shape s.w ≡ true → Good k b me (activate io s)
  unfolding activate
  activate-Good me s h sh =
      if_split (Good k b me) (not s.w.ended || not (has_part s.w.part))
        (λ t. fail-Good me s err_not_begun h refl)
        (λ t. activated-Good me s (io.set_boot s.esp s.w.part) h sh)

  reserved-Held : (me : ℕ) (r : Bool × Ota P Ctx) → Held k b me r.1 → Held k b me (reserved r).1
  reserved-Held me (got, s) h = h

  reserved-shape : (r : Bool × Ota P Ctx) → shape r.1.w ≡ true → shape (reserved r).1.w ≡ true
  reserved-shape (got, s) h = h

  Claimed-shape :
      (me : ℕ) (s : Ota P Ctx) (r : Bool × Ota P Ctx)
      → Claimed me s r
      → is_set s.w.source ≡ false
      → shape s.w ≡ true
      → shape r.1.w ≡ true
  Claimed-shape me s r c n h = ground arith

  reserve-kept :
      (me now : ℕ) (s : Ota P Ctx) (source : Option Source)
      → Held k b me s
      → shape s.w ≡ true
      → Held k b me (reserve s source me now).1 × (shape (reserve s source me now).1.w ≡ true)
  unfolding reserve
  reserve-kept me now s source h sh =
      let c = claim-Claimed me now s source h in
      if_split (λ (r : Bool × Ota P Ctx). Held k b me r.1 × (shape r.1.w ≡ true))
        (is_set s.w.source) (λ t. (h, sh))
        (λ t. (
          reserved-Held me (claim s source me now) c.0,
          reserved-shape (claim s source me now)
              (Claimed-shape me s (claim s source me now) c t sh),
        ))

  -- Every call keeps what holds between calls.
  pub do_call-kept :
      (me : ℕ) (s : Ota P Ctx) (c : Call)
      → Held k b me s
      → shape s.w ≡ true
      → Held k b me (do_call io s me c).1 × (shape (do_call io s me c).1.w ≡ true)
  unfolding do_call
  do_call-kept me s (reserves source now) h sh = reserve-kept me now s source h sh
  do_call-kept me s (begins source hint hex now) h sh =
      let g = begin-Good me now hint s source hex h in (g.0, g.1)
  do_call-kept me s (writes bytes now) h sh = let g = write-Good me now s bytes h sh in (g.0, g.1)
  do_call-kept me s ends h sh = let g = end_image-Good me s h sh in (g.0, g.1)
  do_call-kept me s activates h sh = let g = activate-Good me s h sh in (g.0, g.1)
  do_call-kept me s aborts h sh = (abort-Held me s h, abort-shape io s)
