-- ===== src/Ota/Laws/Image.antt =====
-- What the writes of an image leave, of the writer's counts, of its MD5 and of the platform.
use esp_rack.Prelude.{
  ℕ, ◌+◌, ◌^◌, ◌≤◌, ◌<◌, ◌≡◌, refl, ap, subst, Bool, true, false, not, ◌||◌, Option, none, some,
  List, [], ◌∷◌, length, ltb, arith, ◌==◌, if◌then◌else◌, if_split, ltb-false→le,
}
use esp_rack.Prelude.Word.{u32}
use esp_rack.Flash.{erases}
use esp_rack.Flash.Laws.{starts, erases-eq-starts, starts_add, starts-le}
use esp_rack.Ota.Types.{
  OtaError, err_not_begun, err_step, err_too_big, esp_err, longest_write, EspOta, Ota,
}
use esp_rack.Ota.Writer.{fail, wrote_image, write}

more_erases :
    (n len : ℕ)
    → n < 2 ^ 31
    → len ≤ longest_write
    → u32 (starts 0 n + erases n len) ≡ starts 0 (n + len)
more_erases n len hn hl =
    let z : 0 + n ≡ n = omega arith in
    omega (
      arith,
      erases-eq-starts n len (omega arith) (omega arith),
      starts_add 0 n len,
      ap (λ k. starts k len) z,
      starts-le 0 n,
      starts-le n len,
    )

-- What an image is to be: the state of the MD5 routines and of the platform so far, the handle it is
-- written under, whether an MD5 was asked for and which, and the size of its slot.
pub record Plan (P Ctx : Type 0) : Type 0 where
  pub digest : Ctx
  pub flash : P
  pub under : ℕ
  pub checked : Bool
  pub want : List ℕ
  pub room : ℕ

module _ {P Ctx : Type 0} where
  -- The writer of an image of n bytes so far, which is as planned.
  abbrev pub Made : ℕ → Plan P Ctx → Ota P Ctx → Type 0
  Made n k s =
      (s.w.written ≡ n)
      × (s.w.erases ≡ starts 0 n)
      × (n ≤ s.w.slot_size)
      × (s.w.slot_size < 2 ^ 31)
      × (s.w.md5 ≡ true → s.w.md5_ctx ≡ k.digest)
      × (s.esp ≡ k.flash)
      × (s.w.handle ≡ k.under)
      × (s.w.md5 ≡ k.checked)
      × (s.w.md5_want ≡ k.want)
      × (s.w.slot_size ≡ k.room)

  Made-again :
      (n : ℕ) (k : Plan P Ctx) (s : Ota P Ctx) (len : ℕ)
      → (len == 0) ≡ true
      → Made n k s
      → Made (n + len) k s
  Made-again n k s len z m = let e : n ≡ n + len = ground arith in subst (λ x. Made x k s) e m

module _ {P Ctx : Type 0} (io : EspOta P Ctx) where
  -- The plan behind a write, which skips an empty one: the bytes go into the MD5 and, as they are,
  -- to the platform.
  abbrev pub planned : Plan P Ctx → List ℕ → Plan P Ctx
  planned k b = if length b == 0 then k else record k {
    digest = io.md5_update k.digest b;
    flash = (io.ota_write k.flash k.under b).1;
  }

  abbrev pub planned_all : Plan P Ctx → List (List ℕ × ℕ) → Plan P Ctx
  planned_all k [] = k
  planned_all k (b ∷ bs) = planned_all (planned k b.0) bs

  abbrev pub total : List (List ℕ × ℕ) → ℕ
  total [] = 0
  total (b ∷ bs) = length b.0 + total bs

  abbrev pub when_done : Bool × Ota P Ctx → (Ota P Ctx → Option (Ota P Ctx)) → Option (Ota P Ctx)
  when_done (true, s) on = on s
  when_done (false, s) on = none

  -- Writes one after another, each with its time, up to one that fails.
  unfoldable pub write_all : Ota P Ctx → List (List ℕ × ℕ) → Option (Ota P Ctx)
  write_all s [] = some s
  write_all s (b ∷ bs) = when_done (write io s b.0 b.1) (λ t. write_all t bs)

  abbrev pub Makes : ℕ → Plan P Ctx → Bool × Ota P Ctx → Type 0
  Makes n k r = r.0 ≡ true → Made n k r.1

  pub fail-Makes : (n : ℕ) (k : Plan P Ctx) (s : Ota P Ctx) (e : OtaError) → Makes n k (fail io s e)
  unfolding fail
  fail-Makes n k s e h = absurd (ground arith)

  wrote_image-Makes :
      (n : ℕ) (k : Plan P Ctx) (s : Ota P Ctx) (bytes : List ℕ) (now : ℕ) (r : ℕ × P)
      → Made n k s
      → r.1 ≡ (io.ota_write k.flash k.under bytes).1
      → (length bytes == 0) ≡ false
      → length bytes ≤ longest_write
      → u32 (n + length bytes) ≤ s.w.slot_size
      → Makes (n + length bytes) (planned k bytes) (wrote_image io s bytes now r)
  wrote_image-Makes n k s bytes now (e, p) m g z l f =
      if_split (Makes (n + length bytes) (planned k bytes)) (not (e == 0))
        (λ t. fail-Makes _ _ (record s { esp = p }) (esp_err e))
        (λ t u.
          let e2 : u32 (s.w.erases + erases s.w.written (length bytes))
              ≡ starts 0 (n + length bytes) =
            rw (m.1, m.0) (more_erases n (length bytes) (omega arith) l) in
          rw z (
            omega (arith, m.0),
            e2,
            omega arith,
            m.3,
            λ h. rw (h, m.4 h) refl,
            g,
            m.6,
            m.7,
            m.8,
            m.9,
          ))

  write-Makes :
      (n : ℕ) (k : Plan P Ctx) (s : Ota P Ctx) (bytes : List ℕ) (now : ℕ)
      → Made n k s
      → Makes (n + length bytes) (planned k bytes) (write io s bytes now)
  unfolding write
  write-Makes n k s bytes now m =
      let Q : Bool × Ota P Ctx → Type 0 = Makes (n + length bytes) (planned k bytes) in
      if_split Q ((s.w.handle == 0) || s.w.ended) (λ t. fail-Makes _ _ s err_not_begun)
        (λ t.
          if_split Q (ltb longest_write (length bytes)) (λ t. fail-Makes _ _ s err_step)
            (λ l.
              if_split Q (length bytes == 0) (λ z u. rw z (Made-again n k s (length bytes) z m))
                (λ z.
                  if_split Q (ltb s.w.slot_size (u32 (s.w.written + length bytes)))
                    (λ t. fail-Makes _ _ s err_too_big)
                    (λ f.
                      wrote_image-Makes n k s bytes now (io.ota_write s.esp s.w.handle bytes) m
                        (rw (m.5, m.6) refl) z (ltb-false→le longest_write (length bytes) l)
                        (rw⁻¹ m.0
                          (ltb-false→le s.w.slot_size (u32 (s.w.written + length bytes)) f))))))

  when_done-Makes :
      (n : ℕ) (k : Plan P Ctx) (r : Bool × Ota P Ctx) (on : Ota P Ctx → Option (Ota P Ctx))
      (u : Ota P Ctx)
      → Makes n k r
      → when_done r on ≡ some u
      → (t : Ota P Ctx) × Made n k t × (on t ≡ some u)
  when_done-Makes n k (true, t) on u m e = (t, m refl, e)
  when_done-Makes n k (false, t) on u m e = absurd (ground arith)

  pub write_all-Made :
      (n : ℕ) (k : Plan P Ctx) (s u : Ota P Ctx) (bs : List (List ℕ × ℕ))
      → Made n k s
      → write_all s bs ≡ some u
      → Made (n + total bs) (planned_all k bs) u
  unfolding write_all
  write_all-Made n k s u [] m e =
      let g : s ≡ u = ground arith in
      let z : n ≡ n + 0 = omega arith in subst (λ x. Made x k u) z (subst (λ x. Made n k x) g m)
  write_all-Made n k s u (b ∷ bs) m e =
      let d =
        when_done-Makes _ _ (write io s b.0 b.1) (λ t. write_all t bs) u
          (write-Makes n k s b.0 b.1 m) e in
      let z : n + length b.0 + total bs ≡ n + (length b.0 + total bs) = omega arith in
      subst (λ x. Made x (planned_all k (b ∷ bs)) u) z
        (write_all-Made (n + length b.0) (planned k b.0) d.0 u bs d.1 d.2)
