-- ===== src/Persist/Laws/Record.antt =====
-- Records of lib/ESPRack/include/persist/NvsRecord.h, stored and loaded.
use esp_rack.Prelude.{
  ℕ, ◌+◌, ◌^◌, ◌≤◌, ◌<◌, ◌≡◌, refl, sym, ◌∙◌, ap, subst, Bool, true, false, List, Option, some,
  arith, length, take, drop,
}
use esp_rack.Prelude.Word.{u32}
use esp_rack.Persist.Crc.{crc32_ieee}
use esp_rack.Persist.Blob.{Header, header_size, Verdict, ok, encode, decode, header_for}
use esp_rack.Persist.Record.{
  NvsErr, esp_ok, not_found, other_err, Nvs, Io, done, missing, too_big, no_store, failed, get,
  set_committed, set_opened, set_written, set_blob, NvsRecord, loaded, written, Migrate, Loaded,
  load_decoded, load, store, stored_so, blank_header, load_from, load_first,
}
use esp_rack.Persist.Laws.Bytes.{take-length}
use esp_rack.Persist.Laws.Blob.{decode-encode, length-encode}

-- What the NVS library promises: a blob that was set and committed is there for a reader.
pub record Keeps {S : Type 0} (nvs : Nvs S) : Type 0 where
  pub opens :
      (s t u : S) (b : List ℕ)
      → nvs.nvs_set_blob s b ≡ (esp_ok, t)
      → nvs.nvs_commit t ≡ (esp_ok, u)
      → nvs.nvs_open u false ≡ (esp_ok, u)
  pub sizes :
      (s t u : S) (b : List ℕ)
      → nvs.nvs_set_blob s b ≡ (esp_ok, t)
      → nvs.nvs_commit t ≡ (esp_ok, u)
      → nvs.nvs_blob_size u ≡ (esp_ok, length b)
  pub reads :
      (s t u : S) (b : List ℕ)
      → nvs.nvs_set_blob s b ≡ (esp_ok, t)
      → nvs.nvs_commit t ≡ (esp_ok, u)
      → nvs.nvs_get_blob u (length b) ≡ (esp_ok, b)

module _ {S : Type 0} (nvs : Nvs S) where
  -- What a write that went well did.
  abbrev Wrote : S → List ℕ → S → Type 0
  Wrote s b u = (t : S) × (nvs.nvs_set_blob s b ≡ (esp_ok, t)) × (nvs.nvs_commit t ≡ (esp_ok, u))

  committed_done : (c : NvsErr × S) (u : S) → set_committed nvs c ≡ (done, u) → c ≡ (esp_ok, u)
  committed_done (esp_ok, s) u h = ground arith
  committed_done (not_found, s) u h = absurd (ground arith)
  committed_done (other_err, s) u h = absurd (ground arith)

  set_written-done :
      (c : NvsErr × S) (u : S)
      → set_written nvs c ≡ (done, u)
      → (t : S) × (c ≡ (esp_ok, t)) × (nvs.nvs_commit t ≡ (esp_ok, u))
  set_written-done (esp_ok, t) u h = (t, refl, committed_done (nvs.nvs_commit t) u h)
  set_written-done (not_found, t) u h = absurd (ground arith)
  set_written-done (other_err, t) u h = absurd (ground arith)

  set_opened-done :
      (o : NvsErr × S) (b : List ℕ) (u : S) → set_opened nvs o b ≡ (done, u) → Wrote o.1 b u
  set_opened-done (esp_ok, s) b u h = set_written-done (nvs.nvs_set_blob s b) u h
  set_opened-done (not_found, s) b u h = absurd (ground arith)
  set_opened-done (other_err, s) b u h = absurd (ground arith)

  set_blob-done :
      (s u : S) (b : List ℕ) → set_blob nvs s b ≡ (done, u) → Wrote (nvs.nvs_open s true).1 b u
  unfolding set_blob
  set_blob-done s u b h = set_opened-done (nvs.nvs_open s true) b u h

  stored_so_written :
      (r r2 : NvsRecord) (c : ℕ) (p : Io × S) (u : S)
      → stored_so nvs r c p ≡ (written, (r2, u))
      → (p ≡ (done, u)) × (r2.gen ≡ u32 (r.gen + 1)) × (r2.last_crc ≡ c) × (r2.has_last ≡ true)
  stored_so_written r r2 c (done, s) u h = ground arith
  stored_so_written r r2 c (missing, s) u h = ground arith
  stored_so_written r r2 c (too_big, s) u h = ground arith
  stored_so_written r r2 c (no_store, s) u h = ground arith
  stored_so_written r r2 c (failed, s) u h = ground arith

  pub store_written :
      (s u : S) (pass : Bool) (r r2 : NvsRecord) (v : List ℕ)
      → store nvs s pass r v ≡ (written, (r2, u))
      → (set_blob nvs s (encode r.schema (u32 (r.gen + 1)) v r.size_of) ≡ (done, u))
        × (r2.gen ≡ u32 (r.gen + 1))
        × (r2.last_crc ≡ crc32_ieee v 0)
        × (r2.has_last ≡ true)
  unfolding store
  store_written s u pass r r2 v h = ground (
    arith,
    stored_so_written r r2 (crc32_ieee v 0)
        (set_blob nvs s (encode r.schema (u32 (r.gen + 1)) v r.size_of)) u,
  )

  -- What a reader gets then, with a buffer that is large enough.
  get-Wrote :
      (s u : S) (b : List ℕ) (cap size : ℕ)
      → Keeps nvs
      → Wrote s b u
      → length b ≤ cap
      → get nvs u cap size ≡ record { io = done; bytes = b; size = length b }
  unfolding get
  get-Wrote s u b cap size k w h =
      rw (k.opens s w.0 u b w.1 w.2, k.sizes s w.0 u b w.1 w.2, k.reads s w.0 u b w.1 w.2)
        (ground arith)

-- The record and the answer behind a load that found v of a generation.
abbrev pub loaded_as : NvsRecord → ℕ → List ℕ → Loaded
loaded_as r gen v = record {
  status = loaded;
  rec = record r { gen = gen; last_crc = crc32_ieee v 0; has_last = true };
  out = v;
}

load_ok :
    (r : NvsRecord) (d : Verdict × Header) (k : Header) (payload v out : List ℕ)
    (migrate : Option Migrate)
    → d ≡ (ok, k)
    → take r.size_of payload ≡ v
    → load_decoded r d payload out migrate ≡ loaded_as r k.gen v
unfolding load_decoded
load_ok r d k payload v out migrate e f = rw (e, f) refl

load_encoded :
    (r : NvsRecord) (gen : ℕ) (v out : List ℕ) (migrate : Option Migrate)
    → length v ≡ r.size_of
    → r.schema < 2 ^ 16
    → r.size_of < 2 ^ 16
    → gen < 2 ^ 32
    → let b : List ℕ = encode r.schema gen v r.size_of in
      load_from r out migrate (record { io = done; bytes = b; size = length b }) ≡ loaded_as r gen v
load_encoded r gen v out migrate e hs hn hg =
    let c = decode-encode r.schema gen v blank_header hs hg (omega arith) in
    let d : decode (some (encode r.schema gen v r.size_of))
          (length (encode r.schema gen v r.size_of)) r.schema r.size_of blank_header
        ≡ (ok, header_for r.schema gen v r.size_of) =
      subst
        (λ n.
          decode (some (encode r.schema gen v n)) (length (encode r.schema gen v n)) r.schema n
            blank_header
          ≡ (ok, header_for r.schema gen v n))
        e c.0 in
    let t : take r.size_of (drop header_size (encode r.schema gen v r.size_of)) ≡ v =
      subst (λ n. take n (drop header_size (encode r.schema gen v n)) ≡ v) e
        (ap (take (length v)) c.2 ∙ take-length v) in
    let g : (header_for r.schema gen v r.size_of).gen ≡ gen =
      subst (λ n. (header_for r.schema gen v n).gen ≡ gen) e c.1 in
    load_ok r _ (header_for r.schema gen v r.size_of) _ v out migrate d t
    ∙ ap (λ n. loaded_as r n v) g

length-encode_for :
    (schema gen n : ℕ) (v : List ℕ)
    → length v ≡ n
    → length (encode schema gen v n) ≡ header_size + n
length-encode_for schema gen n v e =
    subst (λ k. length (encode schema gen v k) ≡ header_size + k) e (length-encode schema gen v)

-- Where the NVS library keeps what was set and committed: a value that `store` says it wrote is
-- what any record of the same key, schema and size then loads, with the next generation.
pub load-store :
    {S : Type 0} (nvs : Nvs S) (s u : S) (pass memory : Bool) (r r2 r3 : NvsRecord) (v out : List ℕ)
    (migrate : Option Migrate)
    → Keeps nvs
    → store nvs s pass r v ≡ (written, (r2, u))
    → r3.schema ≡ r.schema
    → r3.size_of ≡ r.size_of
    → length v ≡ r.size_of
    → r.schema < 2 ^ 16
    → r.size_of < 2 ^ 16
    → load nvs u memory r3 out migrate ≡ loaded_as r3 (u32 (r.gen + 1)) v
unfolding load load_first
load-store nvs s u pass memory r r2 r3 v out migrate k h es en ev hs hn =
    let w = store_written nvs s u pass r r2 v h in
    let b : List ℕ = encode r3.schema (u32 (r.gen + 1)) v r3.size_of in
    let x : set_blob nvs s b ≡ (done, u) = rw (es, en) (w.0) in
    let g =
      get-Wrote nvs (nvs.nvs_open s true).1 u b (header_size + r3.size_of) 0 k
        (set_blob-done nvs s u b x)
        (omega (arith, length-encode_for r3.schema (u32 (r.gen + 1)) r3.size_of v (ev ∙ sym en))) in
    rw g (
      load_encoded r3 (u32 (r.gen + 1)) v out migrate (ev ∙ sym en) (omega arith) (omega arith)
        (omega arith))
