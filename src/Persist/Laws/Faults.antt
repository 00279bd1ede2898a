-- ===== src/Persist/Laws/Faults.antt =====
-- What stores and loads leave that do not go well.
use esp_rack.Prelude.{
  ℕ, ◌+◌, ◌^◌, ◌<◌, ◌≡◌, ◌≢◌, refl, ap, Bool, true, false, not, ◌&&◌, List, [], All, Option, arith,
  length, ltb, if◌then◌else◌, ◌∙◌,
}
use esp_rack.Prelude.Word.{u32}
use esp_rack.Persist.Crc.{crc32_ieee}
use esp_rack.Persist.Blob.{Header, header_size, Verdict, ok, other_schema, corrupt, encode}
use esp_rack.Persist.Record.{
  Nvs, esp_ok, Got, Loaded, no_nvs, get, load_first, load, Io, done, missing, too_big, no_store,
  failed, set_blob, NvsRecord, damaged, written, unchanged, Migrate, load_nothing, load_decoded,
  store, stored_so, stored, blank_header, load_from,
}
use esp_rack.Persist.Laws.Crc.{IsByte, OneByte}
use esp_rack.Persist.Laws.Blob.{decode-encode, encode-IsByte}
use esp_rack.Persist.Laws.Damage.{decode-OneByte}
use esp_rack.Persist.Laws.Record.{store_written}

-- A value that was just written is not written again: the next store of it says so, whatever the
-- gate says, and leaves the record and the store.
pub store_again :
    {S : Type 0} (nvs : Nvs S) (s u : S) (pass pass2 : Bool) (r r2 : NvsRecord) (v : List ℕ)
    → store nvs s pass r v ≡ (written, (r2, u))
    → store nvs u pass2 r2 v ≡ (unchanged, (r2, u))
unfolding store
store_again nvs s u pass pass2 r r2 v h =
    let w = store_written nvs s u pass r r2 v h in ground (arith, w.2, w.3)

-- What a record holds but for its count of skipped stores.
abbrev pub Same : NvsRecord → NvsRecord → Type 0
Same a b =
    (a.gen ≡ b.gen) × (a.writes ≡ b.writes) × (a.last_crc ≡ b.last_crc) × (a.has_last ≡ b.has_last)

stored_so-Same :
    {S : Type 0} (nvs : Nvs S) (r : NvsRecord) (c : ℕ) (p : Io × S)
    → stored (stored_so nvs r c p).0 ≡ false
    → Same (stored_so nvs r c p).1.0 r
stored_so-Same nvs r c (done, s) h = absurd (ground arith)
stored_so-Same nvs r c (missing, s) h = (refl, refl, refl, refl)
stored_so-Same nvs r c (too_big, s) h = (refl, refl, refl, refl)
stored_so-Same nvs r c (no_store, s) h = (refl, refl, refl, refl)
stored_so-Same nvs r c (failed, s) h = (refl, refl, refl, refl)

-- A store that answers neither Ok nor Unchanged leaves the record's generation, its count of
-- writes and what it knows of the last value, so that the same store is tried again.
pub store-Same :
    {S : Type 0} (nvs : Nvs S) (s : S) (pass : Bool) (r : NvsRecord) (v : List ℕ)
    → stored (store nvs s pass r v).0 ≡ false
    → Same (store nvs s pass r v).1.0 r
unfolding store
store-Same nvs s pass r v h = ground (
  arith,
  stored_so-Same nvs r (crc32_ieee v 0)
      (set_blob nvs s (encode r.schema (u32 (r.gen + 1)) v r.size_of)),
)

load_corrupt :
    (r : NvsRecord) (d : Verdict × Header) (payload out : List ℕ) (migrate : Option Migrate)
    → d.0 ≡ corrupt
    → load_decoded r d payload out migrate ≡ load_nothing damaged r out
unfolding load_decoded
load_corrupt r (corrupt, h) payload out migrate e = refl
load_corrupt r (ok, h) payload out migrate e = absurd (ground arith)
load_corrupt r (other_schema, h) payload out migrate e = absurd (ground arith)

not_below : (n : ℕ) → ltb n n ≡ false
not_below n = ground arith

status_of :
    (lost : Bool) (r : NvsRecord) (out : List ℕ)
    → (if lost then load_nothing no_nvs r out else load_nothing damaged r out)
      ≡ load_nothing (if lost then no_nvs else damaged) r out
status_of false r out = refl
status_of true r out = refl

not_ok : {v : Verdict} → v ≡ corrupt → v ≢ ok
not_ok e f = ground arith

damaged_from :
    (r : NvsRecord) (schema gen : ℕ) (v out b : List ℕ) (migrate : Option Migrate)
    → schema < 2 ^ 16
    → gen < 2 ^ 32
    → length v < 2 ^ 16
    → All IsByte v
    → All IsByte b
    → OneByte (encode schema gen v (length v)) b
    → load_from r out migrate (record { io = done; bytes = b; size = length b })
      ≡ load_nothing damaged r out
damaged_from r schema gen v out b migrate hs hg hv pv pb d =
    let a : List ℕ = encode schema gen v (length v) in
    load_corrupt r _ _ out migrate (
      decode-OneByte a b schema (length v) r.schema r.size_of blank_header blank_header d
        (encode-IsByte schema gen v pv) pb
        (λ e. not_ok e (ap (λ x. x.0) (decode-encode schema gen v blank_header hs hg hv).0)))

-- The NVS library finds the bytes b under the record's key.
pub record Holds {S : Type 0} (nvs : Nvs S) (s : S) (b : List ℕ) : Type 0 where
  pub opened : S
  pub opens : nvs.nvs_open s false ≡ (esp_ok, opened)
  pub sizes : nvs.nvs_blob_size opened ≡ (esp_ok, length b)
  pub reads : nvs.nvs_get_blob opened (length b) ≡ (esp_ok, b)

-- What `get` reads of b, where b is larger than the buffer and where it is not.
abbrev got_so : Bool → List ℕ → Got
got_so true b = record { io = too_big; bytes = []; size = length b }
got_so false b = record { io = done; bytes = b; size = length b }

get_if :
    (low : Bool) (b : List ℕ)
    → (if low
        then record { io = too_big; bytes = []; size = length b }
        else record { io = done; bytes = b; size = length b })
      ≡ got_so low b
get_if false b = refl
get_if true b = refl

module _ {S : Type 0} (nvs : Nvs S) (s : S) (b : List ℕ) (h : Holds nvs s b) where
  get-Holds : (room size : ℕ) → get nvs s room size ≡ got_so (ltb room (length b)) b
  unfolding get
  get-Holds room size = rw (h.opens, h.sizes, h.reads) (get_if (ltb room (length b)) b)

  get_again :
      (size : ℕ) → get nvs s (length b) size ≡ record { io = done; bytes = b; size = length b }
  get_again size = rw (get-Holds (length b) size, not_below (length b)) refl

  load_whole :
      (memory : Bool) (r : NvsRecord) (out : List ℕ) (migrate : Option Migrate) (low : Bool)
      → load_first nvs s memory r out migrate (got_so low b).io (got_so low b) ≡ (
          if low && not memory
          then load_nothing no_nvs r out
          else load_from r out migrate (record { io = done; bytes = b; size = length b }))
  unfolding load_first
  load_whole memory r out migrate false = refl
  load_whole true r out migrate true = ap (load_from r out migrate) (get_again (length b))
  load_whole false r out migrate true = refl

-- Where the key holds a blob that a record wrote, of the schema asked for or of another, but for one
-- byte that differs, `load` loads nothing: it answers Corrupt, or NoStore where the blob is larger
-- than its buffer and there is no memory to read it again, leaves the record and `out`, and asks no
-- migration.
pub load-damaged :
    {S : Type 0} (nvs : Nvs S) (s : S) (memory : Bool) (r : NvsRecord) (schema gen : ℕ)
    (v out b : List ℕ) (migrate : Option Migrate)
    → Holds nvs s b
    → schema < 2 ^ 16
    → gen < 2 ^ 32
    → length v < 2 ^ 16
    → All IsByte v
    → All IsByte b
    → OneByte (encode schema gen v (length v)) b
    → load nvs s memory r out migrate
      ≡ load_nothing
          (if ltb (header_size + r.size_of) (length b) && not memory then no_nvs else damaged)
          r
          out
unfolding load
load-damaged nvs s memory r schema gen v out b migrate h hs hg hv pv pb d =
    let low : Bool = ltb (header_size + r.size_of) (length b) in
    let e = get-Holds nvs s b h (header_size + r.size_of) 0 in
    let x = damaged_from r schema gen v out b migrate hs hg hv pv pb d in
    ap (λ (g : Got). load_first nvs s memory r out migrate g.io g) e
    ∙ load_whole nvs s b h memory r out migrate low
    ∙ ap (λ (l : Loaded). if low && not memory then load_nothing no_nvs r out else l) x
    ∙ status_of (low && not memory) r out
