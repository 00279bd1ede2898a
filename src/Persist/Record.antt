-- ===== src/Persist/Record.antt =====
-- `NvsRecord<T>` of lib/ESPRack/include/persist/NvsRecord.h over the I/O of NvsIo.cpp. A T is its
-- `sizeof(T)` bytes. The NVS library is a parameter, for the one namespace and key of a record; the
-- write gate's pass, the memory for a larger blob and the migration are arguments.
use esp_rack.Prelude.{
  ℕ, ◌+◌, Bool, true, false, not, ◌&&◌, Option, none, some, List, [], ltb, ◌==◌, if◌then◌else◌,
  drop, take,
}
use esp_rack.Prelude.Word.{u32}
use esp_rack.Persist.Crc.{crc32_ieee}
use esp_rack.Persist.Blob.{Header, header_size, Verdict, ok, other_schema, corrupt, encode, decode}

-- `esp_err_t`, as far as the code tells the values apart.
pub data NvsErr : Type 0 where
  esp_ok not_found other_err : NvsErr

-- The calls of the NVS library on a store S: each hands on the store it leaves. `nvs_open` is told
-- whether it may write; a blob is read in two calls, its size and then its bytes.
pub record Nvs (S : Type 0) : Type 0 where
  pub nvs_open : S → Bool → NvsErr × S
  pub nvs_blob_size : S → NvsErr × ℕ
  pub nvs_get_blob : S → ℕ → NvsErr × List ℕ
  pub nvs_set_blob : S → List ℕ → NvsErr × S
  pub nvs_commit : S → NvsErr × S

pub data Io : Type 0 where
  done missing too_big no_store failed : Io

-- What `get` leaves: its answer, the bytes of the buffer and `size`.
pub record Got : Type 0 where
  pub io : Io
  pub bytes : List ℕ
  pub size : ℕ

abbrev pub is_ok : NvsErr → Bool
is_ok esp_ok = true
is_ok _ = false

abbrev pub got_nothing : NvsErr → ℕ → Got
got_nothing not_found size = record { io = missing; bytes = []; size = size }
got_nothing _ size = record { io = no_store; bytes = []; size = size }

-- The bytes read, behind `size = n`.
abbrev pub got_bytes : NvsErr × List ℕ → ℕ → Got
got_bytes (esp_ok, b) n = record { io = done; bytes = b; size = n }
got_bytes (_, b) n = record { io = no_store; bytes = b; size = n }

abbrev pub set_answer : NvsErr → Io
set_answer esp_ok = done
set_answer _ = failed

module _ {S : Type 0} (nvs : Nvs S) where
  -- The second half of `get`, on the namespace just opened.
  abbrev pub get_sized : S → ℕ → NvsErr × ℕ → ℕ → Got
  get_sized s cap (esp_ok, n) size =
      if ltb cap n
      then record { io = too_big; bytes = []; size = n }
      else got_bytes (nvs.nvs_get_blob s n) n
  get_sized s cap (e, n) size = got_nothing e size

  abbrev pub get_opened : NvsErr × S → ℕ → ℕ → Got
  get_opened (esp_ok, s) cap size = get_sized s cap (nvs.nvs_blob_size s) size
  get_opened (e, s) cap size = got_nothing e size

  unfoldable pub get : S → ℕ → ℕ → Got
  get s cap size = get_opened (nvs.nvs_open s false) cap size

  abbrev pub set_committed : NvsErr × S → Io × S
  set_committed (e, s) = (set_answer e, s)

  abbrev pub set_written : NvsErr × S → Io × S
  set_written (esp_ok, s) = set_committed (nvs.nvs_commit s)
  set_written (e, s) = (failed, s)

  abbrev pub set_opened : NvsErr × S → List ℕ → Io × S
  set_opened (esp_ok, s) b = set_written (nvs.nvs_set_blob s b)
  set_opened (e, s) b = (no_store, s)

  unfoldable pub set_blob : S → List ℕ → Io × S
  set_blob s b = set_opened (nvs.nvs_open s true) b

pub record NvsRecord : Type 0 where
  pub schema : ℕ
  pub size_of : ℕ
  pub gen : ℕ
  pub writes : ℕ
  pub skips : ℕ
  pub last_crc : ℕ
  pub has_last : Bool

-- The constructor.
abbrev pub new_record : ℕ → ℕ → NvsRecord
new_record schema size_of = record {
  schema = schema;
  size_of = size_of;
  gen = 0;
  writes = 0;
  skips = 0;
  last_crc = 0;
  has_last = false;
}

pub data RecStatus : Type 0 where
  loaded migrated nothing_stored damaged no_nvs : RecStatus

pub data StoreStatus : Type 0 where
  written unchanged skipped write_failed no_nvs_to_write : StoreStatus

abbrev pub stored : StoreStatus → Bool
stored written = true
stored unchanged = true
stored _ = false

-- A callback that fills a T from an older schema's payload, or says no; it may have
-- written to it by then.
abbrev pub Migrate : Type 0
Migrate = ℕ → List ℕ → Bool × List ℕ

-- What `load` leaves: its answer, the record and `out`.
pub record Loaded : Type 0 where
  pub status : RecStatus
  pub rec : NvsRecord
  pub out : List ℕ

abbrev pub load_nothing : RecStatus → NvsRecord → List ℕ → Loaded
load_nothing status r out = record { status = status; rec = r; out = out }

abbrev pub migrated_by : NvsRecord → Bool × List ℕ → Loaded
migrated_by r (true, t) = record { status = migrated; rec = record r { has_last = false }; out = t }
migrated_by r (false, t) = load_nothing damaged r t

abbrev pub try_migrate : NvsRecord → Header → List ℕ → List ℕ → Option Migrate → Loaded
try_migrate r h payload out none = load_nothing damaged r out
try_migrate r h payload out (some f) = migrated_by r (f h.schema (take h.len payload))

-- `load` behind `decode`, on the payload behind the header.
unfoldable pub load_decoded :
    NvsRecord → Verdict × Header → List ℕ → List ℕ → Option Migrate → Loaded
load_decoded r (corrupt, h) payload out migrate = load_nothing damaged r out
load_decoded r (other_schema, h) payload out migrate =
    try_migrate (record r { gen = h.gen }) h payload out migrate
load_decoded r (ok, h) payload out migrate = record {
  status = loaded;
  rec = record r { gen = h.gen; last_crc = crc32_ieee (take r.size_of payload) 0; has_last = true };
  out = take r.size_of payload;
}

abbrev pub blank_header : Header
blank_header = record { magic = 0; schema = 0; len = 0; gen = 0; crc = 0 }

abbrev pub load_got : NvsRecord → List ℕ → Option Migrate → Io → List ℕ → ℕ → Loaded
load_got r out migrate missing b size = load_nothing nothing_stored r out
load_got r out migrate done b size =
    load_decoded r (decode (some b) size r.schema r.size_of blank_header) (drop header_size b) out
      migrate
load_got r out migrate _ b size = load_nothing no_nvs r out

abbrev pub load_from : NvsRecord → List ℕ → Option Migrate → Got → Loaded
load_from r out migrate g = load_got r out migrate g.io g.bytes g.size

module _ {S : Type 0} (nvs : Nvs S) where
  -- A blob larger than the buffer is read again, if there is memory for it.
  unfoldable pub load_first : S → Bool → NvsRecord → List ℕ → Option Migrate → Io → Got → Loaded
  unfolding get
  load_first s memory r out migrate too_big g =
      if memory
      then load_from r out migrate (get nvs s g.size g.size)
      else load_nothing no_nvs r out
  load_first s memory r out migrate _ g = load_from r out migrate g

  unfoldable pub load : S → Bool → NvsRecord → List ℕ → Option Migrate → Loaded
  load s memory r out migrate =
      let g : Got = get nvs s (header_size + r.size_of) 0 in
      load_first s memory r out migrate g.io g

  -- `store` behind the write, whose answer and store it is told.
  abbrev pub stored_so : NvsRecord → ℕ → Io × S → StoreStatus × (NvsRecord × S)
  stored_so r c (done, s) = (
    written,
    (
      record r {
        gen = u32 (r.gen + 1);
        writes = u32 (r.writes + 1);
        last_crc = c;
        has_last = true;
      },
      s,
    ),
  )
  stored_so r c (no_store, s) = (no_nvs_to_write, (r, s))
  stored_so r c (_, s) = (write_failed, (r, s))

  unfoldable pub store : S → Bool → NvsRecord → List ℕ → StoreStatus × (NvsRecord × S)
  store s pass r v =
      let c : ℕ = crc32_ieee v 0 in
      if r.has_last && (c == r.last_crc)
      then (unchanged, (r, s))
      else (if not pass
          then (skipped, (record r { skips = u32 (r.skips + 1) }, s))
          else stored_so r c (set_blob nvs s (encode r.schema (u32 (r.gen + 1)) v r.size_of)))
