-- ===== src/Gate/Windows.antt =====
-- lib/ESPRack/src/power/WriteGateCore.cpp: the clock, the holders and their windows.
use Prim.Native.String.{String}
use esp_rack.Prelude.{
  ℕ, ◌+◌, Bool, true, false, not, ◌&&◌, ◌||◌, Option, none, some, List, [], ◌∷◌, ltb, leb,
  if◌then◌else◌, get_or, set, any,
}
use esp_rack.Prelude.Int.{ℤ, pos, negsuc}
use esp_rack.Prelude.Word.{u32, sub32, is_neg32, is_pos32}
use esp_rack.Gate.Types.{Config, Holder, no_holder, Gate, max_holders}

unfoldable pub configure : Gate → Config → Gate
configure g c = record g { config = c }

unfoldable pub clamp : Gate → ℕ → ℕ × Gate
clamp g now =
    if g.seen && is_neg32 (sub32 now g.last_now)
    then (g.last_now, g)
    else (now, record g { seen = true; last_now = now })

abbrev pub or_unnamed : Option String → String
or_unnamed none = "?"
or_unnamed (some s) = s

unfoldable pub add_holder : Gate → Option String → ℤ × Gate
add_holder g name = if leb max_holders g.count then (negsuc 0, g) else (
  pos g.count,
  record g {
    holders =
        set g.holders g.count
          (record (get_or g.holders g.count no_holder) { name = or_unnamed name });
    count = g.count + 1;
  },
)

-- `h >= 0 && h < _count`, and then the index.
abbrev pub handle : Gate → ℤ → Option ℕ
handle g (pos h) = if ltb h g.count then some h else none
handle g (negsuc h) = none

abbrev pub holder_at : Gate → ℕ → Holder
holder_at g h = get_or g.holders h no_holder

unfoldable pub holder_name : Gate → ℤ → String
holder_name g h = elim (handle g h) [ none ↦ "" | some i ↦ (holder_at g i).name ]

unfoldable pub holder_open : Gate → ℤ → Bool
holder_open g h = elim (handle g h) [ none ↦ false | some i ↦ (holder_at g i).is_open ]

unfoldable pub start_overlap : Gate → ℕ → Gate
start_overlap g now = if g.overlap_on then g else record g {
  overlap_on = true;
  overlap_at = now;
  stats = record (g.stats) { overlaps = u32 (g.stats.overlaps + 1) };
}

unfoldable pub end_overlap : Gate → ℕ → Gate
end_overlap g now =
    if not g.overlap_on
    then g
    else (let d : ℕ = sub32 now g.overlap_at in
        record g {
          overlap_on = false;
          stats = record (g.stats) {
            longest_overlap =
                if is_pos32 d && ltb g.stats.longest_overlap d then d else g.stats.longest_overlap;
          };
        })

unfoldable pub end_window : Gate → ℕ → Gate
end_window g at = end_overlap (record g { last_end = at; pause = true; pause_taken = false }) at

-- The variables of the loop of `windowOpen`, and what it counts.
pub record Sweep : Type 0 where
  pub still_open : Bool
  pub ended : Bool
  pub end_at : ℕ
  pub expired : ℕ

-- Its body.
unfoldable pub sweep_one : ℕ → ℕ → Holder → Sweep → Holder × Sweep
sweep_one max_window now x s =
    if not x.is_open
    then (x, s)
    else if leb max_window (sub32 now x.opened_at)
    then (let at : ℕ = u32 (x.opened_at + max_window) in
        (
          record x { is_open = false; forecast = false },
          record s {
            ended = true;
            end_at = if not s.ended || is_pos32 (sub32 at s.end_at) then at else s.end_at;
            expired = u32 (s.expired + 1);
          },
        ))
    else (x, record s { still_open = true })

unfoldable pub sweep : ℕ → ℕ → List Holder → Sweep → List Holder × Sweep
sweep max_window now [] s = ([], s)
sweep max_window now (x ∷ xs) s =
    let (y, t) = sweep_one max_window now x s in
    let (ys, u) = sweep max_window now xs t in (y ∷ ys, u)

-- `windowOpen` behind its loop.
unfoldable pub after_sweep : Gate → List Holder × Sweep → Bool × Gate
after_sweep g (xs, s) =
    let g' : Gate = record g { holders = xs; stats = record (g.stats) { expired = s.expired } } in
    (s.still_open, if s.ended && not s.still_open then end_window g' s.end_at else g')

abbrev pub no_sweep : Gate → Sweep
no_sweep g = record { still_open = false; ended = false; end_at = 0; expired = g.stats.expired }

-- `windowOpen` behind its clamp.
unfoldable pub expire : Gate → ℕ → Bool × Gate
expire g now = after_sweep g (sweep g.config.max_window now g.holders (no_sweep g))

unfoldable pub window_open : Gate → ℕ → Bool × Gate
window_open g now = let (now, g) = clamp g now in expire g now

-- The window that `open` begins.
unfoldable pub open_holder : Gate → ℕ → ℕ → Gate
open_holder g i now =
    let opened : Gate = record g {
      holders =
          set g.holders i
            (record (holder_at g i) { is_open = true; opened_at = now; forecast = false });
      stats = record (g.stats) { windows = u32 (g.stats.windows + 1) };
      ever_used = true;
      pause = false;
    } in
    if ltb 0 g.writing then start_overlap opened now else opened

-- `open` of a registered holder, at the clamped time.
unfoldable pub open_at : Gate → ℕ → ℕ → Gate
open_at g i now =
    let g = (window_open g now).1 in if (holder_at g i).is_open then g else open_holder g i now

unfoldable pub open_window : Gate → ℤ → ℕ → Gate
open_window g h now = elim (handle g h) [
  | none ↦ g
  | some i ↦ let (now, g') = clamp g now in open_at g' i now
]

-- The window that `closeAt` ends, and the pause that begins with the last one.
unfoldable pub close_holder : Gate → ℕ → ℕ → Bool → ℕ → Gate
close_holder g i now forecast next_at =
    let closed : Gate = record g {
      holders =
          set g.holders i
            (record (holder_at g i) { is_open = false; forecast = forecast; next_at = next_at });
    } in
    if any (λ x. x.is_open) closed.holders then closed else end_window closed now

-- `closeAt` of a registered holder.
unfoldable pub close_registered : Gate → ℕ → ℕ → Bool → ℕ → Gate
close_registered g i now forecast next_at =
    let g = (window_open g now).1 in
    if not (holder_at g i).is_open then g else close_holder g i now forecast next_at

unfoldable pub close_at : Gate → ℤ → ℕ → Bool → ℕ → Gate
close_at g h now forecast next_at = elim (handle g h) [
  | none ↦ g
  | some i ↦ close_registered g i now forecast next_at
]

-- `close(h, now)`.
unfoldable pub close_quiet : Gate → ℤ → ℕ → Gate
close_quiet g h now = let (now, g') = clamp g now in close_at g' h now false 0

abbrev pause_of : ℤ → ℕ
pause_of (pos n) = n
pause_of (negsuc _) = 0

-- `close(h, now, pauseMs)`.
unfoldable pub close_forecast : Gate → ℤ → ℕ → ℤ → Gate
close_forecast g h now pause_ms =
    let (now, g') = clamp g now in close_at g' h now true (u32 (now + pause_of pause_ms))

abbrev pub count_open : List Holder → ℕ
count_open [] = 0
count_open (x ∷ xs) = (if x.is_open then 1 else 0) + count_open xs

unfoldable pub open_windows : Gate → ℕ → ℕ × Gate
open_windows g now = let g' = (window_open g now).1 in (count_open g'.holders, g')
