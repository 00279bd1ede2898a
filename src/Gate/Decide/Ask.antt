-- ===== src/Gate/Decide/Ask.antt =====
-- lib/ESPRack/src/power/WriteGateCore.cpp: a writer asks, forces its way, and leaves.
use esp_rack.Prelude.{
  ℕ, ◌+◌, ◌-◌, Bool, true, false, not, ◌&&◌, ◌||◌, none, ltb, leb, ◌==◌, if◌then◌else◌,
}
use esp_rack.Prelude.Int.{pos, ◌+ℤ◌, ltb_ℤ, leb_ℤ, pos_part}
use esp_rack.Prelude.Word.{u8, u32, sub32, is_pos32, signed32}
use esp_rack.Gate.Types.{Config, no_stats, Verdict, go, wait, refuse, Decision, Gate}
use esp_rack.Gate.Windows.{clamp, start_overlap, end_overlap, window_open}
use esp_rack.Gate.Decide.Pauses.{
  lesser, to_u32, idle, until_expiry, Left, left_of, is_any, pause_left, head_of,
}

unfoldable pub grant : Gate → ℕ → ℕ → Bool → Bool → Bool → Bool → Decision × Gate
grant g now since forced in_pause in_window commit = (
  record { verdict = go; retry = 0; at = now },
  if not commit
      then g
      else (let waited : ℕ = sub32 now since in
          let gated : Bool = in_pause || forced in
          let counted : Gate = record g {
            writing = u8 (g.writing + 1);
            gated_on = gated || g.gated_on;
            gated_at = if gated then now else g.gated_at;
            stats = record (g.stats) {
              grants = u32 (g.stats.grants + 1);
              in_pause = if in_pause then u32 (g.stats.in_pause + 1) else g.stats.in_pause;
              forced = if forced then u32 (g.stats.forced + 1) else g.stats.forced;
            };
          } in
          let met : Gate = if in_window then start_overlap counted now else counted in
          record met {
            stats = record (met.stats) {
              longest_wait =
                  if is_pos32 waited && ltb met.stats.longest_wait waited
                  then waited
                  else met.stats.longest_wait;
            };
          }),
)

abbrev pub asked_again : ℕ → Decision
asked_again retry = record { verdict = wait; retry = if retry == 0 then 1 else retry; at = 0 }

abbrev pub refused_now : Decision
refused_now = record { verdict = refuse; retry = 0; at = 0 }

abbrev pub count_refused : Gate → Gate
count_refused g = record g { stats = record (g.stats) { refused = u32 (g.stats.refused + 1) } }

abbrev pub waited_of : ℕ → ℕ → ℕ
waited_of now since = if is_pos32 (sub32 now since) then sub32 now since else 0

-- `giveUp`.
abbrev pub give_up : Config → ℕ
give_up c = u32 (c.max_wait + c.max_window)

-- The branch of `decide` while a window is open. `waited` is how long the writer has waited.
unfoldable pub in_window : Gate → ℕ → ℕ → Bool → Bool → Bool → ℕ → Decision × Gate
in_window g now since only_free first commit waited =
    if not only_free && first && g.writing == 0 && leb (give_up g.config) waited
    then grant g now since true false true commit
    else (let retry : ℕ = until_expiry g.config.max_window now g.holders g.config.max_window in
        (
          asked_again (
              if not only_free && ltb waited (give_up g.config)
              then lesser retry (give_up g.config - waited)
              else retry),
          g,
        ))

-- What `decide` computes of the pause: what is left of it, whether there was no window lately, and
-- when the forecast stops counting.
unfoldable pub until_stale : Gate → Left → ℕ
unfolding ◌+ℤ◌
until_stale g left =
    if is_any left then u32 (to_u32 (left_of left +ℤ signed32 g.config.idle_time) + 1) else 1

-- The branch for a writer that takes a free gate only.
unfoldable pub only_when_free : Gate → ℕ → Left → Bool → Decision
only_when_free g now left quiet =
    let retry : ℕ =
      if not quiet
      then u32 (sub32 g.config.idle_time (sub32 now g.last_end))
      else until_stale g left in
    asked_again (
      if quiet && ltb_ℤ (pos 0) (left_of left)
      then lesser retry (pos_part (left_of left))
      else retry)

-- The last lines of `decide`: when a writer that has to wait asks again.
unfoldable pub between_retry : Gate → ℕ → ℕ → Left → Bool → ℕ
between_retry g now waited left quiet =
    let retry : ℕ =
      if quiet then until_stale g left else sub32 g.config.idle_time (sub32 now g.last_end) in
    if ltb waited g.config.max_wait
    then lesser retry (g.config.max_wait - waited)
    else if ltb waited (give_up g.config)
    then lesser retry (give_up g.config - waited)
    else retry

-- The last branch: between windows, one writer in a pause.
unfoldable pub between : Gate → ℕ → ℕ → Bool → Bool → ℕ → Left → Bool → Decision × Gate
between g now since first commit waited left quiet =
    let roomy : Bool = not (is_any left) || leb_ℤ (signed32 g.config.min_pause) (left_of left) in
    let due : Bool =
      leb g.config.max_wait waited && (not (is_any left) || ltb_ℤ (pos 0) (left_of left)) in
    if ((g.pause || quiet) && not g.pause_taken && g.writing == 0 && first)
      && (roomy || due || leb (give_up g.config) waited)
    then grant (if commit && g.pause then record g { pause_taken = true } else g) now since
        (not roomy) true false commit
    else (asked_again (between_retry g now waited left quiet), g)

-- `freeNow`: no window lately, and none forecast within a window's longest time.
unfoldable pub free_now : Gate → Left → Bool → Bool
free_now g left quiet =
    quiet && (not (is_any left) || leb_ℤ (signed32 g.config.max_window) (left_of left))

-- Outside every window, with what is left of the pause.
unfoldable pub in_pause : Gate → ℕ → ℕ → Bool → Bool → Bool → ℕ → Left → Bool → Decision × Gate
in_pause g now since only_free first commit waited left quiet =
    if free_now g left quiet && not (g.ever_used && ltb 0 g.writing)
    then grant g now since false false false commit
    else if free_now g left quiet
    then (record { verdict = wait; retry = g.config.max_window; at = 0 }, g)
    else if only_free
    then (only_when_free g now left quiet, g)
    else between g now since first commit waited left quiet

unfoldable pub no_window : Gate → ℕ → ℕ → Bool → Bool → Bool → ℕ → Decision × Gate
no_window g now since only_free first commit waited =
    in_pause g now since only_free first commit waited
      (pause_left g.config.idle_time now g.holders none) (idle g now)

unfoldable pub decide : Gate → Bool → ℕ → ℕ → Bool → ℕ → Bool → Decision × Gate
decide g allowed now since only_free t commit =
    let (now, g) = clamp g now in
    if not allowed
    then (refused_now, if commit then count_refused g else g)
    else (let first : Bool = head_of g t in
        let (is_open, g) = window_open g now in
        let waited : ℕ = waited_of now since in
        if is_open
        then in_window g now since only_free first commit waited
        else no_window g now since only_free first commit waited)

unfoldable pub enter : Gate → Bool → ℕ → ℕ → Bool → ℕ → Decision × Gate
enter g allowed now since only_free t = decide g allowed now since only_free t true

abbrev pub is_go : Verdict → Bool
is_go go = true
is_go _ = false

unfoldable pub would_go : Gate → Bool → ℕ → ℕ → Bool → ℕ → Bool × Gate
would_go g allowed now since only_free t =
    let (d, g') = decide g allowed now since only_free t false in (is_go d.verdict, g')

unfoldable pub force : Gate → Bool → ℕ → ℕ → Decision × Gate
force g allowed now since =
    let (now, g) = clamp g now in
    if not allowed
    then (refused_now, count_refused g)
    else (let (in_window, g) = window_open g now in
        grant (if g.pause then record g { pause_taken = true } else g) now since true false
          in_window true)

unfoldable pub leave : Gate → ℕ → ℕ → Gate
leave g now held_since =
    let (now, g) = clamp g now in
    if g.writing == 0
    then g
    else (let held : ℕ = waited_of now held_since in
        let gated : Bool = g.gated_on && held_since == g.gated_at in
        let left : Gate = record g {
          writing = g.writing - 1;
          gated_on = g.gated_on && not gated;
          stats = record (g.stats) {
            longest_hold =
                if gated && ltb g.stats.longest_hold held then held else g.stats.longest_hold;
            longest_free_hold =
                if not gated && ltb g.stats.longest_free_hold held
                then held
                else g.stats.longest_free_hold;
          };
        } in
        if left.writing == 0 then end_overlap left now else left)

unfoldable pub note_deferred : Gate → Gate
note_deferred g = record g { stats = record (g.stats) { deferred = u32 (g.stats.deferred + 1) } }

unfoldable pub reset_stats : Gate → Gate
reset_stats g = record g { stats = no_stats }
