-- ===== src/Gate/Decide/Pauses.antt =====
-- lib/ESPRack/src/power/WriteGateCore.cpp: how long a pause lasts, and the queue of the writers.
use esp_rack.Prelude.{
  ℕ, ◌+◌, ◌-◌, ◌^◌, Bool, true, false, not, ◌&&◌, ◌||◌, Option, none, some, List, [], ◌∷◌, ◌++◌,
  ltb, leb, ◌==◌, if◌then◌else◌, length,
}
use esp_rack.Prelude.Int.{ℤ, pos, negsuc, ◌-ℤ◌, ltb_ℤ, leb_ℤ}
use esp_rack.Prelude.Word.{u16, u32, sub32, signed32}
use esp_rack.Gate.Types.{Holder, Gate, max_queue}
use esp_rack.Gate.Windows.{clamp, window_open}

abbrev pub lesser : ℕ → ℕ → ℕ
lesser a b = if ltb a b then a else b

-- `uint32_t(z)`.
abbrev pub to_u32 : ℤ → ℕ
to_u32 (pos n) = u32 n
to_u32 (negsuc n) = 2 ^ 32 - 1 - u32 n

unfoldable pub idle : Gate → ℕ → Bool
idle g now = not g.ever_used || leb g.config.idle_time (sub32 now g.last_end)

unfoldable pub until_expiry : ℕ → ℕ → List Holder → ℕ → ℕ
until_expiry max_window now [] left = left
until_expiry max_window now (x ∷ xs) left = until_expiry max_window now xs (
    if not x.is_open
    then left
    else lesser left
        (if ltb (sub32 now x.opened_at) max_window then max_window - sub32 now x.opened_at else 0))

-- The pause left, `none` where no holder gave a forecast that still counts (`any = false`).
abbrev pub Left : Type 0
Left = Option ℤ

abbrev pub int32_max : ℤ
int32_max = pos 2147483647

abbrev pub left_of : Left → ℤ
left_of none = int32_max
left_of (some l) = l

-- What one holder's forecast makes of the earliest so far.
unfoldable pub forecast_left : ℕ → ℕ → Holder → Left → Left
unfolding ◌-ℤ◌
forecast_left idle_time now x left =
    if x.is_open || not x.forecast
    then left
    else (let l : ℤ = signed32 (sub32 x.next_at now) in
        if leb_ℤ l (pos 0 -ℤ signed32 idle_time)
        then left
        else some (if ltb_ℤ l (left_of left) then l else left_of left))

unfoldable pub pause_left : ℕ → ℕ → List Holder → Left → Left
pause_left idle_time now [] left = left
pause_left idle_time now (x ∷ xs) left =
    pause_left idle_time now xs (forecast_left idle_time now x left)

abbrev pub is_any : Left → Bool
is_any none = false
is_any (some _) = true

unfoldable pub is_free : Gate → ℕ → Bool × Gate
is_free g now =
    let (now, g) = clamp g now in
    let (is_open, g) = window_open g now in
    let left = pause_left g.config.idle_time now g.holders none in
    (
      not (is_open || not (idle g now))
          && (not (is_any left) || leb_ℤ (signed32 g.config.max_window) (left_of left)),
      g,
    )

-- `_nextTicket++`, a uint16_t, and past 0 where that is the ticket.
unfoldable pub join : Gate → ℕ → ℕ × Gate
join g now =
    if leb max_queue (length g.queue)
    then (0, g)
    else (let n : ℕ = if g.next_ticket == 0 then u16 (g.next_ticket + 1) else g.next_ticket in
        (n, record g { queue = g.queue ++ n ∷ []; next_ticket = u16 (n + 1) }))

-- The loop of `quit`: the first entry of that ticket goes.
unfoldable pub without : ℕ → List ℕ → List ℕ
without t [] = []
without t (x ∷ xs) = if x == t then xs else x ∷ without t xs

unfoldable pub quit : Gate → ℕ → Gate
quit g t = if t == 0 then g else record g { queue = without t g.queue }

abbrev pub is_head : List ℕ → ℕ → Bool
is_head [] t = true
is_head (x ∷ xs) t = not (t == 0) && x == t

unfoldable pub head_of : Gate → ℕ → Bool
head_of g t = is_head g.queue t
