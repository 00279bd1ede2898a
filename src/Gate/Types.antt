-- ===== src/Gate/Types.antt =====
-- The types of lib/ESPRack/include/power/WriteGateCore.h.
use Prim.Native.String.{String}
use esp_rack.Prelude.{ℕ, Bool, false, List, [], ◌∷◌}

-- `WriteGateConfig`, in milliseconds.
pub record Config : Type 0 where
  pub min_pause : ℕ
  pub max_window : ℕ
  pub max_wait : ℕ
  pub idle_time : ℕ

abbrev pub default_config : Config
default_config = record { min_pause = 60; max_window = 2000; max_wait = 10000; idle_time = 4000 }

-- `WriteGateStats`.
pub record Stats : Type 0 where
  pub windows : ℕ
  pub expired : ℕ
  pub grants : ℕ
  pub in_pause : ℕ
  pub forced : ℕ
  pub deferred : ℕ
  pub refused : ℕ
  pub longest_wait : ℕ
  pub longest_hold : ℕ
  pub longest_free_hold : ℕ
  pub overlaps : ℕ
  pub longest_overlap : ℕ

abbrev pub no_stats : Stats
no_stats = record {
  windows = 0;
  expired = 0;
  grants = 0;
  in_pause = 0;
  forced = 0;
  deferred = 0;
  refused = 0;
  longest_wait = 0;
  longest_hold = 0;
  longest_free_hold = 0;
  overlaps = 0;
  longest_overlap = 0;
}

pub data Verdict : Type 0 where
  go wait refuse : Verdict

pub record Decision : Type 0 where
  pub verdict : Verdict
  pub retry : ℕ
  pub at : ℕ

pub record Holder : Type 0 where
  pub name : String
  pub is_open : Bool
  pub opened_at : ℕ
  pub forecast : Bool
  pub next_at : ℕ

abbrev pub no_holder : Holder
no_holder = record { name = ""; is_open = false; opened_at = 0; forecast = false; next_at = 0 }

abbrev pub max_holders : ℕ
max_holders = 4

abbrev pub max_queue : ℕ
max_queue = 16

-- `holders` is the array `_h`, of which the first `count` are registered; `queue` is the part of
-- `_queue` that is in use.
pub record Gate : Type 0 where
  pub config : Config
  pub holders : List Holder
  pub count : ℕ
  pub ever_used : Bool
  pub seen : Bool
  pub last_now : ℕ
  pub last_end : ℕ
  pub pause : Bool
  pub pause_taken : Bool
  pub writing : ℕ
  pub gated_on : Bool
  pub gated_at : ℕ
  pub overlap_on : Bool
  pub overlap_at : ℕ
  pub queue : List ℕ
  pub next_ticket : ℕ
  pub stats : Stats

-- The member initialisers.
abbrev pub new_gate : Gate
new_gate = record {
  config = default_config;
  holders = no_holder ∷ no_holder ∷ no_holder ∷ no_holder ∷ [];
  count = 0;
  ever_used = false;
  seen = false;
  last_now = 0;
  last_end = 0;
  pause = false;
  pause_taken = false;
  writing = 0;
  gated_on = false;
  gated_at = 0;
  overlap_on = false;
  overlap_at = 0;
  queue = [];
  next_ticket = 1;
  stats = no_stats;
}
