-- ===== src/Flash/Tests.antt =====
-- A write of 200 bytes that begins 96 bytes before a sector ends, as lib/ESPRack/src/system/FlashSteps.cpp
-- takes it.
use esp_rack.Prelude.{◌<◌, ◌≡◌, arith}
use esp_rack.Flash.{step, erases}
use esp_rack.Flash.Laws.{starts, erases-eq-starts}

erases-eq-starts_example : erases 4000 200 ≡ starts 4000 200
erases-eq-starts_example = erases-eq-starts 4000 200 (omega arith) (omega arith)

short : step 4000 200 < 200
unfolding step
short = omega arith
