-- ===== src/Precision/Hysteresis.antt =====
-- src/precision/src/hysteresis.rs: the memory-pressure state machine.
pub mod Laws
use virthub.Common.{ℕ, if◌then◌else◌}
use virthub.Common.Float.{Float}

pub data MemoryPressureState : Type 0 where
  nominal elevated critical : MemoryPressureState

unfoldable pub as_u8 : MemoryPressureState → ℕ
as_u8 nominal = 0
as_u8 elevated = 1
as_u8 critical = 2

-- `MemoryPressureState::update`, the thresholds in hundredths.
unfoldable pub update : (F : Float) → MemoryPressureState → F.Carrier → MemoryPressureState
update F nominal mu =
    if F.ge mu (F.literal 88)
    then critical
    else if F.ge mu (F.literal 78)
    then elevated
    else nominal
update F elevated mu =
    if F.ge mu (F.literal 88)
    then critical
    else if F.lt mu (F.literal 70)
    then nominal
    else elevated
update F critical mu = if F.lt mu (F.literal 82) then elevated else critical
