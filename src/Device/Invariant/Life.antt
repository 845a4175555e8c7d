-- ===== src/Device/Invariant/Life.antt =====
-- Every device that the library can reach is sound.
use smartthings4cpp.Device.{Device}
