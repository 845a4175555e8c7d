-- ===== src/Schemas/Custom.antt =====
-- The classes of src/capabilities/custom.cpp and their headers below include/smartthings4cpp/capabilities/custom.
pub mod AccessibilityToError
pub mod FridgeModeToWasherSpinLevel
pub mod WasherWaterTemperatureToWaterFilter
