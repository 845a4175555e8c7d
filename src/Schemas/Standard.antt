-- ===== src/Schemas/Standard.antt =====
-- The classes of src/capabilities/standard.cpp and their headers below include/smartthings4cpp/capabilities/standard.
pub mod AudioMuteToMediaInputSource
pub mod MediaPlaybackToSwitch
pub mod SwitchLevelToWindowShadeLevel
