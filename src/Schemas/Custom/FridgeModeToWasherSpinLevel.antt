-- ===== src/Schemas/Custom/FridgeModeToWasherSpinLevel.antt =====
-- The classes from FridgeMode to WasherSpinLevel of src/capabilities/custom.cpp, with their headers.
use smartthings4cpp.Base.{[], ◌∷◌, str}
use smartthings4cpp.Capability.{Schema, text, number, texts, json}
use smartthings4cpp.Schemas.Parts.{Header, header, declare, field, command, schema}

abbrev pub fridge_mode_header : Header
fridge_mode_header =
    header "custom.fridgeMode"
      (declare "FridgeModeValue" text
        ∷ declare "FridgeModeValue_" text
        ∷ declare "SupportedFridgeOptions" texts
        ∷ declare "SupportedFullFridgeModes" texts
        ∷ declare "SupportedFridgeModes" texts
        ∷ [])
      (command "setFridgeMode" (text ∷ []) ∷ []) (str "setFridgeMode" ∷ [])

abbrev pub fridge_mode : Schema
fridge_mode =
    schema "custom.fridgeMode"
      (field "fridgeModeValue" text
        ∷ field "fridgeMode" text
        ∷ field "supportedFridgeOptions" texts
        ∷ field "supportedFullFridgeModes" texts
        ∷ field "supportedFridgeModes" texts
        ∷ [])
      (command "setFridgeMode" (text ∷ []) ∷ [])

abbrev pub job_beginning_status_header : Header
job_beginning_status_header =
    header "custom.jobBeginningStatus" (declare "JobBeginningStatusValue" text ∷ []) [] []

abbrev pub job_beginning_status : Schema
job_beginning_status = schema "custom.jobBeginningStatus" (field "jobBeginningStatus" text ∷ []) []

abbrev pub launchapp_header : Header
launchapp_header =
    header "custom.launchapp" [] (command "launchApp" (text ∷ text ∷ []) ∷ [])
      (str "launchApp" ∷ [])

abbrev pub launchapp : Schema
launchapp = schema "custom.launchapp" [] (command "launchApp" (text ∷ text ∷ []) ∷ [])

abbrev pub picturemode_header : Header
picturemode_header =
    header "custom.picturemode"
      (declare "PictureModeValue" text
        ∷ declare "SupportedPictureModes" json
        ∷ declare "SupportedPictureModesMap" json
        ∷ [])
      (command "setPictureMode" (text ∷ []) ∷ []) (str "setPictureMode" ∷ [])

abbrev pub picturemode : Schema
picturemode =
    schema "custom.picturemode"
      (field "pictureMode" text
        ∷ field "supportedPictureModes" json
        ∷ field "supportedPictureModesMap" json
        ∷ [])
      (command "setPictureMode" (text ∷ []) ∷ [])

abbrev pub recording_header : Header
recording_header =
    header "custom.recording" [] (command "recordStart" [] ∷ command "recordStop" [] ∷ [])
      (str "recordStart" ∷ str "recordStop" ∷ [])

abbrev pub recording : Schema
recording = schema "custom.recording" [] (command "recordStart" [] ∷ command "recordStop" [] ∷ [])

abbrev pub soundmode_header : Header
soundmode_header =
    header "custom.soundmode"
      (declare "SupportedSoundModesMap" json
        ∷ declare "SoundModeValue" text
        ∷ declare "SupportedSoundModes" texts
        ∷ [])
      (command "setSoundMode" (text ∷ []) ∷ []) (str "setSoundMode" ∷ [])

abbrev pub soundmode : Schema
soundmode =
    schema "custom.soundmode"
      (field "supportedSoundModesMap" json
        ∷ field "soundMode" text
        ∷ field "supportedSoundModes" texts
        ∷ [])
      (command "setSoundMode" (text ∷ []) ∷ [])

abbrev pub supported_options_header : Header
supported_options_header =
    header "custom.supportedOptions"
      (declare "Course" text
        ∷ declare "ReferenceTable" json
        ∷ declare "SupportedCourses" texts
        ∷ [])
      (command "setCourse" (text ∷ []) ∷ []) (str "setCourse" ∷ [])

abbrev pub supported_options : Schema
supported_options =
    schema "custom.supportedOptions"
      (field "course" text ∷ field "referenceTable" json ∷ field "supportedCourses" texts ∷ [])
      (command "setCourse" (text ∷ []) ∷ [])

abbrev pub thermostat_setpoint_control_header : Header
thermostat_setpoint_control_header =
    header "custom.thermostatSetpointControl"
      (declare "MinimumSetpoint" number ∷ declare "MaximumSetpoint" number ∷ [])
      (command "raiseSetpoint" [] ∷ command "lowerSetpoint" [] ∷ [])
      (str "raiseSetpoint" ∷ str "lowerSetpoint" ∷ [])

abbrev pub thermostat_setpoint_control : Schema
thermostat_setpoint_control =
    schema "custom.thermostatSetpointControl"
      (field "minimumSetpoint" number ∷ field "maximumSetpoint" number ∷ [])
      (command "raiseSetpoint" [] ∷ command "lowerSetpoint" [] ∷ [])

abbrev pub tvsearch_header : Header
tvsearch_header =
    header "custom.tvsearch" [] (command "search" (text ∷ text ∷ []) ∷ []) (str "search" ∷ [])

abbrev pub tvsearch : Schema
tvsearch = schema "custom.tvsearch" [] (command "search" (text ∷ text ∷ []) ∷ [])

abbrev pub washer_auto_detergent_header : Header
washer_auto_detergent_header =
    header "custom.washerAutoDetergent" (declare "WasherAutoDetergentValue" text ∷ [])
      (command "setWasherAutoDetergent" (text ∷ []) ∷ []) (str "setWasherAutoDetergent" ∷ [])

abbrev pub washer_auto_detergent : Schema
washer_auto_detergent =
    schema "custom.washerAutoDetergent" (field "washerAutoDetergent" text ∷ [])
      (command "setWasherAutoDetergent" (text ∷ []) ∷ [])

abbrev pub washer_auto_softener_header : Header
washer_auto_softener_header =
    header "custom.washerAutoSoftener" (declare "WasherAutoSoftenerValue" text ∷ [])
      (command "setWasherAutoSoftener" (text ∷ []) ∷ []) (str "setWasherAutoSoftener" ∷ [])

abbrev pub washer_auto_softener : Schema
washer_auto_softener =
    schema "custom.washerAutoSoftener" (field "washerAutoSoftener" text ∷ [])
      (command "setWasherAutoSoftener" (text ∷ []) ∷ [])

abbrev pub washer_rinse_cycles_header : Header
washer_rinse_cycles_header =
    header "custom.washerRinseCycles"
      (declare "SupportedWasherRinseCycles" texts ∷ declare "WasherRinseCyclesValue" text ∷ [])
      (command "setWasherRinseCycles" (text ∷ []) ∷ []) (str "setWasherRinseCycles" ∷ [])

abbrev pub washer_rinse_cycles : Schema
washer_rinse_cycles =
    schema "custom.washerRinseCycles"
      (field "supportedWasherRinseCycles" texts ∷ field "washerRinseCycles" text ∷ [])
      (command "setWasherRinseCycles" (text ∷ []) ∷ [])

abbrev pub washer_soil_level_header : Header
washer_soil_level_header =
    header "custom.washerSoilLevel"
      (declare "SupportedWasherSoilLevel" texts ∷ declare "WasherSoilLevelValue" text ∷ [])
      (command "setWasherSoilLevel" (text ∷ []) ∷ []) (str "setWasherSoilLevel" ∷ [])

abbrev pub washer_soil_level : Schema
washer_soil_level =
    schema "custom.washerSoilLevel"
      (field "supportedWasherSoilLevel" texts ∷ field "washerSoilLevel" text ∷ [])
      (command "setWasherSoilLevel" (text ∷ []) ∷ [])

abbrev pub washer_spin_level_header : Header
washer_spin_level_header =
    header "custom.washerSpinLevel"
      (declare "WasherSpinLevelValue" text ∷ declare "SupportedWasherSpinLevel" texts ∷ [])
      (command "setWasherSpinLevel" (text ∷ []) ∷ []) (str "setWasherSpinLevel" ∷ [])

abbrev pub washer_spin_level : Schema
washer_spin_level =
    schema "custom.washerSpinLevel"
      (field "washerSpinLevel" text ∷ field "supportedWasherSpinLevel" texts ∷ [])
      (command "setWasherSpinLevel" (text ∷ []) ∷ [])
