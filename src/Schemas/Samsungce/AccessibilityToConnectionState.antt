-- ===== src/Schemas/Samsungce/AccessibilityToConnectionState.antt =====
-- The classes from Accessibility to ConnectionState of src/capabilities/samsungce.cpp, with their headers.
use smartthings4cpp.Base.{[], ◌∷◌, str}
use smartthings4cpp.Capability.{Schema, text, whole, texts, json}
use smartthings4cpp.Schemas.Parts.{Header, header, declare, field, command, schema}

abbrev pub samsungce_accessibility_header : Header
samsungce_accessibility_header =
    header "samsungce.accessibility"
      (declare "SupportedColorInversions" texts
        ∷ declare "Magnification" text
        ∷ declare "MagnificationLevel" whole
        ∷ declare "HighContrast" text
        ∷ declare "VoiceGuide" text
        ∷ declare "SupportedVoiceGuides" texts
        ∷ declare "ColorInversion" text
        ∷ declare "Grayscale" text
        ∷ declare "SupportedReluminos" texts
        ∷ declare "SupportedMagnificationLevels" json
        ∷ declare "SupportedMagnifications" texts
        ∷ declare "Relumino" text
        ∷ declare "SupportedOptions" texts
        ∷ declare "SupportedHighContrasts" texts
        ∷ declare "SupportedFontSizes" json
        ∷ declare "FontSize" whole
        ∷ declare "SupportedGrayscales" texts
        ∷ [])
      (command "setVoiceGuide" (text ∷ [])
        ∷ command "setRelumino" (text ∷ [])
        ∷ command "setMagnification" (text ∷ [])
        ∷ command "setHighContrast" (text ∷ [])
        ∷ command "setGrayscale" (text ∷ [])
        ∷ command "setColorInversion" (text ∷ [])
        ∷ command "setMagnificationLevel" (whole ∷ [])
        ∷ command "setFontSize" (whole ∷ [])
        ∷ [])
      (str "setVoiceGuide"
        ∷ str "setRelumino"
        ∷ str "setMagnification"
        ∷ str "setHighContrast"
        ∷ str "setGrayscale"
        ∷ str "setColorInversion"
        ∷ str "setMagnificationLevel"
        ∷ str "setFontSize"
        ∷ [])

abbrev pub samsungce_accessibility : Schema
samsungce_accessibility =
    schema "samsungce.accessibility"
      (field "supportedColorInversions" texts
        ∷ field "magnification" text
        ∷ field "magnificationLevel" whole
        ∷ field "highContrast" text
        ∷ field "voiceGuide" text
        ∷ field "supportedVoiceGuides" texts
        ∷ field "colorInversion" text
        ∷ field "grayscale" text
        ∷ field "supportedReluminos" texts
        ∷ field "supportedMagnificationLevels" json
        ∷ field "supportedMagnifications" texts
        ∷ field "relumino" text
        ∷ field "supportedOptions" texts
        ∷ field "supportedHighContrasts" texts
        ∷ field "supportedFontSizes" json
        ∷ field "fontSize" whole
        ∷ field "supportedGrayscales" texts
        ∷ [])
      (command "setVoiceGuide" (text ∷ [])
        ∷ command "setRelumino" (text ∷ [])
        ∷ command "setMagnification" (text ∷ [])
        ∷ command "setHighContrast" (text ∷ [])
        ∷ command "setGrayscale" (text ∷ [])
        ∷ command "setColorInversion" (text ∷ [])
        ∷ command "setMagnificationLevel" (whole ∷ [])
        ∷ command "setFontSize" (whole ∷ [])
        ∷ [])

abbrev pub audio_volume_level_header : Header
audio_volume_level_header =
    header "samsungce.audioVolumeLevel"
      (declare "VolumeLevel" whole ∷ declare "VolumeLevelRange" json ∷ [])
      (command "volumeDown" [] ∷ command "volumeUp" [] ∷ command "setVolumeLevel" (whole ∷ []) ∷ [])
      (str "volumeDown" ∷ str "volumeUp" ∷ str "setVolumeLevel" ∷ [])

abbrev pub audio_volume_level : Schema
audio_volume_level =
    schema "samsungce.audioVolumeLevel"
      (field "volumeLevel" whole ∷ field "volumeLevelRange" json ∷ [])
      (command "volumeDown" [] ∷ command "volumeUp" [] ∷ command "setVolumeLevel" (whole ∷ []) ∷ [])

abbrev pub auto_dispense_detergent_header : Header
auto_dispense_detergent_header =
    header "samsungce.autoDispenseDetergent"
      (declare "RemainingAmount" text
        ∷ declare "Amount" text
        ∷ declare "SupportedDensity" texts
        ∷ declare "Density" text
        ∷ declare "SupportedAmount" texts
        ∷ declare "AvailableTypes" texts
        ∷ declare "Type" text
        ∷ declare "SupportedTypes" texts
        ∷ declare "RecommendedAmount" whole
        ∷ [])
      (command "unsetRecommendedAmount" []
        ∷ command "setRecommendedAmount" (text ∷ whole ∷ [])
        ∷ command "setType" (text ∷ [])
        ∷ command "setAmount" (text ∷ [])
        ∷ command "setDensity" (text ∷ [])
        ∷ [])
      (str "unsetRecommendedAmount"
        ∷ str "setRecommendedAmount"
        ∷ str "setType"
        ∷ str "setAmount"
        ∷ str "setDensity"
        ∷ [])

abbrev pub auto_dispense_detergent : Schema
auto_dispense_detergent =
    schema "samsungce.autoDispenseDetergent"
      (field "remainingAmount" text
        ∷ field "amount" text
        ∷ field "supportedDensity" texts
        ∷ field "density" text
        ∷ field "supportedAmount" texts
        ∷ field "availableTypes" texts
        ∷ field "type" text
        ∷ field "supportedTypes" texts
        ∷ field "recommendedAmount" whole
        ∷ [])
      (command "unsetRecommendedAmount" []
        ∷ command "setRecommendedAmount" (text ∷ whole ∷ [])
        ∷ command "setType" (text ∷ [])
        ∷ command "setAmount" (text ∷ [])
        ∷ command "setDensity" (text ∷ [])
        ∷ [])

abbrev pub auto_dispense_softener_header : Header
auto_dispense_softener_header =
    header "samsungce.autoDispenseSoftener"
      (declare "RemainingAmount" text
        ∷ declare "Amount" text
        ∷ declare "SupportedDensity" texts
        ∷ declare "Density" text
        ∷ declare "SupportedAmount" texts
        ∷ [])
      (command "setAmount" (text ∷ []) ∷ command "setDensity" (text ∷ []) ∷ [])
      (str "setAmount" ∷ str "setDensity" ∷ [])

abbrev pub auto_dispense_softener : Schema
auto_dispense_softener =
    schema "samsungce.autoDispenseSoftener"
      (field "remainingAmount" text
        ∷ field "amount" text
        ∷ field "supportedDensity" texts
        ∷ field "density" text
        ∷ field "supportedAmount" texts
        ∷ [])
      (command "setAmount" (text ∷ []) ∷ command "setDensity" (text ∷ []) ∷ [])

abbrev pub auto_open_door_header : Header
auto_open_door_header =
    header "samsungce.autoOpenDoor"
      (declare "AutoOpenDoorValue" text
        ∷ declare "SupportedPressureLevels" texts
        ∷ declare "PressureLevel" text
        ∷ [])
      (command "off" [] ∷ command "on" [] ∷ command "setPressureLevel" (text ∷ []) ∷ [])
      (str "off" ∷ str "on" ∷ str "setPressureLevel" ∷ [])

abbrev pub auto_open_door : Schema
auto_open_door =
    schema "samsungce.autoOpenDoor"
      (field "autoOpenDoor" text
        ∷ field "supportedPressureLevels" texts
        ∷ field "pressureLevel" text
        ∷ [])
      (command "off" [] ∷ command "on" [] ∷ command "setPressureLevel" (text ∷ []) ∷ [])

abbrev pub connection_state_header : Header
connection_state_header =
    header "samsungce.connectionState" (declare "ConnectionStateValue" text ∷ []) [] []

abbrev pub connection_state : Schema
connection_state = schema "samsungce.connectionState" (field "connectionState" text ∷ []) []
