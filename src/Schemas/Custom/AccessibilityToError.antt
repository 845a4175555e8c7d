-- ===== src/Schemas/Custom/AccessibilityToError.antt =====
-- The classes from Accessibility to Error of src/capabilities/custom.cpp, with their headers.
use smartthings4cpp.Base.{[], ◌∷◌, str}
use smartthings4cpp.Capability.{Schema, text, whole, boolean, texts, json}
use smartthings4cpp.Schemas.Parts.{Header, header, declare, field, command, schema}

abbrev pub custom_accessibility_header : Header
custom_accessibility_header =
    header "custom.accessibility" [] (command "setAccessibility" (text ∷ text ∷ text ∷ []) ∷ [])
      (str "setAccessibility" ∷ [])

abbrev pub custom_accessibility : Schema
custom_accessibility =
    schema "custom.accessibility" [] (command "setAccessibility" (text ∷ text ∷ text ∷ []) ∷ [])

abbrev pub deodor_filter_header : Header
deodor_filter_header =
    header "custom.deodorFilter"
      (declare "DeodorFilterCapacity" whole
        ∷ declare "DeodorFilterLastResetDate" text
        ∷ declare "DeodorFilterStatus" text
        ∷ declare "DeodorFilterResetType" texts
        ∷ declare "DeodorFilterUsage" whole
        ∷ declare "DeodorFilterUsageStep" whole
        ∷ [])
      (command "resetDeodorFilter" [] ∷ []) (str "resetDeodorFilter" ∷ [])

abbrev pub deodor_filter : Schema
deodor_filter =
    schema "custom.deodorFilter"
      (field "deodorFilterCapacity" whole
        ∷ field "deodorFilterLastResetDate" text
        ∷ field "deodorFilterStatus" text
        ∷ field "deodorFilterResetType" texts
        ∷ field "deodorFilterUsage" whole
        ∷ field "deodorFilterUsageStep" whole
        ∷ [])
      (command "resetDeodorFilter" [] ∷ [])

abbrev pub device_report_state_configuration_header : Header
device_report_state_configuration_header =
    header "custom.deviceReportStateConfiguration"
      (declare "ReportStateRealtimePeriod" text
        ∷ declare "ReportStateRealtime" json
        ∷ declare "ReportStatePeriod" text
        ∷ [])
      (command "setReportStatePeriod" (text ∷ [])
        ∷ command "setReportStateRealtime" (json ∷ [])
        ∷ command "setReportStateRealtimePeriod" (text ∷ [])
        ∷ [])
      (str "setReportStatePeriod"
        ∷ str "setReportStateRealtime"
        ∷ str "setReportStateRealtimePeriod"
        ∷ [])

abbrev pub device_report_state_configuration : Schema
device_report_state_configuration =
    schema "custom.deviceReportStateConfiguration"
      (field "reportStateRealtimePeriod" text
        ∷ field "reportStateRealtime" json
        ∷ field "reportStatePeriod" text
        ∷ [])
      (command "setReportStatePeriod" (text ∷ [])
        ∷ command "setReportStateRealtime" (json ∷ [])
        ∷ command "setReportStateRealtimePeriod" (text ∷ [])
        ∷ [])

abbrev pub disabled_capabilities_header : Header
disabled_capabilities_header =
    header "custom.disabledCapabilities" (declare "DisabledCapabilitiesValue" texts ∷ []) [] []

abbrev pub disabled_capabilities : Schema
disabled_capabilities =
    schema "custom.disabledCapabilities" (field "disabledCapabilities" texts ∷ []) []

abbrev pub disabled_components_header : Header
disabled_components_header =
    header "custom.disabledComponents" (declare "DisabledComponentsValue" texts ∷ []) [] []

abbrev pub disabled_components : Schema
disabled_components = schema "custom.disabledComponents" (field "disabledComponents" texts ∷ []) []

abbrev pub dishwasher_delay_start_time_header : Header
dishwasher_delay_start_time_header =
    header "custom.dishwasherDelayStartTime" (declare "DishwasherDelayStartTimeValue" text ∷ [])
      (command "setDishwasherDelayStartTime" (text ∷ []) ∷ [])
      (str "setDishwasherDelayStartTime" ∷ [])

abbrev pub dishwasher_delay_start_time : Schema
dishwasher_delay_start_time =
    schema "custom.dishwasherDelayStartTime" (field "dishwasherDelayStartTime" text ∷ [])
      (command "setDishwasherDelayStartTime" (text ∷ []) ∷ [])

abbrev pub dishwasher_operating_percentage_header : Header
dishwasher_operating_percentage_header =
    header "custom.dishwasherOperatingPercentage"
      (declare "DishwasherOperatingPercentageValue" whole ∷ []) [] []

abbrev pub dishwasher_operating_percentage : Schema
dishwasher_operating_percentage =
    schema "custom.dishwasherOperatingPercentage" (field "dishwasherOperatingPercentage" whole ∷ [])
      []

abbrev pub dishwasher_operating_progress_header : Header
dishwasher_operating_progress_header =
    header "custom.dishwasherOperatingProgress"
      (declare "DishwasherOperatingProgressValue" text ∷ []) [] []

abbrev pub dishwasher_operating_progress : Schema
dishwasher_operating_progress =
    schema "custom.dishwasherOperatingProgress" (field "dishwasherOperatingProgress" text ∷ []) []

abbrev pub dryer_dry_level_header : Header
dryer_dry_level_header =
    header "custom.dryerDryLevel"
      (declare "DryerDryLevelValue" text ∷ declare "SupportedDryerDryLevel" texts ∷ [])
      (command "setDryerDryLevel" (text ∷ []) ∷ []) (str "setDryerDryLevel" ∷ [])

abbrev pub dryer_dry_level : Schema
dryer_dry_level =
    schema "custom.dryerDryLevel"
      (field "dryerDryLevel" text ∷ field "supportedDryerDryLevel" texts ∷ [])
      (command "setDryerDryLevel" (text ∷ []) ∷ [])

abbrev pub dust_filter_header : Header
dust_filter_header =
    header "custom.dustFilter"
      (declare "DustFilterUsageStep" whole
        ∷ declare "DustFilterUsage" whole
        ∷ declare "DustFilterLastResetDate" text
        ∷ declare "DustFilterStatus" text
        ∷ declare "DustFilterCapacity" whole
        ∷ declare "DustFilterResetType" texts
        ∷ [])
      (command "resetDustFilter" [] ∷ []) (str "resetDustFilter" ∷ [])

abbrev pub dust_filter : Schema
dust_filter =
    schema "custom.dustFilter"
      (field "dustFilterUsageStep" whole
        ∷ field "dustFilterUsage" whole
        ∷ field "dustFilterLastResetDate" text
        ∷ field "dustFilterStatus" text
        ∷ field "dustFilterCapacity" whole
        ∷ field "dustFilterResetType" texts
        ∷ [])
      (command "resetDustFilter" [] ∷ [])

abbrev pub energy_type_header : Header
energy_type_header =
    header "custom.energyType"
      (declare "EnergyTypeValue" text
        ∷ declare "EnergySavingSupport" boolean
        ∷ declare "DrMaxDuration" whole
        ∷ declare "EnergySavingLevel" whole
        ∷ declare "EnergySavingInfo" json
        ∷ declare "SupportedEnergySavingLevels" json
        ∷ declare "EnergySavingOperation" boolean
        ∷ declare "NotificationTemplateID" text
        ∷ declare "EnergySavingOperationSupport" boolean
        ∷ [])
      (command "setEnergySavingLevel" (whole ∷ []) ∷ []) (str "setEnergySavingLevel" ∷ [])

abbrev pub energy_type : Schema
energy_type =
    schema "custom.energyType"
      (field "energyType" text
        ∷ field "energySavingSupport" boolean
        ∷ field "drMaxDuration" whole
        ∷ field "energySavingLevel" whole
        ∷ field "energySavingInfo" json
        ∷ field "supportedEnergySavingLevels" json
        ∷ field "energySavingOperation" boolean
        ∷ field "notificationTemplateID" text
        ∷ field "energySavingOperationSupport" boolean
        ∷ [])
      (command "setEnergySavingLevel" (whole ∷ []) ∷ [])

abbrev pub error_header : Header
error_header =
    header "custom.error" (declare "ErrorValue" json ∷ []) (command "setError" (json ∷ []) ∷ [])
      (str "setError" ∷ [])

abbrev pub error : Schema
error = schema "custom.error" (field "error" json ∷ []) (command "setError" (json ∷ []) ∷ [])
