-- ===== src/Schemas/Samsungce/SoftenerAutoReplenishmentToWasherBubbleSoak.antt =====
-- The classes from SoftenerAutoReplenishment to WasherBubbleSoak of src/capabilities/samsungce.cpp, with their headers.
use smartthings4cpp.Base.{[], ◌∷◌, str}
use smartthings4cpp.Capability.{Schema, text, whole, number, boolean, texts, json}
use smartthings4cpp.Schemas.Parts.{Header, header, declare, field, command, schema}

abbrev pub softener_auto_replenishment_header : Header
softener_auto_replenishment_header =
    header "samsungce.softenerAutoReplenishment"
      (declare "RegularSoftenerType" text
        ∷ declare "RegularSoftenerAlarmEnabled" boolean
        ∷ declare "RegularSoftenerInitialAmount" number
        ∷ declare "RegularSoftenerRemainingAmount" number
        ∷ declare "RegularSoftenerDosage" number
        ∷ declare "RegularSoftenerOrderThreshold" number
        ∷ [])
      (command "enableAlarm" (text ∷ [])
        ∷ command "setOrderThreshold" (text ∷ number ∷ [])
        ∷ command "disableAlarm" (text ∷ [])
        ∷ command "setAutoReplenishment" (json ∷ [])
        ∷ command "setInitialAmount" (text ∷ number ∷ [])
        ∷ command "setRemainingAmount" (text ∷ number ∷ [])
        ∷ command "setDosage" (text ∷ number ∷ [])
        ∷ command "setType" (text ∷ text ∷ [])
        ∷ [])
      (str "enableAlarm"
        ∷ str "setOrderThreshold"
        ∷ str "disableAlarm"
        ∷ str "setAutoReplenishment"
        ∷ str "setInitialAmount"
        ∷ str "setRemainingAmount"
        ∷ str "setDosage"
        ∷ str "setType"
        ∷ [])

abbrev pub softener_auto_replenishment : Schema
softener_auto_replenishment =
    schema "samsungce.softenerAutoReplenishment"
      (field "regularSoftenerType" text
        ∷ field "regularSoftenerAlarmEnabled" boolean
        ∷ field "regularSoftenerInitialAmount" number
        ∷ field "regularSoftenerRemainingAmount" number
        ∷ field "regularSoftenerDosage" number
        ∷ field "regularSoftenerOrderThreshold" number
        ∷ [])
      (command "enableAlarm" (text ∷ [])
        ∷ command "setOrderThreshold" (text ∷ number ∷ [])
        ∷ command "disableAlarm" (text ∷ [])
        ∷ command "setAutoReplenishment" (json ∷ [])
        ∷ command "setInitialAmount" (text ∷ number ∷ [])
        ∷ command "setRemainingAmount" (text ∷ number ∷ [])
        ∷ command "setDosage" (text ∷ number ∷ [])
        ∷ command "setType" (text ∷ text ∷ [])
        ∷ [])

abbrev pub softener_order_header : Header
softener_order_header =
    header "samsungce.softenerOrder"
      (declare "AlarmEnabled" boolean ∷ declare "OrderThreshold" number ∷ [])
      (command "enableAlarm" []
        ∷ command "setOrderThreshold" (number ∷ [])
        ∷ command "disableAlarm" []
        ∷ [])
      (str "enableAlarm" ∷ str "setOrderThreshold" ∷ str "disableAlarm" ∷ [])

abbrev pub softener_order : Schema
softener_order =
    schema "samsungce.softenerOrder"
      (field "alarmEnabled" boolean ∷ field "orderThreshold" number ∷ [])
      (command "enableAlarm" []
        ∷ command "setOrderThreshold" (number ∷ [])
        ∷ command "disableAlarm" []
        ∷ [])

abbrev pub softener_state_header : Header
softener_state_header =
    header "samsungce.softenerState"
      (declare "RemainingAmount" number
        ∷ declare "Dosage" number
        ∷ declare "SoftenerType" text
        ∷ declare "InitialAmount" number
        ∷ [])
      (command "setInitialAmount" (number ∷ [])
        ∷ command "setRemainingAmount" (number ∷ [])
        ∷ command "setDosage" (number ∷ [])
        ∷ command "setSoftenerType" (text ∷ [])
        ∷ [])
      (str "setInitialAmount"
        ∷ str "setRemainingAmount"
        ∷ str "setDosage"
        ∷ str "setSoftenerType"
        ∷ [])

abbrev pub softener_state : Schema
softener_state =
    schema "samsungce.softenerState"
      (field "remainingAmount" number
        ∷ field "dosage" number
        ∷ field "softenerType" text
        ∷ field "initialAmount" number
        ∷ [])
      (command "setInitialAmount" (number ∷ [])
        ∷ command "setRemainingAmount" (number ∷ [])
        ∷ command "setDosage" (number ∷ [])
        ∷ command "setSoftenerType" (text ∷ [])
        ∷ [])

abbrev pub software_update_header : Header
software_update_header =
    header "samsungce.softwareUpdate"
      (declare "TargetModule" json
        ∷ declare "OtnDUID" text
        ∷ declare "Schedule" json
        ∷ declare "AvailableModuleDetails" json
        ∷ declare "LastUpdatedDate" text
        ∷ declare "AvailableModules" texts
        ∷ declare "NewVersionAvailable" boolean
        ∷ declare "OperatingState" text
        ∷ declare "Progress" whole
        ∷ declare "ProtocolVersion" text
        ∷ declare "ModuleUpdateCounts" json
        ∷ [])
      (command "setSchedule" (json ∷ [])
        ∷ command "agreeUpdate" (text ∷ [])
        ∷ command "disagreeUpdate" (text ∷ [])
        ∷ command "cancelSchedule" []
        ∷ [])
      (str "setSchedule" ∷ str "agreeUpdate" ∷ str "disagreeUpdate" ∷ str "cancelSchedule" ∷ [])

abbrev pub software_update : Schema
software_update =
    schema "samsungce.softwareUpdate"
      (field "targetModule" json
        ∷ field "otnDUID" text
        ∷ field "schedule" json
        ∷ field "availableModuleDetails" json
        ∷ field "lastUpdatedDate" text
        ∷ field "availableModules" texts
        ∷ field "newVersionAvailable" boolean
        ∷ field "operatingState" text
        ∷ field "progress" whole
        ∷ field "protocolVersion" text
        ∷ field "moduleUpdateCounts" json
        ∷ [])
      (command "setSchedule" (json ∷ [])
        ∷ command "agreeUpdate" (text ∷ [])
        ∷ command "disagreeUpdate" (text ∷ [])
        ∷ command "cancelSchedule" []
        ∷ [])

abbrev pub software_version_header : Header
software_version_header =
    header "samsungce.softwareVersion"
      (declare "Versions" json ∷ declare "PlatformVersion" json ∷ []) [] []

abbrev pub software_version : Schema
software_version =
    schema "samsungce.softwareVersion" (field "versions" json ∷ field "platformVersion" json ∷ [])
      []

abbrev pub temperature_setting_header : Header
temperature_setting_header =
    header "samsungce.temperatureSetting"
      (declare "SupportedDesiredTemperatures" json ∷ declare "DesiredTemperature" number ∷ [])
      (command "setDesiredTemperature" (number ∷ []) ∷ []) (str "setDesiredTemperature" ∷ [])

abbrev pub temperature_setting : Schema
temperature_setting =
    schema "samsungce.temperatureSetting"
      (field "supportedDesiredTemperatures" json ∷ field "desiredTemperature" number ∷ [])
      (command "setDesiredTemperature" (number ∷ []) ∷ [])

abbrev pub unavailable_capabilities_header : Header
unavailable_capabilities_header =
    header "samsungce.unavailableCapabilities" (declare "UnavailableCommands" texts ∷ []) [] []

abbrev pub unavailable_capabilities : Schema
unavailable_capabilities =
    schema "samsungce.unavailableCapabilities" (field "unavailableCommands" texts ∷ []) []

abbrev pub view_inside_header : Header
view_inside_header =
    header "samsungce.viewInside"
      (declare "SupportedFocusAreas" texts
        ∷ declare "Contents" json
        ∷ declare "LastUpdatedTime" text
        ∷ [])
      (command "refreshSpecificArea" (text ∷ [])
        ∷ command "refreshAll" []
        ∷ command "refresh" (text ∷ [])
        ∷ [])
      (str "refreshSpecificArea" ∷ str "refreshAll" ∷ str "refresh" ∷ [])

abbrev pub view_inside : Schema
view_inside =
    schema "samsungce.viewInside"
      (field "supportedFocusAreas" texts
        ∷ field "contents" json
        ∷ field "lastUpdatedTime" text
        ∷ [])
      (command "refreshSpecificArea" (text ∷ [])
        ∷ command "refreshAll" []
        ∷ command "refresh" (text ∷ [])
        ∷ [])

abbrev pub washer_bubble_soak_header : Header
washer_bubble_soak_header =
    header "samsungce.washerBubbleSoak" (declare "Status" text ∷ [])
      (command "off" [] ∷ command "on" [] ∷ []) (str "off" ∷ str "on" ∷ [])

abbrev pub washer_bubble_soak : Schema
washer_bubble_soak =
    schema "samsungce.washerBubbleSoak" (field "status" text ∷ [])
      (command "off" [] ∷ command "on" [] ∷ [])
