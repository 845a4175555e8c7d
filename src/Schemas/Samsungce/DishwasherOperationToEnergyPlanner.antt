-- ===== src/Schemas/Samsungce/DishwasherOperationToEnergyPlanner.antt =====
-- The classes from DishwasherOperation to EnergyPlanner of src/capabilities/samsungce.cpp, with their headers.
use smartthings4cpp.Base.{[], ◌∷◌, str}
use smartthings4cpp.Capability.{Schema, text, whole, number, boolean, texts, json}
use smartthings4cpp.Schemas.Parts.{Header, header, declare, field, command, schema}

abbrev pub dishwasher_operation_header : Header
dishwasher_operation_header =
    header "samsungce.dishwasherOperation"
      (declare "SupportedOperatingState" texts
        ∷ declare "OperatingState" text
        ∷ declare "Reservable" boolean
        ∷ declare "ProgressPercentage" number
        ∷ declare "RemainingTimeStr" text
        ∷ declare "OperationTime" number
        ∷ declare "RemainingTime" number
        ∷ declare "TimeLeftToStart" number
        ∷ [])
      (command "resume" []
        ∷ command "cancel" (boolean ∷ [])
        ∷ command "setOperatingState" (text ∷ [])
        ∷ command "start" (json ∷ [])
        ∷ command "startLater" (number ∷ [])
        ∷ command "pause" []
        ∷ [])
      (str "resume"
        ∷ str "cancel"
        ∷ str "setOperatingState"
        ∷ str "start"
        ∷ str "startLater"
        ∷ str "pause"
        ∷ [])

abbrev pub dishwasher_operation : Schema
dishwasher_operation =
    schema "samsungce.dishwasherOperation"
      (field "supportedOperatingState" texts
        ∷ field "operatingState" text
        ∷ field "reservable" boolean
        ∷ field "progressPercentage" number
        ∷ field "remainingTimeStr" text
        ∷ field "operationTime" number
        ∷ field "remainingTime" number
        ∷ field "timeLeftToStart" number
        ∷ [])
      (command "resume" []
        ∷ command "cancel" (boolean ∷ [])
        ∷ command "setOperatingState" (text ∷ [])
        ∷ command "start" (json ∷ [])
        ∷ command "startLater" (number ∷ [])
        ∷ command "pause" []
        ∷ [])

abbrev pub dishwasher_washing_course_header : Header
dishwasher_washing_course_header =
    header "samsungce.dishwasherWashingCourse"
      (declare "CustomCourseCandidates" texts
        ∷ declare "WashingCourse" text
        ∷ declare "SupportedCourses" texts
        ∷ [])
      (command "setWashingCourse" (text ∷ [])
        ∷ command "setCustomCourse" (text ∷ [])
        ∷ command "startWashingCourse" (text ∷ [])
        ∷ command "startWashingCourseWithOptions" (text ∷ json ∷ [])
        ∷ [])
      (str "setWashingCourse"
        ∷ str "setCustomCourse"
        ∷ str "startWashingCourse"
        ∷ str "startWashingCourseWithOptions"
        ∷ [])

abbrev pub dishwasher_washing_course : Schema
dishwasher_washing_course =
    schema "samsungce.dishwasherWashingCourse"
      (field "customCourseCandidates" texts
        ∷ field "washingCourse" text
        ∷ field "supportedCourses" texts
        ∷ [])
      (command "setWashingCourse" (text ∷ [])
        ∷ command "setCustomCourse" (text ∷ [])
        ∷ command "startWashingCourse" (text ∷ [])
        ∷ command "startWashingCourseWithOptions" (text ∷ json ∷ [])
        ∷ [])

abbrev pub dishwasher_washing_course_details_header : Header
dishwasher_washing_course_details_header =
    header "samsungce.dishwasherWashingCourseDetails"
      (declare "PredefinedCourses" json
        ∷ declare "WaterUsageMax" whole
        ∷ declare "EnergyUsageMax" whole
        ∷ [])
      [] []

abbrev pub dishwasher_washing_course_details : Schema
dishwasher_washing_course_details =
    schema "samsungce.dishwasherWashingCourseDetails"
      (field "predefinedCourses" json
        ∷ field "waterUsageMax" whole
        ∷ field "energyUsageMax" whole
        ∷ [])
      []

abbrev pub dishwasher_washing_options_header : Header
dishwasher_washing_options_header =
    header "samsungce.dishwasherWashingOptions"
      (declare "DryPlus" json
        ∷ declare "StormWash" json
        ∷ declare "MultiTab" json
        ∷ declare "HotAirDry" json
        ∷ declare "SelectedZone" json
        ∷ declare "SpeedBooster" json
        ∷ declare "HighTempWash" json
        ∷ declare "SanitizingWash" json
        ∷ declare "HeatedDry" json
        ∷ declare "ZoneBooster" json
        ∷ declare "AddRinse" json
        ∷ declare "SupportedList" texts
        ∷ declare "RinsePlus" json
        ∷ declare "Sanitize" json
        ∷ declare "SteamSoak" json
        ∷ [])
      (command "setSelectedZone" (text ∷ [])
        ∷ command "setSanitize" (boolean ∷ [])
        ∷ command "setZoneBooster" (text ∷ [])
        ∷ command "setDryPlus" (boolean ∷ [])
        ∷ command "setAddRinse" (boolean ∷ [])
        ∷ command "setHotAirDry" (boolean ∷ [])
        ∷ command "setStormWash" (boolean ∷ [])
        ∷ command "setHeatedDry" (text ∷ [])
        ∷ command "setHighTempWash" (boolean ∷ [])
        ∷ command "setSanitizingWash" (boolean ∷ [])
        ∷ command "setMultiTab" (boolean ∷ [])
        ∷ command "setSpeedBooster" (boolean ∷ [])
        ∷ command "setRinsePlus" (boolean ∷ [])
        ∷ command "setOptions" (json ∷ [])
        ∷ command "setSteamSoak" (boolean ∷ [])
        ∷ [])
      (str "setSelectedZone"
        ∷ str "setSanitize"
        ∷ str "setZoneBooster"
        ∷ str "setDryPlus"
        ∷ str "setAddRinse"
        ∷ str "setHotAirDry"
        ∷ str "setStormWash"
        ∷ str "setHeatedDry"
        ∷ str "setHighTempWash"
        ∷ str "setSanitizingWash"
        ∷ str "setMultiTab"
        ∷ str "setSpeedBooster"
        ∷ str "setRinsePlus"
        ∷ str "setOptions"
        ∷ str "setSteamSoak"
        ∷ [])

abbrev pub dishwasher_washing_options : Schema
dishwasher_washing_options =
    schema "samsungce.dishwasherWashingOptions"
      (field "dryPlus" json
        ∷ field "stormWash" json
        ∷ field "multiTab" json
        ∷ field "hotAirDry" json
        ∷ field "selectedZone" json
        ∷ field "speedBooster" json
        ∷ field "highTempWash" json
        ∷ field "sanitizingWash" json
        ∷ field "heatedDry" json
        ∷ field "zoneBooster" json
        ∷ field "addRinse" json
        ∷ field "supportedList" texts
        ∷ field "rinsePlus" json
        ∷ field "sanitize" json
        ∷ field "steamSoak" json
        ∷ [])
      (command "setSelectedZone" (text ∷ [])
        ∷ command "setSanitize" (boolean ∷ [])
        ∷ command "setZoneBooster" (text ∷ [])
        ∷ command "setDryPlus" (boolean ∷ [])
        ∷ command "setAddRinse" (boolean ∷ [])
        ∷ command "setHotAirDry" (boolean ∷ [])
        ∷ command "setStormWash" (boolean ∷ [])
        ∷ command "setHeatedDry" (text ∷ [])
        ∷ command "setHighTempWash" (boolean ∷ [])
        ∷ command "setSanitizingWash" (boolean ∷ [])
        ∷ command "setMultiTab" (boolean ∷ [])
        ∷ command "setSpeedBooster" (boolean ∷ [])
        ∷ command "setRinsePlus" (boolean ∷ [])
        ∷ command "setOptions" (json ∷ [])
        ∷ command "setSteamSoak" (boolean ∷ [])
        ∷ [])

abbrev pub dongle_software_installation_header : Header
dongle_software_installation_header =
    header "samsungce.dongleSoftwareInstallation" (declare "Status" text ∷ []) [] []

abbrev pub dongle_software_installation : Schema
dongle_software_installation =
    schema "samsungce.dongleSoftwareInstallation" (field "status" text ∷ []) []

abbrev pub driver_state_header : Header
driver_state_header = header "samsungce.driverState" (declare "DriverStateValue" json ∷ []) [] []

abbrev pub driver_state : Schema
driver_state = schema "samsungce.driverState" (field "driverState" json ∷ []) []

abbrev pub driver_version_header : Header
driver_version_header = header "samsungce.driverVersion" (declare "VersionNumber" number ∷ []) [] []

abbrev pub driver_version : Schema
driver_version = schema "samsungce.driverVersion" (field "versionNumber" number ∷ []) []

abbrev pub energy_planner_header : Header
energy_planner_header =
    header "samsungce.energyPlanner" (declare "Data" json ∷ declare "Plan" text ∷ [])
      (command "setPlan" (text ∷ []) ∷ command "setData" (json ∷ []) ∷ [])
      (str "setPlan" ∷ str "setData" ∷ [])

abbrev pub energy_planner : Schema
energy_planner =
    schema "samsungce.energyPlanner" (field "data" json ∷ field "plan" text ∷ [])
      (command "setPlan" (text ∷ []) ∷ command "setData" (json ∷ []) ∷ [])
