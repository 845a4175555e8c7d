-- ===== src/Schemas/Samsungce/FoodDefrostToSelfCheck.antt =====
-- The classes from FoodDefrost to SelfCheck of src/capabilities/samsungce.cpp, with their headers.
use smartthings4cpp.Base.{[], ◌∷◌, str}
use smartthings4cpp.Capability.{Schema, text, whole, boolean, texts, json}
use smartthings4cpp.Schemas.Parts.{Header, header, declare, field, command, schema}

abbrev pub food_defrost_header : Header
food_defrost_header =
    header "samsungce.foodDefrost"
      (declare "SupportedOptions" json
        ∷ declare "FoodType" text
        ∷ declare "Weight" json
        ∷ declare "OperationTime" whole
        ∷ declare "RemainingTime" whole
        ∷ [])
      (command "setDefrost" (text ∷ json ∷ []) ∷ []) (str "setDefrost" ∷ [])

abbrev pub food_defrost : Schema
food_defrost =
    schema "samsungce.foodDefrost"
      (field "supportedOptions" json
        ∷ field "foodType" text
        ∷ field "weight" json
        ∷ field "operationTime" whole
        ∷ field "remainingTime" whole
        ∷ [])
      (command "setDefrost" (text ∷ json ∷ []) ∷ [])

abbrev pub freezer_convert_mode_header : Header
freezer_convert_mode_header =
    header "samsungce.freezerConvertMode"
      (declare "SupportedFreezerConvertModes" texts ∷ declare "FreezerConvertModeValue" text ∷ [])
      (command "setFreezerConvertMode" (text ∷ []) ∷ []) (str "setFreezerConvertMode" ∷ [])

abbrev pub freezer_convert_mode : Schema
freezer_convert_mode =
    schema "samsungce.freezerConvertMode"
      (field "supportedFreezerConvertModes" texts ∷ field "freezerConvertMode" text ∷ [])
      (command "setFreezerConvertMode" (text ∷ []) ∷ [])

abbrev pub fridge_icemaker_info_header : Header
fridge_icemaker_info_header = header "samsungce.fridgeIcemakerInfo" (declare "Name" text ∷ []) [] []

abbrev pub fridge_icemaker_info : Schema
fridge_icemaker_info = schema "samsungce.fridgeIcemakerInfo" (field "name" text ∷ []) []

abbrev pub fridge_pantry_info_header : Header
fridge_pantry_info_header = header "samsungce.fridgePantryInfo" (declare "Name" text ∷ []) [] []

abbrev pub fridge_pantry_info : Schema
fridge_pantry_info = schema "samsungce.fridgePantryInfo" (field "name" text ∷ []) []

abbrev pub fridge_pantry_mode_header : Header
fridge_pantry_mode_header =
    header "samsungce.fridgePantryMode" (declare "Mode" text ∷ declare "SupportedModes" texts ∷ [])
      (command "setMode" (text ∷ []) ∷ []) (str "setMode" ∷ [])

abbrev pub fridge_pantry_mode : Schema
fridge_pantry_mode =
    schema "samsungce.fridgePantryMode" (field "mode" text ∷ field "supportedModes" texts ∷ [])
      (command "setMode" (text ∷ []) ∷ [])

abbrev pub fridge_vacation_mode_header : Header
fridge_vacation_mode_header =
    header "samsungce.fridgeVacationMode" (declare "VacationMode" text ∷ []) [] []

abbrev pub fridge_vacation_mode : Schema
fridge_vacation_mode = schema "samsungce.fridgeVacationMode" (field "vacationMode" text ∷ []) []

abbrev pub fridge_welcome_lighting_header : Header
fridge_welcome_lighting_header =
    header "samsungce.fridgeWelcomeLighting"
      (declare "DetectionProximity" text
        ∷ declare "SupportedDetectionProximities" texts
        ∷ declare "Status" text
        ∷ [])
      (command "setDetectionProximity" (text ∷ []) ∷ command "off" [] ∷ command "on" [] ∷ [])
      (str "setDetectionProximity" ∷ str "off" ∷ str "on" ∷ [])

abbrev pub fridge_welcome_lighting : Schema
fridge_welcome_lighting =
    schema "samsungce.fridgeWelcomeLighting"
      (field "detectionProximity" text
        ∷ field "supportedDetectionProximities" texts
        ∷ field "status" text
        ∷ [])
      (command "setDetectionProximity" (text ∷ []) ∷ command "off" [] ∷ command "on" [] ∷ [])

abbrev pub fridge_zone_info_header : Header
fridge_zone_info_header = header "samsungce.fridgeZoneInfo" (declare "Name" text ∷ []) [] []

abbrev pub fridge_zone_info : Schema
fridge_zone_info = schema "samsungce.fridgeZoneInfo" (field "name" text ∷ []) []

abbrev pub kids_lock_header : Header
kids_lock_header = header "samsungce.kidsLock" (declare "LockState" text ∷ []) [] []

abbrev pub kids_lock : Schema
kids_lock = schema "samsungce.kidsLock" (field "lockState" text ∷ []) []

abbrev pub meat_aging_header : Header
meat_aging_header =
    header "samsungce.meatAging"
      (declare "ZoneInfo" json
        ∷ declare "SupportedMeatTypes" texts
        ∷ declare "SupportedAgingMethods" texts
        ∷ declare "Status" json
        ∷ [])
      (command "addAging" (json ∷ [])
        ∷ command "cancelAging" (whole ∷ [])
        ∷ command "updateAging" (whole ∷ json ∷ [])
        ∷ [])
      (str "addAging" ∷ str "cancelAging" ∷ str "updateAging" ∷ [])

abbrev pub meat_aging : Schema
meat_aging =
    schema "samsungce.meatAging"
      (field "zoneInfo" json
        ∷ field "supportedMeatTypes" texts
        ∷ field "supportedAgingMethods" texts
        ∷ field "status" json
        ∷ [])
      (command "addAging" (json ∷ [])
        ∷ command "cancelAging" (whole ∷ [])
        ∷ command "updateAging" (whole ∷ json ∷ [])
        ∷ [])

abbrev pub operation_origin_header : Header
operation_origin_header =
    header "samsungce.operationOrigin" [] (command "setOperationOrigin" (text ∷ json ∷ []) ∷ [])
      (str "setOperationOrigin" ∷ [])

abbrev pub operation_origin : Schema
operation_origin =
    schema "samsungce.operationOrigin" [] (command "setOperationOrigin" (text ∷ json ∷ []) ∷ [])

abbrev pub power_cool_header : Header
power_cool_header =
    header "samsungce.powerCool" (declare "Activated" boolean ∷ [])
      (command "activate" [] ∷ command "deactivate" [] ∷ [])
      (str "activate" ∷ str "deactivate" ∷ [])

abbrev pub power_cool : Schema
power_cool =
    schema "samsungce.powerCool" (field "activated" boolean ∷ [])
      (command "activate" [] ∷ command "deactivate" [] ∷ [])

abbrev pub power_freeze_header : Header
power_freeze_header =
    header "samsungce.powerFreeze" (declare "Activated" boolean ∷ [])
      (command "activate" [] ∷ command "deactivate" [] ∷ [])
      (str "activate" ∷ str "deactivate" ∷ [])

abbrev pub power_freeze : Schema
power_freeze =
    schema "samsungce.powerFreeze" (field "activated" boolean ∷ [])
      (command "activate" [] ∷ command "deactivate" [] ∷ [])

abbrev pub quick_control_header : Header
quick_control_header = header "samsungce.quickControl" (declare "VersionAttr" text ∷ []) [] []

abbrev pub quick_control : Schema
quick_control = schema "samsungce.quickControl" (field "version" text ∷ []) []

abbrev pub sabbath_mode_header : Header
sabbath_mode_header =
    header "samsungce.sabbathMode" (declare "SupportedActions" texts ∷ declare "Status" text ∷ [])
      (command "off" [] ∷ command "on" [] ∷ []) (str "off" ∷ str "on" ∷ [])

abbrev pub sabbath_mode : Schema
sabbath_mode =
    schema "samsungce.sabbathMode" (field "supportedActions" texts ∷ field "status" text ∷ [])
      (command "off" [] ∷ command "on" [] ∷ [])

abbrev pub self_check_header : Header
self_check_header =
    header "samsungce.selfCheck"
      (declare "ResultAttr" text
        ∷ declare "SupportedActions" texts
        ∷ declare "Progress" whole
        ∷ declare "Errors" json
        ∷ declare "Status" text
        ∷ [])
      (command "cancelSelfCheck" [] ∷ command "startSelfCheck" [] ∷ [])
      (str "cancelSelfCheck" ∷ str "startSelfCheck" ∷ [])

abbrev pub self_check : Schema
self_check =
    schema "samsungce.selfCheck"
      (field "result" text
        ∷ field "supportedActions" texts
        ∷ field "progress" whole
        ∷ field "errors" json
        ∷ field "status" text
        ∷ [])
      (command "cancelSelfCheck" [] ∷ command "startSelfCheck" [] ∷ [])
