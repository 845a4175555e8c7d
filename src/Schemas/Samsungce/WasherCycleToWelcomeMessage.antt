-- ===== src/Schemas/Samsungce/WasherCycleToWelcomeMessage.antt =====
-- The classes from WasherCycle to WelcomeMessage of src/capabilities/samsungce.cpp, with their headers.
use smartthings4cpp.Base.{[], ◌∷◌, str}
use smartthings4cpp.Capability.{Schema, text, whole, number, texts, json}
use smartthings4cpp.Schemas.Parts.{Header, header, declare, field, command, schema}

abbrev pub washer_cycle_header : Header
washer_cycle_header =
    header "samsungce.washerCycle"
      (declare "CycleType" text
        ∷ declare "SupportedCycles" json
        ∷ declare "AvailableCycleTypes" texts
        ∷ declare "WasherCycleValue" text
        ∷ declare "ReferenceTable" json
        ∷ declare "SpecializedFunctionClassification" whole
        ∷ [])
      (command "setWasherCycle" (text ∷ []) ∷ command "setCycleType" (text ∷ text ∷ []) ∷ [])
      (str "setWasherCycle" ∷ str "setCycleType" ∷ [])

abbrev pub washer_cycle : Schema
washer_cycle =
    schema "samsungce.washerCycle"
      (field "cycleType" text
        ∷ field "supportedCycles" json
        ∷ field "availableCycleTypes" texts
        ∷ field "washerCycle" text
        ∷ field "referenceTable" json
        ∷ field "specializedFunctionClassification" whole
        ∷ [])
      (command "setWasherCycle" (text ∷ []) ∷ command "setCycleType" (text ∷ text ∷ []) ∷ [])

abbrev pub washer_cycle_preset_header : Header
washer_cycle_preset_header =
    header "samsungce.washerCyclePreset"
      (declare "MaxNumberOfPresets" number ∷ declare "Presets" json ∷ [])
      (command "setWasherCyclePreset" (json ∷ []) ∷ command "delete_" (json ∷ []) ∷ [])
      (str "setWasherCyclePreset" ∷ str "delete" ∷ [])

abbrev pub washer_cycle_preset : Schema
washer_cycle_preset =
    schema "samsungce.washerCyclePreset"
      (field "maxNumberOfPresets" number ∷ field "presets" json ∷ [])
      (command "setWasherCyclePreset" (json ∷ []) ∷ command "delete" (json ∷ []) ∷ [])

abbrev pub washer_delay_end_header : Header
washer_delay_end_header =
    header "samsungce.washerDelayEnd"
      (declare "RemainingTime" whole ∷ declare "MinimumReservableTime" whole ∷ [])
      (command "refreshMinimumReservableTime" [] ∷ command "setDelayTime" (whole ∷ []) ∷ [])
      (str "refreshMinimumReservableTime" ∷ str "setDelayTime" ∷ [])

abbrev pub washer_delay_end : Schema
washer_delay_end =
    schema "samsungce.washerDelayEnd"
      (field "remainingTime" whole ∷ field "minimumReservableTime" whole ∷ [])
      (command "refreshMinimumReservableTime" [] ∷ command "setDelayTime" (whole ∷ []) ∷ [])

abbrev pub washer_freeze_prevent_header : Header
washer_freeze_prevent_header =
    header "samsungce.washerFreezePrevent" (declare "OperatingState" text ∷ []) [] []

abbrev pub washer_freeze_prevent : Schema
washer_freeze_prevent = schema "samsungce.washerFreezePrevent" (field "operatingState" text ∷ []) []

abbrev pub samsungce_washer_operating_state_header : Header
samsungce_washer_operating_state_header =
    header "samsungce.washerOperatingState"
      (declare "WashingProgress" whole
        ∷ declare "DryingProgress" whole
        ∷ declare "WasherJobState" text
        ∷ declare "OperatingState" text
        ∷ declare "SupportedOperatingStates" texts
        ∷ declare "ScheduledJobs" json
        ∷ declare "ScheduledPhases" json
        ∷ declare "Progress" whole
        ∷ declare "RemainingTimeStr" text
        ∷ declare "WasherJobPhase" text
        ∷ declare "OperationTime" whole
        ∷ declare "RemainingTime" whole
        ∷ [])
      (command "resume" []
        ∷ command "cancel" []
        ∷ command "start" []
        ∷ command "estimateOperationTime" []
        ∷ command "setDelayEnd" (whole ∷ [])
        ∷ command "pause" []
        ∷ [])
      (str "resume"
        ∷ str "cancel"
        ∷ str "start"
        ∷ str "estimateOperationTime"
        ∷ str "setDelayEnd"
        ∷ str "pause"
        ∷ [])

abbrev pub samsungce_washer_operating_state : Schema
samsungce_washer_operating_state =
    schema "samsungce.washerOperatingState"
      (field "washingProgress" whole
        ∷ field "dryingProgress" whole
        ∷ field "washerJobState" text
        ∷ field "operatingState" text
        ∷ field "supportedOperatingStates" texts
        ∷ field "scheduledJobs" json
        ∷ field "scheduledPhases" json
        ∷ field "progress" whole
        ∷ field "remainingTimeStr" text
        ∷ field "washerJobPhase" text
        ∷ field "operationTime" whole
        ∷ field "remainingTime" whole
        ∷ [])
      (command "resume" []
        ∷ command "cancel" []
        ∷ command "start" []
        ∷ command "estimateOperationTime" []
        ∷ command "setDelayEnd" (whole ∷ [])
        ∷ command "pause" []
        ∷ [])

abbrev pub washer_washing_time_header : Header
washer_washing_time_header =
    header "samsungce.washerWashingTime"
      (declare "SupportedWashingTimes" texts ∷ declare "WashingTime" text ∷ [])
      (command "setWashingTime" (text ∷ []) ∷ []) (str "setWashingTime" ∷ [])

abbrev pub washer_washing_time : Schema
washer_washing_time =
    schema "samsungce.washerWashingTime"
      (field "supportedWashingTimes" texts ∷ field "washingTime" text ∷ [])
      (command "setWashingTime" (text ∷ []) ∷ [])

abbrev pub washer_water_level_header : Header
washer_water_level_header =
    header "samsungce.washerWaterLevel"
      (declare "SupportedWaterLevel" texts ∷ declare "WaterLevel" text ∷ [])
      (command "setWaterLevel" (text ∷ []) ∷ []) (str "setWaterLevel" ∷ [])

abbrev pub washer_water_level : Schema
washer_water_level =
    schema "samsungce.washerWaterLevel"
      (field "supportedWaterLevel" texts ∷ field "waterLevel" text ∷ [])
      (command "setWaterLevel" (text ∷ []) ∷ [])

abbrev pub washer_water_valve_header : Header
washer_water_valve_header =
    header "samsungce.washerWaterValve"
      (declare "WaterValve" text ∷ declare "SupportedWaterValve" texts ∷ [])
      (command "setWaterValve" (text ∷ []) ∷ []) (str "setWaterValve" ∷ [])

abbrev pub washer_water_valve : Schema
washer_water_valve =
    schema "samsungce.washerWaterValve"
      (field "waterValve" text ∷ field "supportedWaterValve" texts ∷ [])
      (command "setWaterValve" (text ∷ []) ∷ [])

abbrev pub water_consumption_report_header : Header
water_consumption_report_header =
    header "samsungce.waterConsumptionReport" (declare "WaterConsumption" json ∷ []) [] []

abbrev pub water_consumption_report : Schema
water_consumption_report =
    schema "samsungce.waterConsumptionReport" (field "waterConsumption" json ∷ []) []

abbrev pub weight_measurement_header : Header
weight_measurement_header =
    header "samsungce.weightMeasurement" (declare "Weight" number ∷ []) [] []

abbrev pub weight_measurement : Schema
weight_measurement = schema "samsungce.weightMeasurement" (field "weight" number ∷ []) []

abbrev pub weight_measurement_calibration_header : Header
weight_measurement_calibration_header =
    header "samsungce.weightMeasurementCalibration" [] (command "zeroCalibrate" [] ∷ [])
      (str "zeroCalibrate" ∷ [])

abbrev pub weight_measurement_calibration : Schema
weight_measurement_calibration =
    schema "samsungce.weightMeasurementCalibration" [] (command "zeroCalibrate" [] ∷ [])

abbrev pub welcome_message_header : Header
welcome_message_header =
    header "samsungce.welcomeMessage" (declare "WelcomeMessageValue" json ∷ [])
      (command "deleteWelcomeMessage" [] ∷ command "setWelcomeMessage" (json ∷ []) ∷ [])
      (str "deleteWelcomeMessage" ∷ str "setWelcomeMessage" ∷ [])

abbrev pub welcome_message : Schema
welcome_message =
    schema "samsungce.welcomeMessage" (field "welcomeMessage" json ∷ [])
      (command "deleteWelcomeMessage" [] ∷ command "setWelcomeMessage" (json ∷ []) ∷ [])
