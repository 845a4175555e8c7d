-- ===== src/Schemas/Samsungce/DetergentAutoReplenishmentToDishwasherJobState.antt =====
-- The classes from DetergentAutoReplenishment to DishwasherJobState of src/capabilities/samsungce.cpp, with their headers.
use smartthings4cpp.Base.{[], ◌∷◌, str}
use smartthings4cpp.Capability.{Schema, text, whole, number, boolean, json}
use smartthings4cpp.Schemas.Parts.{Header, header, declare, field, command, schema}

abbrev pub detergent_auto_replenishment_header : Header
detergent_auto_replenishment_header =
    header "samsungce.detergentAutoReplenishment"
      (declare "NeutralDetergentType" text
        ∷ declare "RegularDetergentRemainingAmount" number
        ∷ declare "BabyDetergentRemainingAmount" number
        ∷ declare "NeutralDetergentRemainingAmount" number
        ∷ declare "NeutralDetergentAlarmEnabled" boolean
        ∷ declare "NeutralDetergentOrderThreshold" number
        ∷ declare "BabyDetergentInitialAmount" number
        ∷ declare "BabyDetergentType" text
        ∷ declare "NeutralDetergentInitialAmount" number
        ∷ declare "RegularDetergentDosage" number
        ∷ declare "BabyDetergentDosage" number
        ∷ declare "RegularDetergentOrderThreshold" number
        ∷ declare "RegularDetergentType" text
        ∷ declare "RegularDetergentInitialAmount" number
        ∷ declare "RegularDetergentAlarmEnabled" boolean
        ∷ declare "NeutralDetergentDosage" number
        ∷ declare "BabyDetergentOrderThreshold" number
        ∷ declare "BabyDetergentAlarmEnabled" boolean
        ∷ [])
      (command "enableAlarm" (text ∷ [])
        ∷ command "setOrderThreshold" (text ∷ number ∷ [])
        ∷ command "disableAlarm" (text ∷ [])
        ∷ command "setAutoReplenishment" (json ∷ [])
        ∷ command "setInitialAmount" (text ∷ number ∷ [])
        ∷ command "setRemainingAmount" (text ∷ number ∷ [])
        ∷ command "setDosage" (text ∷ number ∷ [])
        ∷ command "setType" (text ∷ text ∷ [])
        ∷ [])
      (str "enableAlarm"
        ∷ str "setOrderThreshold"
        ∷ str "disableAlarm"
        ∷ str "setAutoReplenishment"
        ∷ str "setInitialAmount"
        ∷ str "setRemainingAmount"
        ∷ str "setDosage"
        ∷ str "setType"
        ∷ [])

abbrev pub detergent_auto_replenishment : Schema
detergent_auto_replenishment =
    schema "samsungce.detergentAutoReplenishment"
      (field "neutralDetergentType" text
        ∷ field "regularDetergentRemainingAmount" number
        ∷ field "babyDetergentRemainingAmount" number
        ∷ field "neutralDetergentRemainingAmount" number
        ∷ field "neutralDetergentAlarmEnabled" boolean
        ∷ field "neutralDetergentOrderThreshold" number
        ∷ field "babyDetergentInitialAmount" number
        ∷ field "babyDetergentType" text
        ∷ field "neutralDetergentInitialAmount" number
        ∷ field "regularDetergentDosage" number
        ∷ field "babyDetergentDosage" number
        ∷ field "regularDetergentOrderThreshold" number
        ∷ field "regularDetergentType" text
        ∷ field "regularDetergentInitialAmount" number
        ∷ field "regularDetergentAlarmEnabled" boolean
        ∷ field "neutralDetergentDosage" number
        ∷ field "babyDetergentOrderThreshold" number
        ∷ field "babyDetergentAlarmEnabled" boolean
        ∷ [])
      (command "enableAlarm" (text ∷ [])
        ∷ command "setOrderThreshold" (text ∷ number ∷ [])
        ∷ command "disableAlarm" (text ∷ [])
        ∷ command "setAutoReplenishment" (json ∷ [])
        ∷ command "setInitialAmount" (text ∷ number ∷ [])
        ∷ command "setRemainingAmount" (text ∷ number ∷ [])
        ∷ command "setDosage" (text ∷ number ∷ [])
        ∷ command "setType" (text ∷ text ∷ [])
        ∷ [])

abbrev pub detergent_order_header : Header
detergent_order_header =
    header "samsungce.detergentOrder"
      (declare "AlarmEnabled" boolean ∷ declare "OrderThreshold" number ∷ [])
      (command "enableAlarm" []
        ∷ command "setOrderThreshold" (number ∷ [])
        ∷ command "disableAlarm" []
        ∷ [])
      (str "enableAlarm" ∷ str "setOrderThreshold" ∷ str "disableAlarm" ∷ [])

abbrev pub detergent_order : Schema
detergent_order =
    schema "samsungce.detergentOrder"
      (field "alarmEnabled" boolean ∷ field "orderThreshold" number ∷ [])
      (command "enableAlarm" []
        ∷ command "setOrderThreshold" (number ∷ [])
        ∷ command "disableAlarm" []
        ∷ [])

abbrev pub detergent_state_header : Header
detergent_state_header =
    header "samsungce.detergentState"
      (declare "RemainingAmount" number
        ∷ declare "Dosage" number
        ∷ declare "InitialAmount" number
        ∷ declare "DetergentType" text
        ∷ [])
      (command "setDetergentType" (text ∷ [])
        ∷ command "setInitialAmount" (number ∷ [])
        ∷ command "setRemainingAmount" (number ∷ [])
        ∷ command "setDosage" (number ∷ [])
        ∷ [])
      (str "setDetergentType"
        ∷ str "setInitialAmount"
        ∷ str "setRemainingAmount"
        ∷ str "setDosage"
        ∷ [])

abbrev pub detergent_state : Schema
detergent_state =
    schema "samsungce.detergentState"
      (field "remainingAmount" number
        ∷ field "dosage" number
        ∷ field "initialAmount" number
        ∷ field "detergentType" text
        ∷ [])
      (command "setDetergentType" (text ∷ [])
        ∷ command "setInitialAmount" (number ∷ [])
        ∷ command "setRemainingAmount" (number ∷ [])
        ∷ command "setDosage" (number ∷ [])
        ∷ [])

abbrev pub device_applications_and_settings_header : Header
device_applications_and_settings_header =
    header "samsungce.deviceApplicationsAndSettings"
      (declare "DeviceApplications" json ∷ declare "DeviceSettings" json ∷ []) [] []

abbrev pub device_applications_and_settings : Schema
device_applications_and_settings =
    schema "samsungce.deviceApplicationsAndSettings"
      (field "deviceApplications" json ∷ field "deviceSettings" json ∷ []) []

abbrev pub device_identification_header : Header
device_identification_header =
    header "samsungce.deviceIdentification"
      (declare "MicomAssayCode" text
        ∷ declare "ModelName" text
        ∷ declare "SerialNumber" text
        ∷ declare "SerialNumberExtra" text
        ∷ declare "ReleaseCountry" text
        ∷ declare "ModelClassificationCode" text
        ∷ declare "Description" text
        ∷ declare "ReleaseYear" whole
        ∷ declare "BinaryId" text
        ∷ [])
      [] []

abbrev pub device_identification : Schema
device_identification =
    schema "samsungce.deviceIdentification"
      (field "micomAssayCode" text
        ∷ field "modelName" text
        ∷ field "serialNumber" text
        ∷ field "serialNumberExtra" text
        ∷ field "releaseCountry" text
        ∷ field "modelClassificationCode" text
        ∷ field "description" text
        ∷ field "releaseYear" whole
        ∷ field "binaryId" text
        ∷ [])
      []

abbrev pub dishwasher_job_state_header : Header
dishwasher_job_state_header =
    header "samsungce.dishwasherJobState"
      (declare "ScheduledJobs" json ∷ declare "DishwasherJobStateValue" text ∷ []) [] []

abbrev pub dishwasher_job_state : Schema
dishwasher_job_state =
    schema "samsungce.dishwasherJobState"
      (field "scheduledJobs" json ∷ field "dishwasherJobState" text ∷ []) []
