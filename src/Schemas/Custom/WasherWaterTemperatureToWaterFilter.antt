-- ===== src/Schemas/Custom/WasherWaterTemperatureToWaterFilter.antt =====
-- The classes from WasherWaterTemperature to WaterFilter of src/capabilities/custom.cpp, with their headers.
use smartthings4cpp.Base.{[], ◌∷◌, str}
use smartthings4cpp.Capability.{Schema, text, whole, texts}
use smartthings4cpp.Schemas.Parts.{Header, header, declare, field, command, schema}

abbrev pub washer_water_temperature_header : Header
washer_water_temperature_header =
    header "custom.washerWaterTemperature"
      (declare "SupportedWasherWaterTemperature" texts
        ∷ declare "WasherWaterTemperatureValue" text
        ∷ [])
      (command "setWasherWaterTemperature" (text ∷ []) ∷ []) (str "setWasherWaterTemperature" ∷ [])

abbrev pub washer_water_temperature : Schema
washer_water_temperature =
    schema "custom.washerWaterTemperature"
      (field "supportedWasherWaterTemperature" texts ∷ field "washerWaterTemperature" text ∷ [])
      (command "setWasherWaterTemperature" (text ∷ []) ∷ [])

abbrev pub water_filter_header : Header
water_filter_header =
    header "custom.waterFilter"
      (declare "WaterFilterUsageStep" whole
        ∷ declare "WaterFilterResetType" texts
        ∷ declare "WaterFilterCapacity" whole
        ∷ declare "WaterFilterLastResetDate" text
        ∷ declare "WaterFilterUsage" whole
        ∷ declare "WaterFilterStatus" text
        ∷ [])
      (command "resetWaterFilter" [] ∷ []) (str "resetWaterFilter" ∷ [])

abbrev pub water_filter : Schema
water_filter =
    schema "custom.waterFilter"
      (field "waterFilterUsageStep" whole
        ∷ field "waterFilterResetType" texts
        ∷ field "waterFilterCapacity" whole
        ∷ field "waterFilterLastResetDate" text
        ∷ field "waterFilterUsage" whole
        ∷ field "waterFilterStatus" text
        ∷ [])
      (command "resetWaterFilter" [] ∷ [])
