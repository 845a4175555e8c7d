-- ===== src/Schemas/Standard/SwitchLevelToWindowShadeLevel.antt =====
-- The classes from SwitchLevel to WindowShadeLevel of src/capabilities/standard.cpp, with their headers.
use smartthings4cpp.Base.{[], ◌∷◌, str}
use smartthings4cpp.Capability.{Schema, text, whole, number, texts, json}
use smartthings4cpp.Schemas.Parts.{Header, header, declare, field, command, schema}

abbrev pub switch_level_header : Header
switch_level_header =
    header "switchLevel" (declare "LevelRange" json ∷ declare "Level" whole ∷ [])
      (command "setLevel" (whole ∷ whole ∷ []) ∷ []) (str "setLevel" ∷ [])

abbrev pub switch_level : Schema
switch_level =
    schema "switchLevel" (field "levelRange" json ∷ field "level" whole ∷ [])
      (command "setLevel" (whole ∷ whole ∷ []) ∷ [])

abbrev pub temperature_measurement_header : Header
temperature_measurement_header =
    header "temperatureMeasurement"
      (declare "TemperatureRange" json ∷ declare "Temperature" number ∷ []) [] []

abbrev pub temperature_measurement : Schema
temperature_measurement =
    schema "temperatureMeasurement"
      (field "temperatureRange" json ∷ field "temperature" number ∷ []) []

abbrev pub thermostat_cooling_setpoint_header : Header
thermostat_cooling_setpoint_header =
    header "thermostatCoolingSetpoint"
      (declare "CoolingSetpointRange" json ∷ declare "CoolingSetpoint" number ∷ [])
      (command "setCoolingSetpoint" (number ∷ []) ∷ []) (str "setCoolingSetpoint" ∷ [])

abbrev pub thermostat_cooling_setpoint : Schema
thermostat_cooling_setpoint =
    schema "thermostatCoolingSetpoint"
      (field "coolingSetpointRange" json ∷ field "coolingSetpoint" number ∷ [])
      (command "setCoolingSetpoint" (number ∷ []) ∷ [])

abbrev pub tv_channel_header : Header
tv_channel_header =
    header "tvChannel" (declare "TvChannelValue" text ∷ declare "TvChannelName" text ∷ [])
      (command "channelDown" []
        ∷ command "setTvChannel" (text ∷ [])
        ∷ command "channelUp" []
        ∷ command "setTvChannelName" (text ∷ [])
        ∷ [])
      (str "channelDown" ∷ str "setTvChannel" ∷ str "channelUp" ∷ str "setTvChannelName" ∷ [])

abbrev pub tv_channel : Schema
tv_channel = schema "tvChannel" (field "tvChannel" text ∷ field "tvChannelName" text ∷ []) (
    command "channelDown" []
    ∷ command "setTvChannel" (text ∷ [])
    ∷ command "channelUp" []
    ∷ command "setTvChannelName" (text ∷ [])
    ∷ [])

abbrev pub standard_washer_operating_state_header : Header
standard_washer_operating_state_header =
    header "washerOperatingState"
      (declare "CompletionTime" text
        ∷ declare "MachineState" text
        ∷ declare "WasherJobState" text
        ∷ declare "SupportedMachineStates" texts
        ∷ [])
      (command "setMachineState" (text ∷ []) ∷ []) (str "setMachineState" ∷ [])

abbrev pub standard_washer_operating_state : Schema
standard_washer_operating_state =
    schema "washerOperatingState"
      (field "completionTime" text
        ∷ field "machineState" text
        ∷ field "washerJobState" text
        ∷ field "supportedMachineStates" texts
        ∷ [])
      (command "setMachineState" (text ∷ []) ∷ [])

abbrev pub window_shade_level_header : Header
window_shade_level_header =
    header "windowShadeLevel" (declare "ShadeLevel" whole ∷ [])
      (command "setShadeLevel" (whole ∷ []) ∷ []) (str "setShadeLevel" ∷ [])

abbrev pub window_shade_level : Schema
window_shade_level =
    schema "windowShadeLevel" (field "shadeLevel" whole ∷ [])
      (command "setShadeLevel" (whole ∷ []) ∷ [])
