-- ===== src/Schemas/Standard/AudioMuteToMediaInputSource.antt =====
-- The classes from AudioMute to MediaInputSource of src/capabilities/standard.cpp, with their headers.
use smartthings4cpp.Base.{[], ◌∷◌, str}
use smartthings4cpp.Capability.{Schema, text, whole, number, boolean, texts, json}
use smartthings4cpp.Schemas.Parts.{Header, header, declare, field, command, schema}

abbrev pub audio_mute_header : Header
audio_mute_header =
    header "audioMute" (declare "Mute" text ∷ [])
      (command "setMute" (text ∷ []) ∷ command "mute" [] ∷ command "unmute" [] ∷ [])
      (str "setMute" ∷ str "mute" ∷ str "unmute" ∷ [])

abbrev pub audio_mute : Schema
audio_mute =
    schema "audioMute" (field "mute" text ∷ [])
      (command "setMute" (text ∷ []) ∷ command "mute" [] ∷ command "unmute" [] ∷ [])

abbrev pub audio_notification_header : Header
audio_notification_header =
    header "audioNotification" []
      (command "playTrackAndResume" (text ∷ whole ∷ [])
        ∷ command "playTrackAndRestore" (text ∷ whole ∷ [])
        ∷ command "playTrack" (text ∷ whole ∷ [])
        ∷ [])
      (str "playTrackAndResume" ∷ str "playTrackAndRestore" ∷ str "playTrack" ∷ [])

abbrev pub audio_notification : Schema
audio_notification = schema "audioNotification" [] (
    command "playTrackAndResume" (text ∷ whole ∷ [])
    ∷ command "playTrackAndRestore" (text ∷ whole ∷ [])
    ∷ command "playTrack" (text ∷ whole ∷ [])
    ∷ [])

abbrev pub audio_track_data_header : Header
audio_track_data_header =
    header "audioTrackData"
      (declare "TotalTime" whole
        ∷ declare "AudioTrackDataValue" json
        ∷ declare "ElapsedTime" whole
        ∷ [])
      [] []

abbrev pub audio_track_data : Schema
audio_track_data =
    schema "audioTrackData"
      (field "totalTime" whole ∷ field "audioTrackData" json ∷ field "elapsedTime" whole ∷ []) []

abbrev pub audio_volume_header : Header
audio_volume_header =
    header "audioVolume" (declare "Volume" whole ∷ [])
      (command "volumeDown" [] ∷ command "volumeUp" [] ∷ command "setVolume" (whole ∷ []) ∷ [])
      (str "volumeDown" ∷ str "volumeUp" ∷ str "setVolume" ∷ [])

abbrev pub audio_volume : Schema
audio_volume =
    schema "audioVolume" (field "volume" whole ∷ [])
      (command "volumeDown" [] ∷ command "volumeUp" [] ∷ command "setVolume" (whole ∷ []) ∷ [])

abbrev pub battery_header : Header
battery_header =
    header "battery"
      (declare "Quantity" whole ∷ declare "BatteryValue" whole ∷ declare "Type" text ∷ []) [] []

abbrev pub battery : Schema
battery =
    schema "battery" (field "quantity" whole ∷ field "battery" whole ∷ field "type" text ∷ []) []

abbrev pub bridge_header : Header
bridge_header = header "bridge" [] [] []

abbrev pub bridge : Schema
bridge = schema "bridge" [] []

abbrev pub color_control_header : Header
color_control_header =
    header "colorControl"
      (declare "Saturation" number ∷ declare "Color" text ∷ declare "Hue" number ∷ [])
      (command "setColor" (json ∷ [])
        ∷ command "setHue" (number ∷ [])
        ∷ command "setSaturation" (number ∷ [])
        ∷ [])
      (str "setColor" ∷ str "setHue" ∷ str "setSaturation" ∷ [])

abbrev pub color_control : Schema
color_control =
    schema "colorControl" (field "saturation" number ∷ field "color" text ∷ field "hue" number ∷ [])
      (command "setColor" (json ∷ [])
        ∷ command "setHue" (number ∷ [])
        ∷ command "setSaturation" (number ∷ [])
        ∷ [])

abbrev pub color_temperature_header : Header
color_temperature_header =
    header "colorTemperature"
      (declare "ColorTemperatureRange" json ∷ declare "ColorTemperatureValue" whole ∷ [])
      (command "setColorTemperature" (whole ∷ []) ∷ []) (str "setColorTemperature" ∷ [])

abbrev pub color_temperature : Schema
color_temperature =
    schema "colorTemperature"
      (field "colorTemperatureRange" json ∷ field "colorTemperature" whole ∷ [])
      (command "setColorTemperature" (whole ∷ []) ∷ [])

abbrev pub contact_sensor_header : Header
contact_sensor_header = header "contactSensor" (declare "Contact" text ∷ []) [] []

abbrev pub contact_sensor : Schema
contact_sensor = schema "contactSensor" (field "contact" text ∷ []) []

abbrev pub demand_response_load_control_header : Header
demand_response_load_control_header =
    header "demandResponseLoadControl" (declare "DrlcStatus" json ∷ [])
      (command "overrideDrlcAction" (boolean ∷ [])
        ∷ command "requestDrlcAction" (whole ∷ whole ∷ text ∷ whole ∷ whole ∷ [])
        ∷ [])
      (str "overrideDrlcAction" ∷ str "requestDrlcAction" ∷ [])

abbrev pub demand_response_load_control : Schema
demand_response_load_control = schema "demandResponseLoadControl" (field "drlcStatus" json ∷ []) (
    command "overrideDrlcAction" (boolean ∷ [])
    ∷ command "requestDrlcAction" (whole ∷ whole ∷ text ∷ whole ∷ whole ∷ [])
    ∷ [])

abbrev pub dishwasher_operating_state_header : Header
dishwasher_operating_state_header =
    header "dishwasherOperatingState"
      (declare "CompletionTime" text
        ∷ declare "MachineState" text
        ∷ declare "Progress" whole
        ∷ declare "SupportedMachineStates" texts
        ∷ declare "DishwasherJobState" text
        ∷ [])
      (command "setMachineState" (text ∷ []) ∷ []) (str "setMachineState" ∷ [])

abbrev pub dishwasher_operating_state : Schema
dishwasher_operating_state =
    schema "dishwasherOperatingState"
      (field "completionTime" text
        ∷ field "machineState" text
        ∷ field "progress" whole
        ∷ field "supportedMachineStates" texts
        ∷ field "dishwasherJobState" text
        ∷ [])
      (command "setMachineState" (text ∷ []) ∷ [])

abbrev pub execute_header : Header
execute_header =
    header "execute" (declare "Data" json ∷ []) (command "execute" (text ∷ json ∷ []) ∷ [])
      (str "execute" ∷ [])

abbrev pub execute : Schema
execute = schema "execute" (field "data" json ∷ []) (command "execute" (text ∷ json ∷ []) ∷ [])

abbrev pub health_check_header : Header
health_check_header =
    header "healthCheck"
      (declare "CheckInterval" whole
        ∷ declare "HealthStatus" text
        ∷ declare "DeviceWatchEnroll" json
        ∷ declare "DeviceWatchDeviceStatus" text
        ∷ [])
      (command "ping" [] ∷ []) (str "ping" ∷ [])

abbrev pub health_check : Schema
health_check =
    schema "healthCheck"
      (field "checkInterval" whole
        ∷ field "healthStatus" text
        ∷ field "DeviceWatch-Enroll" json
        ∷ field "DeviceWatch-DeviceStatus" text
        ∷ [])
      (command "ping" [] ∷ [])

abbrev pub illuminance_measurement_header : Header
illuminance_measurement_header =
    header "illuminanceMeasurement" (declare "Illuminance" number ∷ []) [] []

abbrev pub illuminance_measurement : Schema
illuminance_measurement = schema "illuminanceMeasurement" (field "illuminance" number ∷ []) []

abbrev pub standard_media_input_source_header : Header
standard_media_input_source_header =
    header "mediaInputSource"
      (declare "SupportedInputSources" texts ∷ declare "InputSource" text ∷ [])
      (command "setInputSource" (text ∷ []) ∷ []) (str "setInputSource" ∷ [])

abbrev pub standard_media_input_source : Schema
standard_media_input_source =
    schema "mediaInputSource" (field "supportedInputSources" texts ∷ field "inputSource" text ∷ [])
      (command "setInputSource" (text ∷ []) ∷ [])
