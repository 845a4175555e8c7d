-- ===== src/Schemas/Standard/MediaPlaybackToSwitch.antt =====
-- The classes from MediaPlayback to Switch of src/capabilities/standard.cpp, with their headers.
use smartthings4cpp.Base.{[], ◌∷◌, str}
use smartthings4cpp.Capability.{Schema, text, whole, texts, json}
use smartthings4cpp.Schemas.Parts.{Header, header, declare, field, command, schema}

abbrev pub media_playback_header : Header
media_playback_header =
    header "mediaPlayback"
      (declare "SupportedPlaybackCommands" texts ∷ declare "PlaybackStatus" text ∷ [])
      (command "play" []
        ∷ command "stop" []
        ∷ command "rewind" []
        ∷ command "fastForward" []
        ∷ command "setPlaybackStatus" (text ∷ [])
        ∷ command "pause" []
        ∷ [])
      (str "play"
        ∷ str "stop"
        ∷ str "rewind"
        ∷ str "fastForward"
        ∷ str "setPlaybackStatus"
        ∷ str "pause"
        ∷ [])

abbrev pub media_playback : Schema
media_playback =
    schema "mediaPlayback"
      (field "supportedPlaybackCommands" texts ∷ field "playbackStatus" text ∷ [])
      (command "play" []
        ∷ command "stop" []
        ∷ command "rewind" []
        ∷ command "fastForward" []
        ∷ command "setPlaybackStatus" (text ∷ [])
        ∷ command "pause" []
        ∷ [])

abbrev pub media_presets_header : Header
media_presets_header =
    header "mediaPresets" (declare "Presets" json ∷ []) (command "playPreset" (text ∷ []) ∷ [])
      (str "playPreset" ∷ [])

abbrev pub media_presets : Schema
media_presets =
    schema "mediaPresets" (field "presets" json ∷ []) (command "playPreset" (text ∷ []) ∷ [])

abbrev pub media_track_control_header : Header
media_track_control_header =
    header "mediaTrackControl" (declare "SupportedTrackControlCommands" texts ∷ [])
      (command "previousTrack" [] ∷ command "nextTrack" [] ∷ [])
      (str "previousTrack" ∷ str "nextTrack" ∷ [])

abbrev pub media_track_control : Schema
media_track_control =
    schema "mediaTrackControl" (field "supportedTrackControlCommands" texts ∷ [])
      (command "previousTrack" [] ∷ command "nextTrack" [] ∷ [])

abbrev pub motion_sensor_header : Header
motion_sensor_header = header "motionSensor" (declare "Motion" text ∷ []) [] []

abbrev pub motion_sensor : Schema
motion_sensor = schema "motionSensor" (field "motion" text ∷ []) []

abbrev pub movement_sensor_header : Header
movement_sensor_header =
    header "movementSensor" (declare "SupportedMovements" texts ∷ declare "Movement" text ∷ []) []
      []

abbrev pub movement_sensor : Schema
movement_sensor =
    schema "movementSensor" (field "supportedMovements" texts ∷ field "movement" text ∷ []) []

abbrev pub multiple_zone_presence_header : Header
multiple_zone_presence_header =
    header "multipleZonePresence" (declare "ZoneState" json ∷ [])
      (command "deleteZone" (text ∷ [])
        ∷ command "createZone" (text ∷ text ∷ [])
        ∷ command "updateZoneName" (text ∷ text ∷ [])
        ∷ [])
      (str "deleteZone" ∷ str "createZone" ∷ str "updateZoneName" ∷ [])

abbrev pub multiple_zone_presence : Schema
multiple_zone_presence = schema "multipleZonePresence" (field "zoneState" json ∷ []) (
    command "deleteZone" (text ∷ [])
    ∷ command "createZone" (text ∷ text ∷ [])
    ∷ command "updateZoneName" (text ∷ text ∷ [])
    ∷ [])

abbrev pub ocf_header : Header
ocf_header =
    header "ocf"
      (declare "St" text
        ∷ declare "Mndt" text
        ∷ declare "Mnfv" text
        ∷ declare "Mnhw" text
        ∷ declare "Di" text
        ∷ declare "Mnsl" text
        ∷ declare "Dmv" text
        ∷ declare "N" text
        ∷ declare "Mnmo" text
        ∷ declare "Vid" text
        ∷ declare "Mnmn" text
        ∷ declare "Mnml" text
        ∷ declare "Mnpv" text
        ∷ declare "Mnos" text
        ∷ declare "Pi" text
        ∷ declare "Icv" text
        ∷ [])
      (command "postOcfCommand" (text ∷ json ∷ []) ∷ []) (str "postOcfCommand" ∷ [])

abbrev pub ocf : Schema
ocf =
    schema "ocf"
      (field "st" text
        ∷ field "mndt" text
        ∷ field "mnfv" text
        ∷ field "mnhw" text
        ∷ field "di" text
        ∷ field "mnsl" text
        ∷ field "dmv" text
        ∷ field "n" text
        ∷ field "mnmo" text
        ∷ field "vid" text
        ∷ field "mnmn" text
        ∷ field "mnml" text
        ∷ field "mnpv" text
        ∷ field "mnos" text
        ∷ field "pi" text
        ∷ field "icv" text
        ∷ [])
      (command "postOcfCommand" (text ∷ json ∷ []) ∷ [])

abbrev pub power_consumption_report_header : Header
power_consumption_report_header =
    header "powerConsumptionReport" (declare "PowerConsumption" json ∷ []) [] []

abbrev pub power_consumption_report : Schema
power_consumption_report = schema "powerConsumptionReport" (field "powerConsumption" json ∷ []) []

abbrev pub presence_sensor_header : Header
presence_sensor_header = header "presenceSensor" (declare "Presence" text ∷ []) [] []

abbrev pub presence_sensor : Schema
presence_sensor = schema "presenceSensor" (field "presence" text ∷ []) []

abbrev pub refresh_header : Header
refresh_header = header "refresh" [] (command "refresh" [] ∷ []) (str "refresh" ∷ [])

abbrev pub refresh : Schema
refresh = schema "refresh" [] (command "refresh" [] ∷ [])

abbrev pub refrigeration_header : Header
refrigeration_header =
    header "refrigeration"
      (declare "Defrost" text ∷ declare "RapidCooling" text ∷ declare "RapidFreezing" text ∷ [])
      (command "setDefrost" (text ∷ [])
        ∷ command "setRapidFreezing" (text ∷ [])
        ∷ command "setRapidCooling" (text ∷ [])
        ∷ [])
      (str "setDefrost" ∷ str "setRapidFreezing" ∷ str "setRapidCooling" ∷ [])

abbrev pub refrigeration : Schema
refrigeration =
    schema "refrigeration"
      (field "defrost" text ∷ field "rapidCooling" text ∷ field "rapidFreezing" text ∷ [])
      (command "setDefrost" (text ∷ [])
        ∷ command "setRapidFreezing" (text ∷ [])
        ∷ command "setRapidCooling" (text ∷ [])
        ∷ [])

abbrev pub relative_brightness_header : Header
relative_brightness_header =
    header "relativeBrightness" (declare "BrightnessIntensity" whole ∷ []) [] []

abbrev pub relative_brightness : Schema
relative_brightness = schema "relativeBrightness" (field "brightnessIntensity" whole ∷ []) []

abbrev pub remote_control_status_header : Header
remote_control_status_header =
    header "remoteControlStatus" (declare "RemoteControlEnabled" text ∷ []) [] []

abbrev pub remote_control_status : Schema
remote_control_status = schema "remoteControlStatus" (field "remoteControlEnabled" text ∷ []) []

abbrev pub standard_sound_detection_header : Header
standard_sound_detection_header =
    header "soundDetection"
      (declare "SoundDetectionState" text
        ∷ declare "SupportedSoundTypes" texts
        ∷ declare "SoundDetected" text
        ∷ [])
      (command "disableSoundDetection" [] ∷ command "enableSoundDetection" [] ∷ [])
      (str "disableSoundDetection" ∷ str "enableSoundDetection" ∷ [])

abbrev pub standard_sound_detection : Schema
standard_sound_detection =
    schema "soundDetection"
      (field "soundDetectionState" text
        ∷ field "supportedSoundTypes" texts
        ∷ field "soundDetected" text
        ∷ [])
      (command "disableSoundDetection" [] ∷ command "enableSoundDetection" [] ∷ [])

abbrev pub switch_header : Header
switch_header =
    header "switch" (declare "SwitchValue" text ∷ []) (command "off" [] ∷ command "on" [] ∷ [])
      (str "off" ∷ str "on" ∷ [])

abbrev pub switch : Schema
switch = schema "switch" (field "switch" text ∷ []) (command "off" [] ∷ command "on" [] ∷ [])
