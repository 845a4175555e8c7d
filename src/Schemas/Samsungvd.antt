-- ===== src/Schemas/Samsungvd.antt =====
-- The classes of src/capabilities/samsungvd.cpp and their headers below include/smartthings4cpp/capabilities/samsungvd.
use smartthings4cpp.Base.{[], ◌∷◌, str}
use smartthings4cpp.Capability.{Schema, text, whole, boolean, texts, json}
use smartthings4cpp.Schemas.Parts.{Header, header, declare, field, command, schema}

abbrev pub ambient_header : Header
ambient_header =
    header "samsungvd.ambient" (declare "Info" json ∷ [])
      (command "sendData" (json ∷ []) ∷ command "setAmbientOn" [] ∷ [])
      (str "sendData" ∷ str "setAmbientOn" ∷ [])

abbrev pub ambient : Schema
ambient =
    schema "samsungvd.ambient" (field "info" json ∷ [])
      (command "sendData" (json ∷ []) ∷ command "setAmbientOn" [] ∷ [])

abbrev pub ambient_content_header : Header
ambient_content_header =
    header "samsungvd.ambientContent" (declare "SupportedAmbientApps" json ∷ [])
      (command "setAmbientContent" (text ∷ []) ∷ []) (str "setAmbientContent" ∷ [])

abbrev pub ambient_content : Schema
ambient_content =
    schema "samsungvd.ambientContent" (field "supportedAmbientApps" json ∷ [])
      (command "setAmbientContent" (text ∷ []) ∷ [])

abbrev pub art_header : Header
art_header = header "samsungvd.art" [] (command "setArtOn" [] ∷ []) (str "setArtOn" ∷ [])

abbrev pub art : Schema
art = schema "samsungvd.art" [] (command "setArtOn" [] ∷ [])

abbrev pub audio_group_info_header : Header
audio_group_info_header =
    header "samsungvd.audioGroupInfo"
      (declare "Role" text ∷ declare "Channel" text ∷ declare "Status" text ∷ []) [] []

abbrev pub audio_group_info : Schema
audio_group_info =
    schema "samsungvd.audioGroupInfo"
      (field "role" text ∷ field "channel" text ∷ field "status" text ∷ []) []

abbrev pub audio_input_source_header : Header
audio_input_source_header =
    header "samsungvd.audioInputSource"
      (declare "SupportedInputSources" texts ∷ declare "InputSource" text ∷ [])
      (command "setNextInputSource" [] ∷ []) (str "setNextInputSource" ∷ [])

abbrev pub audio_input_source : Schema
audio_input_source =
    schema "samsungvd.audioInputSource"
      (field "supportedInputSources" texts ∷ field "inputSource" text ∷ [])
      (command "setNextInputSource" [] ∷ [])

abbrev pub device_category_header : Header
device_category_header = header "samsungvd.deviceCategory" (declare "CategoryAttr" text ∷ []) [] []

abbrev pub device_category : Schema
device_category = schema "samsungvd.deviceCategory" (field "category" text ∷ []) []

abbrev pub firmware_version_header : Header
firmware_version_header =
    header "samsungvd.firmwareVersion" (declare "FirmwareVersionValue" text ∷ [])
      (command "setFirmwareVersion" (text ∷ []) ∷ []) (str "setFirmwareVersion" ∷ [])

abbrev pub firmware_version : Schema
firmware_version =
    schema "samsungvd.firmwareVersion" (field "firmwareVersion" text ∷ [])
      (command "setFirmwareVersion" (text ∷ []) ∷ [])

abbrev pub launch_service_header : Header
launch_service_header =
    header "samsungvd.launchService" [] (command "launchTVPlus" (text ∷ text ∷ []) ∷ [])
      (str "launchTVPlus" ∷ [])

abbrev pub launch_service : Schema
launch_service =
    schema "samsungvd.launchService" [] (command "launchTVPlus" (text ∷ text ∷ []) ∷ [])

abbrev pub light_control_header : Header
light_control_header =
    header "samsungvd.lightControl"
      (declare "SupportedModeMap" json
        ∷ declare "RequestId" text
        ∷ declare "SelectedMode" text
        ∷ declare "StreamControl" boolean
        ∷ declare "SelectedAppId" text
        ∷ declare "ErrorCode" text
        ∷ declare "SupportedModes" json
        ∷ [])
      (command "setLightControlMode" (text ∷ []) ∷ []) (str "setLightControlMode" ∷ [])

abbrev pub light_control : Schema
light_control =
    schema "samsungvd.lightControl"
      (field "supportedModeMap" json
        ∷ field "requestId" text
        ∷ field "selectedMode" text
        ∷ field "streamControl" boolean
        ∷ field "selectedAppId" text
        ∷ field "errorCode" text
        ∷ field "supportedModes" json
        ∷ [])
      (command "setLightControlMode" (text ∷ []) ∷ [])

abbrev pub samsungvd_media_input_source_header : Header
samsungvd_media_input_source_header =
    header "samsungvd.mediaInputSource"
      (declare "SupportedInputSourcesMap" json ∷ declare "InputSource" text ∷ [])
      (command "setInputSource" (text ∷ []) ∷ []) (str "setInputSource" ∷ [])

abbrev pub samsungvd_media_input_source : Schema
samsungvd_media_input_source =
    schema "samsungvd.mediaInputSource"
      (field "supportedInputSourcesMap" json ∷ field "inputSource" text ∷ [])
      (command "setInputSource" (text ∷ []) ∷ [])

abbrev pub remote_control_header : Header
remote_control_header =
    header "samsungvd.remoteControl" [] (command "send" (text ∷ text ∷ []) ∷ []) (str "send" ∷ [])

abbrev pub remote_control : Schema
remote_control = schema "samsungvd.remoteControl" [] (command "send" (text ∷ text ∷ []) ∷ [])

abbrev pub samsungvd_sound_detection_header : Header
samsungvd_sound_detection_header =
    header "samsungvd.soundDetection" (declare "SoundDetected" text ∷ []) [] []

abbrev pub samsungvd_sound_detection : Schema
samsungvd_sound_detection = schema "samsungvd.soundDetection" (field "soundDetected" text ∷ []) []

abbrev pub sound_from_header : Header
sound_from_header =
    header "samsungvd.soundFrom" (declare "Mode" whole ∷ declare "DetailName" text ∷ [])
      (command "setSoundFrom" (whole ∷ text ∷ []) ∷ []) (str "setSoundFrom" ∷ [])

abbrev pub sound_from : Schema
sound_from =
    schema "samsungvd.soundFrom" (field "mode" whole ∷ field "detailName" text ∷ [])
      (command "setSoundFrom" (whole ∷ text ∷ []) ∷ [])

abbrev pub supports_features_header : Header
supports_features_header =
    header "samsungvd.supportsFeatures"
      (declare "MediaOutputSupported" boolean
        ∷ declare "ImeAdvSupported" boolean
        ∷ declare "WifiUpdateSupport" boolean
        ∷ declare "ExecutableServiceList" texts
        ∷ declare "RemotelessSupported" boolean
        ∷ declare "ArtSupported" boolean
        ∷ declare "MobileCamSupported" boolean
        ∷ [])
      [] []

abbrev pub supports_features : Schema
supports_features =
    schema "samsungvd.supportsFeatures"
      (field "mediaOutputSupported" boolean
        ∷ field "imeAdvSupported" boolean
        ∷ field "wifiUpdateSupport" boolean
        ∷ field "executableServiceList" texts
        ∷ field "remotelessSupported" boolean
        ∷ field "artSupported" boolean
        ∷ field "mobileCamSupported" boolean
        ∷ [])
      []

abbrev pub supports_power_on_by_ocf_header : Header
supports_power_on_by_ocf_header =
    header "samsungvd.supportsPowerOnByOcf" (declare "SupportsPowerOnByOcfValue" text ∷ []) [] []

abbrev pub supports_power_on_by_ocf : Schema
supports_power_on_by_ocf =
    schema "samsungvd.supportsPowerOnByOcf" (field "supportsPowerOnByOcf" text ∷ []) []

abbrev pub thing_status_header : Header
thing_status_header =
    header "samsungvd.thingStatus" (declare "UpdatedTime" whole ∷ declare "Status" text ∷ []) [] []

abbrev pub thing_status : Schema
thing_status =
    schema "samsungvd.thingStatus" (field "updatedTime" whole ∷ field "status" text ∷ []) []
