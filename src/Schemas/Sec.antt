-- ===== src/Schemas/Sec.antt =====
-- The classes of src/capabilities/sec.cpp and their headers below include/smartthings4cpp/capabilities/sec.
use smartthings4cpp.Base.{[], ◌∷◌, str}
use smartthings4cpp.Capability.{Schema, text, whole, boolean, texts}
use smartthings4cpp.Schemas.Parts.{Header, header, declare, field, command, schema}

abbrev pub diagnostics_information_header : Header
diagnostics_information_header =
    header "sec.diagnosticsInformation"
      (declare "LogType" texts
        ∷ declare "Endpoint" text
        ∷ declare "MinVersion" text
        ∷ declare "SigninPermission" text
        ∷ declare "SetupId" text
        ∷ declare "ProtocolType" text
        ∷ declare "TsId" text
        ∷ declare "MnId" text
        ∷ declare "DumpType" text
        ∷ [])
      [] []

abbrev pub diagnostics_information : Schema
diagnostics_information =
    schema "sec.diagnosticsInformation"
      (field "logType" texts
        ∷ field "endpoint" text
        ∷ field "minVersion" text
        ∷ field "signinPermission" text
        ∷ field "setupId" text
        ∷ field "protocolType" text
        ∷ field "tsId" text
        ∷ field "mnId" text
        ∷ field "dumpType" text
        ∷ [])
      []

abbrev pub smartthings_hub_header : Header
smartthings_hub_header =
    header "sec.smartthingsHub"
      (declare "ThreadHardwareAvailability" text
        ∷ declare "Availability" text
        ∷ declare "DeviceId" text
        ∷ declare "ZigbeeHardwareAvailability" text
        ∷ declare "VersionAttr" text
        ∷ declare "ThreadRequiresExternalHardware" boolean
        ∷ declare "ZigbeeRequiresExternalHardware" boolean
        ∷ declare "Eui" text
        ∷ declare "LastOnboardingResult" text
        ∷ declare "ZwaveHardwareAvailability" text
        ∷ declare "ZwaveRequiresExternalHardware" boolean
        ∷ declare "State" text
        ∷ declare "OnboardingProgress" whole
        ∷ declare "LastOnboardingErrorCode" text
        ∷ [])
      (command "onboarding" (text ∷ text ∷ []) ∷ command "cancelOnboarding" [] ∷ [])
      (str "onboarding" ∷ str "cancelOnboarding" ∷ [])

abbrev pub smartthings_hub : Schema
smartthings_hub =
    schema "sec.smartthingsHub"
      (field "threadHardwareAvailability" text
        ∷ field "availability" text
        ∷ field "deviceId" text
        ∷ field "zigbeeHardwareAvailability" text
        ∷ field "version" text
        ∷ field "threadRequiresExternalHardware" boolean
        ∷ field "zigbeeRequiresExternalHardware" boolean
        ∷ field "eui" text
        ∷ field "lastOnboardingResult" text
        ∷ field "zwaveHardwareAvailability" text
        ∷ field "zwaveRequiresExternalHardware" boolean
        ∷ field "state" text
        ∷ field "onboardingProgress" whole
        ∷ field "lastOnboardingErrorCode" text
        ∷ [])
      (command "onboarding" (text ∷ text ∷ []) ∷ command "cancelOnboarding" [] ∷ [])

abbrev pub wifi_configuration_header : Header
wifi_configuration_header =
    header "sec.wifiConfiguration"
      (declare "AutoReconnection" boolean
        ∷ declare "MinVersion" text
        ∷ declare "SupportedWiFiFreq" texts
        ∷ declare "SupportedAuthType" texts
        ∷ declare "ProtocolType" texts
        ∷ [])
      [] []

abbrev pub wifi_configuration : Schema
wifi_configuration =
    schema "sec.wifiConfiguration"
      (field "autoReconnection" boolean
        ∷ field "minVersion" text
        ∷ field "supportedWiFiFreq" texts
        ∷ field "supportedAuthType" texts
        ∷ field "protocolType" texts
        ∷ [])
      []
