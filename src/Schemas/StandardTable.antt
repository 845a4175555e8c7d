-- ===== src/Schemas/StandardTable.antt =====
-- The table of src/capabilities/standard_factory.cpp, in its order.
use smartthings4cpp.Base.{List, [], ◌∷◌}
use smartthings4cpp.Schemas.Parts.{Class}
use smartthings4cpp.Schemas.Standard.AudioMuteToMediaInputSource.{
  audio_mute_header, audio_mute, audio_notification_header, audio_notification,
  audio_track_data_header, audio_track_data, audio_volume_header, audio_volume, battery_header,
  battery, bridge_header, bridge, color_control_header, color_control, color_temperature_header,
  color_temperature, contact_sensor_header, contact_sensor, demand_response_load_control_header,
  demand_response_load_control, dishwasher_operating_state_header, dishwasher_operating_state,
  execute_header, execute, health_check_header, health_check, illuminance_measurement_header,
  illuminance_measurement, standard_media_input_source_header, standard_media_input_source,
}
use smartthings4cpp.Schemas.Standard.MediaPlaybackToSwitch.{
  media_playback_header, media_playback, media_presets_header, media_presets,
  media_track_control_header, media_track_control, motion_sensor_header, motion_sensor,
  movement_sensor_header, movement_sensor, multiple_zone_presence_header, multiple_zone_presence,
  ocf_header, ocf, power_consumption_report_header, power_consumption_report,
  presence_sensor_header, presence_sensor, refresh_header, refresh, refrigeration_header,
  refrigeration, relative_brightness_header, relative_brightness, remote_control_status_header,
  remote_control_status, standard_sound_detection_header, standard_sound_detection, switch_header,
  switch,
}
use smartthings4cpp.Schemas.Standard.SwitchLevelToWindowShadeLevel.{
  switch_level_header, switch_level, temperature_measurement_header, temperature_measurement,
  thermostat_cooling_setpoint_header, thermostat_cooling_setpoint, tv_channel_header, tv_channel,
  standard_washer_operating_state_header, standard_washer_operating_state,
  window_shade_level_header, window_shade_level,
}

-- The classes that `createStandardCapability` tries.
unfoldable pub standard_classes : List Class
standard_classes =
    (audio_mute_header, audio_mute)
    ∷ (audio_notification_header, audio_notification)
    ∷ (audio_track_data_header, audio_track_data)
    ∷ (audio_volume_header, audio_volume)
    ∷ (battery_header, battery)
    ∷ (bridge_header, bridge)
    ∷ (color_control_header, color_control)
    ∷ (color_temperature_header, color_temperature)
    ∷ (contact_sensor_header, contact_sensor)
    ∷ (demand_response_load_control_header, demand_response_load_control)
    ∷ (dishwasher_operating_state_header, dishwasher_operating_state)
    ∷ (execute_header, execute)
    ∷ (health_check_header, health_check)
    ∷ (illuminance_measurement_header, illuminance_measurement)
    ∷ (standard_media_input_source_header, standard_media_input_source)
    ∷ (media_playback_header, media_playback)
    ∷ (media_presets_header, media_presets)
    ∷ (media_track_control_header, media_track_control)
    ∷ (motion_sensor_header, motion_sensor)
    ∷ (movement_sensor_header, movement_sensor)
    ∷ (multiple_zone_presence_header, multiple_zone_presence)
    ∷ (ocf_header, ocf)
    ∷ (power_consumption_report_header, power_consumption_report)
    ∷ (presence_sensor_header, presence_sensor)
    ∷ (refresh_header, refresh)
    ∷ (refrigeration_header, refrigeration)
    ∷ (relative_brightness_header, relative_brightness)
    ∷ (remote_control_status_header, remote_control_status)
    ∷ (standard_sound_detection_header, standard_sound_detection)
    ∷ (switch_header, switch)
    ∷ (switch_level_header, switch_level)
    ∷ (temperature_measurement_header, temperature_measurement)
    ∷ (thermostat_cooling_setpoint_header, thermostat_cooling_setpoint)
    ∷ (tv_channel_header, tv_channel)
    ∷ (standard_washer_operating_state_header, standard_washer_operating_state)
    ∷ (window_shade_level_header, window_shade_level)
    ∷ []
