-- ===== src/Schemas/ProprietaryTable.antt =====
-- The table of src/capabilities/proprietary_factory.cpp, in its order.
use smartthings4cpp.Base.{List, [], ◌∷◌}
use smartthings4cpp.Schemas.Parts.{Class}
use smartthings4cpp.Schemas.Samsungce.AccessibilityToConnectionState.{
  samsungce_accessibility_header, samsungce_accessibility, audio_volume_level_header,
  audio_volume_level, auto_dispense_detergent_header, auto_dispense_detergent,
  auto_dispense_softener_header, auto_dispense_softener, auto_open_door_header, auto_open_door,
  connection_state_header, connection_state,
}
use smartthings4cpp.Schemas.Samsungce.DetergentAutoReplenishmentToDishwasherJobState.{
  detergent_auto_replenishment_header, detergent_auto_replenishment, detergent_order_header,
  detergent_order, detergent_state_header, detergent_state, device_applications_and_settings_header,
  device_applications_and_settings, device_identification_header, device_identification,
  dishwasher_job_state_header, dishwasher_job_state,
}
use smartthings4cpp.Schemas.Samsungce.DishwasherOperationToEnergyPlanner.{
  dishwasher_operation_header, dishwasher_operation, dishwasher_washing_course_header,
  dishwasher_washing_course, dishwasher_washing_course_details_header,
  dishwasher_washing_course_details, dishwasher_washing_options_header, dishwasher_washing_options,
  dongle_software_installation_header, dongle_software_installation, driver_state_header,
  driver_state, driver_version_header, driver_version, energy_planner_header, energy_planner,
}
use smartthings4cpp.Schemas.Samsungce.FoodDefrostToSelfCheck.{
  food_defrost_header, food_defrost, freezer_convert_mode_header, freezer_convert_mode,
  fridge_icemaker_info_header, fridge_icemaker_info, fridge_pantry_info_header, fridge_pantry_info,
  fridge_pantry_mode_header, fridge_pantry_mode, fridge_vacation_mode_header, fridge_vacation_mode,
  fridge_welcome_lighting_header, fridge_welcome_lighting, fridge_zone_info_header,
  fridge_zone_info, kids_lock_header, kids_lock, meat_aging_header, meat_aging,
  operation_origin_header, operation_origin, power_cool_header, power_cool, power_freeze_header,
  power_freeze, quick_control_header, quick_control, sabbath_mode_header, sabbath_mode,
  self_check_header, self_check,
}
use smartthings4cpp.Schemas.Samsungce.SoftenerAutoReplenishmentToWasherBubbleSoak.{
  softener_auto_replenishment_header, softener_auto_replenishment, softener_order_header,
  softener_order, softener_state_header, softener_state, software_update_header, software_update,
  software_version_header, software_version, temperature_setting_header, temperature_setting,
  unavailable_capabilities_header, unavailable_capabilities, view_inside_header, view_inside,
  washer_bubble_soak_header, washer_bubble_soak,
}
use smartthings4cpp.Schemas.Samsungce.WasherCycleToWelcomeMessage.{
  washer_cycle_header, washer_cycle, washer_cycle_preset_header, washer_cycle_preset,
  washer_delay_end_header, washer_delay_end, washer_freeze_prevent_header, washer_freeze_prevent,
  samsungce_washer_operating_state_header, samsungce_washer_operating_state,
  washer_washing_time_header, washer_washing_time, washer_water_level_header, washer_water_level,
  washer_water_valve_header, washer_water_valve, water_consumption_report_header,
  water_consumption_report, weight_measurement_header, weight_measurement,
  weight_measurement_calibration_header, weight_measurement_calibration, welcome_message_header,
  welcome_message,
}
use smartthings4cpp.Schemas.Samsungvd.{
  ambient_header, ambient, ambient_content_header, ambient_content, art_header, art,
  audio_group_info_header, audio_group_info, audio_input_source_header, audio_input_source,
  device_category_header, device_category, firmware_version_header, firmware_version,
  launch_service_header, launch_service, light_control_header, light_control,
  samsungvd_media_input_source_header, samsungvd_media_input_source, remote_control_header,
  remote_control, samsungvd_sound_detection_header, samsungvd_sound_detection, sound_from_header,
  sound_from, supports_features_header, supports_features, supports_power_on_by_ocf_header,
  supports_power_on_by_ocf, thing_status_header, thing_status,
}
use smartthings4cpp.Schemas.Custom.AccessibilityToError.{
  custom_accessibility_header, custom_accessibility, deodor_filter_header, deodor_filter,
  device_report_state_configuration_header, device_report_state_configuration,
  disabled_capabilities_header, disabled_capabilities, disabled_components_header,
  disabled_components, dishwasher_delay_start_time_header, dishwasher_delay_start_time,
  dishwasher_operating_percentage_header, dishwasher_operating_percentage,
  dishwasher_operating_progress_header, dishwasher_operating_progress, dryer_dry_level_header,
  dryer_dry_level, dust_filter_header, dust_filter, energy_type_header, energy_type, error_header,
  error,
}
use smartthings4cpp.Schemas.Custom.FridgeModeToWasherSpinLevel.{
  fridge_mode_header, fridge_mode, job_beginning_status_header, job_beginning_status,
  launchapp_header, launchapp, picturemode_header, picturemode, recording_header, recording,
  soundmode_header, soundmode, supported_options_header, supported_options,
  thermostat_setpoint_control_header, thermostat_setpoint_control, tvsearch_header, tvsearch,
  washer_auto_detergent_header, washer_auto_detergent, washer_auto_softener_header,
  washer_auto_softener, washer_rinse_cycles_header, washer_rinse_cycles, washer_soil_level_header,
  washer_soil_level, washer_spin_level_header, washer_spin_level,
}
use smartthings4cpp.Schemas.Custom.WasherWaterTemperatureToWaterFilter.{
  washer_water_temperature_header, washer_water_temperature, water_filter_header, water_filter,
}
use smartthings4cpp.Schemas.Sec.{
  diagnostics_information_header, diagnostics_information, smartthings_hub_header, smartthings_hub,
  wifi_configuration_header, wifi_configuration,
}
use smartthings4cpp.Schemas.Hca.{washer_mode_header, washer_mode}
use smartthings4cpp.Schemas.Samsungim.{
  fixed_find_node_header, fixed_find_node, hue_sync_mode_header, hue_sync_mode,
}

-- The classes that `createProprietaryCapability` tries.
unfoldable pub proprietary_classes : List Class
proprietary_classes =
    (samsungce_accessibility_header, samsungce_accessibility)
    ∷ (audio_volume_level_header, audio_volume_level)
    ∷ (auto_dispense_detergent_header, auto_dispense_detergent)
    ∷ (auto_dispense_softener_header, auto_dispense_softener)
    ∷ (auto_open_door_header, auto_open_door)
    ∷ (connection_state_header, connection_state)
    ∷ (detergent_auto_replenishment_header, detergent_auto_replenishment)
    ∷ (detergent_order_header, detergent_order)
    ∷ (detergent_state_header, detergent_state)
    ∷ (device_applications_and_settings_header, device_applications_and_settings)
    ∷ (device_identification_header, device_identification)
    ∷ (dishwasher_job_state_header, dishwasher_job_state)
    ∷ (dishwasher_operation_header, dishwasher_operation)
    ∷ (dishwasher_washing_course_header, dishwasher_washing_course)
    ∷ (dishwasher_washing_course_details_header, dishwasher_washing_course_details)
    ∷ (dishwasher_washing_options_header, dishwasher_washing_options)
    ∷ (dongle_software_installation_header, dongle_software_installation)
    ∷ (driver_state_header, driver_state)
    ∷ (driver_version_header, driver_version)
    ∷ (energy_planner_header, energy_planner)
    ∷ (food_defrost_header, food_defrost)
    ∷ (freezer_convert_mode_header, freezer_convert_mode)
    ∷ (fridge_icemaker_info_header, fridge_icemaker_info)
    ∷ (fridge_pantry_info_header, fridge_pantry_info)
    ∷ (fridge_pantry_mode_header, fridge_pantry_mode)
    ∷ (fridge_vacation_mode_header, fridge_vacation_mode)
    ∷ (fridge_welcome_lighting_header, fridge_welcome_lighting)
    ∷ (fridge_zone_info_header, fridge_zone_info)
    ∷ (kids_lock_header, kids_lock)
    ∷ (meat_aging_header, meat_aging)
    ∷ (operation_origin_header, operation_origin)
    ∷ (power_cool_header, power_cool)
    ∷ (power_freeze_header, power_freeze)
    ∷ (quick_control_header, quick_control)
    ∷ (sabbath_mode_header, sabbath_mode)
    ∷ (self_check_header, self_check)
    ∷ (softener_auto_replenishment_header, softener_auto_replenishment)
    ∷ (softener_order_header, softener_order)
    ∷ (softener_state_header, softener_state)
    ∷ (software_update_header, software_update)
    ∷ (software_version_header, software_version)
    ∷ (temperature_setting_header, temperature_setting)
    ∷ (unavailable_capabilities_header, unavailable_capabilities)
    ∷ (view_inside_header, view_inside)
    ∷ (washer_bubble_soak_header, washer_bubble_soak)
    ∷ (washer_cycle_header, washer_cycle)
    ∷ (washer_cycle_preset_header, washer_cycle_preset)
    ∷ (washer_delay_end_header, washer_delay_end)
    ∷ (washer_freeze_prevent_header, washer_freeze_prevent)
    ∷ (samsungce_washer_operating_state_header, samsungce_washer_operating_state)
    ∷ (washer_washing_time_header, washer_washing_time)
    ∷ (washer_water_level_header, washer_water_level)
    ∷ (washer_water_valve_header, washer_water_valve)
    ∷ (water_consumption_report_header, water_consumption_report)
    ∷ (weight_measurement_header, weight_measurement)
    ∷ (weight_measurement_calibration_header, weight_measurement_calibration)
    ∷ (welcome_message_header, welcome_message)
    ∷ (ambient_header, ambient)
    ∷ (ambient_content_header, ambient_content)
    ∷ (art_header, art)
    ∷ (audio_group_info_header, audio_group_info)
    ∷ (audio_input_source_header, audio_input_source)
    ∷ (device_category_header, device_category)
    ∷ (firmware_version_header, firmware_version)
    ∷ (launch_service_header, launch_service)
    ∷ (light_control_header, light_control)
    ∷ (samsungvd_media_input_source_header, samsungvd_media_input_source)
    ∷ (remote_control_header, remote_control)
    ∷ (samsungvd_sound_detection_header, samsungvd_sound_detection)
    ∷ (sound_from_header, sound_from)
    ∷ (supports_features_header, supports_features)
    ∷ (supports_power_on_by_ocf_header, supports_power_on_by_ocf)
    ∷ (thing_status_header, thing_status)
    ∷ (custom_accessibility_header, custom_accessibility)
    ∷ (deodor_filter_header, deodor_filter)
    ∷ (device_report_state_configuration_header, device_report_state_configuration)
    ∷ (disabled_capabilities_header, disabled_capabilities)
    ∷ (disabled_components_header, disabled_components)
    ∷ (dishwasher_delay_start_time_header, dishwasher_delay_start_time)
    ∷ (dishwasher_operating_percentage_header, dishwasher_operating_percentage)
    ∷ (dishwasher_operating_progress_header, dishwasher_operating_progress)
    ∷ (dryer_dry_level_header, dryer_dry_level)
    ∷ (dust_filter_header, dust_filter)
    ∷ (energy_type_header, energy_type)
    ∷ (error_header, error)
    ∷ (fridge_mode_header, fridge_mode)
    ∷ (job_beginning_status_header, job_beginning_status)
    ∷ (launchapp_header, launchapp)
    ∷ (picturemode_header, picturemode)
    ∷ (recording_header, recording)
    ∷ (soundmode_header, soundmode)
    ∷ (supported_options_header, supported_options)
    ∷ (thermostat_setpoint_control_header, thermostat_setpoint_control)
    ∷ (tvsearch_header, tvsearch)
    ∷ (washer_auto_detergent_header, washer_auto_detergent)
    ∷ (washer_auto_softener_header, washer_auto_softener)
    ∷ (washer_rinse_cycles_header, washer_rinse_cycles)
    ∷ (washer_soil_level_header, washer_soil_level)
    ∷ (washer_spin_level_header, washer_spin_level)
    ∷ (washer_water_temperature_header, washer_water_temperature)
    ∷ (water_filter_header, water_filter)
    ∷ (diagnostics_information_header, diagnostics_information)
    ∷ (smartthings_hub_header, smartthings_hub)
    ∷ (wifi_configuration_header, wifi_configuration)
    ∷ (washer_mode_header, washer_mode)
    ∷ (fixed_find_node_header, fixed_find_node)
    ∷ (hue_sync_mode_header, hue_sync_mode)
    ∷ []
