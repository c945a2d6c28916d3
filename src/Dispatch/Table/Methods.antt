-- ===== src/Dispatch/Table/Methods.antt =====
-- The rows of the dispatch table of src/onvif_dispatch.c, service by service in its order. A handler
-- is named by its C function.
use thingino_onvif.Base.{List, [], ◌∷◌, String}

abbrev pub device_methods : List (String × String)
device_methods =
    ("GetServices", "device_get_services")
    ∷ ("GetServiceCapabilities", "device_get_service_capabilities")
    ∷ ("GetDeviceInformation", "device_get_device_information")
    ∷ ("GetSystemDateAndTime", "device_get_system_date_and_time")
    ∷ ("SetSystemDateAndTime", "device_set_system_date_and_time")
    ∷ ("SystemReboot", "device_system_reboot")
    ∷ ("GetScopes", "device_get_scopes")
    ∷ ("GetUsers", "device_get_users")
    ∷ ("CreateUsers", "device_create_users")
    ∷ ("DeleteUsers", "device_delete_users")
    ∷ ("SetUser", "device_set_user")
    ∷ ("GetWsdlUrl", "device_get_wsdl_url")
    ∷ ("GetHostname", "device_get_hostname")
    ∷ ("GetEndpointReference", "device_get_endpoint_reference")
    ∷ ("GetCapabilities", "device_get_capabilities")
    ∷ ("GetNetworkInterfaces", "device_get_network_interfaces")
    ∷ ("GetNetworkProtocols", "device_get_network_protocols")
    ∷ ("GetDiscoveryMode", "device_get_discovery_mode")
    ∷ ("GetNTP", "device_get_ntp")
    ∷ ("SetRelayOutputState", "deviceio_set_relay_output_state")
    ∷ []

abbrev pub deviceio_methods : List (String × String)
deviceio_methods =
    ("GetVideoSources", "deviceio_get_video_sources")
    ∷ ("GetServiceCapabilities", "deviceio_get_service_capabilities")
    ∷ ("GetAudioOutputs", "deviceio_get_audio_outputs")
    ∷ ("GetAudioSources", "deviceio_get_audio_sources")
    ∷ ("GetRelayOutputs", "deviceio_get_relay_outputs")
    ∷ ("GetRelayOutputOptions", "deviceio_get_relay_output_options")
    ∷ ("SetRelayOutputSettings", "deviceio_set_relay_output_settings")
    ∷ ("SetRelayOutputState", "deviceio_set_relay_output_state")
    ∷ []

abbrev pub media_methods : List (String × String)
media_methods =
    ("GetServiceCapabilities", "media_get_service_capabilities")
    ∷ ("GetVideoSources", "media_get_video_sources")
    ∷ ("GetVideoSourceConfigurations", "media_get_video_source_configurations")
    ∷ ("GetVideoSourceConfiguration", "media_get_video_source_configuration")
    ∷ ("GetCompatibleVideoSourceConfigurations", "media_get_compatible_video_source_configurations")
    ∷ ("GetVideoSourceConfigurationOptions", "media_get_video_source_configuration_options")
    ∷ ("GetProfiles", "media_get_profiles")
    ∷ ("GetProfile", "media_get_profile")
    ∷ ("CreateProfile", "media_create_profile")
    ∷ ("GetVideoEncoderConfigurations", "media_get_video_encoder_configurations")
    ∷ ("GetVideoEncoderConfiguration", "media_get_video_encoder_configuration")
    ∷ (
      "GetCompatibleVideoEncoderConfigurations",
      "media_get_compatible_video_encoder_configurations",
    )
    ∷ (
      "GetGuaranteedNumberOfVideoEncoderInstances",
      "media_get_guaranteed_number_of_video_encoder_instances",
    )
    ∷ ("GetVideoEncoderConfigurationOptions", "media_get_video_encoder_configuration_options")
    ∷ ("GetSnapshotUri", "media_get_snapshot_uri")
    ∷ ("GetStreamUri", "media_get_stream_uri")
    ∷ ("GetAudioSources", "media_get_audio_sources")
    ∷ ("GetAudioSourceConfigurations", "media_get_audio_source_configurations")
    ∷ ("GetAudioSourceConfiguration", "media_get_audio_source_configuration")
    ∷ ("GetAudioSourceConfigurationOptions", "media_get_audio_source_configuration_options")
    ∷ ("GetAudioEncoderConfiguration", "media_get_audio_encoder_configuration")
    ∷ ("GetAudioEncoderConfigurations", "media_get_audio_encoder_configurations")
    ∷ ("GetAudioEncoderConfigurationOptions", "media_get_audio_encoder_configuration_options")
    ∷ ("GetAudioDecoderConfiguration", "media_get_audio_decoder_configuration")
    ∷ ("GetAudioDecoderConfigurations", "media_get_audio_decoder_configurations")
    ∷ ("GetAudioDecoderConfigurationOptions", "media_get_audio_decoder_configuration_options")
    ∷ ("GetAudioOutputs", "media_get_audio_outputs")
    ∷ ("GetAudioOutputConfiguration", "media_get_audio_output_configuration")
    ∷ ("GetAudioOutputConfigurations", "media_get_audio_output_configurations")
    ∷ ("GetAudioOutputConfigurationOptions", "media_get_audio_output_configuration_options")
    ∷ ("GetCompatibleAudioSourceConfigurations", "media_get_compatible_audio_source_configurations")
    ∷ (
      "GetCompatibleAudioEncoderConfigurations",
      "media_get_compatible_audio_encoder_configurations",
    )
    ∷ (
      "GetCompatibleAudioDecoderConfigurations",
      "media_get_compatible_audio_decoder_configurations",
    )
    ∷ ("GetCompatibleAudioOutputConfigurations", "media_get_compatible_audio_output_configurations")
    ∷ []

abbrev pub media_set_methods : List (String × String)
media_set_methods =
    ("SetVideoSourceConfiguration", "media_set_video_source_configuration")
    ∷ ("SetAudioSourceConfiguration", "media_set_audio_source_configuration")
    ∷ ("SetVideoEncoderConfiguration", "media_set_video_encoder_configuration")
    ∷ ("SetAudioEncoderConfiguration", "media_set_audio_encoder_configuration")
    ∷ ("SetAudioOutputConfiguration", "media_set_audio_output_configuration")
    ∷ ("SetMetadataConfiguration", "media_set_metadata_configuration")
    ∷ []

abbrev pub media_more_methods : List (String × String)
media_more_methods =
    ("DeleteProfile", "media_delete_profile")
    ∷ ("GetMetadataConfigurations", "media_get_metadata_configurations")
    ∷ ("GetMetadataConfiguration", "media_get_metadata_configuration")
    ∷ ("GetCompatibleMetadataConfigurations", "media_get_compatible_metadata_configurations")
    ∷ ("GetMetadataConfigurationOptions", "media_get_metadata_configuration_options")
    ∷ ("AddVideoEncoderConfiguration", "media_add_video_encoder_configuration")
    ∷ ("AddVideoSourceConfiguration", "media_add_video_source_configuration")
    ∷ ("AddAudioEncoderConfiguration", "media_add_audio_encoder_configuration")
    ∷ ("AddAudioSourceConfiguration", "media_add_audio_source_configuration")
    ∷ ("AddPTZConfiguration", "media_add_ptz_configuration")
    ∷ ("RemoveVideoEncoderConfiguration", "media_remove_video_encoder_configuration")
    ∷ ("RemoveVideoSourceConfiguration", "media_remove_video_source_configuration")
    ∷ ("RemoveAudioEncoderConfiguration", "media_remove_audio_encoder_configuration")
    ∷ ("RemoveAudioSourceConfiguration", "media_remove_audio_source_configuration")
    ∷ ("RemovePTZConfiguration", "media_remove_ptz_configuration")
    ∷ ("StartMulticastStreaming", "media_start_multicast_streaming")
    ∷ ("StopMulticastStreaming", "media_stop_multicast_streaming")
    ∷ ("SetSynchronizationPoint", "media_set_synchronization_point")
    ∷ []

abbrev pub imaging_methods : List (String × String)
imaging_methods =
    ("GetServiceCapabilities", "imaging_get_service_capabilities")
    ∷ ("GetImagingSettings", "imaging_get_imaging_settings")
    ∷ ("GetOptions", "imaging_get_options")
    ∷ ("SetImagingSettings", "imaging_set_imaging_settings")
    ∷ ("Move", "imaging_move")
    ∷ ("GetMoveOptions", "imaging_get_move_options")
    ∷ ("Stop", "imaging_stop")
    ∷ ("GetStatus", "imaging_get_status")
    ∷ ("GetPresets", "imaging_get_presets")
    ∷ ("GetCurrentPreset", "imaging_get_current_preset")
    ∷ ("SetCurrentPreset", "imaging_set_current_preset")
    ∷ []

abbrev pub ptz_methods : List (String × String)
ptz_methods =
    ("GetServiceCapabilities", "ptz_get_service_capabilities")
    ∷ ("GetConfigurations", "ptz_get_configurations")
    ∷ ("GetConfiguration", "ptz_get_configuration")
    ∷ ("GetConfigurationOptions", "ptz_get_configuration_options")
    ∷ ("GetNodes", "ptz_get_nodes")
    ∷ ("GetNode", "ptz_get_node")
    ∷ ("GetPresets", "ptz_get_presets")
    ∷ ("GotoPreset", "ptz_goto_preset")
    ∷ ("GotoHomePosition", "ptz_goto_home_position")
    ∷ ("ContinuousMove", "ptz_continuous_move")
    ∷ ("RelativeMove", "ptz_relative_move")
    ∷ ("SendAuxiliaryCommand", "ptz_send_auxiliary_command")
    ∷ ("MoveAndStartTracking", "ptz_move_and_start_tracking")
    ∷ ("GetPresetTours", "ptz_get_preset_tours")
    ∷ ("GetPresetTour", "ptz_get_preset_tour")
    ∷ ("GetPresetTourOptions", "ptz_get_preset_tour_options")
    ∷ ("CreatePresetTour", "ptz_create_preset_tour")
    ∷ ("ModifyPresetTour", "ptz_modify_preset_tour")
    ∷ ("OperatePresetTour", "ptz_operate_preset_tour")
    ∷ ("RemovePresetTour", "ptz_remove_preset_tour")
    ∷ ("AbsoluteMove", "ptz_absolute_move")
    ∷ ("Stop", "ptz_stop")
    ∷ ("GetStatus", "ptz_get_status")
    ∷ ("SetPreset", "ptz_set_preset")
    ∷ ("SetHomePosition", "ptz_set_home_position")
    ∷ ("RemovePreset", "ptz_remove_preset")
    ∷ ("SetConfiguration", "ptz_set_configuration")
    ∷ ("GetCompatibleConfigurations", "ptz_get_compatible_configurations")
    ∷ []

abbrev pub events_methods : List (String × String)
events_methods =
    ("GetServiceCapabilities", "events_get_service_capabilities")
    ∷ ("CreatePullPointSubscription", "events_create_pull_point_subscription")
    ∷ ("PullMessages", "events_pull_messages")
    ∷ ("Subscribe", "events_subscribe")
    ∷ ("Renew", "events_renew")
    ∷ ("Unsubscribe", "events_unsubscribe")
    ∷ ("GetEventProperties", "events_get_event_properties")
    ∷ ("SetSynchronizationPoint", "events_set_synchronization_point")
    ∷ []

abbrev pub media2_methods : List (String × String)
media2_methods =
    ("GetServiceCapabilities", "media2_get_service_capabilities")
    ∷ ("GetProfiles", "media2_get_profiles")
    ∷ ("GetVideoSourceModes", "media2_get_video_source_modes")
    ∷ ("GetVideoSourceConfigurations", "media2_get_video_source_configurations")
    ∷ ("GetVideoSourceConfigurationOptions", "media2_get_video_source_configuration_options")
    ∷ ("GetVideoEncoderConfigurations", "media2_get_video_encoder_configurations")
    ∷ ("GetVideoEncoderConfigurationOptions", "media2_get_video_encoder_configuration_options")
    ∷ ("GetAudioSourceConfigurations", "media2_get_audio_source_configurations")
    ∷ ("GetAudioSourceConfigurationOptions", "media2_get_audio_source_configuration_options")
    ∷ ("GetAudioEncoderConfigurations", "media2_get_audio_encoder_configurations")
    ∷ ("GetAudioEncoderConfigurationOptions", "media2_get_audio_encoder_configuration_options")
    ∷ ("GetAudioOutputConfigurations", "media2_get_audio_output_configurations")
    ∷ ("GetAudioOutputConfigurationOptions", "media2_get_audio_output_configuration_options")
    ∷ ("GetAudioDecoderConfigurations", "media2_get_audio_decoder_configurations")
    ∷ ("GetAudioDecoderConfigurationOptions", "media2_get_audio_decoder_configuration_options")
    ∷ ("GetSnapshotUri", "media2_get_snapshot_uri")
    ∷ ("GetStreamUri", "media2_get_stream_uri")
    ∷ []

abbrev pub media2_set_methods : List (String × String)
media2_set_methods =
    ("SetVideoSourceConfiguration", "media2_set_video_source_configuration")
    ∷ ("SetAudioSourceConfiguration", "media2_set_audio_source_configuration")
    ∷ ("SetVideoEncoderConfiguration", "media2_set_video_encoder_configuration")
    ∷ ("SetAudioEncoderConfiguration", "media2_set_audio_encoder_configuration")
    ∷ ("SetAudioOutputConfiguration", "media2_set_audio_output_configuration")
    ∷ []

abbrev pub media2_more_methods : List (String × String)
media2_more_methods =
    ("CreateProfile", "media2_create_profile")
    ∷ ("AddConfiguration", "media2_add_configuration")
    ∷ ("RemoveConfiguration", "media2_remove_configuration")
    ∷ ("DeleteProfile", "media2_delete_profile")
    ∷ ("SetSynchronizationPoint", "media2_set_synchronization_point")
    ∷ ("GetVideoEncoderInstances", "media2_get_video_encoder_instances")
    ∷ []
