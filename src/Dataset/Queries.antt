-- ===== src/Dataset/Queries.antt =====
-- The queries of tools/build_phone_routing_dataset.py, with those of
-- tools/phone_routing_extra_queries.py behind them.
mod Answer
mod GetBatteryInfo
mod GetDeviceInfo
mod GetStorageInfo
mod GetMediaInfo
mod SearchLocalFiles
mod SearchNotes
mod SaveNote
mod PhoneHealthCheck
use pocket_agents_lab.Prelude.{String, List, [], ◌∷◌, ◌++◌}
use Answer.{base_answer, extra_answer}
use GetBatteryInfo.{base_get_battery_info, extra_get_battery_info}
use GetDeviceInfo.{base_get_device_info, extra_get_device_info}
use GetStorageInfo.{base_get_storage_info, extra_get_storage_info}
use GetMediaInfo.{base_get_media_info, extra_get_media_info}
use SearchLocalFiles.{base_search_local_files, extra_search_local_files}
use SearchNotes.{base_search_notes, extra_search_notes}
use SaveNote.{base_save_note, extra_save_note}
use PhoneHealthCheck.{base_phone_health_check, extra_phone_health_check}

-- QUERIES
abbrev pub queries : List (String × List String)
queries =
    ("answer", base_answer ++ extra_answer)
    ∷ ("get_battery_info", base_get_battery_info ++ extra_get_battery_info)
    ∷ ("get_device_info", base_get_device_info ++ extra_get_device_info)
    ∷ ("get_storage_info", base_get_storage_info ++ extra_get_storage_info)
    ∷ ("get_media_info", base_get_media_info ++ extra_get_media_info)
    ∷ ("search_local_files", base_search_local_files ++ extra_search_local_files)
    ∷ ("search_notes", base_search_notes ++ extra_search_notes)
    ∷ ("save_note", base_save_note ++ extra_save_note)
    ∷ ("phone_health_check", base_phone_health_check ++ extra_phone_health_check)
    ∷ []
