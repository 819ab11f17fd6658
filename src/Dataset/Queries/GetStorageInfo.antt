-- ===== src/Dataset/Queries/GetStorageInfo.antt =====
-- The queries of the route get_storage_info.
use pocket_agents_lab.Prelude.{String, List, [], ◌∷◌}

abbrev pub base_get_storage_info : List String
base_get_storage_info =
    "How much storage space do I have left?" ∷ "How much free space is on my phone?"
    ∷ "Am I running out of storage?" ∷ "How many GB of space do I have free?"
    ∷ "Is my storage almost full?" ∷ "How much room is left on my phone?"
    ∷ "Do I have enough space to install an app?" ∷ "How much storage is available?"
    ∷ "Is my internal storage nearly full?" ∷ "How much space is left on the device?"
    ∷ "How much storage am I using?" ∷ "How full is my phone's storage?"
    ∷ "What percentage of my storage is used?" ∷ "How much of my storage is taken up?"
    ∷ "What is my storage utilization?" ∷ "How much total storage does my phone have?"
    ∷ "What is the storage capacity of this phone?" ∷ "Is this a 64GB or 128GB phone?"
    ∷ "How many gigabytes of storage does this device have?" ∷ "What is the internal storage size?"
    ∷ "Can I download a 500MB app?" ∷ "Will a 2GB video fit on my phone?"
    ∷ "Do I have space for a new game?" ∷ "Can I save a large PDF?"
    ∷ "Is there room to record a 10-minute video?" ∷ "Can I install this 1.5GB update?"
    ∷ "Do I have space for photos from today?" ∷ "Will I be able to cache this podcast?"
    ∷ "Can I download this 300MB model file?" ∷ "Is there enough space for a 4K video?"
    ∷ "Can I run an AI model locally with my storage?"
    ∷ "Do I have enough space to download the LLM?" ∷ "Is there room for a 600MB GGUF file?"
    ∷ "Can I fit another model on this phone?"
    ∷ "How much storage would I need to free up for a 1GB model?" ∷ "Should I free up storage?"
    ∷ "Am I low on disk space?" ∷ "Do I need to delete some files?"
    ∷ "Is my storage critically low?" ∷ "What is my storage status?" ∷ "Tell me about my storage"
    ∷ "Storage check" ∷ "How is my storage?" ∷ "Storage report please"
    ∷ "What is my disk space situation?" ∷ "Show me my storage status"
    ∷ "Is my phone's storage okay?" ∷ "How much of my storage is left?" ∷ "Storage info"
    ∷ "Is my storage healthy?" ∷ "What are my storage stats?" ∷ "How is my storage holding up?"
    ∷ "How much space is on this phone?" ∷ "Tell me my storage numbers"
    ∷ "Do I have room for more files?" ∷ "Can I keep more photos?"
    ∷ "Is there space for my music library?" ∷ "How much data am I storing?"
    ∷ "Can I save a movie locally?" ∷ "What is the storage breakdown on this phone?" ∷ []

abbrev pub extra_get_storage_info : List String
extra_get_storage_info =
    "How many megabytes of storage are free?" ∷ "Is my storage above 50% full?"
    ∷ "What is my storage breakdown by category?" ∷ "How much space is taken by apps?"
    ∷ "How much space do my photos take?" ∷ "How much space do my videos occupy?"
    ∷ "How much space do downloaded files use?" ∷ "What is taking up my storage?"
    ∷ "Is my internal storage critically low?" ∷ "Do I need to delete files before taking photos?"
    ∷ "Can I install a 200MB app right now?" ∷ "Will a 4K video fit on my phone?"
    ∷ "Is there room for a system update?" ∷ "How much storage would I need to free?"
    ∷ "What is the read/write speed of my storage?" ∷ "Is my storage a UFS or eMMC type?"
    ∷ "Is my storage fast enough for 4K recording?" ∷ "Do I have an SD card installed?"
    ∷ "How much storage is on my SD card?" ∷ "Is the SD card mounted?"
    ∷ "What percentage of my SD card is used?" ∷ "How much combined storage do I have?"
    ∷ "Is there enough space to back up my photos?" ∷ "Can I sync my documents locally?"
    ∷ "Is there room for the OS update package?" ∷ "How much cache is accumulated on my phone?"
    ∷ "Should I clear app caches?" ∷ "Is 10GB enough for what I need?"
    ∷ "Can I record an hour-long podcast locally?" ∷ "Is my storage fragmented?"
    ∷ "What type of storage is in this phone?"
    ∷ "Can I store my entire music library on this phone?"
    ∷ "How many photos can I still take at this resolution?"
    ∷ "Is there room for a 30-minute screen recording?" ∷ "How many GB are reserved by the system?"
    ∷ "What is the raw storage capacity before formatting?"
    ∷ "Is my storage near the warning threshold?" ∷ "Have I exceeded my storage quota?"
    ∷ "Is there room to cache the offline map?" ∷ "Can I download the offline language pack?"
    ∷ "What is the storage status right now?" ∷ "Is there storage available for the model file?"
    ∷ "Can I download a 1.2GB file?" ∷ "Is my phone low enough on storage to cause slowdowns?"
    ∷ "Will low storage affect my phone performance?"
    ∷ "How close am I to running out of disk space?" ∷ "Is 100MB enough free space for normal use?"
    ∷ "Is my phone's storage space adequate?" ∷ "What is my current disk usage figure?"
    ∷ "Is my storage almost exhausted?" ∷ "Can my phone handle more data without slowdown?"
    ∷ "Is my disk space critically low?" ∷ "Is there at least 1GB free on this phone?"
    ∷ "How much space do I have for the download?" ∷ "How many GB do I need to delete to free 2GB?"
    ∷ "Is there space to install the latest app update?"
    ∷ "Can I cache this streaming content offline?"
    ∷ "Is there room to save this large email attachment?" ∷ "What percentage of the phone is full?"
    ∷ "Is my storage optimized?" ∷ []
