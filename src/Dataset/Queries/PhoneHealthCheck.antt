-- ===== src/Dataset/Queries/PhoneHealthCheck.antt =====
-- The queries of the route phone_health_check.
use pocket_agents_lab.Prelude.{String, List, [], ◌∷◌}

abbrev pub base_phone_health_check : List String
base_phone_health_check =
    "Check my battery and storage at the same time" ∷ "How are my battery and device specs doing?"
    ∷ "Show me battery, storage, and device info"
    ∷ "Check battery level and available storage for me"
    ∷ "How much battery and how much space do I have?"
    ∷ "Check my device specs and battery together"
    ∷ "Is my storage and battery both okay for a road trip?" ∷ "Check battery and device status"
    ∷ "Show me storage capacity and current battery"
    ∷ "Check all phone stats: battery, storage, and model info"
    ∷ "What is my battery and storage situation?" ∷ "Give me battery and storage readings"
    ∷ "Both battery and storage check please" ∷ "Tell me battery status and available disk space"
    ∷ "Check my phone's battery, storage, and CPU" ∷ "How is my phone doing overall?"
    ∷ "What is the overall health of my phone?" ∷ "Is my phone in good condition?"
    ∷ "Run a full health check on my phone" ∷ "Check everything on my phone"
    ∷ "How is my phone performing overall?" ∷ "Is my phone healthy?"
    ∷ "How is the phone's overall condition?" ∷ "Give me a complete phone status report"
    ∷ "What is my phone's overall performance like?" ∷ "Is my phone ready to run an AI model?"
    ∷ "Can my phone handle a local LLM workload?" ∷ "Is the phone ready for intensive computation?"
    ∷ "Is my phone in a good state to start a long AI task?" ∷ "Should I run the model now or wait?"
    ∷ "Is my phone ready for a heavy AI workload?"
    ∷ "Can my phone handle the inference task right now?"
    ∷ "Is everything okay to start a model download and run?"
    ∷ "Check if the phone is ready for AI inference"
    ∷ "Is my phone prepared for an intensive ML task?" ∷ "Check my phone before I leave for my trip"
    ∷ "Is my phone ready for a long flight?" ∷ "Can my phone last the day? Check everything"
    ∷ "Am I ready to go? Quick phone check" ∷ "Give me a readiness check before the presentation"
    ∷ "Check my phone thoroughly before the meeting" ∷ "Is everything okay with my phone right now?"
    ∷ "Do a full check — battery, storage, all of it"
    ∷ "Is my phone in shape for a hike with no charging?"
    ∷ "Give me a complete status before I head out" ∷ "Check everything on my phone and report back"
    ∷ "Do a full phone diagnostic" ∷ "Run a complete check on my device"
    ∷ "Tell me everything about my phone's current state"
    ∷ "What does my phone look like right now? All stats" ∷ "Full status report"
    ∷ "Give me all the phone stats" ∷ "Comprehensive phone report" ∷ "Do a thorough phone check"
    ∷ "Check the phone top to bottom" ∷ "Am I low on storage and is my battery dying?"
    ∷ "Is my battery hot and is there space for a download?"
    ∷ "Check if I can both call and browse without issues"
    ∷ "Is the device model still supported and does it have space?"
    ∷ "Check my phone's charging status and available RAM"
    ∷ "Is there enough storage and enough battery for today?"
    ∷ "Is my phone too warm and running out of space?"
    ∷ "Both my battery and storage feel low — check both"
    ∷ "How is battery health and remaining storage?"
    ∷ "Is my device info current and is storage okay?"
    ∷ "Check battery and let me know about storage too"
    ∷ "Battery is at 20% and storage might be full — check both"
    ∷ "Quick check: battery, storage, and device all good?"
    ∷ "I need to know about both battery and free space"
    ∷ "Can you check my phone health including battery and disk?"
    ∷ "Check device performance: battery level and disk space"
    ∷ "Is my device well-charged and with enough storage for tonight?"
    ∷ "Phone readiness check: battery and storage status"
    ∷ "How are both the battery and available storage?" ∷ "Full battery and storage report" ∷ []

abbrev pub extra_phone_health_check : List String
extra_phone_health_check =
    "Check my phone thoroughly — battery and storage both"
    ∷ "Is my phone ready? Battery, storage, and model check"
    ∷ "Run a complete diagnostic on my device" ∷ "Assess the overall state of my phone"
    ∷ "What is my phone's current health score?" ∷ "Give me a full report on my phone right now"
    ∷ "Is my phone in peak condition?" ∷ "Tell me if my phone is in any danger of failing"
    ∷ "Is anything wrong with my phone currently?" ∷ "Is my phone performing well overall?"
    ∷ "Should I be concerned about my phone's health?" ∷ "My phone seems slow — check everything"
    ∷ "I think my phone has problems — check it" ∷ "Do a once-over on all the key phone metrics"
    ∷ "What is the overall status of this device?"
    ∷ "Is the phone in trouble with battery or storage?"
    ∷ "Check if storage OR battery is causing problems"
    ∷ "Is either battery or storage a concern right now?"
    ∷ "Tell me if battery and storage are both okay" ∷ "Both battery and storage need checking"
    ∷ "Battery might be low and storage might be full — check both"
    ∷ "I'm not sure if battery or storage is the issue — check all"
    ∷ "Is there a problem with any of my phone's resources?"
    ∷ "Check phone performance metrics: battery, storage, device"
    ∷ "All-in-one phone status: battery, storage, device ID"
    ∷ "Phone vitals check — I need all the numbers" ∷ "What are my phone's current vital stats?"
    ∷ "Is this device ready for the next 8 hours?" ∷ "Will my phone survive a long day out?"
    ∷ "Is my phone prepared for heavy use today?" ∷ "Check phone status before a long commute"
    ∷ "Is everything okay to start recording a long video?"
    ∷ "Can my phone handle a video call for an hour? Check specs"
    ∷ "Is my phone suitable for running a local AI model right now?"
    ∷ "Check device readiness for intensive use" ∷ "Do a quick check before I present to the client"
    ∷ "Before I travel, check everything on my phone" ∷ "Is my phone in shape for the camping trip?"
    ∷ "Can I use my phone as a hotspot for the day?" ∷ "What is my phone's overall readiness score?"
    ∷ "Check device health: thermal, battery, storage" ∷ "Is my phone running hot and low on space?"
    ∷ "Are battery temperature and storage space both okay?"
    ∷ "Is the phone warm and the storage full?"
    ∷ "Check if the phone is overheating and running out of space"
    ∷ "Is the device too hot and too full?" ∷ "Check both heat and disk capacity"
    ∷ "How are battery temperature and disk usage?" ∷ "Battery and device model check please"
    ∷ "Check the phone's battery and hardware specs together" ∷ "Show me storage and device summary"
    ∷ "Storage capacity and battery check for a trip"
    ∷ "Battery status and model identification please" ∷ "Check battery charge and available memory"
    ∷ "How is battery life and remaining storage?"
    ∷ "Check if I have enough battery and storage for today"
    ∷ "Will battery and storage be issues today?" ∷ "Check everything and summarize" ∷ []
