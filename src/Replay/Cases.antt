-- ===== src/Replay/Cases.antt =====
-- The test cases of tools/replay_agent_pilot.py.
use pocket_agents_lab.Prelude.{Option, none, some, String, List, [], ◌∷◌, ◌++◌}
use pocket_agents_lab.Replay.{TestCase}

-- TestCase(id, prompt, expected_tool)
abbrev tool_case : String → String → Option String → TestCase
tool_case id prompt tool = record {
  id = id;
  prompt = prompt;
  expected_tool = tool;
  expected_workflow = none;
}

-- TestCase(id, prompt, expected_workflow=workflow)
abbrev workflow_case : String → String → String → TestCase
workflow_case id prompt workflow = record {
  id = id;
  prompt = prompt;
  expected_tool = none;
  expected_workflow = some workflow;
}

abbrev storage_cases : List TestCase
storage_cases =
    tool_case "storage-01" "How much storage do I have?" (some "get_storage_info")
    ∷ tool_case "storage-02" "How much free space is left on this phone?" (some "get_storage_info")
    ∷ tool_case "storage-03" "Am I running out of disk space?" (some "get_storage_info")
    ∷ tool_case "storage-04" "Show my internal storage usage." (some "get_storage_info")
    ∷ tool_case "storage-05" "How many gigabytes can I still save?" (some "get_storage_info")
    ∷ tool_case "storage-06" "Is there room for another large model?" (some "get_storage_info")
    ∷ tool_case "storage-07" "Check available space, not battery level." (some "get_storage_info")
    ∷ tool_case "storage-08" "What fraction of the phone storage is free?" (some "get_storage_info")
    ∷ tool_case "storage-09" "Tell me the used and total storage." (some "get_storage_info")
    ∷ tool_case "storage-10" "Could a 2 GB file fit on this device right now?"
        (some "get_storage_info")
    ∷ []

abbrev device_cases : List TestCase
device_cases =
    tool_case "device-01" "What Android version is this?" (some "get_device_info")
    ∷ tool_case "device-02" "What CPU ABI does this device use?" (some "get_device_info")
    ∷ tool_case "device-03" "Which phone model am I using?" (some "get_device_info")
    ∷ tool_case "device-04" "Who manufactured this handset?" (some "get_device_info")
    ∷ tool_case "device-05" "Is this device arm64-v8a?" (some "get_device_info")
    ∷ tool_case "device-06" "Report the model, Android release, and architecture."
        (some "get_device_info")
    ∷ tool_case "device-07" "How much physical RAM does this phone expose?" (some "get_device_info")
    ∷ tool_case "device-08" "Identify the current device without discussing storage."
        (some "get_device_info")
    ∷ tool_case "device-09" "Which Android SDK and OS version are running?" (some "get_device_info")
    ∷ tool_case "device-10" "Give me this phone's hardware identity." (some "get_device_info")
    ∷ []

abbrev battery_cases : List TestCase
battery_cases =
    tool_case "battery-01" "Is my battery hot?" (some "get_battery_info")
    ∷ tool_case "battery-02" "What is my battery percentage?" (some "get_battery_info")
    ∷ tool_case "battery-03" "Is the phone charging right now?" (some "get_battery_info")
    ∷ tool_case "battery-04" "Tell me the current battery temperature." (some "get_battery_info")
    ∷ tool_case "battery-05" "How much charge remains?" (some "get_battery_info")
    ∷ tool_case "battery-06" "Check battery heat, not free storage." (some "get_battery_info")
    ∷ tool_case "battery-07" "Should I let the battery cool down?" (some "get_battery_info")
    ∷ tool_case "battery-08" "Read the live charging state." (some "get_battery_info")
    ∷ tool_case "battery-09" "Is my current battery temperature above 40 C?"
        (some "get_battery_info")
    ∷ tool_case "battery-10" "Give me charge level and temperature." (some "get_battery_info")
    ∷ []

abbrev answer_cases : List TestCase
answer_cases =
    tool_case "answer-01" "Tell me a joke." none
    ∷ tool_case "answer-02" "What is 2+2?" none
    ∷ tool_case "answer-03" "Write a five-word greeting." none
    ∷ tool_case "answer-04" "What is the capital of France?" none
    ∷ tool_case "answer-05" "Explain what an ABI is in one sentence." none
    ∷ tool_case "answer-06" "Give me a short riddle." none
    ∷ tool_case "answer-07" "Say hello without checking my device." none
    ∷ tool_case "answer-08" "What does CPU stand for?" none
    ∷ tool_case "answer-09" "Name a primary color." none
    ∷ tool_case "answer-10" "Complete this sequence: 2, 4, 6, 8, ?" none
    ∷ []

abbrev health_cases : List TestCase
health_cases =
    workflow_case "health-01" "Run a phone health check." "phone_health_check"
    ∷ workflow_case "health-02" "Check whether my phone is healthy." "phone_health_check"
    ∷ workflow_case "health-03" "Inspect my phone and suggest health improvements."
        "phone_health_check"
    ∷ workflow_case "health-04" "Are storage and battery temperature okay?" "phone_health_check"
    ∷ workflow_case "health-05" "Give this handset a complete health assessment."
        "phone_health_check"
    ∷ workflow_case "health-06" "Check both free space and battery heat together."
        "phone_health_check"
    ∷ workflow_case "health-07" "Diagnose the phone's overall condition." "phone_health_check"
    ∷ workflow_case "health-08" "Do a device wellness check and recommend actions."
        "phone_health_check"
    ∷ workflow_case "health-09" "Is this phone ready for a sustained AI workload?"
        "phone_health_check"
    ∷ workflow_case "health-10" "Review device, battery, and storage health." "phone_health_check"
    ∷ []

abbrev pub agent_test_cases : List TestCase
agent_test_cases =
    storage_cases ++ (device_cases ++ (battery_cases ++ (answer_cases ++ (health_cases))))
