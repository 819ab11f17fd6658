-- ===== src/Dataset/Queries/GetBatteryInfo.antt =====
-- The queries of the route get_battery_info.
use pocket_agents_lab.Prelude.{String, List, [], ◌∷◌}

abbrev pub base_get_battery_info : List String
base_get_battery_info =
    "What is my battery percentage right now?" ∷ "How much battery life do I have left?"
    ∷ "What's my current charge level?" ∷ "Is my battery almost dead?"
    ∷ "How much charge do I have?" ∷ "Is my battery above 50 percent?"
    ∷ "Am I running low on battery?" ∷ "What percentage is my battery at?"
    ∷ "Do I have enough battery to last an hour?" ∷ "Is my phone about to die?"
    ∷ "Is my phone charging right now?" ∷ "Am I plugged in?" ∷ "Is the charger connected?"
    ∷ "Is my phone on charge?" ∷ "Has my phone finished charging?"
    ∷ "Is my wireless charger working?" ∷ "Is charging active?"
    ∷ "Is my phone currently being charged?" ∷ "Am I on USB or wireless charging?"
    ∷ "Did my fast charger kick in?" ∷ "Is my battery getting hot?"
    ∷ "Is the battery temperature normal?" ∷ "How warm is my battery?" ∷ "Is my phone overheating?"
    ∷ "Is the battery cool enough?" ∷ "Is my phone running hot?"
    ∷ "Is the battery temperature safe?" ∷ "Is my phone too warm for charging?"
    ∷ "How hot is the battery right now?" ∷ "Is the battery temperature within safe range?"
    ∷ "How long until my phone is fully charged?" ∷ "How long will my battery last at this rate?"
    ∷ "Will my battery last until tonight?" ∷ "Can I last another two hours on this battery?"
    ∷ "How many minutes until the phone dies?" ∷ "Is my battery in good health?"
    ∷ "Is my battery still healthy?" ∷ "Has my battery degraded?"
    ∷ "What is my battery health percentage?" ∷ "Is my battery capacity still full?"
    ∷ "Is my battery wearing out?" ∷ "How is my battery holding up?"
    ∷ "Is my battery performance good?" ∷ "Should I be worried about my battery condition?"
    ∷ "Is my battery getting worse over time?" ∷ "What is draining my battery?"
    ∷ "Is something using a lot of battery?" ∷ "What is my current battery drain rate?"
    ∷ "Is background activity hurting my battery?" ∷ "Is screen-on time reducing my battery?"
    ∷ "Check my battery level and let me know if I should charge" ∷ "Tell me the battery status"
    ∷ "Give me the battery info" ∷ "I need to know my battery" ∷ "Show me my battery"
    ∷ "Battery status please" ∷ "How is my battery doing?" ∷ "What does my battery look like?"
    ∷ "Is my battery okay right now?" ∷ "Battery check — how much do I have?"
    ∷ "Let me know about my battery" ∷ "Battery report please" ∷ "How is the battery performing?"
    ∷ "Is my battery going to last for the meeting?" ∷ "Will my phone survive a two-hour drive?"
    ∷ "Can I watch a movie on this battery?" ∷ "Do I need to charge before I leave?"
    ∷ "Will the battery last until I get home?" ∷ "Can I make a 30-minute call on this battery?"
    ∷ "Is my battery life acceptable for today?" ∷ []

abbrev pub extra_get_battery_info : List String
extra_get_battery_info =
    "What is the exact charge right now?" ∷ "Is my phone fully charged?"
    ∷ "How much battery have I used today?" ∷ "Is my battery at 80% or higher?"
    ∷ "Can I start a video call on this battery?" ∷ "Is my battery too low to record a video?"
    ∷ "Will this phone make it through the night?" ∷ "How fast is my battery draining?"
    ∷ "What app is consuming the most battery?" ∷ "Is my battery in saver mode?"
    ∷ "Is my phone in low-power mode?" ∷ "Is the battery below 15%?"
    ∷ "When did my phone last charge fully?" ∷ "Is my battery normal temperature for this weather?"
    ∷ "Is it safe to charge my phone now?" ∷ "Should I enable battery optimization?"
    ∷ "Is my battery going to last for the movie?"
    ∷ "How long has my phone been running since last charge?" ∷ "Is my battery status green or red?"
    ∷ "Is my phone discharging faster than usual?" ∷ "Is my phone power-saving mode active?"
    ∷ "What is the amperage going into the battery?"
    ∷ "Is my charging speed fast or slow right now?" ∷ "Is USB charging working at the moment?"
    ∷ "Is my battery behaving normally?" ∷ "Can I run the AI model without dying?"
    ∷ "Does my battery have enough juice for 45 minutes?" ∷ "Quickly tell me my battery level"
    ∷ "Instant battery check" ∷ "Is my battery above 30%?"
    ∷ "Is my phone charged enough to last the commute?"
    ∷ "Can I browse the internet for an hour on this battery?"
    ∷ "Is the battery indicator accurate?" ∷ "Does the battery need replacing?"
    ∷ "Is the battery degraded from original capacity?" ∷ "Is battery charge at maximum right now?"
    ∷ "Can I run navigation for two hours on this charge?"
    ∷ "Is my battery in an optimal charge range?" ∷ "What is my battery's current voltage?"
    ∷ "Is my phone going to warn me about battery soon?" ∷ "Do I need to find a charger soon?"
    ∷ "Is charging complete?" ∷ "Has the phone reached 100%?"
    ∷ "Is the charging cable working based on battery reading?"
    ∷ "Is my battery rising or falling right now?" ∷ "Is my current charge enough for the meeting?"
    ∷ "Is my phone too warm to charge safely?" ∷ "Check if I should remove the case while charging"
    ∷ "Is my battery draining even while plugged in?"
    ∷ "Is my phone charging faster on this adapter?" ∷ "Is turbo charging active?"
    ∷ "Is wireless charging at full speed?" ∷ "Is reverse wireless charging on?" ∷ []
