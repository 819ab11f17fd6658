-- ===== src/Dataset/Queries/GetDeviceInfo.antt =====
-- The queries of the route get_device_info.
use pocket_agents_lab.Prelude.{String, List, [], ◌∷◌}

abbrev pub base_get_device_info : List String
base_get_device_info =
    "What phone model is this?" ∷ "Who made this phone?" ∷ "What is the brand of this device?"
    ∷ "What is the full model name of my phone?" ∷ "Is this a Samsung phone?"
    ∷ "What exact device am I using?" ∷ "What is the model number of this phone?"
    ∷ "What kind of phone is this?" ∷ "What device model is running this app?"
    ∷ "What is this phone's product name?" ∷ "What version of Android is installed?"
    ∷ "What Android release am I on?" ∷ "Is my Android up to date?"
    ∷ "What is my Android version number?" ∷ "Am I running Android 13?"
    ∷ "What API level is my phone?" ∷ "What is the Android build version?"
    ∷ "Is this Android 12 or 13?" ∷ "What OS version does this phone have?"
    ∷ "What is the current Android SDK version?" ∷ "How much RAM does this phone have?"
    ∷ "What is the total memory of this device?" ∷ "How many gigabytes of RAM do I have?"
    ∷ "Is this a 4GB or 6GB RAM phone?" ∷ "How much physical memory does this device have?"
    ∷ "What is the RAM capacity of my phone?" ∷ "Does this phone have 8GB of RAM?"
    ∷ "What is this device's memory specification?" ∷ "How much RAM is on this phone?"
    ∷ "What is the installed RAM?" ∷ "What CPU does this phone use?"
    ∷ "What processor is in my phone?" ∷ "What is the chip inside this phone?"
    ∷ "What CPU architecture does this phone support?" ∷ "Is this an ARM64 device?"
    ∷ "What is the ABI of this phone?" ∷ "What chipset powers this phone?"
    ∷ "What is this device's instruction set?" ∷ "What processor model is in here?"
    ∷ "Is this phone running on a Mediatek chip?" ∷ "What are the specs of this phone?"
    ∷ "What is the screen resolution of this device?" ∷ "What display size does this phone have?"
    ∷ "Does this phone support 5G?" ∷ "What sensors does this phone have?"
    ∷ "What is the hardware configuration of this device?" ∷ "Is my device model still supported?"
    ∷ "Is this phone hardware still current?" ∷ "What is the device identification?"
    ∷ "Tell me about this device" ∷ "What device am I on?" ∷ "Device info please"
    ∷ "Show me this device's specifications" ∷ "What Android build is this?"
    ∷ "What is my device fingerprint?" ∷ "Tell me the device details"
    ∷ "Describe this phone's hardware" ∷ "What hardware is in this phone?"
    ∷ "What Android release version is installed on this device?" ∷ "Is this phone 64-bit?"
    ∷ "What is the kernel version?" ∷ "What system is running on this phone?"
    ∷ "What is my phone's security patch level?" ∷ "What build number is installed?"
    ∷ "Is this device compatible with ARMv8.2?" ∷ "What SoC does this phone use?" ∷ []

abbrev pub extra_get_device_info : List String
extra_get_device_info =
    "What is the exact product name of this phone?" ∷ "Is this device manufactured by Samsung?"
    ∷ "Is this a flagship or mid-range device?" ∷ "What GPU does this phone have?"
    ∷ "What neural processing unit is on this chip?" ∷ "Is this phone 5G capable?"
    ∷ "What is the display refresh rate of this device?"
    ∷ "How many rear cameras does this phone have?"
    ∷ "What is the fingerprint sensor type on this device?" ∷ "Does this phone have NFC?"
    ∷ "What is this device's IP rating?" ∷ "What is the screen resolution on this phone?"
    ∷ "What modem is in this device?" ∷ "Is this phone a dual SIM device?"
    ∷ "What is the maximum RAM supported by this phone?"
    ∷ "What generation of Bluetooth does this phone support?" ∷ "Is this phone DLSS certified?"
    ∷ "What cameras does this phone officially support?" ∷ "How old is this device model?"
    ∷ "What is the release year of this phone?" ∷ "Is this phone still receiving Android updates?"
    ∷ "Is this device end-of-life?" ∷ "What is the last official Android version for this phone?"
    ∷ "Is this phone officially supported by the manufacturer?"
    ∷ "What is the hardware model identifier?" ∷ "What are the exact device dimensions?"
    ∷ "What is the phone's announced weight?" ∷ "What SIM card size does this phone use?"
    ∷ "Does this phone have a headphone jack?" ∷ "What charging port does this device use?"
    ∷ "Is this phone manufactured in Korea or China?"
    ∷ "What is the official name of this phone's system-on-chip?"
    ∷ "What FCC ID does this phone have?" ∷ "What carrier bands does this phone support?"
    ∷ "Does this phone support Wi-Fi 6?" ∷ "What is the exact Android patch date on this phone?"
    ∷ "Is this phone running a custom ROM?" ∷ "What bootloader version is this?"
    ∷ "Is this phone rooted?" ∷ "What kernel is running on this device?"
    ∷ "What is the hardware revision number?" ∷ "What is the full device fingerprint?"
    ∷ "What IMEI does this phone have?" ∷ "Is this device carrier-locked?"
    ∷ "What is the hardware architecture of the main processor?" ∷ "Is this phone 64-bit native?"
    ∷ "What is the max clock speed of the CPU?" ∷ "How many CPU cores does this phone have?"
    ∷ "What is the cache size on this chip?" ∷ "Does this device support AV1 hardware decoding?"
    ∷ "What is the phone's Geekbench single-core score?"
    ∷ "What screen technology does this phone use?" ∷ "Is this an AMOLED or LCD display?"
    ∷ "What is the HDR certification on this phone?" ∷ []
