-- ===== src/Dataset/Queries/SearchLocalFiles.antt =====
-- The queries of the route search_local_files.
use pocket_agents_lab.Prelude.{String, List, [], ◌∷◌}

abbrev pub base_search_local_files : List String
base_search_local_files =
    "Find the file named report_final.pdf" ∷ "Search for a document called budget_2026"
    ∷ "Find my file named contract.docx" ∷ "Look for a PDF I downloaded called user_manual"
    ∷ "Find the file project_proposal that I saved last week"
    ∷ "Is there a file called invoice_april on my phone?"
    ∷ "Locate the file I downloaded from the email" ∷ "Find my downloaded tax form"
    ∷ "Search for a spreadsheet named expenses" ∷ "Find the presentation file I saved yesterday"
    ∷ "Find all PDF files on my phone" ∷ "Search for Word documents I have"
    ∷ "Find recently downloaded files" ∷ "What APK files do I have?" ∷ "Search for any ZIP archives"
    ∷ "Find MP3 files on my phone" ∷ "Look for image files I downloaded"
    ∷ "Find text files on my device" ∷ "Search for any Excel files"
    ∷ "Find video files in my downloads" ∷ "Search my files for the phrase 'meeting notes'"
    ∷ "Find a document that mentions 'contract renewal'"
    ∷ "Search for files containing 'passport number'"
    ∷ "Find a file with the text 'quarterly review'"
    ∷ "Look for documents mentioning 'project deadline'" ∷ "Search my files for 'insurance policy'"
    ∷ "Find documents containing 'travel itinerary'"
    ∷ "Search for any file with 'recipe' in the content" ∷ "Find files mentioning 'annual report'"
    ∷ "Look for a document that has my address" ∷ "Find the photo I took of the whiteboard"
    ∷ "Search for the receipt I photographed" ∷ "Find the screenshot from last Tuesday"
    ∷ "Look for photos from my last trip" ∷ "Find images I saved from the web"
    ∷ "Search for documents I worked on this month" ∷ "Find the file I received from my colleague"
    ∷ "Look for anything I downloaded from email" ∷ "Find the backup file I made"
    ∷ "Search for my CV file" ∷ "Can you find that file for me?"
    ∷ "I'm looking for a specific document" ∷ "Help me find a file on my phone"
    ∷ "Locate a document I saved" ∷ "Search my phone's files" ∷ "Find something in my downloads"
    ∷ "I saved a file earlier, help me find it" ∷ "Look through my phone's storage for a document"
    ∷ "Find that file I downloaded" ∷ "Search my local storage" ∷ "Help me track down a file"
    ∷ "I need to find a document on my device" ∷ "Search my phone for a file"
    ∷ "Can you locate a document I have?" ∷ "Find a locally stored file"
    ∷ "Where did I save that PDF?" ∷ "Find the file I moved to downloads" ∷ "Look for my saved file"
    ∷ "Search for a document on this phone" ∷ "Find that document I transferred from my computer"
    ∷ []

abbrev pub extra_search_local_files : List String
extra_search_local_files =
    "Find the file named meeting_minutes.docx" ∷ "Search for a file called budget_q4.xlsx"
    ∷ "Locate the image I downloaded named receipt"
    ∷ "Is there a file called passport_scan on my phone?"
    ∷ "Find the document I saved called lease_agreement"
    ∷ "Search my phone for a file ending in .csv" ∷ "Find my recently downloaded PDFs"
    ∷ "Is there a file named medical_report in my downloads?"
    ∷ "Search for all files I downloaded this month"
    ∷ "Find the video I saved called tutorial_final" ∷ "Look for any APK files I've downloaded"
    ∷ "Find the ZIP file I downloaded" ∷ "Search for EPUB files on my device"
    ∷ "Find any SQLite database files" ∷ "Look for files I haven't opened in a long time"
    ∷ "Find recently modified documents" ∷ "Is there a file called itinerary on my phone?"
    ∷ "Search my phone for a document about insurance" ∷ "Find the scan I took of the contract"
    ∷ "Look for any scanned document files"
    ∷ "Search for files containing the phrase 'renewal date'"
    ∷ "Find documents mentioning 'agreement number'"
    ∷ "Search local files for anything about 'warranty'"
    ∷ "Find a document with 'invoice' in the content" ∷ "Search my files for 'visa application'"
    ∷ "Look for any files that contain my name" ∷ "Find files related to my tax documents"
    ∷ "Search for any files mentioning 'subscription'"
    ∷ "Find files containing the project code 'XYZ-2026'"
    ∷ "Search for any files with 'payment' in them" ∷ "Find the ebook I downloaded last week"
    ∷ "Locate the manual I saved as PDF" ∷ "Search for offline maps I downloaded"
    ∷ "Find the config file I saved" ∷ "Search for any log files on my device"
    ∷ "Find image files from the trip I took" ∷ "Search for GIF files saved to my phone"
    ∷ "Find wallpapers I downloaded" ∷ "Locate a screenshot I took earlier"
    ∷ "Search for screenshots from this week" ∷ "Find the file I received via Bluetooth"
    ∷ "Look for files transferred from my computer" ∷ "Find the backup I made of my notes"
    ∷ "Search for any exported chat history files" ∷ "Find my CV in PDF format"
    ∷ "Is there a copy of my diploma on this phone?" ∷ "Find the architecture diagram file"
    ∷ "Search for Markdown files I've saved" ∷ "Find any Python scripts on my phone"
    ∷ "Locate the presentation I exported" ∷ "Find the spreadsheet with my expenses"
    ∷ "Search for the design mockup file" ∷ "Find the audio recording I made"
    ∷ "Search for voice memos I saved" ∷ "Find any MIDI files on this device"
    ∷ "Search for the file my colleague sent me" ∷ "Find the document I edited two days ago"
    ∷ "Search my downloaded folder for the application form"
    ∷ "Is the registration form I downloaded still here?" ∷ "Find the image of the QR code I saved"
    ∷ []
