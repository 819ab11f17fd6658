-- ===== src/Dataset/Queries/SaveNote.antt =====
-- The queries of the route save_note.
use pocket_agents_lab.Prelude.{String, List, [], ◌∷◌}

abbrev pub base_save_note : List String
base_save_note =
    "Save this number: 555-0198" ∷ "Remember my doctor's number is 0212 555 0101"
    ∷ "Note down this phone number: +90 532 123 4567" ∷ "Keep this contact: emergencyline 112"
    ∷ "Save the office number: 444-0900" ∷ "Remember: plumber is at 555-7823"
    ∷ "Note this fax: 212-000-1234" ∷ "Save this helpline number for me"
    ∷ "Jot down this customer service number" ∷ "Store this phone number in my notes"
    ∷ "Save this address: 15 Bağcılar St, Istanbul"
    ∷ "Note down: my new office is at 3rd floor, Tower B"
    ∷ "Remember: the hotel is at 123 Harbour Road"
    ∷ "Save the delivery address: Flat 4, Block 7, Ankara"
    ∷ "Note this: meeting venue is Main Conference Room, Level 2" ∷ "Keep this address on file"
    ∷ "Remember this location for later" ∷ "Store the restaurant address"
    ∷ "Note the pickup address for me" ∷ "Save this shipping address"
    ∷ "Note that my dentist appointment is Monday at 3pm" ∷ "Remember: interview on Friday at 10am"
    ∷ "Save this: flight departs at 07:45 on November 3rd" ∷ "Note my next meeting is Tuesday 2pm"
    ∷ "Remember that the event is December 15th" ∷ "Save the appointment for next Thursday at noon"
    ∷ "Note: product launch is on the 25th" ∷ "Remember my subscription renews in January"
    ∷ "Save this: quarterly review is March 10th" ∷ "Note the deadline: submit by Friday EOD"
    ∷ "Save this WiFi password: HomeNetwork2026" ∷ "Remember this code: 4821"
    ∷ "Note this PIN for later: 7392" ∷ "Keep this password: mountain@cloud"
    ∷ "Save the door code: 1357" ∷ "Note this access code: A7B2"
    ∷ "Remember this serial number: SN-20261003" ∷ "Store this license key"
    ∷ "Save this temporary password" ∷ "Note this code I need later"
    ∷ "Remember to buy milk on the way home" ∷ "Note: buy a birthday gift for Ali"
    ∷ "Save idea: create a habit tracker app" ∷ "Remember to call mom this weekend"
    ∷ "Note: water the plants every Tuesday"
    ∷ "Save this recipe: pasta bolognese — simmer for 40 min"
    ∷ "Remember: car service is due next month" ∷ "Note: charge the power bank tonight"
    ∷ "Save this for later: read the quarterly report" ∷ "Remember to submit the form before Friday"
    ∷ "Please save what I just said" ∷ "Note this down for me" ∷ "Keep a record of this"
    ∷ "Write this down so I don't forget" ∷ "Make a note about this" ∷ "Remember this information"
    ∷ "Save this to my notes" ∷ "Store this for later" ∷ "Add this to my notes"
    ∷ "Keep this somewhere safe" ∷ "Save this: my account number is 12345678"
    ∷ "Note this measurement: 180cm by 90cm" ∷ "Remember this URL for later"
    ∷ "Save the name: Dr. Ayşe Kaya" ∷ "Note the order number: ORD-20261003-88912"
    ∷ "Remember my tracking number is TRK12345" ∷ "Save this: team standup is at 9am every day"
    ∷ "Note that the API key is abc123xyz" ∷ "Keep a note of the car plate: 34 ABC 567"
    ∷ "Save this information I'll need it later" ∷ []

abbrev pub extra_save_note : List String
extra_save_note =
    "Remember this code: TRK-20261003-88912" ∷ "Save this: my gym locker combo is 14-27-38"
    ∷ "Note my electricity meter reading: 7845 kWh"
    ∷ "Save the client's email: ali.yilmaz@example.com" ∷ "Remember this IBAN: TR12 0001 0002 0003"
    ∷ "Note down: hotel check-in is at 3pm on Saturday" ∷ "Remember this license plate: 34 XYZ 567"
    ∷ "Save: parking spot is B4 level 2" ∷ "Note this locker number: 147"
    ∷ "Remember to submit the form by Tuesday midnight" ∷ "Save this coupon code: SAVE20NOW"
    ∷ "Note this discount code: BLACKFRIDAY30" ∷ "Remember the promo code: FIRSTORDER"
    ∷ "Save this voucher: GIFT-2026-ABCD" ∷ "Note the referral code: FRIEND50"
    ∷ "Keep this booking reference: BK-20261025" ∷ "Save the confirmation number: CNF-456789"
    ∷ "Note my flight number: TK 2046" ∷ "Remember seat 24C on flight TK2046"
    ∷ "Save this gate: Terminal 2, Gate D14" ∷ "Note pickup time: 06:30 from the hotel lobby"
    ∷ "Remember to pack sunscreen for the trip" ∷ "Save my blood type: A positive"
    ∷ "Note my allergy: penicillin" ∷ "Remember my doctor's name: Dr. Mehmet Kaya"
    ∷ "Save the hospital ward number: 4B" ∷ "Note the prescription: take 2 tablets daily"
    ∷ "Remember the pharmacy is open until 9pm"
    ∷ "Save this emergency contact: Ayşe — 0532 000 0000"
    ∷ "Note the locksmith number: 0212 555 9000" ∷ "Remember to renew insurance before March"
    ∷ "Save note: annual subscription renews on December 1st"
    ∷ "Note my library card number: 00123456" ∷ "Remember the library closes at 8pm on Fridays"
    ∷ "Save the book title I want to read: Midnight in Chernobyl"
    ∷ "Note this ISBN: 978-0-00-000000-0" ∷ "Remember to call about the package on Thursday"
    ∷ "Save this: the parcel is at locker 7B" ∷ "Note the delivery code: DEL-2026-XYZ"
    ∷ "Remember to leave a review for the hotel" ∷ "Save this review note: 4 stars, great location"
    ∷ "Note the restaurant name for next visit: Bodrum Kitchen" ∷ "Remember the table number was 12"
    ∷ "Save the server's recommendation: try the meze platter"
    ∷ "Note this car service reminder: oil change every 10,000km"
    ∷ "Remember the next service is due at 85,000km" ∷ "Save the mechanic's number: 0216 444 5678"
    ∷ "Note this wifi password for the office: OfficeNet2026!"
    ∷ "Remember the guest wifi is: GuestPass2026" ∷ "Save this smart home PIN: 5678"
    ∷ "Note alarm code: 1234 then hash" ∷ "Remember to feed the cat twice a day"
    ∷ "Save the vet's appointment: December 3rd at 10am"
    ∷ "Note the pet's microchip number: 982000123456789"
    ∷ "Remember to water the basil every two days"
    ∷ "Save plant care note: succulent needs water once a week"
    ∷ "Note: the router admin password is admin2026"
    ∷ "Remember the SSH key passphrase is saved in the manager"
    ∷ "Save this server hostname: myserver.local"
    ∷ "Note the API endpoint: https://api.example.com/v2" ∷ []
