-- ===== src/Dataset/Queries/SearchNotes.antt =====
-- The queries of the route search_notes.
use pocket_agents_lab.Prelude.{String, List, [], ◌∷◌}

abbrev pub base_search_notes : List String
base_search_notes =
    "What phone number did I save in my notes?" ∷ "What address did I note down?"
    ∷ "What was the password I saved?" ∷ "What meeting time did I record?"
    ∷ "What did I note about the appointment?" ∷ "Find the WiFi password I saved"
    ∷ "What was the PIN I wrote down?" ∷ "What bus route did I note?"
    ∷ "What did I save about the doctor?" ∷ "What note do I have about the flight?"
    ∷ "What is on my grocery list?" ∷ "What did I put on the shopping list?"
    ∷ "What items did I save to buy?" ∷ "What do I need to buy at the store?"
    ∷ "Show me my shopping list note" ∷ "What was on my list for the supermarket?"
    ∷ "What did I note to pick up?" ∷ "Did I save a grocery list?"
    ∷ "What food items did I save to notes?" ∷ "What was my shopping reminder?"
    ∷ "When is my dentist appointment?" ∷ "What time is the meeting I noted?"
    ∷ "What did I save about Thursday's event?" ∷ "What reminder did I set for next week?"
    ∷ "What appointment did I write down?" ∷ "What did I note about the interview?"
    ∷ "When did I note the delivery would arrive?" ∷ "What date did I save for the flight?"
    ∷ "What event did I record in notes?" ∷ "What time did I write down for the call?"
    ∷ "What ideas did I save?" ∷ "What tasks did I write down?" ∷ "What did I note as a to-do?"
    ∷ "What project ideas did I save?" ∷ "What brainstorm notes do I have?"
    ∷ "What did I jot down this morning?" ∷ "What did I save as a reminder?"
    ∷ "What notes did I write yesterday?" ∷ "What did I save about the project?"
    ∷ "What task did I write down earlier?" ∷ "What notes have I saved?" ∷ "Check my saved notes"
    ∷ "What information did I save?" ∷ "What did I put in notes?"
    ∷ "Can you find something I saved?" ∷ "What have I noted?"
    ∷ "Look in my notes for that information" ∷ "Search my saved notes" ∷ "What is in my notes?"
    ∷ "Find something in my notes" ∷ "What have I written down?" ∷ "Recall what I saved"
    ∷ "Do I have a note about that?" ∷ "Check if I noted that down"
    ∷ "What saved information do I have?" ∷ "Is there a note about that?"
    ∷ "What did I remember to note?" ∷ "Search my notes for the address"
    ∷ "Find the note I saved last week" ∷ "What is the information I saved earlier?" ∷ []

abbrev pub extra_search_notes : List String
extra_search_notes =
    "What was that address I saved for the pharmacy?" ∷ "What number did I jot down last Tuesday?"
    ∷ "Find the note I made about the software license"
    ∷ "What instructions did I save about the router?" ∷ "What note do I have about my car?"
    ∷ "What did I write down about the gym?" ∷ "Find what I saved about the conference"
    ∷ "What notes do I have from last week?" ∷ "What did I note about the apartment?"
    ∷ "Find the note with my bank account info" ∷ "What was the promo code I saved?"
    ∷ "What discount code did I note?" ∷ "What voucher number did I save?"
    ∷ "What reservation number did I note?" ∷ "Find the order number I saved"
    ∷ "What flight booking reference did I save?" ∷ "What booking confirmation is in my notes?"
    ∷ "What is the hotel reservation code I saved?" ∷ "What did I save about the train schedule?"
    ∷ "Find the bus departure time I noted" ∷ "What time did I save for the bus?"
    ∷ "What did I note about the school schedule?" ∷ "Find the children's school calendar I saved"
    ∷ "What homework note did I save?" ∷ "What study plan did I write down?"
    ∷ "What exam date did I note?" ∷ "What course code did I save?"
    ∷ "What textbook name did I note?" ∷ "Find the professor's email I saved"
    ∷ "What university deadline did I note?" ∷ "What did I save about the cooking time?"
    ∷ "What recipe step did I write down?" ∷ "What ingredient quantities did I save?"
    ∷ "Find the cooking temperature I noted" ∷ "What did I note about the party planning?"
    ∷ "What gift idea did I save?" ∷ "What budget note do I have for the trip?"
    ∷ "Find the packing list I made" ∷ "What travel tip did I save?"
    ∷ "Find the itinerary note I wrote" ∷ "What did I save about the Airbnb check-in?"
    ∷ "What parking spot did I note?" ∷ "What PIN did I write in notes for the locker?"
    ∷ "What combination did I save for the safe?" ∷ "What lock code is in my notes?"
    ∷ "Find the key handover instructions I saved" ∷ "What meeting agenda did I note?"
    ∷ "What action items did I save from the meeting?"
    ∷ "Find the colleague's extension number I saved" ∷ "What project update did I note?"
    ∷ "What feedback did I save about the product?" ∷ "Find the review notes I made"
    ∷ "What critique did I write down?" ∷ "What measurement did I save for the furniture?"
    ∷ "What room dimensions did I note?" ∷ "Find the paint color I saved"
    ∷ "What curtain size did I note?" ∷ "What did I save about the renovation?"
    ∷ "Find the contractor's quote I noted" ∷ "What plumber's number is in my notes?" ∷ []
