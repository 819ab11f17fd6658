-- ===== src/Dataset/Queries/Answer.antt =====
-- The queries of the route answer.
use pocket_agents_lab.Prelude.{String, List, [], ◌∷◌}

abbrev pub base_answer : List String
base_answer =
    "What is the capital of Germany?" ∷ "Who wrote Romeo and Juliet?"
    ∷ "What year did World War II end?" ∷ "What is the speed of light?"
    ∷ "How many planets are in the solar system?" ∷ "What is the largest ocean on Earth?"
    ∷ "Who invented the telephone?" ∷ "What is photosynthesis?"
    ∷ "What is the chemical symbol for water?" ∷ "When was the Eiffel Tower built?"
    ∷ "What country has the most people?" ∷ "What is the longest river in the world?"
    ∷ "Who painted the Mona Lisa?" ∷ "What is the smallest country in the world?"
    ∷ "How far is the Moon from Earth?" ∷ "What is 15 percent of 240?"
    ∷ "Calculate the square root of 144" ∷ "What is 7 multiplied by 8?"
    ∷ "Convert 100 Celsius to Fahrenheit" ∷ "What is 2 to the power of 10?"
    ∷ "If I have 50 apples and give away 18, how many remain?"
    ∷ "What is the area of a circle with radius 5?" ∷ "Divide 864 by 12"
    ∷ "What is 35 percent of 80?" ∷ "How many seconds in a day?" ∷ "Write a short haiku about rain"
    ∷ "Help me draft a birthday message for my friend"
    ∷ "Suggest a subject line for a job application email" ∷ "Write a brief apology message"
    ∷ "Give me a one-line joke about programming" ∷ "Help me write a thank-you note"
    ∷ "Compose a short out-of-office reply" ∷ "Suggest a toast for a wedding"
    ∷ "Write a headline for a coffee shop" ∷ "Help me rephrase this sentence more formally"
    ∷ "What does HTTP stand for?" ∷ "Explain what a for loop does" ∷ "What is machine learning?"
    ∷ "Define the term 'algorithm'" ∷ "What is the difference between RAM and storage?"
    ∷ "Explain what Wi-Fi 6 is" ∷ "What does DNS stand for?" ∷ "What is a pixel?"
    ∷ "Explain what an API is" ∷ "What is Bluetooth?" ∷ "What is a good book to read this summer?"
    ∷ "Recommend a classic movie" ∷ "What are some tips for better sleep?"
    ∷ "Suggest a healthy breakfast idea" ∷ "What is a good way to learn a new language?"
    ∷ "Give me productivity tips for working from home" ∷ "What should I pack for a camping trip?"
    ∷ "Recommend a board game for two players" ∷ "What is a simple recipe for pasta?"
    ∷ "Give me a morning stretching routine" ∷ "Hello, how are you?" ∷ "What can you help me with?"
    ∷ "Tell me something interesting" ∷ "I'm bored, entertain me" ∷ "What is the meaning of life?"
    ∷ "How was your day?" ∷ "Can you speak Turkish?" ∷ "Do you know any riddles?"
    ∷ "What time is it?" ∷ "Why is the sky blue?" ∷ "How do you say 'thank you' in Japanese?"
    ∷ "Translate 'good morning' to Spanish" ∷ "What does 'bonjour' mean?"
    ∷ "How do you pronounce 'Worcestershire'?" ∷ "What language is spoken in Brazil?"
    ∷ "What are the primary colors?" ∷ "How do airplanes fly?" ∷ "What is gravity?"
    ∷ "Explain how rainbows form" ∷ "What is a black hole?" ∷ "How does a vaccine work?"
    ∷ "What is the immune system?" ∷ "What is DNA?" ∷ "Who was Albert Einstein?"
    ∷ "What is inflation in economics?" ∷ "How does a compass work?"
    ∷ "What is the Pythagorean theorem?" ∷ "Explain supply and demand" ∷ "What is the stock market?"
    ∷ "How do I tie a tie?" ∷ "What is a haiku?" ∷ "What are the rules of chess?"
    ∷ "Explain the water cycle" ∷ "What is a metaphor?"
    ∷ "What is the difference between a virus and a bacterium?" ∷ "How does the internet work?"
    ∷ "What is a solar eclipse?" ∷ "What is a prime number?"
    ∷ "How do I convert miles to kilometers?"
    ∷ "What is the difference between sympathy and empathy?"
    ∷ "What year was the iPhone first released?" ∷ "How many continents are there?"
    ∷ "What is a haiku?" ∷ "What is a calorie?" ∷ "Explain what a megapixel is"
    ∷ "What is blockchain?" ∷ "Explain what a podcast is" ∷ "Who is Sherlock Holmes?"
    ∷ "What is the tallest mountain on Earth?" ∷ "How do I calculate BMI?" ∷ []

abbrev pub extra_answer : List String
extra_answer =
    "What is the boiling point of water?" ∷ "How do I convert Fahrenheit to Celsius?"
    ∷ "What is the chemical formula for salt?" ∷ "Who discovered penicillin?"
    ∷ "What is the atomic number of carbon?"
    ∷ "What is the difference between a meteor and a meteorite?"
    ∷ "How many bones are in the human body?" ∷ "What is the Fibonacci sequence?"
    ∷ "What is the speed of sound?" ∷ "Who is Aristotle?" ∷ "What is a haiku exactly?"
    ∷ "Explain what entropy means" ∷ "What is classical conditioning?"
    ∷ "What is the Dunning-Kruger effect?" ∷ "What is a paradox?"
    ∷ "What is the difference between affect and effect?" ∷ "What is passive voice in grammar?"
    ∷ "Who was Nikola Tesla?" ∷ "What is the Higgs boson?" ∷ "What is the theory of relativity?"
    ∷ "How do I calculate compound interest?" ∷ "What is 17 times 13?"
    ∷ "What is the cube root of 27?" ∷ "What is the sum of interior angles in a triangle?"
    ∷ "Convert 500 meters to feet" ∷ "How many ounces in a pound?" ∷ "What is 20 percent of 350?"
    ∷ "What is 13 factorial?" ∷ "How many miles in a marathon?" ∷ "What is the GCD of 36 and 48?"
    ∷ "Write a limerick about a cat" ∷ "Suggest a tagline for a tech startup"
    ∷ "Draft an introduction email to a new colleague"
    ∷ "Write a motivational sentence for a runner" ∷ "Compose a two-sentence product description"
    ∷ "Help me write a professional bio" ∷ "Suggest synonyms for the word 'fast'"
    ∷ "What rhymes with 'orange'?"
    ∷ "Explain the difference between 'their', 'there', and 'they're'"
    ∷ "Proofread this sentence for me" ∷ "How do I say 'cheers' in German?"
    ∷ "What language is spoken in Portugal?" ∷ "Translate 'please' into Italian"
    ∷ "What is the plural of 'analysis'?" ∷ "What is the origin of the word 'robot'?"
    ∷ "What does 'per se' mean?" ∷ "What is 'vis-à-vis' in plain English?"
    ∷ "What is a non sequitur?" ∷ "What is a straw man argument?" ∷ "What is Occam's razor?" ∷ []
