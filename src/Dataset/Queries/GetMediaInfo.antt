-- ===== src/Dataset/Queries/GetMediaInfo.antt =====
-- The queries of the route get_media_info.
use pocket_agents_lab.Prelude.{String, List, [], ◌∷◌}

abbrev pub base_get_media_info : List String
base_get_media_info =
    "What song is playing right now?" ∷ "What track is on?" ∷ "What music is playing?"
    ∷ "What is the current song?" ∷ "What is playing on my headphones?" ∷ "What is this song?"
    ∷ "What track am I listening to?" ∷ "Identify the current song" ∷ "What song is this?"
    ∷ "Which song is currently playing?" ∷ "Who is the artist of this song?"
    ∷ "What album is this from?" ∷ "Who sings this?" ∷ "What band is playing right now?"
    ∷ "Who recorded this track?" ∷ "What is the album name for the current song?"
    ∷ "What genre is the current track?" ∷ "Who is performing this song?"
    ∷ "What label released this song?" ∷ "What year was this song released?"
    ∷ "What podcast am I listening to?" ∷ "What episode is playing?"
    ∷ "What podcast episode am I on?" ∷ "How far into the podcast am I?"
    ∷ "What show is this podcast from?" ∷ "What is the podcast title?"
    ∷ "Which episode number is playing?" ∷ "What video is playing?" ∷ "What movie is on right now?"
    ∷ "What is the title of the current video?" ∷ "What show episode am I watching?"
    ∷ "What video file is playing?" ∷ "How long is this song?"
    ∷ "How much time is left on this track?" ∷ "Is this song almost over?"
    ∷ "What timestamp am I at in this song?" ∷ "What is the duration of the current track?"
    ∷ "Is music paused or playing?" ∷ "Is the player active right now?"
    ∷ "Is anything playing on my phone?" ∷ "Is there audio playing right now?"
    ∷ "Is the media player running?" ∷ "What media app is playing audio?" ∷ "Is Spotify playing?"
    ∷ "Is YouTube Music active?" ∷ "Tell me what I'm listening to" ∷ "Media info please"
    ∷ "What is currently playing?" ∷ "Show me now playing" ∷ "What's on?"
    ∷ "Give me the now-playing info" ∷ "Media status" ∷ "What audio is active?"
    ∷ "What is the current media?" ∷ "Identify the media playing"
    ∷ "What content is playing on my phone?" ∷ "What sound is my phone making?" ∷ "Playing what?"
    ∷ "Current track info" ∷ "What song came on?" ∷ "This song playing — what is it?"
    ∷ "I want to know what's playing" ∷ "Name the song that's on right now"
    ∷ "Show me now-playing metadata" ∷ "Who is performing what I'm hearing?" ∷ []

abbrev pub extra_get_media_info : List String
extra_get_media_info =
    "What is playing in my headphones?" ∷ "Identify the current audio track"
    ∷ "What is the name of the track that is on?" ∷ "What song came on after the last one?"
    ∷ "What is the BPM of the current track?" ∷ "Is this song from a playlist or album?"
    ∷ "What playlist is currently active?" ∷ "Who produced this track?"
    ∷ "Is this a remix or an original?" ∷ "What key is this song in?" ∷ "Is this track explicit?"
    ∷ "What streaming service is playing this?" ∷ "Is this from Spotify or Apple Music?"
    ∷ "What is the bitrate of the current stream?" ∷ "Is this audio lossless?"
    ∷ "Is the current media paused?" ∷ "Is my phone playing to a Bluetooth speaker?"
    ∷ "Is audio routing to earbuds right now?" ∷ "Is the media playing on speakerphone?"
    ∷ "Is my cast session still going?" ∷ "What is being cast to the TV right now?"
    ∷ "Is media streaming to a Chromecast?" ∷ "Is my phone connected to the car audio right now?"
    ∷ "What audio output is active?" ∷ "Is the music too loud according to my current volume?"
    ∷ "Is the volume maxed out?" ∷ "What is the current volume level?"
    ∷ "What notification sound just played?" ∷ "What ringtone is set on this phone?"
    ∷ "What episode number is this podcast?" ∷ "What chapter of the audiobook am I on?"
    ∷ "How many hours into this audiobook am I?" ∷ "What book is this audiobook?"
    ∷ "Who is narrating this audiobook?" ∷ "What time is remaining on this episode?"
    ∷ "What is the total length of this track?" ∷ "How far am I through the podcast?"
    ∷ "Is this the last episode in the queue?" ∷ "What is next in my playback queue?"
    ∷ "Is shuffle mode on?" ∷ "Is repeat mode enabled?" ∷ "Is crossfade active?"
    ∷ "What equalizer preset is active?" ∷ "Is noise cancellation on during playback?"
    ∷ "What are the last three songs I played?" ∷ "What was the previous track?"
    ∷ "Is there a sleep timer set?" ∷ "When does the sleep timer expire?"
    ∷ "How long has this song been playing?" ∷ "How many times have I played this song today?"
    ∷ "Is this in my favorites?" ∷ "What genre is this classified as?"
    ∷ "What year was this album released?" ∷ "What record label put this out?"
    ∷ "Who is featured on this track?" ∷ "What is the ISRC of the current track?"
    ∷ "Is this track DRM protected?" ∷ "Can I download this for offline listening?"
    ∷ "Is this track available offline?" ∷ "Is my offline playlist synced?" ∷ []
