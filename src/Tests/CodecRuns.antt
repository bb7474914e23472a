-- ===== src/Tests/CodecRuns.antt =====
-- The theorems on meeting_api/recording_codec.py, for chunks of two samples each.
use meeting_bot_service.Prelude.{ℕ, ◌≡◌, refl, List, [], ◌∷◌, ◌++◌, All, bytes_eq}
use meeting_bot_service.Recordings.Codec.{
  Coded, parse_wav_header, pack, payloads, assemble, merge_wav, real_chunks, build_wav_master,
  build_recording_master,
}
use meeting_bot_service.Recordings.Codec.Wav.{Speaks}
use meeting_bot_service.Recordings.Codec.Masters.{Carries, master-Carries, master_regroup}

-- mono, 16000 samples a second, 16 bits
abbrev pcm : List ℕ
pcm = 1 ∷ 0 ∷ 1 ∷ 0 ∷ 128 ∷ 62 ∷ 0 ∷ 0 ∷ 0 ∷ 125 ∷ 0 ∷ 0 ∷ 2 ∷ 0 ∷ 16 ∷ 0 ∷ []

-- a canonical file with the riff size, the data size and the samples
abbrev wav : ℕ → ℕ → List ℕ → List ℕ
wav riff_size data_size body =
    82
    ∷ 73
    ∷ 70
    ∷ 70
    ∷ riff_size
    ∷ 0
    ∷ 0
    ∷ 0
    ∷ 87
    ∷ 65
    ∷ 86
    ∷ 69
    ∷ 102
    ∷ 109
    ∷ 116
    ∷ 32
    ∷ 16
    ∷ 0
    ∷ 0
    ∷ 0
    ∷ (pcm ++ 100 ∷ 97 ∷ 116 ∷ 97 ∷ data_size ∷ 0 ∷ 0 ∷ 0 ∷ body)

-- the second chunk declares no data, and the last is empty
abbrev first_chunks : List (List ℕ)
first_chunks = wav 38 2 (7 ∷ 8 ∷ []) ∷ wav 36 0 (9 ∷ 10 ∷ []) ∷ [] ∷ []

abbrev last_chunks : List (List ℕ)
last_chunks = wav 38 2 (11 ∷ 12 ∷ []) ∷ []

merged : build_recording_master "WAV" first_chunks ≡ Coded.ok (wav 40 4 (7 ∷ 8 ∷ 9 ∷ 10 ∷ []))
unfolding build_recording_master build_wav_master merge_wav parse_wav_header payloads assemble pack
    real_chunks bytes_eq
merged = refl

master-Carries_example :
    (fmt : List ℕ) × All (Speaks fmt) (real_chunks first_chunks)
    × Carries (wav 40 4 (7 ∷ 8 ∷ 9 ∷ 10 ∷ [])) fmt (real_chunks first_chunks)
unfolding build_wav_master merge_wav parse_wav_header payloads assemble pack real_chunks bytes_eq
master-Carries_example = master-Carries first_chunks (wav 40 4 (7 ∷ 8 ∷ 9 ∷ 10 ∷ [])) refl

master_regroup_example :
    build_wav_master (wav 40 4 (7 ∷ 8 ∷ 9 ∷ 10 ∷ []) ∷ wav 38 2 (11 ∷ 12 ∷ []) ∷ [])
    ≡ Coded.ok (wav 42 6 (7 ∷ 8 ∷ 9 ∷ 10 ∷ 11 ∷ 12 ∷ []))
unfolding build_wav_master merge_wav parse_wav_header payloads assemble pack real_chunks bytes_eq
master_regroup_example =
    master_regroup first_chunks last_chunks (wav 40 4 (7 ∷ 8 ∷ 9 ∷ 10 ∷ []))
      (wav 38 2 (11 ∷ 12 ∷ [])) (wav 42 6 (7 ∷ 8 ∷ 9 ∷ 10 ∷ 11 ∷ 12 ∷ [])) refl refl refl
