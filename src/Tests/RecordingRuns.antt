-- ===== src/Tests/RecordingRuns.antt =====
-- The theorems on recordings/jsonb.py, for an audio recording of three chunks.
use meeting_bot_service.Prelude.{
  ℕ, ◌+◌, Bool, true, false, String, Option, none, some, List, [], ◌∷◌, ◌≡◌,
}
use meeting_bot_service.Recordings.Fold.{MediaFile, Recording, Chunk, media_file}
use meeting_bot_service.Recordings.Fold.Totals.{
  fold_chunks, file_of, total_bytes, total_chunks, fold_totals, bytes_of, chunks_of,
}

abbrev chunk : String → ℕ → ℕ → Bool → Chunk
chunk path size seq last = record {
  recording_id = 7;
  meeting_id = 1;
  user_id = 2;
  session_uid = "s1";
  media_type = "audio";
  media_format = "webm";
  storage_path = path;
  file_size = size;
  chunk_seq = seq;
  is_final = last;
  duration_seconds = none;
  sample_rate = some 16000;
  backend = "minio";
  now = "now";
  new_id = 100000000001;
}

-- two chunks with bytes, and the empty one that says that the recording is over
abbrev chunks : List Chunk
chunks =
    chunk "a/000000.webm" 10 0 false
    ∷ chunk "a/000001.webm" 20 1 false
    ∷ chunk "a/000002.webm" 0 2 true
    ∷ []

fold_totals_example :
    (bytes_of (file_of (fold_chunks none chunks) "audio")
      ≡ bytes_of (file_of none "audio") + total_bytes chunks "audio")
    × (chunks_of (file_of (fold_chunks none chunks) "audio")
        ≡ chunks_of (file_of none "audio") + total_chunks chunks "audio")
fold_totals_example = fold_totals chunks none "audio"

abbrev over : Option Recording
over = fold_chunks none chunks

abbrev no_file : MediaFile
no_file = media_file none (chunk "" 0 0 false)

abbrev the_file : Option MediaFile → MediaFile
the_file none = no_file
the_file (some f) = f

abbrev begun : Option Recording
begun = fold_chunks none (chunk "a/000000.webm" 10 0 false ∷ [])
