-- ===== src/Recordings/Fold.antt =====
-- recordings/jsonb.py: `apply_chunk_to_recording`, which folds one uploaded chunk into the record of a
-- recording. A key that an older record may lack is an Option; durations are opaque texts. The
-- readings of the clock in one call are one time.
pub mod Totals
pub mod Completion
pub mod Paths
use Prim.Native.String.{◌++◌ as append}
use meeting_bot_service.Prelude.{
  ℕ, ◌+◌, Bool, true, false, ◌&&◌, ◌||◌, not, String, Option, none, some, List, [], ◌∷◌, ◌++◌, ◌==◌,
  is_some, is_empty, str_eq, ends_with, show_nat, if◌then◌else◌,
}

pub record MediaFile : Type 0 where
  pub id : ℕ
  pub media_type : String
  pub format : String
  pub storage_path : Option String
  pub storage_backend : String
  pub file_size_bytes : Option ℕ
  pub last_chunk_size_bytes : ℕ
  pub chunk_count : Option ℕ
  pub duration_seconds : Option String
  pub chunk_seq : ℕ
  pub first_chunk_at : Option String
  pub sample_rate : Option ℕ
  pub created_at : String
  pub is_final : Option Bool
  pub finalized_at : Option String
  pub finalized_by : Option String

pub record Recording : Type 0 where
  pub id : ℕ
  pub meeting_id : ℕ
  pub user_id : ℕ
  pub session_uid : String
  pub source : String
  pub status : Option String
  pub created_at : String
  pub completed_at : Option String
  pub media_files : List MediaFile
  pub playback_audio : Option String
  pub playback_video : Option String

-- the arguments of one call; `backend` is the STORAGE_BACKEND of the environment
pub record Chunk : Type 0 where
  pub recording_id : ℕ
  pub meeting_id : ℕ
  pub user_id : ℕ
  pub session_uid : String
  pub media_type : String
  pub media_format : String
  pub storage_path : String
  pub file_size : ℕ
  pub chunk_seq : ℕ
  pub is_final : Bool
  pub duration_seconds : Option String
  pub sample_rate : Option ℕ
  pub backend : String
  -- what the clock and the random numbers answer
  pub now : String
  pub new_id : ℕ

-- the payload to start from, and whether it was completed
unfoldable pub opening : Option Recording → Chunk → Recording × Bool
opening none c = (
  record {
    id = c.recording_id;
    meeting_id = c.meeting_id;
    user_id = c.user_id;
    session_uid = c.session_uid;
    source = "bot";
    status = some (if c.is_final then "completed" else "in_progress");
    created_at = c.now;
    completed_at = if c.is_final then some c.now else none;
    media_files = [];
    playback_audio = none;
    playback_video = none;
  },
  false,
)
opening (some r) c = (r, elim r.status [ none ↦ false | some s ↦ str_eq s "completed" ])

-- `next((mf for mf in files if mf.get("type") == media_type), None)`
unfoldable pub find_type : List MediaFile → String → Option MediaFile
find_type [] t = none
find_type (f ∷ fs) t = if str_eq f.media_type t then some f else find_type fs t

-- `[mf for mf in files if mf.get("type") != media_type]`
unfoldable pub without_type : List MediaFile → String → List MediaFile
without_type [] t = []
without_type (f ∷ fs) t = if str_eq f.media_type t then without_type fs t else f ∷ without_type fs t

abbrev pub or_zero : Option ℕ → ℕ
or_zero none = 0
or_zero (some n) = n

-- `… or 1` of the chunks that a file without a count has
abbrev pub or_one : Option ℕ → ℕ
or_one none = 1
or_one (some n) = if n == 0 then 1 else n

abbrev pub or_empty : Option String → String
or_empty none = ""
or_empty (some s) = s

abbrev pub is_set : Option Bool → Bool
is_set none = false
is_set (some b) = b

-- master_finalized, for the file there was
unfoldable pub master_finalized : MediaFile → Bool
master_finalized f =
    ends_with (or_empty f.storage_path) "/audio/master.webm"
    || ends_with (or_empty f.storage_path) "/audio/master.wav"
    || is_set f.is_final

-- keep_prior_path
abbrev pub keeps_path : MediaFile → Chunk → Bool
keeps_path f c = master_finalized f || c.file_size == 0

abbrev pub stamped : Option String → String → Option String
stamped none now = some now
stamped (some s) now = if is_empty s then some now else some s

abbrev pub truthy_rate : Option ℕ → Option ℕ
truthy_rate none = none
truthy_rate (some n) = if n == 0 then none else some n

-- the media file that the chunk leaves, from the file there was
unfoldable pub media_file : Option MediaFile → Chunk → MediaFile
unfolding master_finalized
media_file none c = record {
  id = c.new_id;
  media_type = c.media_type;
  format = c.media_format;
  storage_path = some c.storage_path;
  storage_backend = c.backend;
  file_size_bytes = some c.file_size;
  last_chunk_size_bytes = c.file_size;
  chunk_count = some 1;
  duration_seconds = c.duration_seconds;
  chunk_seq = c.chunk_seq;
  first_chunk_at = some c.now;
  sample_rate = truthy_rate c.sample_rate;
  created_at = c.now;
  is_final = some c.is_final;
  finalized_at = none;
  finalized_by = none;
}
media_file (some f) c = record {
  id = if f.id == 0 then c.new_id else f.id;
  media_type = c.media_type;
  format = c.media_format;
  storage_path = some (if keeps_path f c then or_empty f.storage_path else c.storage_path);
  storage_backend = c.backend;
  file_size_bytes = some (or_zero f.file_size_bytes + c.file_size);
  last_chunk_size_bytes = c.file_size;
  chunk_count = some (or_one f.chunk_count + 1);
  duration_seconds = c.duration_seconds;
  chunk_seq = c.chunk_seq;
  first_chunk_at = stamped f.first_chunk_at c.now;
  sample_rate = truthy_rate c.sample_rate;
  created_at = c.now;
  is_final = some (master_finalized f || c.is_final);
  finalized_at = f.finalized_at;
  finalized_by = f.finalized_by;
}

-- the master route of a media type that is present
abbrev pub route : List MediaFile → ℕ → String → Option String
route files id t =
    if is_some (find_type files t)
    then some (append "/recordings/" (append (show_nat id) (append "/master?type=" t)))
    else none

-- the status, and whether it has become completed
unfoldable pub close : Recording → Bool → Chunk → Recording × Bool
close r was_completed c =
    if c.is_final
    then (record r { status = some "completed"; completed_at = some c.now }, not was_completed)
    else if was_completed
    then (r, false)
    else (record r { status = some "in_progress" }, false)

-- apply_chunk_to_recording
unfoldable pub apply_chunk_to_recording : Option Recording → Chunk → Recording × Bool
unfolding opening media_file close
apply_chunk_to_recording existing c =
    let (r, was_completed) = opening existing c in
    let files =
      without_type r.media_files c.media_type
      ++ media_file (find_type r.media_files c.media_type) c ∷ [] in
    close
      (record r {
        media_files = files;
        playback_audio = route files c.recording_id "audio";
        playback_video = route files c.recording_id "video";
      })
      was_completed c
