-- ===== src/Recordings/Fold/Paths.antt =====
-- The storage paths of the files of a recording.
use mathlib.Core.Path.{subst}
use meeting_bot_service.Prelude.{
  true, String, Option, some, List, [], ◌∷◌, ◌≡◌, ◌≢◌, str_eq, eq_iff, arith, Bool-cases, inl, inr,
  All,
}
use meeting_bot_service.Recordings.Fold.{
  MediaFile, Recording, Chunk, or_empty, master_finalized, media_file, apply_chunk_to_recording,
  keeps_path,
}
use meeting_bot_service.Recordings.Fold.Totals.{fold_chunks, file_of, file_of-apply_chunk}

-- the file of a type stands, with its path and the mark of a finished master
record IsMaster (r : Option Recording) (t path : String) : Type 0 where
  file : MediaFile
  found : file_of r t ≡ some file
  at : file.storage_path ≡ some path
  finished : master_finalized file ≡ true

apply_chunk-IsMaster :
    (r : Option Recording) (c : Chunk) (t path : String)
    → IsMaster r t path
    → IsMaster (some (apply_chunk_to_recording r c).0) t path
unfolding media_file master_finalized
apply_chunk-IsMaster r c t path m = elim (Bool-cases (str_eq c.media_type t)) [
  | inl same ↦ record {
    file = media_file (some m.file) c;
    found = ground (arith, m.found, eq_iff c.media_type t, file_of-apply_chunk r c t);
    at = ground (arith, m.at, m.finished);
    finished = ground (arith, m.finished);
  }
  | inr other ↦ record {
    file = m.file;
    found = ground (arith, m.found, file_of-apply_chunk r c t);
    at = m.at;
    finished = m.finished;
  }
]

-- Once the file of a type is final or points at a master, no later chunk, of whatever type, moves
-- its storage path or takes its finality back.
master_kept :
    (cs : List Chunk) (r : Option Recording) (t path : String) (file : MediaFile)
    → file_of r t ≡ some file
    → file.storage_path ≡ some path
    → master_finalized file ≡ true
    → (f : MediaFile) × (file_of (fold_chunks r cs) t ≡ some f)
      × (f.storage_path ≡ some path)
      × (master_finalized f ≡ true)
unfolding fold_chunks
master_kept [] r t path file found at finished = (file, found, at, finished)
master_kept (c ∷ cs) r t path file found at finished =
    let m =
      apply_chunk-IsMaster r c t path
        (record { file = file; found = found; at = at; finished = finished }) in
    master_kept cs (some (apply_chunk_to_recording r c).0) t path m.file m.found m.at m.finished

-- a chunk with bytes has a path with the property
abbrev pub Offers : (String → Type 0) → String → Chunk → Type 0
Offers P t c = c.media_type ≡ t → c.file_size ≢ 0 → P c.storage_path

-- the file of a type stands, at a path with the property
record IsAt (P : String → Type 0) (r : Option Recording) (t : String) : Type 0 where
  file : MediaFile
  found : file_of r t ≡ some file
  good : P (or_empty file.storage_path)

media_file_path :
    (P : String → Type 0) (f : MediaFile) (c : Chunk)
    → P (or_empty f.storage_path)
    → (c.file_size ≢ 0 → P c.storage_path)
    → P (or_empty (media_file (some f) c).storage_path)
unfolding media_file
media_file_path P f c here offer = elim (Bool-cases (keeps_path f c)) [
  | inl keep ↦ subst P {x = or_empty f.storage_path} (ground (arith, keep)) here
  | inr move ↦
      subst P {x = c.storage_path} (ground (arith, move))
        (offer (λ empty. absurd (ground (arith, move, empty))))
]

apply_chunk-IsAt :
    (P : String → Type 0) (r : Option Recording) (c : Chunk) (t : String)
    → Offers P t c
    → IsAt P r t
    → IsAt P (some (apply_chunk_to_recording r c).0) t
apply_chunk-IsAt P r c t offer a = elim (Bool-cases (str_eq c.media_type t)) [
  | inl same ↦
      let typed : c.media_type ≡ t = ground (arith, same, eq_iff c.media_type t) in
      record {
        file = media_file (some a.file) c;
        found = ground (arith, a.found, typed, same, file_of-apply_chunk r c t);
        good = media_file_path P a.file c a.good (offer typed);
      }
  | inr other ↦ record {
    file = a.file;
    found = ground (arith, a.found, other, file_of-apply_chunk r c t);
    good = a.good;
  }
]

-- Whatever property of paths holds of the path of a file, such as that the object has bytes to play,
-- and of the path of every chunk that is not empty, holds of the file's path after any chunks: an
-- empty chunk never puts its own path there.
path_playable :
    (P : String → Type 0) (cs : List Chunk) (r : Option Recording) (t : String) (file : MediaFile)
    → file_of r t ≡ some file
    → P (or_empty file.storage_path)
    → All (Offers P t) cs
    → (f : MediaFile) × (file_of (fold_chunks r cs) t ≡ some f) × P (or_empty f.storage_path)
unfolding fold_chunks
path_playable P [] r t file found good offers = (file, found, good)
path_playable P (c ∷ cs) r t file found good offers =
    let a =
      apply_chunk-IsAt P r c t offers.0 (record { file = file; found = found; good = good }) in
    path_playable P cs (some (apply_chunk_to_recording r c).0) t a.file a.found a.good offers.1
