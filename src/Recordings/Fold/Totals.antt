-- ===== src/Recordings/Fold/Totals.antt =====
-- The files of a recording after any sequence of chunks.
use meeting_bot_service.Prelude.{
  ℕ, ◌+◌, String, Option, none, some, List, [], ◌∷◌, ◌++◌, ◌≡◌, refl, str_eq, eq_iff, arith, bit,
  if◌then◌else◌,
}
use meeting_bot_service.Recordings.Fold.{
  MediaFile, Recording, Chunk, opening, find_type, without_type, or_zero, or_one, media_file, close,
  apply_chunk_to_recording,
}

-- the record after some chunks, oldest first
unfoldable pub fold_chunks : Option Recording → List Chunk → Option Recording
fold_chunks r [] = r
fold_chunks r (c ∷ cs) = fold_chunks (some (apply_chunk_to_recording r c).0) cs

-- the media file of a type in a record that may not be there yet
abbrev pub file_of : Option Recording → String → Option MediaFile
file_of none t = none
file_of (some r) t = find_type r.media_files t

-- the totals of the chunks of a type
abbrev pub total_bytes : List Chunk → String → ℕ
total_bytes [] t = 0
total_bytes (c ∷ cs) t = (if str_eq c.media_type t then c.file_size else 0) + total_bytes cs t

abbrev pub total_chunks : List Chunk → String → ℕ
total_chunks [] t = 0
total_chunks (c ∷ cs) t = bit (str_eq c.media_type t) + total_chunks cs t

abbrev pub bytes_of : Option MediaFile → ℕ
bytes_of none = 0
bytes_of (some f) = or_zero f.file_size_bytes

abbrev pub chunks_of : Option MediaFile → ℕ
chunks_of none = 0
chunks_of (some f) = or_one f.chunk_count

find_type-snoc :
    (fs : List MediaFile) (f : MediaFile) (t : String)
    → find_type (without_type fs f.media_type ++ f ∷ []) t
      ≡ (if str_eq f.media_type t then some f else find_type fs t)
unfolding find_type without_type
find_type-snoc [] f t = refl
find_type-snoc (g ∷ fs) f t = ground (
  arith,
  eq_iff g.media_type f.media_type,
  eq_iff g.media_type t,
  eq_iff f.media_type t,
  find_type-snoc fs f t,
)

type-media_file : (o : Option MediaFile) (c : Chunk) → (media_file o c).media_type ≡ c.media_type
unfolding media_file
type-media_file none c = refl
type-media_file (some f) c = refl

-- one chunk replaces the file of its type, and leaves the others
pub file_of-apply_chunk :
    (r : Option Recording) (c : Chunk) (t : String)
    → file_of (some (apply_chunk_to_recording r c).0) t ≡ (
        if str_eq c.media_type t then some (media_file (file_of r c.media_type) c) else file_of r t)
unfolding apply_chunk_to_recording opening close find_type
file_of-apply_chunk none c t = ground (arith, find_type-snoc [] (media_file none c) t)
file_of-apply_chunk (some r) c t =
    let f = media_file (find_type r.media_files c.media_type) c in
    let same = type-media_file (find_type r.media_files c.media_type) c in
    ground (arith, same, find_type-snoc r.media_files f t)

media_file_totals :
    (o : Option MediaFile) (c : Chunk)
    → (bytes_of (some (media_file o c)) ≡ bytes_of o + c.file_size)
      × (chunks_of (some (media_file o c)) ≡ chunks_of o + 1)
unfolding media_file
media_file_totals none c = (omega arith, omega arith)
media_file_totals (some f) c = (omega arith, ground arith)

-- After any chunks, in any order of their types, the file of a type reports the bytes and the number
-- of the chunks of this type, on top of what the record reported before.
pub fold_totals :
    (cs : List Chunk) (r : Option Recording) (t : String)
    → (bytes_of (file_of (fold_chunks r cs) t) ≡ bytes_of (file_of r t) + total_bytes cs t)
      × (chunks_of (file_of (fold_chunks r cs) t) ≡ chunks_of (file_of r t) + total_chunks cs t)
unfolding fold_chunks media_file
fold_totals [] r t = (omega arith, omega arith)
fold_totals (c ∷ cs) r t =
    let (b, n) = fold_totals cs (some (apply_chunk_to_recording r c).0) t in
    let here = file_of-apply_chunk r c t in
    ground (arith, b, n, here, eq_iff c.media_type t, media_file_totals (file_of r c.media_type) c)
