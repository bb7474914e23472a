-- ===== src/Recordings/Codec.antt =====
-- meeting_api/recording_codec.py: the chunks of a recording become one master file. Bytes are numbers
-- below 256; struct.pack("<I", n) raises where n does not fit in 32 bits.
pub mod Masters
pub mod Wav
use text.Mathlib.Text
use meeting_bot_service.Prelude.{
  ℕ, suc, ◌+◌, Bool, not, ◌&&◌, ◌||◌, String, List, [], ◌∷◌, ◌++◌, length, ltb, leb, take, drop,
  bytes_at, bytes_eq, lower_codes, le32, from_le32, if◌then◌else◌,
}

pub data CodecError : Type 0 where
  short_chunk : CodecError
  no_magic : CodecError
  non_canonical : CodecError
  no_chunks : CodecError
  fmt_mismatch : ℕ → CodecError
  too_large : CodecError

pub data Coded {ℓ} (A : Type ℓ) : Type ℓ where
  ok : A → Coded A
  raised : CodecError → Coded A

infixl 5 ◌>>=◌
abbrev pub ◌>>=◌ {ℓ κ} : {A : Type ℓ} {B : Type κ} → Coded A → (A → Coded B) → Coded B
ok a >>= f = f a
raised e >>= f = raised e

-- b"RIFF", b"WAVE", b"fmt " and b"data"
abbrev pub riff : List ℕ
riff = b'R' ∷ b'I' ∷ b'F' ∷ b'F' ∷ []

abbrev pub wave : List ℕ
wave = b'W' ∷ b'A' ∷ b'V' ∷ b'E' ∷ []

abbrev pub fmt_id : List ℕ
fmt_id = b'f' ∷ b'm' ∷ b't' ∷ b' ' ∷ []

abbrev pub data_id : List ℕ
data_id = b'd' ∷ b'a' ∷ b't' ∷ b'a' ∷ []

-- struct.pack("<I", n)
unfoldable pub pack : ℕ → Coded (List ℕ)
pack n = if ltb n 4294967296 then Coded.ok (le32 n) else Coded.raised CodecError.too_large

-- _parse_wav_header
unfoldable pub parse_wav_header : List ℕ → Coded (List ℕ × ℕ)
unfolding bytes_eq
parse_wav_header buf =
    if ltb (length buf) 44
    then Coded.raised CodecError.short_chunk
    else if not (bytes_eq (take 4 buf) riff) || not (bytes_eq (bytes_at 8 12 buf) wave)
    then Coded.raised CodecError.no_magic
    else if not (bytes_eq (bytes_at 36 40 buf) data_id)
    then Coded.raised CodecError.non_canonical
    else Coded.ok (bytes_at 20 36 buf, from_le32 (bytes_at 40 44 buf))

-- the chunks that hold a header: the empty last one is skipped
unfoldable pub real_chunks : List (List ℕ) → List (List ℕ)
real_chunks [] = []
real_chunks (c ∷ cs) = if leb 44 (length c) then c ∷ real_chunks cs else real_chunks cs

-- the payloads of the chunks from the index i on
unfoldable pub payloads : List ℕ → ℕ → List (List ℕ) → Coded (List (List ℕ))
payloads fmt i [] = Coded.ok []
payloads fmt i (c ∷ cs) = do
  (c_fmt, _) ← parse_wav_header c
  rest ←
      (if bytes_eq c_fmt fmt
        then payloads fmt (i + 1) cs
        else Coded.raised (CodecError.fmt_mismatch i))
  Coded.ok (drop 44 c ∷ rest)

-- b"".join
abbrev pub join : List (List ℕ) → List ℕ
join [] = []
join (c ∷ cs) = c ++ join cs

-- the header of a master over the payload, and the payload
unfoldable pub assemble : List ℕ → List ℕ → Coded (List ℕ)
unfolding pack
assemble fmt payload = do
  riff_size ← pack (36 + length payload)
  fmt_size ← pack 16
  data_size ← pack (length payload)
  Coded.ok (
      riff
      ++ (riff_size
          ++ (wave ++ (fmt_id ++ (fmt_size ++ (fmt ++ (data_id ++ (data_size ++ payload))))))))

-- _build_wav_master on the chunks with a header
unfoldable pub merge_wav : List (List ℕ) → Coded (List ℕ)
merge_wav [] = Coded.raised CodecError.no_chunks
merge_wav (c ∷ cs) = do
  (fmt, _) ← parse_wav_header c
  ps ← payloads fmt 0 (c ∷ cs)
  assemble fmt (join ps)

-- _build_wav_master
unfoldable pub build_wav_master : List (List ℕ) → Coded (List ℕ)
build_wav_master chunks = merge_wav (real_chunks chunks)

-- _build_webm_master
unfoldable pub build_webm_master : List (List ℕ) → Coded (List ℕ)
build_webm_master [] = Coded.raised CodecError.no_chunks
build_webm_master (c ∷ cs) = Coded.ok (join (c ∷ cs))

-- _build_recording_master (no other character is lowered to one of "wav"), and build_recording_master with its arguments swapped
unfoldable pub build_recording_master : String → List (List ℕ) → Coded (List ℕ)
build_recording_master media_format chunks =
    if bytes_eq (lower_codes media_format) (b'w' ∷ b'a' ∷ b'v' ∷ [])
    then build_wav_master chunks
    else build_webm_master chunks
