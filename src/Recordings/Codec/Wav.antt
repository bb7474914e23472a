-- ===== src/Recordings/Codec/Wav.antt =====
-- Which chunks make a master of a wav recording, and what a reader of the master finds in it.
use mathlib.Core.Path.{ap₂}
use meeting_bot_service.Prelude.{
  ℕ, ◌+◌, ◌≤◌, ◌<◌, ◌≡◌, refl, sym, ap, ◌∙◌, Bool, false, List, [], ◌∷◌, ◌++◌, length,
  length-append, ◌⊎◌, not, ◌||◌, ltb, ltb-eq-false, lt→ltb, le→ltb, drop-drop, take, drop,
  take-append, drop-append, length-take, length-drop, bytes_at, bytes_eq, bytes_eq_iff, le32,
  from_le32, from_le32-le32, All, Bool-cases, inl, inr, arith, if◌then◌else◌,
}
use meeting_bot_service.Recordings.Codec.{
  Coded, CodecError, riff, wave, fmt_id, data_id, parse_wav_header, payloads, join, assemble, pack,
}

-- the chunk is a canonical wav file in the format fmt
abbrev pub Speaks : List ℕ → List ℕ → Type 0
Speaks fmt c = (size : ℕ) × (parse_wav_header c ≡ Coded.ok (fmt, size))

-- the samples of the chunks
abbrev pub bodies : List (List ℕ) → List (List ℕ)
bodies [] = []
bodies (c ∷ cs) = drop 44 c ∷ bodies cs

abbrev pub samples : List (List ℕ) → List ℕ
samples cs = join (bodies cs)

-- what the checks of a header let through
checks_fail {ℓ} :
    {A : Type ℓ} (a b d : Bool) {x y : A}
    → (if a
        then Coded.raised CodecError.short_chunk
        else if b
        then Coded.raised CodecError.no_magic
        else if d
        then Coded.raised CodecError.non_canonical
        else Coded.ok x)
      ≡ Coded.ok y
    → (a ≡ false) × (x ≡ y)
checks_fail a b d h = ground arith

checks_pass {ℓ} :
    {A : Type ℓ} (a b d : Bool) {x y : A}
    → a ≡ false
    → b ≡ false
    → d ≡ false
    → x ≡ y
    → (if a
        then Coded.raised CodecError.short_chunk
        else if b
        then Coded.raised CodecError.no_magic
        else if d
        then Coded.raised CodecError.non_canonical
        else Coded.ok x)
      ≡ Coded.ok y
checks_pass a b d p q r e = ground arith

pub parse-fmt :
    (c fmt : List ℕ) (size : ℕ)
    → parse_wav_header c ≡ Coded.ok (fmt, size)
    → (44 ≤ length c) × (length fmt ≡ 16)
unfolding parse_wav_header
parse-fmt c fmt size h =
    let (long, eq) =
      checks_fail (ltb (length c) 44)
        (not (bytes_eq (take 4 c) riff) || not (bytes_eq (bytes_at 8 12 c) wave))
        (not (bytes_eq (bytes_at 36 40 c) data_id)) h in
    let le = ltb-eq-false (length c) 44 long in
    (
      le,
      ap (λ r. length r.0) (sym eq)
          ∙ length-take 16 (drop 20 c) (omega (arith, length-drop 20 c (omega (arith, le)))),
    )

pub Coded-cases {ℓ} :
    {A : Type ℓ} (r : Coded A)
    → ((a : A) × (r ≡ Coded.ok a)) ⊎ ((e : CodecError) × (r ≡ Coded.raised e))
Coded-cases (Coded.ok a) = inl (a, refl)
Coded-cases (Coded.raised e) = inr (e, refl)

pub payloads_sound :
    (fmt : List ℕ) (i : ℕ) (cs ps : List (List ℕ))
    → payloads fmt i cs ≡ Coded.ok ps
    → All (Speaks fmt) cs × (ps ≡ bodies cs)
unfolding payloads
payloads_sound fmt i [] ps h = (tt, ground (arith, h))
payloads_sound fmt i (c ∷ cs) ps h =
    let IH = payloads_sound fmt (i + 1) cs in
    elim (Coded-cases (parse_wav_header c)) [
      | inr (e, bad) ↦ ground (arith, rw bad at h)
      | inl ((c_fmt, size), good) ↦ elim (Bool-cases (bytes_eq c_fmt fmt)) [
        | inr other ↦ ground (arith, rw (good, other) at h)
        | inl same ↦ elim (Coded-cases (payloads fmt (i + 1) cs)) [
          | inr (e, bad) ↦ ground (arith, rw (good, same, bad) at h)
          | inl (rest, fine) ↦
              let (speak, eq) = IH rest fine in
              (
                (
                  (size, good ∙ ap (λ f. Coded.ok (f, size)) ((bytes_eq_iff c_fmt fmt).0 same)),
                  speak,
                ),
                ground (arith, rw (good, same, fine) at h, eq),
              )
        ]
      ]
    ]

pub payloads_complete :
    (fmt : List ℕ) (i : ℕ) (cs : List (List ℕ))
    → All (Speaks fmt) cs
    → payloads fmt i cs ≡ Coded.ok (bodies cs)
unfolding payloads
payloads_complete fmt i [] h = refl
payloads_complete fmt i (c ∷ cs) ((size, h), hs) =
    rw h (rw ((bytes_eq_iff fmt fmt).1 refl) (rw (payloads_complete fmt (i + 1) cs hs) refl))

-- a header over the payload is read back
module _ (fmt payload : List ℕ) (n : ℕ) (sixteen : length fmt ≡ 16)
    (fits : length payload < 4294967296) where
  tail : List ℕ
  tail = data_id ++ (le32 (length payload) ++ payload)

  header : List ℕ
  header =
      riff
      ++ (le32 n
          ++ (wave
              ++ (fmt_id ++ (le32 16 ++ (fmt ++ (data_id ++ (le32 (length payload) ++ payload)))))))

  after_fmt : (k : ℕ) → drop (16 + k) (fmt ++ tail) ≡ drop k tail
  after_fmt k = sym (drop-drop 16 k (fmt ++ tail)) ∙ ap (drop k) (drop-append fmt tail 16 sixteen)

  parse_header : parse_wav_header header ≡ Coded.ok (fmt, length payload)
  unfolding parse_wav_header header tail
  parse_header =
      checks_pass (ltb (length header) 44)
        (not (bytes_eq (take 4 header) riff) || not (bytes_eq (bytes_at 8 12 header) wave))
        (not (bytes_eq (bytes_at 36 40 header) data_id))
        (le→ltb (length header) 44 (
          omega
            (arith, length-append fmt (data_id ++ (le32 (length payload) ++ payload)), sixteen)))
        refl (ap (λ b. not (bytes_eq (take 4 b) data_id)) (after_fmt 0))
        (ap₂ (λ a b. (a, from_le32 (take 4 b))) (take-append fmt tail 16 sixteen) (after_fmt 4)
          ∙ ap (λ k. (fmt, k)) (from_le32-le32 (length payload) fits))

  drop-header : drop 44 header ≡ payload
  unfolding header tail
  drop-header = after_fmt 8

pub assemble_lem :
    (fmt payload : List ℕ)
    → length fmt ≡ 16
    → 36 + length payload < 4294967296
    → (m : List ℕ) × (assemble fmt payload ≡ Coded.ok m)
      × (parse_wav_header m ≡ Coded.ok (fmt, length payload))
      × (drop 44 m ≡ payload)
unfolding assemble pack header
assemble_lem fmt payload sixteen fits = (
  header fmt payload (36 + length payload) sixteen (omega (arith, fits)),
  rw (lt→ltb (36 + length payload) 4294967296 fits)
      (rw (lt→ltb (length payload) 4294967296 (omega (arith, fits))) refl),
  parse_header fmt payload (36 + length payload) sixteen (omega (arith, fits)),
  drop-header fmt payload (36 + length payload) sixteen (omega (arith, fits)),
)

pub assemble_fits :
    (fmt payload m : List ℕ) → assemble fmt payload ≡ Coded.ok m → 36 + length payload < 4294967296
unfolding assemble pack
assemble_fits fmt payload m h = ground (arith, h)
