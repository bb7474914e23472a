-- ===== src/Recordings/Codec/Masters.antt =====
-- What a master of a wav recording is, and when there is one.
use mathlib.Core.List.{append_assoc, append-nil}
use mathlib.Core.Path.{subst, ap₂}
use meeting_bot_service.Prelude.{
  ℕ, ◌+◌, ◌≤◌, ◌<◌, ◌≡◌, ◌≢◌, ◌↔◌, refl, sym, ap, ◌∙◌, List, [], ◌∷◌, ◌++◌, length, le→leb, drop,
  All, inl, inr, arith,
}
use meeting_bot_service.Recordings.Codec.{
  Coded, parse_wav_header, real_chunks, payloads, join, assemble, merge_wav, build_wav_master,
}
use meeting_bot_service.Recordings.Codec.Wav.{
  Speaks, samples, payloads_sound, payloads_complete, assemble_lem, assemble_fits, parse-fmt,
  Coded-cases,
}

merge_complete :
    (fmt : List ℕ) (c : List ℕ) (cs : List (List ℕ))
    → All (Speaks fmt) (c ∷ cs)
    → merge_wav (c ∷ cs) ≡ assemble fmt (samples (c ∷ cs))
unfolding merge_wav
merge_complete fmt c cs h = rw h.0.1 (rw (payloads_complete fmt 0 (c ∷ cs) h) refl)

-- the chunks agree on the format, and the header over their samples is the master's
abbrev pub IsMerge : List (List ℕ) → List ℕ → List ℕ → Type 0
IsMerge cs fmt m = (cs ≢ []) × All (Speaks fmt) cs × (assemble fmt (samples cs) ≡ Coded.ok m)

IsMerge-sound :
    (cs : List (List ℕ)) (m : List ℕ)
    → merge_wav cs ≡ Coded.ok m
    → (fmt : List ℕ) × IsMerge cs fmt m
unfolding merge_wav
IsMerge-sound [] m h = ground (arith, h)
IsMerge-sound (c ∷ cs) m h = elim (Coded-cases (parse_wav_header c)) [
  | inr (e, bad) ↦ ground (arith, rw bad at h)
  | inl ((fmt, size), good) ↦ elim (Coded-cases (payloads fmt 0 (c ∷ cs))) [
    | inr (e, bad) ↦ ground (arith, rw (good, bad) at h)
    | inl (ps, fine) ↦
        let (speak, eq) = payloads_sound fmt 0 (c ∷ cs) ps fine in
        (
          fmt,
          (
            (λ nil. ground (arith, nil)),
            speak,
            ap (λ qs. assemble fmt (join qs)) (sym eq) ∙ (rw (good, fine) at h),
          ),
        )
  ]
]

real_chunks-append :
    (xs ys : List (List ℕ)) → real_chunks (xs ++ ys) ≡ real_chunks xs ++ real_chunks ys
unfolding real_chunks
real_chunks-append [] ys = refl
real_chunks-append (x ∷ xs) ys = ground (arith, real_chunks-append xs ys)

samples-append : (xs ys : List (List ℕ)) → samples (xs ++ ys) ≡ samples xs ++ samples ys
samples-append [] ys = refl
samples-append (x ∷ xs) ys = simp (samples-append xs ys, append_assoc)

-- a master is a chunk with all the samples
abbrev pub Carries : List ℕ → List ℕ → List (List ℕ) → Type 0
Carries m fmt cs =
    (parse_wav_header m ≡ Coded.ok (fmt, length (samples cs))) × (drop 44 m ≡ samples cs)

IsMerge-Carries : (cs : List (List ℕ)) (fmt m : List ℕ) → IsMerge cs fmt m → Carries m fmt cs
IsMerge-Carries [] fmt m h = absurd (h.0 refl)
IsMerge-Carries (c ∷ cs) fmt m (some_chunk, ((size, speaks), rest), made) =
    let (m', made', parsed, payload) =
      assemble_lem fmt (samples (c ∷ cs)) (parse-fmt c fmt size speaks).1
        (assemble_fits fmt (samples (c ∷ cs)) m made) in
    let same : m' ≡ m = ground (arith, made, made') in
    (
      subst (λ b. parse_wav_header b ≡ Coded.ok (fmt, length (samples (c ∷ cs)))) same parsed,
      subst (λ b. drop 44 b ≡ samples (c ∷ cs)) same payload,
    )

-- What a reader finds in a master of wav chunks: the format that all chunks with a header declare,
-- after the header exactly their samples in order, and a size field that says how many there are.
pub master-Carries :
    (chunks : List (List ℕ)) (m : List ℕ)
    → build_wav_master chunks ≡ Coded.ok m
    → (fmt : List ℕ) × All (Speaks fmt) (real_chunks chunks) × Carries m fmt (real_chunks chunks)
unfolding build_wav_master
master-Carries chunks m h =
    let (fmt, merge) = IsMerge-sound (real_chunks chunks) m h in
    (fmt, merge.1, IsMerge-Carries (real_chunks chunks) fmt m merge)

-- the head of a list of chunks fixes their format
one_format :
    (cs : List (List ℕ)) (f g : List ℕ) → cs ≢ [] → All (Speaks f) cs → All (Speaks g) cs → f ≡ g
one_format [] f g some_chunk hf hg = absurd (some_chunk refl)
one_format (c ∷ cs) f g some_chunk hf hg = ground (arith, hf.0.1, hg.0.1)

All-append_left {ℓ κ} :
    {A : Type ℓ} (P : A → Type κ) (xs ys : List A) → All P (xs ++ ys) → All P xs × All P ys
All-append_left P [] ys h = (tt, h)
All-append_left P (x ∷ xs) ys h = let (hx, hy) = All-append_left P xs ys h.1 in ((h.0, hx), hy)

real_chunks_pair :
    (a b : List ℕ) → 44 ≤ length a → 44 ≤ length b → real_chunks (a ∷ b ∷ []) ≡ a ∷ b ∷ []
unfolding real_chunks
real_chunks_pair a b ha hb = rw (le→leb 44 (length a) ha) (rw (le→leb 44 (length b) hb) refl)

pair_merges :
    (cs ds : List (List ℕ)) (fmt a b m : List ℕ)
    → IsMerge cs fmt a
    → IsMerge ds fmt b
    → assemble fmt (samples (cs ++ ds)) ≡ Coded.ok m
    → merge_wav (real_chunks (a ∷ b ∷ [])) ≡ Coded.ok m
pair_merges cs ds fmt a b m ha hb made =
    let (pa, da) = IsMerge-Carries cs fmt a ha in
    let (pb, db) = IsMerge-Carries ds fmt b hb in
    ap merge_wav (
      real_chunks_pair a b (parse-fmt a fmt (length (samples cs)) pa).0
        (parse-fmt b fmt (length (samples ds)) pb).0)
    ∙ merge_complete fmt a (b ∷ []) ((length (samples cs), pa), ((length (samples ds), pb), tt))
    ∙ ap (assemble fmt)
        (ap₂ (λ p q. p ++ q) da (append-nil (drop 44 b) ∙ db) ∙ sym (samples-append cs ds))
    ∙ made

merges :
    (cs : List (List ℕ)) (fmt : List ℕ)
    → cs ≢ []
    → All (Speaks fmt) cs
    → 36 + length (samples cs) < 4294967296
    → (m : List ℕ) × (merge_wav cs ≡ Coded.ok m)
merges [] fmt some_chunk speak fits = absurd (some_chunk refl)
merges (c ∷ cs) fmt some_chunk speak fits =
    let ((size, speaks), rest) = speak in
    let (m, made, _, _) =
      assemble_lem fmt (samples (c ∷ cs)) (parse-fmt c fmt size speaks).1 fits in
    (m, merge_complete fmt c cs speak ∙ made)

-- Recordings may be merged in parts: where the chunks of both parts have a master, and all chunks
-- together have one, the masters of the parts merge to that of the whole, byte for byte.
pub master_regroup :
    (xs ys : List (List ℕ)) (mx my m : List ℕ)
    → build_wav_master xs ≡ Coded.ok mx
    → build_wav_master ys ≡ Coded.ok my
    → build_wav_master (xs ++ ys) ≡ Coded.ok m
    → build_wav_master (mx ∷ my ∷ []) ≡ Coded.ok m
unfolding build_wav_master
master_regroup xs ys mx my m hx hy h =
    let (f, x) = IsMerge-sound (real_chunks xs) mx hx in
    let (g, y) = IsMerge-sound (real_chunks ys) my hy in
    let (k, w) =
      IsMerge-sound (real_chunks xs ++ real_chunks ys) m
        (subst (λ cs. merge_wav cs ≡ Coded.ok m) (real_chunks-append xs ys) h) in
    let (speak_x, speak_y) = All-append_left (Speaks k) (real_chunks xs) (real_chunks ys) w.1 in
    pair_merges (real_chunks xs) (real_chunks ys) k mx my m
      (subst (λ l. IsMerge (real_chunks xs) l mx) (one_format (real_chunks xs) f k x.0 x.1 speak_x)
        x)
      (subst (λ l. IsMerge (real_chunks ys) l my) (one_format (real_chunks ys) g k y.0 y.1 speak_y)
        y)
      w.2

-- A wav recording has a master exactly if some chunk holds a header, all chunks that are long enough
-- for one are canonical and declare one format, and the samples leave the size fields in 32 bits.
master_exists_iff :
    (chunks : List (List ℕ))
    → ((m : List ℕ) × (build_wav_master chunks ≡ Coded.ok m)) ↔ (
        (fmt : List ℕ) × (real_chunks chunks ≢ [])
        × All (Speaks fmt) (real_chunks chunks)
        × (36 + length (samples (real_chunks chunks)) < 4294967296))
unfolding build_wav_master
master_exists_iff chunks = (
  λ made.
      let (fmt, merge) = IsMerge-sound (real_chunks chunks) made.0 made.1 in
      (fmt, merge.0, merge.1, assemble_fits fmt (samples (real_chunks chunks)) made.0 merge.2),
  λ h. merges (real_chunks chunks) h.0 h.1 h.2 h.3,
)
