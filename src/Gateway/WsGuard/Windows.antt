-- ===== src/Gateway/WsGuard/Windows.antt =====
-- The times in a bucket of the guard and the times that have left it.
use mathlib.Core.List.{append_assoc, append-nil}
use meeting_bot_service.Prelude.{
  ℕ, ◌+◌, ◌≤◌, Option, none, some, List, [], ◌∷◌, ◌++◌, ◌≡◌, refl, sym, ap, length, ltb, leb, bit,
  arith, All, All-append, All-map, Bool-cases, inl, inr,
}
use meeting_bot_service.Gateway.WsGuard.{prune}

-- how many of the times are less than a window before now
abbrev pub recent : ℕ → ℕ → List ℕ → ℕ
recent window now [] = 0
recent window now (t ∷ ts) = bit (ltb now (t + window)) + recent window now ts

recent-append :
    (window now : ℕ) (xs ys : List ℕ)
    → recent window now (xs ++ ys) ≡ recent window now xs + recent window now ys
recent-append window now [] ys = omega arith
recent-append window now (t ∷ xs) ys = omega (arith, recent-append window now xs ys)

recent_le : (window now : ℕ) (xs : List ℕ) → recent window now xs ≤ length xs
recent_le window now [] = omega arith
recent_le window now (t ∷ xs) = ground (arith, recent_le window now xs)

-- the times are a window and more before now
abbrev IsOld : ℕ → ℕ → ℕ → Type 0
IsOld window now t = t + window ≤ now

recent_old : (window now : ℕ) (xs : List ℕ) → All (IsOld window now) xs → recent window now xs ≡ 0
recent_old window now [] h = refl
recent_old window now (t ∷ xs) h = ground (arith, h.0, recent_old window now xs h.1)

older : (window a b : ℕ) (xs : List ℕ) → a ≤ b → All (IsOld window a) xs → All (IsOld window b) xs
older window a b xs le h =
    All-map (IsOld window a) (IsOld window b) xs (λ t old. omega (arith, old, le)) h

pub no_ban : (now unban : ℕ) → none ≡ some unban → unban ≤ now
no_ban now unban e = ground (arith, e)

-- pruning drops old times from the front
prune_split :
    (window now : ℕ) (xs : List ℕ)
    → (old : List ℕ) × (xs ≡ old ++ prune window now xs) × All (IsOld window now) old
unfolding prune
prune_split window now [] = ([], refl, tt)
prune_split window now (t ∷ xs) = elim (Bool-cases (leb (t + window) now)) [
  | inl gone ↦
      let (old, split, all) = prune_split window now xs in
      (t ∷ old, rw gone (ground (arith, split)), (ground (arith, gone), all))
  | inr here ↦ ([], rw here refl, tt)
]

module _ (window : ℕ) where
  -- What holds of an address between two connects, the last of which was at `last`: the times it was
  -- admitted at are the forgotten ones and its bucket, and once a ban is over the forgotten ones are
  -- old.
  pub record Covers (bucket : List ℕ) (ban : Option ℕ) (admitted : List ℕ) (last : ℕ) : Type 0 where
    forgotten : List ℕ
    split : admitted ≡ forgotten ++ bucket
    old :
        (now : ℕ)
        → last ≤ now
        → ((unban : ℕ) → ban ≡ some unban → unban ≤ now)
        → All (IsOld window now) forgotten
    past : All (λ t. t ≤ last) admitted

  -- before the first connect
  pub unmet : Covers [] none [] 0
  unmet = record { forgotten = []; split = refl; old = λ n le over. tt; past = tt }

  module _ (bucket : List ℕ) (ban : Option ℕ) (admitted : List ℕ) (last now : ℕ)
      (c : Covers bucket ban admitted last) (later : last ≤ now) where
    now_past : All (λ t. t ≤ now) admitted
    now_past =
        All-map (λ t. t ≤ last) (λ t. t ≤ now) admitted (λ t le. omega (arith, le, later)) c.past

    -- a connect under a ban changes nothing
    pub waited : Covers bucket ban admitted now
    waited = record {
      forgotten = c.forgotten;
      split = c.split;
      old = λ n le over. c.old n (omega (arith, le, later)) over;
      past = now_past;
    }

    module _ (over : (unban : ℕ) → ban ≡ some unban → unban ≤ now) where
      -- pruning moves times of the bucket to the old ones
      pub pruned : Covers (prune window now bucket) none admitted now
      pruned =
          let (dropped, split, old) = prune_split window now bucket in
          record {
            forgotten = c.forgotten ++ dropped;
            split = cc (c.split, split, append_assoc c.forgotten dropped (prune window now bucket));
            old = λ n le _.
                older window now n (c.forgotten ++ dropped) le
                  (All-append (IsOld window now) c.forgotten dropped (c.old now later over) old);
            past = now_past;
          }

  -- an admission
  pub admit :
      (bucket admitted : List ℕ) (now : ℕ)
      → Covers bucket none admitted now
      → Covers (bucket ++ now ∷ []) none (admitted ++ now ∷ []) now
  admit bucket admitted now c = record {
    forgotten = c.forgotten;
    split = cc (c.split, append_assoc c.forgotten bucket (now ∷ []));
    old = c.old;
    past = All-append (λ t. t ≤ now) admitted (now ∷ []) c.past (omega arith, tt);
  }

  -- a ban
  pub banish :
      (duration : ℕ) (bucket admitted : List ℕ) (now : ℕ)
      → window ≤ duration
      → Covers bucket none admitted now
      → Covers [] (some (now + duration)) admitted now
  banish duration bucket admitted now long c = record {
    forgotten = admitted;
    split = sym (append-nil admitted);
    old = λ n le over.
        All-map (λ t. t ≤ now) (IsOld window n) admitted
          (λ t lt. omega (arith, lt, long, over (now + duration) refl)) c.past;
    past = c.past;
  }

  -- as many recent admissions as recent times of the bucket
  pub recent-Covers :
      (bucket admitted : List ℕ) (now : ℕ)
      → Covers bucket none admitted now
      → recent window now admitted ≤ length bucket
  recent-Covers bucket admitted now c = omega (
    arith,
    ap (recent window now) c.split,
    recent-append window now c.forgotten bucket,
    recent_old window now c.forgotten (c.old now (omega arith) (no_ban now)),
    recent_le window now bucket,
  )
