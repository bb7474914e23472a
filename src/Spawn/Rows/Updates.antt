-- ===== src/Spawn/Rows/Updates.antt =====
-- Updates of one row of `meetings` that leave the index.
use mathlib.Core.Path.{ap₂, subst}
use meeting_bot_service.Prelude.{
  ℕ, ◌≡◌, refl, ◌∙◌, Bool, true, false, not, ◌&&◌, ◌||◌, some, List, [], ◌∷◌, ◌==◌, All, All-map,
  Bool-cases, Option-cases, inl, inr, arith, if◌then◌else◌,
}
use meeting_bot_service.Spawn.Rows.{
  Meeting, has_link, is_terminal, clashes, clashes_any, is_indexed, find_last, modify,
}
use meeting_bot_service.Spawn.Rows.Cap.{IsKeyed}

-- where the row has this id, its meeting has not ended
unfoldable pub Open : ℕ → Meeting → Type 0
Open id r = (r.id == id) ≡ true → is_terminal r ≡ false

-- An update of one row that leaves the keys alone and the meeting open leaves the index, where no row
-- with its id had ended.
module _ (id : ℕ) (f : Meeting → Meeting) (user : (m : Meeting) → (f m).user_id ≡ m.user_id)
    (platform : (m : Meeting) → (f m).platform ≡ m.platform)
    (native : (m : Meeting) → (f m).native_meeting_id ≡ m.native_meeting_id)
    (opens : (m : Meeting) → is_terminal (f m) ≡ false) where
  update_row : Meeting → Meeting
  update_row m = if m.id == id then f m else m

  update-key :
      (a b : Meeting)
      → has_link
          (update_row a).user_id
          (update_row a).platform
          (update_row a).native_meeting_id
          (update_row b)
        ≡ has_link a.user_id a.platform a.native_meeting_id b
  unfolding update_row has_link
  update-key a b = elim (Bool-cases (a.id == id)) [
    | inl x ↦ elim (Bool-cases (b.id == id)) [
      | inl y ↦ cc (x, y, user a, user b, platform a, platform b, native a, native b)
      | inr y ↦ cc (x, y, user a, platform a, native a)
    ]
    | inr x ↦ elim (Bool-cases (b.id == id)) [
      | inl y ↦ cc (x, y, user b, platform b, native b)
      | inr y ↦ cc (x, y)
    ]
  ]

  update-ends : (a : Meeting) → Open id a → is_terminal (update_row a) ≡ is_terminal a
  unfolding update_row Open
  update-ends a h = ground (arith, h, opens a)

  clashes-update :
      (a b : Meeting) → Open id a → Open id b → clashes (update_row a) (update_row b) ≡ clashes a b
  unfolding clashes
  clashes-update a b ha hb = ground (arith, update-ends a ha, update-ends b hb, update-key a b)

  clashes_any-modify :
      (a : Meeting) (ms : List Meeting)
      → Open id a
      → All (Open id) ms
      → clashes_any (update_row a) (modify id f ms) ≡ clashes_any a ms
  unfolding clashes_any modify update_row
  clashes_any-modify a [] ha h = refl
  clashes_any-modify a (m ∷ ms) ha h =
      ap₂ (λ x y. x || y) (clashes-update a m ha h.0) (clashes_any-modify a ms ha h.1)

  pub is_indexed-modify :
      (ms : List Meeting) → All (Open id) ms → is_indexed (modify id f ms) ≡ is_indexed ms
  unfolding is_indexed modify update_row
  is_indexed-modify [] h = refl
  is_indexed-modify (m ∷ ms) h =
      ap₂ (λ x y. not x && y) (clashes_any-modify m ms h.0 h.1) (is_indexed-modify ms h.1)

pub find_last-All {κ} :
    (p : Meeting → Bool) (Q : Meeting → Type κ) (ms : List Meeting) (r : Meeting)
    → All Q ms
    → find_last p ms ≡ some r
    → Q r
unfolding find_last
find_last-All p Q [] r h e = ground (arith, e)
find_last-All p Q (m ∷ ms) r h e = elim (Option-cases (find_last p ms)) [
  | inr (x, later) ↦ find_last-All p Q ms r h.1 (later ∙ (rw later at e))
  | inl last ↦ elim (Bool-cases (p m)) [
    | inl here ↦ let same : m ≡ r = ground (arith, rw (last, here) at e) in subst Q same h.0
    | inr there ↦ ground (arith, rw (last, there) at e)
  ]
]

-- the row that a query finds is the only one with its id
pub found-Open :
    (p : Meeting → Bool) (ms : List Meeting) (r : Meeting)
    → ((m : Meeting) → p m ≡ true → is_terminal m ≡ false)
    → IsKeyed ms
    → find_last p ms ≡ some r
    → All (Open r.id) ms
unfolding find_last Open
found-Open p [] r opens k e = tt
found-Open p (m ∷ ms) r opens k e = elim (Option-cases (find_last p ms)) [
  | inr (x, later) ↦
      let found = later ∙ (rw later at e) in
      let other = find_last-All p (λ y. (y.id == m.id) ≡ false) ms r k.0 found in
      (λ same. ground (arith, same, other), found-Open p ms r opens k.1 found)
  | inl last ↦ elim (Bool-cases (p m)) [
    | inl here ↦
        let same : m ≡ r = ground (arith, rw (last, here) at e) in
        (
          λ _. opens m here,
          All-map (λ y. (y.id == m.id) ≡ false) (λ y. (y.id == r.id) ≡ true → is_terminal y ≡ false)
              ms (λ y other own. ground (arith, same, own, other)) k.0,
        )
    | inr there ↦ ground (arith, rw (last, there) at e)
  ]
]
