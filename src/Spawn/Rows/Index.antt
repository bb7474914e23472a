-- ===== src/Spawn/Rows/Index.antt =====
-- The partial unique index of `meetings`, and the queries for a link.
use mathlib.Core.Path.{subst}
use meeting_bot_service.Prelude.{
  ℕ, ◌≡◌, refl, sym, ap, ◌∙◌, Bool, true, false, not, ◌&&◌, ◌||◌, String, Option, none, some, List,
  [], ◌∷◌, ◌++◌, str_eq, eq_iff, Bool-cases, inl, inr, arith, one_of,
}
use meeting_bot_service.Spawn.Rows.{
  Meeting, active_statuses, terminal_statuses, planned_statuses, native_eq, has_link, is_active,
  is_planned, is_terminal, clashes, clashes_any, is_indexed, find_row, find_last,
}

unfoldable pub any_row : (Meeting → Bool) → List Meeting → Bool
any_row p [] = false
any_row p (m ∷ ms) = p m || any_row p ms

pub find_row-none :
    (p : Meeting → Bool) (ms : List Meeting) → find_row p ms ≡ none → any_row p ms ≡ false
unfolding find_row any_row
find_row-none p [] h = refl
find_row-none p (m ∷ ms) h = ground (arith, find_row-none p ms)

pub find_row-some :
    (p : Meeting → Bool) (ms : List Meeting) (r : Meeting)
    → find_row p ms ≡ some r
    → (p r ≡ true) × (any_row p ms ≡ true)
unfolding find_row any_row
find_row-some p [] r h = ground (arith, h)
find_row-some p (m ∷ ms) r h = ground (arith, find_row-some p ms r)

pub find_last-none :
    (p : Meeting → Bool) (ms : List Meeting) → find_last p ms ≡ none → any_row p ms ≡ false
unfolding find_last any_row
find_last-none p [] h = refl
find_last-none p (m ∷ ms) h = ground (arith, find_last-none p ms)

pub find_last-some :
    (p : Meeting → Bool) (ms : List Meeting) (r : Meeting)
    → find_last p ms ≡ some r
    → (p r ≡ true) × (any_row p ms ≡ true)
unfolding find_last any_row
find_last-some p [] r h = ground (arith, h)
find_last-some p (m ∷ ms) r h = ground (arith, find_last-some p ms r)

pub any_row_mono :
    (p q : Meeting → Bool) (ms : List Meeting)
    → ((m : Meeting) → p m ≡ true → q m ≡ true)
    → any_row p ms ≡ true
    → any_row q ms ≡ true
unfolding any_row
any_row_mono p q [] h e = e
any_row_mono p q (m ∷ ms) h e = ground (arith, e, h m, any_row_mono p q ms h)

native_eq-some : (o : Option String) (n : String) → native_eq o (some n) ≡ true → o ≡ some n
native_eq-some none n h = ground (arith, h)
native_eq-some (some a) n h = ground (arith, h, eq_iff a n)

native_sym :
    (o : Option String) (t : String) → native_eq (some t) o ≡ true → native_eq o (some t) ≡ true
native_sym none t h = ground (arith, h)
native_sym (some a) t h = ground (arith, h, eq_iff t a, eq_iff a t)

native_back :
    (o n : Option String) (t : String)
    → n ≡ some t
    → native_eq n o ≡ true
    → native_eq o (some t) ≡ true
native_back o n t e h = native_sym o t (ap (λ x. native_eq x o) (sym e) ∙ h)

has_link-key :
    (user : ℕ) (platform native : String) (a : Meeting)
    → has_link user platform (some native) a ≡ true
    → (a.user_id ≡ user) × (a.platform ≡ platform) × (a.native_meeting_id ≡ some native)
unfolding has_link
has_link-key user platform native a h =
    ground (arith, h, eq_iff a.platform platform, native_eq-some a.native_meeting_id native)

-- a planned status is no terminal one
pub planned_open : (m : Meeting) → is_planned m ≡ true → is_terminal m ≡ false
unfolding is_planned is_terminal one_of
planned_open m h = ground (
  arith,
  h,
  eq_iff "idle" m.status,
  eq_iff "scheduled" m.status,
  eq_iff m.status "idle",
  eq_iff m.status "scheduled",
  eq_iff m.status "completed",
  eq_iff m.status "failed",
  eq_iff "idle" "completed",
  eq_iff "idle" "failed",
  eq_iff "scheduled" "completed",
  eq_iff "scheduled" "failed",
)

-- an active status is neither a terminal nor a planned one
abbrev IsApart : String → Type 0
IsApart s = (one_of s terminal_statuses ≡ false) × (one_of s planned_statuses ≡ false)

pub active-IsApart : (s : String) → one_of s active_statuses ≡ true → IsApart s
unfolding one_of
active-IsApart s h = elim (Bool-cases (str_eq s "requested")) [
  | inl e ↦ subst IsApart (sym ((eq_iff s "requested").0 e)) (refl, refl)
  | inr e ↦ elim (Bool-cases (str_eq s "joining")) [
    | inl f ↦ subst IsApart (sym ((eq_iff s "joining").0 f)) (refl, refl)
    | inr f ↦ elim (Bool-cases (str_eq s "awaiting_admission")) [
      | inl g ↦ subst IsApart (sym ((eq_iff s "awaiting_admission").0 g)) (refl, refl)
      | inr g ↦
          subst IsApart (sym ((eq_iff s "active").0 (ground (arith, h, e, f, g)))) (refl, refl)
    ]
  ]
]

module _ (user : ℕ) (platform native : String) where
  -- a row of the link whose meeting has not ended, one that is only planned, and one that is neither
  unfoldable pub open_link : Meeting → Bool
  open_link m = has_link user platform (some native) m && not (is_terminal m)

  unfoldable pub planned_link : Meeting → Bool
  planned_link m = has_link user platform (some native) m && is_planned m

  unfoldable pub active_link : Meeting → Bool
  active_link m = has_link user platform (some native) m && is_active m

  unfoldable pub blocks : Meeting → Bool
  blocks m = has_link user platform (some native) m && (not (is_terminal m) && not (is_planned m))

  -- the rows that the index keeps apart from one of the link are the open ones of the link
  same_key :
      (a b : Meeting)
      → has_link user platform (some native) a ≡ true
      → has_link a.user_id a.platform a.native_meeting_id b ≡ has_link user platform (some native) b
  same_key a b h = let (u, p, n) = has_link-key user platform native a h in cc (u, p, n)

  pub clashes_any-open :
      (a : Meeting) (ms : List Meeting)
      → open_link a ≡ true
      → clashes_any a ms ≡ any_row open_link ms
  unfolding clashes_any any_row clashes open_link
  clashes_any-open a [] h = refl
  clashes_any-open a (m ∷ ms) h = ground (arith, h, same_key a m, clashes_any-open a ms h)

  planned-open : (m : Meeting) → planned_link m ≡ true → open_link m ≡ true
  unfolding planned_link open_link
  planned-open m h = ground (arith, h, planned_open m)

  pub blocks-open : (m : Meeting) → blocks m ≡ true → open_link m ≡ true
  unfolding blocks open_link
  blocks-open m h = ground (arith, h)

  blocks-planned : (m : Meeting) → planned_link m ≡ true → blocks m ≡ false
  unfolding blocks planned_link
  blocks-planned m h = ground (arith, h)

  pub active-blocks : (m : Meeting) → active_link m ≡ true → blocks m ≡ true
  unfolding active_link blocks is_active is_terminal is_planned
  active-blocks m h = ground (arith, h, active-IsApart m.status)

  pub any_row-split :
      (ms : List Meeting)
      → any_row planned_link ms ≡ false
      → any_row open_link ms ≡ any_row blocks ms
  unfolding any_row planned_link open_link blocks
  any_row-split [] h = refl
  any_row-split (m ∷ ms) h = ground (arith, h, any_row-split ms)

  -- a planned row of the link is its only open one
  pub planned_alone :
      (ms : List Meeting)
      → is_indexed ms ≡ true
      → any_row planned_link ms ≡ true
      → any_row blocks ms ≡ false
  unfolding is_indexed any_row
  planned_alone [] ix h = refl
  planned_alone (m ∷ ms) ix h = ground (
    arith,
    ix,
    h,
    planned-open m,
    blocks-open m,
    blocks-planned m,
    clashes_any-open m ms,
    any_row_mono planned_link open_link ms planned-open,
    any_row_mono blocks open_link ms blocks-open,
    planned_alone ms,
  )

  -- a row of the link clashes with the open ones of the link
  linked_back :
      (a m : Meeting)
      → has_link user platform (some native) m ≡ true
      → has_link a.user_id a.platform a.native_meeting_id m ≡ true
      → has_link user platform (some native) a ≡ true
  unfolding has_link
  linked_back a m h k =
      let (u, p, n) = has_link-key user platform native m h in
      ground (
        arith,
        k,
        u,
        p,
        n,
        eq_iff m.platform a.platform,
        eq_iff a.platform platform,
        native_back a.native_meeting_id m.native_meeting_id native n,
      )

  clashes_new : (a m : Meeting) → open_link m ≡ true → clashes a m ≡ open_link a
  unfolding clashes open_link
  clashes_new a m h = ground (arith, h, same_key a m, linked_back a m)

  clashes_any-append :
      (a : Meeting) (ms : List Meeting) (m : Meeting)
      → clashes_any a (ms ++ m ∷ []) ≡ (clashes_any a ms || clashes a m)
  unfolding clashes_any
  clashes_any-append a [] m = ground arith
  clashes_any-append a (r ∷ ms) m = ground (arith, clashes_any-append a ms m)

  pub is_indexed-append :
      (ms : List Meeting) (m : Meeting)
      → open_link m ≡ true
      → is_indexed ms ≡ true
      → is_indexed (ms ++ m ∷ []) ≡ not (any_row open_link ms)
  unfolding is_indexed any_row clashes_any
  is_indexed-append [] m h ix = refl
  is_indexed-append (r ∷ ms) m h ix =
      ground (arith, ix, h, clashes_new r m, clashes_any-append r ms m, is_indexed-append ms m)
