-- ===== src/Spawn/StopRoute/Marks.antt =====
-- What a stop does to the rows and to the workload, apart from the code.
use meeting_bot_service.Prelude.{
  ℕ, ◌≡◌, ◌≢◌, refl, ◌⊎◌, ◌↔◌, ap, ◌∙◌, one_of, inl, inr, Bool, true, false, String, Option, none,
  some, List, [], ◌∷◌, ◌==◌, ==_iff, get, get-put, get-put_self, is_empty, str_eq, arith,
  Bool-cases, Option-cases, eq_iff,
}
use meeting_bot_service.Spawn.Rows.{Meeting, modify}
use meeting_bot_service.Spawn.Guarded.{merge}
use meeting_bot_service.Spawn.Status.{stamp_time, with_status}
use meeting_bot_service.Spawn.StopRoute.{stop_change, booting_statuses, torn_down}

-- the row becomes `stopping` with the request to stop, and is the same in all else
abbrev pub IsMarked : Meeting → Meeting → Type 0
IsMarked before after =
    (after ≡ record before { status = "stopping"; fields = after.fields })
    × (get after.fields "stop_requested" ≡ some "true")
    × ((key : String) → (key ≡ "stop_requested") ⊎ (get after.fields key ≡ get before.fields key))

-- the rows of this id are marked, and every other row is as it was
abbrev pub AreMarked : ℕ → List Meeting → List Meeting → Type 0
AreMarked id [] after = after ≡ []
AreMarked id (m ∷ ms) after =
    (m' : Meeting) × (later : List Meeting) × (after ≡ m' ∷ later)
    × (((m.id ≡ id) × IsMarked m m') ⊎ ((m.id ≢ id) × (m' ≡ m)))
    × AreMarked id ms later

-- the bot may not listen yet
abbrev pub IsBooting : Meeting → Type 0
IsBooting m =
    (m.status ≡ "requested") ⊎ ((m.status ≡ "joining") ⊎ (m.status ≡ "awaiting_admission"))

-- the deletion of the workload of a bot that may not listen yet is asked for, where there is a
-- runtime and a workload, and else of none
abbrev pub TearsDown : Bool → Meeting → List String → Type 0
TearsDown has_runtime m deleted =
    ((workload : String) × (has_runtime ≡ true)
      × (m.bot_container_id ≡ some workload)
      × (is_empty workload ≡ false)
      × IsBooting m
      × (deleted ≡ workload ∷ []))
    ⊎ ((deleted ≡ [])
        × ((has_runtime ≡ false)
            ⊎ (m.bot_container_id ≡ none)
            ⊎ (m.bot_container_id ≡ some "")
            ⊎ (IsBooting m → ⊥)))

stamp_time-never : (now : ℕ) (t : Option ℕ) → stamp_time false now t ≡ t
stamp_time-never now none = refl
stamp_time-never now (some t) = refl

with_status-IsMarked : (now : ℕ) (m : Meeting) → IsMarked m (with_status now stop_change m)
unfolding merge
with_status-IsMarked now m = (
  rw (stamp_time-never now m.start_time, stamp_time-never now m.end_time) refl,
  get-put_self m.fields "stop_requested" "true",
  λ key. elim (Bool-cases (str_eq "stop_requested" key)) [
    | inl same ↦ inl (ground (arith, same, eq_iff "stop_requested" key))
    | inr other ↦ inr (ground (arith, other, get-put m.fields "stop_requested" key "true"))
  ],
)

pub modify-AreMarked :
    (id now : ℕ) (ms : List Meeting) → AreMarked id ms (modify id (with_status now stop_change) ms)
unfolding modify
modify-AreMarked id now [] = refl
modify-AreMarked id now (m ∷ ms) =
    let later = modify id (with_status now stop_change) ms in
    elim (Bool-cases (m.id == id)) [
      | inl same ↦ (
        with_status now stop_change m,
        later,
        rw same refl,
        inl ((==_iff m.id id).0 same, with_status-IsMarked now m),
        modify-AreMarked id now ms,
      )
      | inr other ↦ (
        m,
        later,
        rw other refl,
        inr (λ e. ground (arith, other, e), refl),
        modify-AreMarked id now ms,
      )
    ]

one_of-IsBooting : (m : Meeting) → (one_of m.status booting_statuses ≡ true) ↔ IsBooting m
unfolding one_of
one_of-IsBooting m = (
  λ h. elim (Bool-cases (str_eq m.status "requested")) [
    | inl first ↦ inl (ground (arith, first, eq_iff m.status "requested"))
    | inr later ↦ inr (elim (Bool-cases (str_eq m.status "joining")) [
      | inl second ↦ inl (ground (arith, second, eq_iff m.status "joining"))
      | inr last ↦ inr (ground (arith, h, later, last, eq_iff m.status "awaiting_admission"))
    ])
  ],
  elim [ inl e ↦ rw e refl | inr (inl e) ↦ rw e refl | inr (inr e) ↦ rw e refl ],
)

pub torn_down-TearsDown :
    (has_runtime : Bool) (m : Meeting) → TearsDown has_runtime m (torn_down has_runtime m)
torn_down-TearsDown has_runtime m = elim (Option-cases m.bot_container_id) [
  | inl nothing ↦ inr (rw nothing refl, inr (inl nothing))
  | inr (w, some_w) ↦ elim (Bool-cases (is_empty w)) [
    | inl blank ↦
        inr (
          ground (arith, some_w, blank),
          inr (inr (inl (some_w ∙ ap some ((eq_iff w "").0 blank)))),
        )
    | inr named ↦ elim (Bool-cases (one_of m.status booting_statuses)) [
      | inl boots ↦ elim (Bool-cases has_runtime) [
        | inl here ↦ inl (
          w,
          here,
          some_w,
          named,
          (one_of-IsBooting m).0 boots,
          ground (arith, here, some_w, named, boots),
        )
        | inr away ↦ inr (ground (arith, away, some_w), inl away)
      ]
      | inr up ↦ inr (
        ground (arith, some_w, up),
        inr (inr (inr (λ boots. ground (arith, up, (one_of-IsBooting m).1 boots)))),
      )
    ]
  ]
]
