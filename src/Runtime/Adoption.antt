-- ===== src/Runtime/Adoption.antt =====
-- `adopt` re-registers what the store lost, once, and overwrites nothing.
use meeting_bot_service.Prelude.{
  Bool, true, false, not, ◌||◌, String, Option, sym, ◌⊎◌, some, none, List, [], ◌∷◌, ◌≡◌, ◌∙◌, inl,
  inr, is_some, arith, get, get-put, eq_iff, is_empty, refl, Option-cases, All,
}
use meeting_bot_service.Runtime.Models.{Substrate, ContainerInfo}
use meeting_bot_service.Runtime.Store.{WorkloadRecord, set_record, get_record}
use meeting_bot_service.Runtime.Kernel.{Config, Runtime, persist}
use meeting_bot_service.Runtime.Teardown.{
  adopt, adopt_from, adopt_named, adopt_one, attach, adopted_spec, adopted_status,
}

module _ (B : Substrate) (cfg : Config) where
  -- the container has an id and a name, so adoption looks at it
  abbrev names_container : Option String → Option String → Bool
  names_container (some id) (some name) = not (is_empty id || is_empty name)
  names_container _ _ = false

  abbrev pub IsListed : ContainerInfo → String → Type 0
  IsListed info id =
      (info.workload_id ≡ some id) × (names_container info.workload_id info.name ≡ true)

  -- a container that adoption looks at, and has a record
  abbrev IsKnown : Runtime B → ContainerInfo → Type 0
  IsKnown k info = (id : String) → IsListed info id → is_some (get k.store id) ≡ true

  adopt_one_keeps :
      (k : Runtime B) (id name : String) (info : ContainerInfo) (j : String) (r : WorkloadRecord)
      → get k.store j ≡ some r
      → get (adopt_one B cfg k id name info).0.store j ≡ some r
  unfolding adopt_one attach persist set_record get_record
  adopt_one_keeps k id name info j r found = ground (
    arith,
    eq_iff id j,
    get-put k.store id j (record {
      spec = adopted_spec B cfg id;
      status = adopted_status B cfg (attach B cfg k id name) id info;
      owner = cfg.owner_resolver (adopted_spec B cfg id);
    }),
  )

  adopt_named_keeps :
      (k : Runtime B) (wid name : Option String) (info : ContainerInfo) (j : String)
      (r : WorkloadRecord)
      → get k.store j ≡ some r
      → get (adopt_named B cfg k wid name info).0.store j ≡ some r
  unfolding adopt_named
  adopt_named_keeps k (some id) (some name) info j r found =
      ground (arith, adopt_one_keeps k id name info j r found)
  adopt_named_keeps k (some id) none info j r found = found
  adopt_named_keeps k none name info j r found = found

  adopt_from_keeps :
      (k : Runtime B) (infos : List ContainerInfo) (j : String) (r : WorkloadRecord)
      → get k.store j ≡ some r
      → get (adopt_from B cfg k infos).0.store j ≡ some r
  unfolding adopt_from
  adopt_from_keeps k [] j r found = found
  adopt_from_keeps k (info ∷ infos) j r found =
      adopt_from_keeps (adopt_named B cfg k info.workload_id info.name info).0 infos j r
        (adopt_named_keeps k info.workload_id info.name info j r found)

  adopt_from_same :
      (k : Runtime B) (infos : List ContainerInfo) (j : String)
      → (get k.store j ≡ none) ⊎ (get (adopt_from B cfg k infos).0.store j ≡ get k.store j)
  adopt_from_same k infos j = elim (Option-cases (get k.store j)) [
    | inl absent ↦ inl absent
    | inr (r, found) ↦ inr (adopt_from_keeps k infos j r found ∙ sym found)
  ]

  adopt_one_known :
      (k : Runtime B) (id name : String) (info : ContainerInfo)
      → is_some (get (adopt_one B cfg k id name info).0.store id) ≡ true
  unfolding adopt_one attach persist set_record get_record
  adopt_one_known k id name info = ground (
    arith,
    eq_iff id id,
    get-put k.store id id (record {
      spec = adopted_spec B cfg id;
      status = adopted_status B cfg (attach B cfg k id name) id info;
      owner = cfg.owner_resolver (adopted_spec B cfg id);
    }),
  )

  adopt_named_known :
      (k : Runtime B) (wid name : Option String) (info : ContainerInfo) (id : String)
      → wid ≡ some id
      → names_container wid name ≡ true
      → is_some (get (adopt_named B cfg k wid name info).0.store id) ≡ true
  unfolding adopt_named
  adopt_named_known k (some id') (some name) info id same named =
      ground (arith, adopt_one_known k id' name info)
  adopt_named_known k (some id') none info id same named = cc
  adopt_named_known k none name info id same named = cc

  Keeps : Runtime B → Runtime B → Type 0
  Keeps k k' = (j : String) (r : WorkloadRecord) → get k.store j ≡ some r → get k'.store j ≡ some r

  known-Keeps :
      (k k' : Runtime B) (id : String)
      → Keeps k k'
      → is_some (get k.store id) ≡ true
      → is_some (get k'.store id) ≡ true
  unfolding Keeps
  known-Keeps k k' id keeps there = elim (Option-cases (get k.store id)) [
    | inl lost ↦ absurd (ground (arith, lost))
    | inr (r, found) ↦ rw (keeps id r found)
  ]

  All-IsKnown-Keeps :
      (k k' : Runtime B) (infos : List ContainerInfo)
      → Keeps k k'
      → All (IsKnown k) infos
      → All (IsKnown k') infos
  All-IsKnown-Keeps k k' [] keeps h = tt
  All-IsKnown-Keeps k k' (info ∷ infos) keeps h = (
    λ id listed. known-Keeps k k' id keeps (h.0 id listed),
    All-IsKnown-Keeps k k' infos keeps h.1,
  )

  adopt_from-IsKnown :
      (k : Runtime B) (infos : List ContainerInfo)
      → All (IsKnown (adopt_from B cfg k infos).0) infos
  unfolding adopt_from Keeps
  adopt_from-IsKnown k [] = tt
  adopt_from-IsKnown k (info ∷ infos) =
      let k' = (adopt_named B cfg k info.workload_id info.name info).0 in
      (
        λ id listed.
            known-Keeps k' (adopt_from B cfg k' infos).0 id (adopt_from_keeps k' infos)
              (adopt_named_known k info.workload_id info.name info id listed.0 listed.1),
        adopt_from-IsKnown k' infos,
      )

  adopt_named_idle :
      (k : Runtime B) (wid name : Option String) (info : ContainerInfo)
      → ((id : String)
          → wid ≡ some id
          → names_container wid name ≡ true
          → is_some (get k.store id) ≡ true)
      → ((adopt_named B cfg k wid name info).0.store ≡ k.store)
        × ((adopt_named B cfg k wid name info).1 ≡ 0)
  unfolding adopt_named adopt_one attach get_record
  adopt_named_idle k (some id) (some name) info known = ground (arith, known id)
  adopt_named_idle k (some id) none info known = (refl, refl)
  adopt_named_idle k none name info known = (refl, refl)

  adopt_from_idle :
      (k : Runtime B) (infos : List ContainerInfo)
      → All (IsKnown k) infos
      → ((adopt_from B cfg k infos).0.store ≡ k.store) × ((adopt_from B cfg k infos).1 ≡ 0)
  unfolding adopt_from Keeps
  adopt_from_idle k [] h = (refl, refl)
  adopt_from_idle k (info ∷ infos) h =
      let k' = (adopt_named B cfg k info.workload_id info.name info).0 in
      let (same, zero_here) =
        adopt_named_idle k info.workload_id info.name info (λ id e named. h.0 id (e, named)) in
      let (same', zero_later) =
        adopt_from_idle k' infos (All-IsKnown-Keeps k k' infos (λ j r found. rw same found) h.1) in
      (same' ∙ same, omega (arith, zero_here, zero_later))

  adopt_named_world :
      (k : Runtime B) (wid name : Option String) (info : ContainerInfo)
      → (adopt_named B cfg k wid name info).0.world ≡ k.world
  unfolding adopt_named adopt_one attach persist get_record
  adopt_named_world k (some id) (some name) info = ground arith
  adopt_named_world k (some id) none info = refl
  adopt_named_world k none name info = refl

  adopt_from_world :
      (k : Runtime B) (infos : List ContainerInfo) → (adopt_from B cfg k infos).0.world ≡ k.world
  unfolding adopt_from
  adopt_from_world k [] = refl
  adopt_from_world k (info ∷ infos) =
      adopt_from_world (adopt_named B cfg k info.workload_id info.name info).0 infos
      ∙ adopt_named_world k info.workload_id info.name info

  adopt_silent :
      (k : Runtime B) → B.list_workload_containers k.world ≡ none → adopt B cfg k ≡ (k, 0)
  unfolding adopt
  adopt_silent k silent = rw (silent, adopt)

  adopt_listed :
      (k : Runtime B) (infos : List ContainerInfo)
      → B.list_workload_containers k.world ≡ some infos
      → adopt B cfg k ≡ adopt_from B cfg k infos
  unfolding adopt
  adopt_listed k infos listed = rw (listed, adopt)

  -- Adoption keeps every record that the store has, and a second adoption over the same containers
  -- registers nothing and changes no record.
  adopt_once :
      (k : Runtime B)
      → ((j : String) → (get k.store j ≡ none) ⊎ (get (adopt B cfg k).0.store j ≡ get k.store j))
        × ((adopt B cfg (adopt B cfg k).0).1 ≡ 0)
        × ((adopt B cfg (adopt B cfg k).0).0.store ≡ (adopt B cfg k).0.store)
  adopt_once k = elim (Option-cases (B.list_workload_containers k.world)) [
    | inl silent ↦ let first = adopt_silent k silent in rw first (λ j. inr refl, rw first, rw first)
    | inr (infos, listed) ↦
        let k' = (adopt_from B cfg k infos).0 in
        let again : adopt B cfg k' ≡ adopt_from B cfg k' infos =
          adopt_listed k' infos (rw adopt_from_world listed) in
        let (still, none_new) = adopt_from_idle k' infos (adopt_from-IsKnown k infos) in
        rw (adopt_listed k infos listed)
          (adopt_from_same k infos, rw again none_new, rw again still)
  ]
