-- ===== src/Media/Sources/Exclusive.antt =====
-- Runs of registrations, of the destructors' `unregist` and of sources that lose their last owner,
-- in any order.
use streaming.Prelude.{
  ℕ, ◌≡◌, refl, sym, ap, ◌∙◌, Bool, true, false, ◌&&◌, none, some, [], inl, inr, if◌then◌else◌,
  ◌==◌, ==_iff, Bool-cases,
}
use streaming.Prelude.Outcome.{ok}
use streaming.Media.Info.{Info}
use streaming.Media.Sources.{Sources, value_or, lock, goes, regist, unregist, set_weak_source}
use streaming.Media.Sources.Slots.{slot, same_path, slot-set_weak_source, slot-erase_media_source}
use streaming.Media.Sources.Registry.{
  Registered, again, anew, regist-Registered, same_path_refl, same_path-slot, weak_source-slot,
}
use streaming.Rtmp.Chunk.{update}

some-injective : {A : Type 0} {a b : A} → some a ≡ some b → a ≡ b
some-injective h = cc

module _ (info : ℕ → Info) where
  -- A source is registered with its own path, and keeps it.
  pub data Step : Sources → Sources → Type 0 where
    regists : {st st' : Sources} (i : ℕ) → regist i (info i) st ≡ ok st' → Step st st'
    unregists : {st : Sources} (i : ℕ) → Step st (unregist i (info i) st)
    loses_owner : {st : Sources} (i : ℕ) → Step st (record st { alive = update st.alive i false })

  -- Runs from a registry in which nothing is registered.
  pub data Reachable (alive : ℕ → Bool) : Sources → Type 0 where
    start : Reachable alive (record {
      media_sources = [];
      alive = alive;
      is_registered = λ i. false;
      owned = λ i. false;
    })
    step : {st st' : Sources} → Reachable alive st → Step st st' → Reachable alive st'

  -- A registered source that has an owner is the one that is stored for its path.
  abbrev IsStored : Sources → Type 0
  IsStored st =
      (i : ℕ)
      → st.alive i ≡ true
      → st.is_registered i ≡ true
      → slot (info i) st.media_sources ≡ some (some i)

  Registered-IsStored :
      (j : ℕ) (st st' : Sources) → IsStored st → Registered j (info j) st st' → IsStored st'
  unfolding lock
  Registered-IsStored j st st' stored (again w e locked) i living flag = stored i living flag
  Registered-IsStored j st st' stored (anew free) i living flag = elim (Bool-cases (i == j)) [
    | inl e ↦ own ((==_iff i j).0 e)
    | inr e ↦
        slot-set_weak_source (info j) (info i) (some j) st.media_sources
        ∙ other (ap (λ b. if b then true else st.is_registered i) (sym e) ∙ flag)
  ]
    where
      own :
          i ≡ j → slot (info i) (set_weak_source (info j) (some j) st.media_sources) ≡ some (some i)
      own e = rw e (
          slot-set_weak_source (info j) (info j) (some j) st.media_sources
          ∙ rw (same_path_refl (info j)) refl)

      other :
          st.is_registered i ≡ true
          → (if same_path (info j) (info i) then some (some j) else slot (info i) st.media_sources)
            ≡ some (some i)
      other old = elim (Bool-cases (same_path (info j) (info i))) [
        | inl same ↦ absurd (taken same old)
        | inr apart ↦ rw apart (stored i living old)
      ]
        where
          taken : same_path (info j) (info i) ≡ true → st.is_registered i ≡ true → ⊥
          taken same registered =
              let there =
                same_path-slot (info j) (info i) st.media_sources same
                ∙ stored i living registered in
              let locked : lock st.alive (some i) ≡ none =
                ap (λ o. lock st.alive (value_or none o)) (sym there)
                ∙ ap (lock st.alive) (sym (weak_source-slot (info j) st.media_sources))
                ∙ free in
              let clash : some i ≡ none =
                ap (λ b. if b then some i else none) (sym living) ∙ locked in
              absurd (cc)

  unregist-IsStored : (j : ℕ) (st : Sources) → IsStored st → IsStored (unregist j (info j) st)
  unfolding unregist goes lock
  unregist-IsStored j st stored i living flag =
      slot-erase_media_source st.alive j (info j) (info i) st.media_sources
      ∙ elim (Bool-cases (i == j)) [
        | inl e ↦ absurd (left (ap (λ b. if b then false else st.is_registered i) (sym e) ∙ flag))
        | inr e ↦ stays e (ap (λ b. if b then false else st.is_registered i) (sym e) ∙ flag)
      ]
    where
      left : false ≡ true → ⊥
      left h = cc

      stays :
          (i == j) ≡ false
          → st.is_registered i ≡ true
          → (if same_path (info j) (info i) && goes st.alive j (slot (info i) st.media_sources)
              then none
              else slot (info i) st.media_sources)
            ≡ some (some i)
      stays e old =
          rw (stored i living old, living, e)
            (elim (Bool-cases (same_path (info j) (info i))) [
              | inl same ↦ rw same refl
              | inr apart ↦ rw apart refl
            ])

  loses_owner-IsStored :
      (j : ℕ) (st : Sources)
      → IsStored st
      → IsStored (record st { alive = update st.alive j false })
  loses_owner-IsStored j st stored i living flag = elim (Bool-cases (i == j)) [
    | inl e ↦ absurd (dead (ap (λ b. if b then false else st.alive i) (sym e) ∙ living))
    | inr e ↦ stored i (ap (λ b. if b then false else st.alive i) (sym e) ∙ living) flag
  ]
    where
      dead : false ≡ true → ⊥
      dead h = cc

  Step-IsStored : (st st' : Sources) → IsStored st → Step st st' → IsStored st'
  Step-IsStored st st' stored (regists i done) =
      Registered-IsStored i st st' stored (regist-Registered i (info i) st st' done)
  Step-IsStored st st' stored (unregists i) = unregist-IsStored i st stored
  Step-IsStored st st' stored (loses_owner i) = loses_owner-IsStored i st stored

  Reachable-IsStored : {alive : ℕ → Bool} {st : Sources} → Reachable alive st → IsStored st
  Reachable-IsStored start = λ i living flag. absurd (never flag)
    where
      never : false ≡ true → ⊥
      never h = cc
  Reachable-IsStored (step {st} {st'} run s) = Step-IsStored st st' (Reachable-IsStored run) s

  -- From a registry in which nothing is registered, and in whatever order sources are registered,
  -- each with a path of its own that it keeps, unregistered and given up, two registered sources
  -- that have an owner never share a path: a path has at most one broadcaster.
  pub Reachable-exclusive :
      {alive : ℕ → Bool} {st : Sources} (i j : ℕ)
      → Reachable alive st
      → st.alive i ≡ true
      → st.alive j ≡ true
      → st.is_registered i ≡ true
      → st.is_registered j ≡ true
      → same_path (info i) (info j) ≡ true
      → i ≡ j
  Reachable-exclusive {st = st} i j run living living' flag flag' same = some-injective (
      some-injective (
        sym (Reachable-IsStored run i living flag)
        ∙ same_path-slot (info i) (info j) st.media_sources same
        ∙ Reachable-IsStored run j living' flag'))
