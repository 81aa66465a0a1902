-- ===== src/Media/Sources/Registry.antt =====
-- Registration and search in media_source.cpp, by what is stored for each path.
use streaming.Prelude.{
  ℕ, subst, ◌≡◌, refl, sym, ap, ◌∙◌, Bool, true, false, ◌||◌, Option, none, some, [], inl, inr,
  if◌then◌else◌, ◌==◌, ==_iff, Bool-cases,
}
use streaming.Prelude.Texts.{lookup, same_text, same_text-eq, same_text_refl, both}
use streaming.Prelude.Outcome.{Result, ok, err, already_pushed, ok-injective}
use streaming.Media.Info.{Info}
use streaming.Media.Sources.{
  set_weak_source, Sources, SchemaMap, weak_source, value_or, entry, found, lock, regist_over,
  regist, find, is_empty,
}
use streaming.Media.Sources.Slots.{slot, reading, same_path, slot-set_weak_source}
use streaming.Rtmp.Chunk.{update}

module _ {A : Type 0} {B : Type 0} where
  opened : (f : A → Option B) (d : A) → f d ≡ none → (o : Option A) → f (value_or d o) ≡ reading f o
  opened f d none_in none = none_in
  opened f d none_in (some a) = refl

  found-reading :
      (result : Option B → Option ℕ × Bool) (f : A → Option B) (next : A → Option ℕ × Bool)
      → ((a : A) → next a ≡ result (f a))
      → result none ≡ (none, false)
      → (o : Option A) → found next o ≡ result (reading f o)
  found-reading result f next same nothing none = sym nothing
  found-reading result f next same nothing (some a) = same a

pub weak_source-slot : (p : Info) (m : SchemaMap) → weak_source p m ≡ value_or none (slot p m)
unfolding weak_source
weak_source-slot p m = ap (value_or none) (
    opened _ [] refl (lookup p.app (entry [] p.vhost (entry [] p.schema m)))
    ∙ opened _ [] refl (lookup p.vhost (entry [] p.schema m))
    ∙ opened _ [] refl (lookup p.schema m))

-- What `find` answers for what is stored.
abbrev answer : (ℕ → Bool) → Option (Option ℕ) → Option ℕ × Bool
answer alive = found (λ w. (lock alive w, true))

abbrev pub search : Info → Sources → Result (Option ℕ × Bool)
search p = find p.schema p.vhost p.app p.stream_id

abbrev pub incomplete : Info → Bool
incomplete p = is_empty p.schema || is_empty p.vhost || is_empty p.app || is_empty p.stream_id

search-slot :
    (p : Info) (st : Sources)
    → incomplete p ≡ false
    → search p st ≡ ok (answer st.alive (slot p st.media_sources))
unfolding find
search-slot p st full =
    let result = answer st.alive in
    rw full (
      ap (λ a. ok a)
        (found-reading result _ _
          (λ vhosts.
            found-reading result _ _
              (λ apps.
                found-reading result (lookup p.stream_id) _ (λ streams. refl) refl
                  (lookup p.app apps))
              refl (lookup p.vhost vhosts))
          refl (lookup p.schema st.media_sources)))

pub same_path_refl : (p : Info) → same_path p p ≡ true
same_path_refl p =
    rw
      (
        same_text_refl p.schema,
        same_text_refl p.vhost,
        same_text_refl p.app,
        same_text_refl p.stream_id,
      )
      refl

pub same_path-slot : (p q : Info) (m : SchemaMap) → same_path p q ≡ true → slot p m ≡ slot q m
same_path-slot p q m same =
    let (schema, rest) = both (same_text p.schema q.schema) _ same in
    let (vhost, rest') = both (same_text p.vhost q.vhost) _ rest in
    let (app, stream) = both (same_text p.app q.app) _ rest' in
    rw
      (
        same_text-eq p.schema q.schema schema,
        same_text-eq p.vhost q.vhost vhost,
        same_text-eq p.app q.app app,
        same_text-eq p.stream_id q.stream_id stream,
      )
      refl

-- The two ways in which `regist` succeeds.
pub data Registered (this : ℕ) (p : Info) (st : Sources) : Sources → Type 0 where
  again :
      (w : Option ℕ)
      → slot p st.media_sources ≡ some w
      → lock st.alive w ≡ some this
      → Registered this p st st
  anew :
      lock st.alive (weak_source p st.media_sources) ≡ none
      → Registered this p st (record st {
        media_sources = set_weak_source p (some this) st.media_sources;
        is_registered = update st.is_registered this true;
      })

module _ (this : ℕ) (p : Info) (st st' : Sources) where
  regist_over-Registered :
      (o : Option ℕ)
      → lock st.alive (weak_source p st.media_sources) ≡ o
      → regist_over this p st o ≡ ok st'
      → Registered this p st st'
  unfolding regist_over lock
  regist_over-Registered none free done =
      subst (Registered this p st) (ok-injective done) (anew free)
  regist_over-Registered (some other) taken done = elim (Bool-cases (other == this)) [
    | inl own ↦
        subst (Registered this p st)
          (ok-injective (ap (λ b. if b then ok st else err already_pushed) (sym own) ∙ done))
          (stored (slot p st.media_sources) refl (
            ap (lock st.alive) (sym (weak_source-slot p st.media_sources))
            ∙ taken
            ∙ ap some ((==_iff other this).0 own)))
    | inr other_one ↦ absurd (refused other_one)
  ]
    where
      refused : (other == this) ≡ false → ⊥
      refused e =
          let clash : ◌≡◌ {A = Result Sources} (err already_pushed) (ok st') =
            ap (λ b. if b then ok st else err already_pushed) (sym e) ∙ done in
          absurd (cc)

      stored :
          (o : Option (Option ℕ))
          → slot p st.media_sources ≡ o
          → lock st.alive (value_or none o) ≡ some this
          → Registered this p st st
      stored none e locked = absurd (cc)
      stored (some w) e locked = again w e locked

  pub regist-Registered : regist this p st ≡ ok st' → Registered this p st st'
  unfolding regist
  regist-Registered = regist_over-Registered (lock st.alive (weak_source p st.media_sources)) refl

-- After a registration that does not throw, of a source that has an owner, a search for its path
-- gives the source, and a search for any other path gives what it gave before, where the path that
-- is looked for has no empty part.
pub search-regist :
    (this : ℕ) (p q : Info) (st st' : Sources)
    → regist this p st ≡ ok st'
    → st.alive this ≡ true
    → incomplete q ≡ false
    → search q st' ≡ (if same_path p q then ok (some this, true) else search q st)
unfolding lock
search-regist this p q st st' done living full = by_case (regist-Registered this p st st' done)
  where
    by_case :
        {s : Sources}
        → Registered this p st s
        → search q s ≡ (if same_path p q then ok (some this, true) else search q st)
    by_case (again w e locked) = elim (Bool-cases (same_path p q)) [
      | inl same ↦
          rw
            (same, search-slot q st full, sym (same_path-slot p q st.media_sources same), e, locked)
            refl
      | inr other ↦ rw other refl
    ]
    by_case (anew free) =
        rw
          (
            search-slot q st full,
            search-slot q _ full,
            slot-set_weak_source p q (some this) st.media_sources,
          )
          (elim (Bool-cases (same_path p q)) [
            | inl same ↦ rw (same, living) refl
            | inr other ↦ rw other refl
          ])
