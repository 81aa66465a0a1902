-- ===== src/Media/Sources/Slots.antt =====
-- The four maps of media_source.cpp as one map, from a path to the pointer that is stored for it.
use streaming.Prelude.{
  ℕ, ◌≡◌, refl, sym, ap, ◌∙◌, Bool, true, false, ◌&&◌, Option, none, some, List, [], ◌∷◌, inl, inr,
  if◌then◌else◌, Bool-cases, Option-cases,
}
use streaming.Prelude.Texts.{
  TextMap, lookup, same_text, same_text-eq, lookup-put, lookup-remove, if-same,
}
use streaming.Media.Info.{Info}
use streaming.Media.Sources.{
  SchemaMap, StreamMap, entry, value_or, assign, erase_inner, erase_if_empty, erase_last,
  erase_media_source, set_weak_source, goes,
}

module _ {A : Type 0} {B : Type 0} where
  -- What `f` reads of the value at a key.
  abbrev pub reading : (A → Option B) → Option A → Option B
  reading f none = none
  reading f (some a) = f a

  abbrev read_at : List ℕ → (A → Option B) → TextMap A → Option B
  read_at k f m = reading f (lookup k m)

  read_at-assign :
      (k k' : List ℕ) (f : A → Option B) (g : A → A) (d : A) (b : Bool) (x : Option B)
      → ((a : A) → f (g a) ≡ (if b then x else f a))
      → f d ≡ none
      → (m : TextMap A)
      → read_at k' f (assign k g d m) ≡ (if same_text k k' && b then x else read_at k' f m)
  read_at-assign k k' f g d b x changes none_in m = elim (Bool-cases (same_text k k')) [
    | inl e ↦
        rw (lookup-put k k' (g (entry d k m)) m, e, same_text-eq k k' e) (at_value (lookup k' m))
    | inr e ↦ rw (lookup-put k k' (g (entry d k m)) m, e) refl
  ]
    where
      at_value : (o : Option A) → f (g (value_or d o)) ≡ (if b then x else reading f o)
      at_value none = changes d ∙ ap (λ y. if b then x else y) none_in
      at_value (some a) = changes a

module _ {A : Type 0} {B : Type 0} where
  read_at-erase_if_empty :
      (k k' : List ℕ) (f : TextMap A → Option B)
      → f [] ≡ none
      → (y : TextMap A) (m : TextMap (TextMap A))
      → read_at k' f (erase_if_empty k y m) ≡ (if same_text k k' then f y else read_at k' f m)
  read_at-erase_if_empty k k' f none_in [] m =
      ap (reading f) (lookup-remove k k' m) ∙ if_reading (same_text k k')
    where
      if_reading :
          (b : Bool)
          → reading f (if b then none else lookup k' m) ≡ (if b then f [] else read_at k' f m)
      if_reading true = sym none_in
      if_reading false = refl
  read_at-erase_if_empty k k' f none_in (y ∷ ys) m =
      ap (reading f) (lookup-put k k' (y ∷ ys) m) ∙ if_reading (same_text k k')
    where
      if_reading :
          (b : Bool)
          → reading f (if b then some (y ∷ ys) else lookup k' m)
            ≡ (if b then f (y ∷ ys) else read_at k' f m)
      if_reading true = refl
      if_reading false = refl

  read_at-erase_inner :
      (k k' : List ℕ) (f : TextMap A → Option B) (e : TextMap A → TextMap A) (b : Bool)
      (passes : Option B → Bool)
      → ((a : TextMap A) → f (e a) ≡ (if b && passes (f a) then none else f a))
      → f [] ≡ none
      → (m : TextMap (TextMap A))
      → read_at k' f (erase_inner e k m)
        ≡ (if (same_text k k' && b) && passes (read_at k' f m) then none else read_at k' f m)
  read_at-erase_inner k k' f e b passes erases none_in m = elim (Option-cases (lookup k m)) [
    | inl o ↦
        rw (erase_inner, o)
          (elim (Bool-cases (same_text k k')) [
            | inl same ↦
                rw (same, sym (same_text-eq k k' same), o) (sym (if-same (b && passes none) none))
            | inr other ↦ rw other refl
          ])
    | inr (a, o) ↦
        rw (erase_inner, o)
          (read_at-erase_if_empty k k' f none_in (e a) m ∙ elim (Bool-cases (same_text k k')) [
            | inl same ↦ rw (same, sym (same_text-eq k k' same), o) (erases a)
            | inr other ↦ rw other refl
          ])
  ]

-- The pointer that is stored for a path, if there is one.
abbrev pub slot : Info → SchemaMap → Option (Option ℕ)
slot p = read_at p.schema (read_at p.vhost (read_at p.app (lookup p.stream_id)))

abbrev pub same_path : Info → Info → Bool
same_path p q =
    same_text p.schema q.schema
    && (same_text p.vhost q.vhost && (same_text p.app q.app && same_text p.stream_id q.stream_id))

-- An assignment through the four maps changes what is stored for its path, and nothing else.
pub slot-set_weak_source :
    (p q : Info) (w : Option ℕ) (m : SchemaMap)
    → slot q (set_weak_source p w m) ≡ (if same_path p q then some w else slot q m)
unfolding set_weak_source
slot-set_weak_source p q w =
    read_at-assign p.schema q.schema _ _ [] _ (some w)
      (read_at-assign p.vhost q.vhost _ _ [] _ (some w)
        (read_at-assign p.app q.app _ _ [] _ (some w) (lookup-put p.stream_id q.stream_id w) refl)
        refl)
      refl

lookup-erase_last :
    (alive : ℕ → Bool) (this : ℕ) (k k' : List ℕ) (m : StreamMap)
    → lookup k' (erase_last alive this k m)
      ≡ (if same_text k k' && goes alive this (lookup k' m) then none else lookup k' m)
unfolding erase_last
lookup-erase_last alive this k k' m = elim (Bool-cases (goes alive this (lookup k m))) [
  | inl gone ↦ rw gone (lookup-remove k k' m ∙ when_gone gone)
  | inr kept ↦ rw kept (when_kept kept)
]
  where
    when_gone :
        goes alive this (lookup k m) ≡ true
        → (if same_text k k' then none else lookup k' m)
          ≡ (if same_text k k' && goes alive this (lookup k' m) then none else lookup k' m)
    when_gone gone = elim (Bool-cases (same_text k k')) [
      | inl same ↦ rw (same, sym (same_text-eq k k' same), gone) refl
      | inr other ↦ rw other refl
    ]

    when_kept :
        goes alive this (lookup k m) ≡ false
        → lookup k' m
          ≡ (if same_text k k' && goes alive this (lookup k' m) then none else lookup k' m)
    when_kept kept = elim (Bool-cases (same_text k k')) [
      | inl same ↦ rw (same, sym (same_text-eq k k' same), kept) refl
      | inr other ↦ rw other refl
    ]

-- `unregist` empties the slot of its path if what is stored there goes, and no other.
pub slot-erase_media_source :
    (alive : ℕ → Bool) (this : ℕ) (p q : Info) (m : SchemaMap)
    → slot q (erase_media_source alive this p m)
      ≡ (if same_path p q && goes alive this (slot q m) then none else slot q m)
unfolding erase_media_source
slot-erase_media_source alive this p q =
    read_at-erase_inner p.schema q.schema _ _ _ (goes alive this)
      (read_at-erase_inner p.vhost q.vhost _ _ _ (goes alive this)
        (read_at-erase_inner p.app q.app _ _ _ (goes alive this)
          (lookup-erase_last alive this p.stream_id q.stream_id) refl)
        refl)
      refl
