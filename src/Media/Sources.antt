-- ===== src/Media/Sources.antt =====
-- src/media/media_source.cpp: the sources that can be found by schema, virtual host, application
-- and stream. A source is a number, its address; a `weak_ptr` is the address it was set to, if any,
-- and `alive` says which sources have an owner. Each operation holds the lock.
pub mod Slots
pub mod Registry
pub mod Exclusive
use streaming.Prelude.{
  ℕ, Bool, true, false, ◌||◌, Option, none, some, List, [], ◌∷◌, length, ◌==◌, if◌then◌else◌,
}
use streaming.Prelude.Texts.{TextMap, lookup, put, remove}
use streaming.Prelude.Outcome.{Result, ok, err, ◌>>=◌, ◌>>◌, throw_if, empty_field, already_pushed}
use streaming.Media.Info.{Info}
use streaming.Rtmp.Chunk.{update}

abbrev pub StreamMap : Type 0
StreamMap = TextMap (Option ℕ)

abbrev pub AppMap : Type 0
AppMap = TextMap StreamMap

abbrev pub VhostMap : Type 0
VhostMap = TextMap AppMap

abbrev pub SchemaMap : Type 0
SchemaMap = TextMap VhostMap

-- `owned` is the flag that `get_ownership` sets.
pub record Sources : Type 0 where
  pub media_sources : SchemaMap
  pub alive : ℕ → Bool
  pub is_registered : ℕ → Bool
  pub owned : ℕ → Bool

unfoldable pub lock : (ℕ → Bool) → Option ℕ → Option ℕ
lock alive none = none
lock alive (some i) = if alive i then some i else none

module _ {A : Type 0} where
  -- `map[k]`, which is made if it is not there.
  abbrev pub value_or : A → Option A → A
  value_or d none = d
  value_or d (some a) = a

  abbrev pub entry : A → List ℕ → TextMap A → A
  entry d k m = value_or d (lookup k m)

  -- What is left of a map where a change is made at a key.
  abbrev pub assign : List ℕ → (A → A) → A → TextMap A → TextMap A
  assign k change d m = put k (change (entry d k m)) m

  abbrev pub erase_if_empty : List ℕ → TextMap A → TextMap (TextMap A) → TextMap (TextMap A)
  erase_if_empty k [] m = remove k m
  erase_if_empty k (e ∷ es) m = put k (e ∷ es) m

  -- `erase_media_source` of more keys than one: a map that became empty is erased as well.
  abbrev pub erase_inner :
      (TextMap A → TextMap A) → List ℕ → TextMap (TextMap A) → TextMap (TextMap A)
  erase_inner erase k m = elim (lookup k m) [
    | none ↦ m
    | some inner ↦ erase_if_empty k (erase inner) m
  ]

unfoldable pub weak_source : Info → SchemaMap → Option ℕ
weak_source p m = entry none p.stream_id (entry [] p.app (entry [] p.vhost (entry [] p.schema m)))

unfoldable pub set_weak_source : Info → Option ℕ → SchemaMap → SchemaMap
set_weak_source p w =
    λ m. assign p.schema (assign p.vhost (assign p.app (put p.stream_id w) []) []) [] m

-- What `regist` does once it has locked the pointer that is there.
unfoldable pub regist_over : ℕ → Info → Sources → Option ℕ → Result Sources
unfolding set_weak_source
regist_over this p st (some other) = if other == this then ok st else err already_pushed
regist_over this p st none = ok (record st {
  media_sources = set_weak_source p (some this) st.media_sources;
  is_registered = update st.is_registered this true;
})

unfoldable pub regist : ℕ → Info → Sources → Result Sources
unfolding lock weak_source regist_over
regist this p st = regist_over this p st (lock st.alive (weak_source p st.media_sources))

-- `!src || src.get() == thiz`, where the key is found.
unfoldable pub goes : (ℕ → Bool) → ℕ → Option (Option ℕ) → Bool
unfolding lock
goes alive this none = false
goes alive this (some w) = locked (lock alive w)
  where
    locked : Option ℕ → Bool
    locked none = true
    locked (some src) = src == this

-- `erase_media_source` of one key.
unfoldable pub erase_last : (ℕ → Bool) → ℕ → List ℕ → StreamMap → StreamMap
unfolding goes
erase_last alive this k m = if goes alive this (lookup k m) then remove k m else m

unfoldable pub erase_media_source : (ℕ → Bool) → ℕ → Info → SchemaMap → SchemaMap
unfolding erase_last
erase_media_source alive this p m =
    erase_inner (erase_inner (erase_inner (erase_last alive this p.stream_id) p.app) p.vhost)
      p.schema m

unfoldable pub unregist : ℕ → Info → Sources → Sources
unfolding erase_media_source
unregist this p st = record st {
  media_sources = erase_media_source st.alive this p st.media_sources;
  is_registered = update st.is_registered this false;
}

abbrev pub is_empty : List ℕ → Bool
is_empty s = length s == 0

-- `if (!map.count(k)) return {nullptr, false};`, and what is done with the value otherwise.
abbrev pub found {ℓ} : {A : Type ℓ} → (A → Option ℕ × Bool) → Option A → Option ℕ × Bool
found next none = (none, false)
found next (some a) = next a

-- The pointer, and whether there is an entry.
unfoldable pub find : List ℕ → List ℕ → List ℕ → List ℕ → Sources → Result (Option ℕ × Bool)
unfolding lock
find schema vhost app stream_id st = do
  throw_if (is_empty schema || is_empty vhost || is_empty app || is_empty stream_id) empty_field
  ok (
      found
        (λ vhosts.
          found
            (λ apps.
              found (λ streams. found (λ w. (lock st.alive w, true)) (lookup stream_id streams))
                (lookup app apps))
            (lookup vhost vhosts))
        (lookup schema st.media_sources))

-- Whether the caller gets the ownership.
unfoldable pub get_ownership : ℕ → Sources → Bool × Sources
get_ownership this st =
    if st.owned this then (false, st) else (true, record st { owned = update st.owned this true })

-- The deleter of what `get_ownership` gave.
unfoldable pub release_ownership : ℕ → Sources → Sources
release_ownership this st =
    if st.alive this then record st { owned = update st.owned this false } else st
