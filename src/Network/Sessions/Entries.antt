-- ===== src/Network/Sessions/Entries.antt =====
-- Entries of the map of sessions in network/session.cpp under other names.
use streaming.Prelude.{
  ℕ, ◌≡◌, ◌≢◌, refl, sym, ap, ◌∙◌, Bool, true, false, none, some, List, [], ◌∷◌, if◌then◌else◌,
  ◌==◌, ==_iff, Bool-cases, inl, inr,
}
use streaming.Rtmp.Amf.Map.{key_eq}
use streaming.Network.Sessions.{find, remove}

key_eq-eq : (a b : List ℕ) → key_eq a b ≡ true → a ≡ b
unfolding key_eq
key_eq-eq [] [] h = refl
key_eq-eq [] (y ∷ b) h = absurd (cc)
key_eq-eq (x ∷ a) [] h = absurd (cc)
key_eq-eq (x ∷ a) (y ∷ b) h = elim (Bool-cases (x == y)) [
  | inl same ↦
      let rest = key_eq-eq a b (ap (λ t. if t then key_eq a b else false) (sym same) ∙ h) in
      λ i. (==_iff x y).0 same i ∷ rest i
  | inr other ↦ absurd (clash (sym (ap (λ t. if t then key_eq a b else false) other) ∙ h))
]
  where
    clash : ◌≡◌ {A = Bool} false true → ⊥
    clash h = cc

pub key_eq-differs : (a b : List ℕ) → a ≢ b → key_eq a b ≡ false
key_eq-differs a b other = elim (Bool-cases (key_eq a b)) [
  | inl same ↦ absurd (other (key_eq-eq a b same))
  | inr apart ↦ apart
]

-- An entry of another name.
pub find-remove_other :
    (id id' : List ℕ) (l : List (List ℕ × ℕ)) → id ≢ id' → find id (remove id' l) ≡ find id l
unfolding find remove
find-remove_other id id' [] other = refl
find-remove_other id id' ((k, i) ∷ l) other = elim (Bool-cases (key_eq k id')) [
  | inl gone ↦
      let not_id : key_eq k id ≡ false =
        key_eq-differs k id (λ same. other (sym same ∙ key_eq-eq k id' gone)) in
      rw (gone, not_id) (find-remove_other id id' l other)
  | inr kept ↦ elim (Bool-cases (key_eq k id)) [
    | inl here ↦ rw (kept, here) refl
    | inr there ↦ rw (kept, there) (find-remove_other id id' l other)
  ]
]

pub find-remove-none :
    (id id' : List ℕ) (l : List (List ℕ × ℕ)) → find id l ≡ none → find id (remove id' l) ≡ none
unfolding find remove
find-remove-none id id' [] nothing = refl
find-remove-none id id' ((k, i) ∷ l) nothing = elim (Bool-cases (key_eq k id)) [
  | inl here ↦ absurd (clash (sym (ap (λ t. if t then some i else find id l) here) ∙ nothing))
  | inr there ↦
      let later =
        find-remove-none id id' l
          (ap (λ t. if t then some i else find id l) (sym there) ∙ nothing) in
      elim (Bool-cases (key_eq k id')) [
        | inl gone ↦ rw gone later
        | inr kept ↦ rw (kept, there) later
      ]
]
  where
    clash : {i : ℕ} → some i ≡ none → ⊥
    clash h = cc
