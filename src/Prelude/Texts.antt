-- ===== src/Prelude/Texts.antt =====
-- Texts as lists of bytes, and the maps that have them as keys.
use Prim.Native.Nat.{ℕ}
use mathlib.Core.Path.{◌≡◌, refl, sym, ap, ◌∙◌}
use mathlib.Core.Bool.{Bool, true, false, ◌&&◌}
use mathlib.Core.Option.{Option, none, some}
use mathlib.Core.List.{List, [], ◌∷◌}
use streaming.Prelude.Tests.{◌==◌, ==_iff, ==_refl, if◌then◌else◌, Bool-cases}
use mathlib.Core.Logic.{inl, inr}

-- `==` of two texts.
abbrev pub same_text : List ℕ → List ℕ → Bool
same_text [] [] = true
same_text [] (_ ∷ _) = false
same_text (_ ∷ _) [] = false
same_text (a ∷ s) (b ∷ t) = (a == b) && same_text s t

pub same_text_refl : (s : List ℕ) → same_text s s ≡ true
same_text_refl [] = refl
same_text_refl (a ∷ s) = rw (==_refl a) (same_text_refl s)

pub both : (a b : Bool) → (a && b) ≡ true → (a ≡ true) × (b ≡ true)
both true b h = (refl, h)
both false b h = absurd (cc)

pub same_text-eq : (s t : List ℕ) → same_text s t ≡ true → s ≡ t
same_text-eq [] [] h = refl
same_text-eq [] (b ∷ t) h = absurd (cc)
same_text-eq (a ∷ s) [] h = absurd (cc)
same_text-eq (a ∷ s) (b ∷ t) h =
    let (head, tail) = both (a == b) (same_text s t) h in
    λ i. (==_iff a b).0 head i ∷ same_text-eq s t tail i

apart : (j k k' : List ℕ) → same_text j k ≡ false → same_text j k' ≡ true → same_text k k' ≡ false
apart j k k' different same = elim (Bool-cases (same_text k k')) [
  | inl e ↦ absurd (clash (sym different ∙ ap (same_text j) (same_text-eq k k' e) ∙ same))
  | inr e ↦ e
]
  where
    clash : ◌≡◌ {A = Bool} false true → ⊥
    clash h = cc

shadowed {ℓ} :
    {A : Type ℓ} (b : Bool) (x y z : A)
    → (if b then x else z) ≡ (if b then x else if b then y else z)
shadowed true x y z = refl
shadowed false x y z = refl

pub if-same {ℓ} : {A : Type ℓ} (b : Bool) (x : A) → (if b then x else x) ≡ x
if-same true x = refl
if-same false x = refl

-- A `std::unordered_map`, of which no order is used.
abbrev pub TextMap {ℓ} : Type ℓ → Type ℓ
TextMap A = List (List ℕ × A)

module _ {ℓ} {A : Type ℓ} where
  abbrev pub lookup : List ℕ → TextMap A → Option A
  lookup k [] = none
  lookup k ((j, a) ∷ m) = let rest = lookup k m in if same_text j k then some a else rest

  abbrev pub put : List ℕ → A → TextMap A → TextMap A
  put k v [] = (k, v) ∷ []
  put k v ((j, a) ∷ m) = let rest = put k v m in if same_text j k then (j, v) ∷ m else (j, a) ∷ rest

  abbrev pub remove : List ℕ → TextMap A → TextMap A
  remove k [] = []
  remove k ((j, a) ∷ m) = let rest = remove k m in if same_text j k then rest else (j, a) ∷ rest

  pub lookup-put :
      (k k' : List ℕ) (v : A) (m : TextMap A)
      → lookup k' (put k v m) ≡ (if same_text k k' then some v else lookup k' m)
  lookup-put k k' v [] = refl
  lookup-put k k' v ((j, a) ∷ m) = elim (Bool-cases (same_text j k)) [
    | inl e ↦ rw (e, same_text-eq j k e) (shadowed (same_text k k') (some v) (some a) (lookup k' m))
    | inr e ↦ elim (Bool-cases (same_text j k')) [
      | inl e' ↦ rw (e, e', apart j k k' e e') refl
      | inr e' ↦ rw (e, e') (lookup-put k k' v m)
    ]
  ]

  pub lookup-remove :
      (k k' : List ℕ) (m : TextMap A)
      → lookup k' (remove k m) ≡ (if same_text k k' then none else lookup k' m)
  lookup-remove k k' [] = sym (if-same (same_text k k') none)
  lookup-remove k k' ((j, a) ∷ m) = elim (Bool-cases (same_text j k)) [
    | inl e ↦
        rw (e, same_text-eq j k e)
          (lookup-remove k k' m ∙ shadowed (same_text k k') none (some a) (lookup k' m))
    | inr e ↦ elim (Bool-cases (same_text j k')) [
      | inl e' ↦ rw (e, e', apart j k k' e e') refl
      | inr e' ↦ rw (e, e') (lookup-remove k k' m)
    ]
  ]
