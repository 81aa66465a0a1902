-- ===== src/Rtmp/Amf/Objects.antt =====
-- Objects whose members are strings, the only ones that `load_object` accepts: what is encoded is
-- decoded again, and the loop of the decoder ends on every input.
use streaming.Prelude.{
  ℕ, zero, suc, ◌^◌, ◌≤◌, ◌<◌, ◌≢◌, ◌≡◌, refl, sym, ap, ◌∙◌, arith, true, List, [], ◌∷◌, ◌++◌,
  length, All, length-append, append_assoc, append-nil,
}
use streaming.Prelude.Outcome.{ok, expected_object, expected_object_end}
use streaming.Rtmp.Amf.{
  string, object, Members, none_left, member, emplace, encode_string, write_key, encode_value,
  encode_members, load_value, load_members, load_object, amf_object, amf_object_end,
}
use streaming.Rtmp.Amf.Map.{key_lt}
use streaming.Rtmp.Amf.RoundTrip.{
  IsText, c_string-id, expect_lem, load_string-encode_string, load_key-write_key,
}

abbrev Pairs : Type 0
Pairs = List (List ℕ × List ℕ)

-- The object that holds these pairs of key and text.
abbrev pub members : Pairs → Members
members [] = none_left
members ((k, s) ∷ ps) = member k (string s) (members ps)

pub record IsEntry (p : List ℕ × List ℕ) : Type 0 where
  pub named : p.0 ≢ []
  pub short : length p.0 < 2 ^ 16
  pub text : IsText p.1

-- In the order of the keys, and no key twice.
abbrev pub Ascending : Pairs → Type 0
Ascending [] = Unit {0}
Ascending (p ∷ ps) = All (λ q. key_lt p.0 q.0 ≡ true) ps × Ascending ps

abbrev insert_all : Members → Pairs → Members
insert_all m [] = m
insert_all m ((k, s) ∷ ps) = insert_all (emplace k (string s) m) ps

abbrev entries : Pairs → List ℕ
entries [] = []
entries ((k, s) ∷ ps) = write_key [] k ++ (encode_string [] s ++ entries ps)

write_key-append : (buf k : List ℕ) → write_key buf k ≡ buf ++ write_key [] k
unfolding write_key
write_key-append buf k = refl

encode_string-append : (buf s : List ℕ) → encode_string buf s ≡ buf ++ encode_string [] s
unfolding encode_string
encode_string-append buf s = refl

encode_members-entries :
    (buf : List ℕ) (ps : Pairs) → encode_members buf (members ps) ≡ buf ++ entries ps
unfolding encode_members encode_value
encode_members-entries buf [] = sym (append-nil buf)
encode_members-entries buf ((k, s) ∷ ps) =
    encode_members-entries (encode_string (write_key buf k) s) ps
    ∙ rw (encode_string-append, write_key-append)
        (append_assoc (buf ++ write_key [] k) (encode_string [] s) (entries ps)
          ∙ append_assoc buf (write_key [] k) (encode_string [] s ++ entries ps))

length-entries : (ps : Pairs) → length ps ≤ length (entries ps)
unfolding write_key
length-entries [] = omega arith
length-entries ((k, s) ∷ ps) =
    rw length-append
      (omega (arith, length-entries ps, length-append (encode_string [] s) (entries ps)))

-- One round of the loop.
load_members-entry :
    (fuel v : ℕ) (k s u : List ℕ) (m : Members)
    → IsEntry (k, s)
    → load_members
        (suc fuel)
        m
        (record { version = v; buf = write_key [] k ++ (encode_string [] s ++ u) })
      ≡ load_members fuel (emplace k (string s) m) (record { version = v; buf = u })
unfolding load_members load_value
load_members-entry fuel v [] s u m e = absurd (e.named refl)
load_members-entry fuel v (c ∷ cs) s u m e =
    rw (load_key-write_key (c ∷ cs) (encode_string [] s ++ u) v e.short)
      (rw (load_string-encode_string s u v e.text, c_string-id s e.text.no_nul) refl)

load_members-end :
    (fuel v : ℕ) (u : List ℕ) (m : Members)
    → load_members (suc fuel) m (record { version = v; buf = write_key [] [] ++ u })
      ≡ ok (m, record { version = v; buf = u })
unfolding load_members load_value
load_members-end fuel v u m = rw (load_key-write_key [] u v (omega arith))

load_members-entries :
    (ps : Pairs) (fuel v : ℕ) (u : List ℕ) (m : Members)
    → All IsEntry ps
    → length ps ≤ fuel
    → load_members (suc fuel) m (record { version = v; buf = entries ps ++ (write_key [] [] ++ u) })
      ≡ ok (insert_all m ps, record { version = v; buf = u })
load_members-entries [] fuel v u m h f = load_members-end fuel v u m
load_members-entries ((k, s) ∷ ps) zero v u m h f = absurd (omega arith)
load_members-entries ((k, s) ∷ ps) (suc fuel) v u m h f =
    let tail = write_key [] [] ++ u in
    let flat : (write_key [] k ++ (encode_string [] s ++ entries ps)) ++ tail
        ≡ write_key [] k ++ (encode_string [] s ++ (entries ps ++ tail)) =
      append_assoc (write_key [] k) (encode_string [] s ++ entries ps) tail
      ∙ ap (λ l. write_key [] k ++ l) (append_assoc (encode_string [] s) (entries ps) tail) in
    rw flat (
      load_members-entry (suc fuel) v k s (entries ps ++ tail) m h.0
      ∙ load_members-entries ps fuel v u (emplace k (string s) m) h.1 (omega arith))

-- An object that is encoded is decoded to what its pairs insert one by one into an empty object,
-- and what follows is left.
load_object-entries :
    (ps : Pairs) (v : ℕ) (u : List ℕ)
    → All IsEntry ps
    → load_object (record { version = v; buf = encode_value [] (object (members ps)) ++ u })
      ≡ ok (object (insert_all none_left ps), record { version = v; buf = u })
unfolding load_object encode_value
load_object-entries ps v u h =
    let rest = amf_object_end ∷ u in
    let body = entries ps ++ (write_key [] [] ++ rest) in
    let flat : (write_key (encode_members (amf_object ∷ []) (members ps)) []
            ++ (amf_object_end ∷ []))
          ++ u
        ≡ amf_object ∷ body =
      rw (encode_members-entries, write_key-append)
        (ap (λ l. amf_object ∷ l)
          (append_assoc (entries ps ++ write_key [] []) (amf_object_end ∷ []) u
            ∙ append_assoc (entries ps) (write_key [] []) rest)) in
    rw flat (
      rw (expect_lem amf_object v expected_object body (omega arith)) (
        rw
          (load_members-entries ps (length body) v rest none_left h (
            omega (arith, length-entries ps, length-append (entries ps) (write_key [] [] ++ rest))))
          (rw (expect_lem amf_object_end v expected_object_end u (omega arith)))))

emplace_last :
    (k s : List ℕ) (qs : Pairs)
    → All (λ q. key_lt q.0 k ≡ true) qs
    → emplace k (string s) (members qs) ≡ members (qs ++ ((k, s) ∷ []))
unfolding emplace
emplace_last k s [] h = refl
emplace_last k s ((j, t) ∷ qs) h = ground (arith, emplace_last k s qs h.1)

-- Every key of `qs` is below every key of `ps`.
abbrev Before : Pairs → Pairs → Type 0
Before qs ps = All (λ p. All (λ q. key_lt q.0 p.0 ≡ true) qs) ps

All-snoc {ℓ κ} :
    {A : Type ℓ} (P : A → Type κ) (x : A) (xs : List A) → All P xs → P x → All P (xs ++ (x ∷ []))
All-snoc P x [] h px = (px, tt)
All-snoc P x (y ∷ ys) h px = (h.0, All-snoc P x ys h.1 px)

Before-snoc :
    (q : List ℕ × List ℕ) (qs ps : Pairs)
    → Before qs ps
    → All (λ p. key_lt q.0 p.0 ≡ true) ps
    → Before (qs ++ (q ∷ [])) ps
Before-snoc q qs [] b h = tt
Before-snoc q qs (p ∷ ps) b h =
    (All-snoc (λ r. key_lt r.0 p.0 ≡ true) q qs b.0 h.0, Before-snoc q qs ps b.1 h.1)

insert_all-members :
    (qs ps : Pairs) → Before qs ps → Ascending ps → insert_all (members qs) ps ≡ members (qs ++ ps)
insert_all-members qs [] b a = ap members (sym (append-nil qs))
insert_all-members qs ((k, s) ∷ ps) b a =
    ap (λ m. insert_all m ps) (emplace_last k s qs b.0)
    ∙ insert_all-members (qs ++ ((k, s) ∷ [])) ps (Before-snoc (k, s) qs ps b.1 a.0) a.1
    ∙ ap members (append_assoc qs ((k, s) ∷ []) ps)

Before-nil : (ps : Pairs) → Before [] ps
Before-nil [] = tt
Before-nil (p ∷ ps) = (tt, Before-nil ps)

-- An object of strings is decoded from its encoding to itself, and what follows is left, if the
-- keys ascend and are not empty, and keys and texts are shorter than 2 ^ 16 bytes, the texts
-- without NUL.
pub load_object-encode_value :
    (ps : Pairs) (v : ℕ) (u : List ℕ)
    → All IsEntry ps
    → Ascending ps
    → load_object (record { version = v; buf = encode_value [] (object (members ps)) ++ u })
      ≡ ok (object (members ps), record { version = v; buf = u })
load_object-encode_value ps v u h a =
    load_object-entries ps v u h
    ∙ ap (λ m. ok (object m, record { version = v; buf = u }))
        (insert_all-members [] ps (Before-nil ps) a)
