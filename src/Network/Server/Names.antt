-- ===== src/Network/Server/Names.antt =====
-- Two sessions of a server have different names.
use streaming.Prelude.{
  ℕ, zero, suc, ◌+◌, ◌*◌, ◌/◌, ◌%◌, ◌^◌, ◌<◌, ◌≡◌, ◌≢◌, refl, sym, ap, ◌∙◌, arith, Bool, true,
  false, List, [], ◌∷◌, ◌++◌, append_assoc, length, drop, drop-append, ltb, leb, le→leb, ◌-◌,
  Bool-cases, inl, inr,
}
use streaming.Prelude.Outcome.{Result, ok, ok-injective}
use streaming.Http.Header.{digits}
use streaming.Prelude.Decimal.{decimal, to_string}
use streaming.Network.Server.{
  session_count, closing, client_socket, generate_session_prefix, session_id,
}

decimal-append :
    (places n : ℕ) (digits' rest : List ℕ)
    → decimal places n (digits' ++ rest) ≡ decimal places n digits' ++ rest
unfolding decimal
decimal-append zero n digits' rest = refl
decimal-append (suc places) n digits' rest = elim (Bool-cases (ltb n 10)) [
  | inl small ↦ rw small refl
  | inr big ↦ rw big (decimal-append places (n / 10) ((48 + n % 10) ∷ digits') rest)
]

-- The digits of a number are read as the number.
digits-decimal :
    (places n : ℕ) (rest : List ℕ) (any : Bool)
    → n < 10 ^ places
    → 0 < places
    → digits (decimal places n rest) 0 any ≡ digits rest n true
unfolding decimal digits
digits-decimal zero n rest any room some_place = absurd (omega arith)
digits-decimal (suc places) n rest any room some_place = elim (Bool-cases (ltb n 10)) [
  | inl small ↦
      let low : leb 48 (48 + n) ≡ true = ground arith in
      let high : leb (48 + n) 57 ≡ true = ground arith in
      let value : 0 * 10 + (48 + n - 48) ≡ n = omega arith in rw (small, low, high, value) refl
  | inr big ↦
      let d = 48 + n % 10 in
      let low : leb 48 d ≡ true = le→leb 48 d (omega arith) in
      let high : leb d 57 ≡ true = le→leb d 57 (omega arith) in
      let value : n / 10 * 10 + (d - 48) ≡ n = omega arith in
      rw big (
        digits-decimal places (n / 10) (d ∷ rest) any (shrinks n places room)
          (not_zero n places room big)
        ∙ (rw (low, high, value) refl))
]
  where
    shrinks : (n places : ℕ) → n < 10 ^ suc places → n / 10 < 10 ^ places
    shrinks n places room = omega arith

    not_zero : (n places : ℕ) → n < 10 ^ suc places → ltb n 10 ≡ false → 0 < places
    not_zero n zero room big = absurd (ground arith)
    not_zero n (suc places) room big = omega arith

-- What is read of the text of a number with a text behind it that does not begin with a digit.
digits-to_string :
    (n : ℕ) (rest : List ℕ) → n < 2 ^ 64 → digits (to_string n ++ (closing ++ rest)) 0 false ≡ ok n
unfolding to_string digits
digits-to_string n rest room =
    ap (λ l. digits l 0 false) (sym (decimal-append 20 n [] (closing ++ rest)))
    ∙ digits-decimal 20 n (closing ++ rest) false (omega arith) (omega arith)

regroup : (a b c d e : List ℕ) → (a ++ (b ++ (c ++ d))) ++ e ≡ a ++ (b ++ (c ++ (d ++ e)))
regroup a b c d e = simp append_assoc

-- The number that stands in the name of a session.
number_in : List ℕ → List ℕ → Result ℕ
number_in name id = digits (drop (length session_count) (drop (length name) id)) 0 false

number_in-session_id :
    (name : List ℕ) (n fd : ℕ)
    → n < 2 ^ 64
    → number_in name (session_id (generate_session_prefix name n) fd) ≡ ok n
unfolding number_in session_id generate_session_prefix
number_in-session_id name n fd room =
    let rest = client_socket ++ (to_string fd ++ closing) in
    let number = to_string n ++ (closing ++ rest) in
    ap (number_in name) (regroup name session_count (to_string n) closing rest)
    ∙ ap (λ l. digits (drop (length session_count) l) 0 false)
        (drop-append (length name) name (session_count ++ number) refl)
    ∙ digits-to_string n rest room

-- A session of the same server with another number has another name.
pub session_id-generate_session_prefix :
    (name : List ℕ) (n m fd fd' : ℕ)
    → n < 2 ^ 64
    → m < 2 ^ 64
    → n ≢ m
    → session_id (generate_session_prefix name n) fd
      ≢ session_id (generate_session_prefix name m) fd'
session_id-generate_session_prefix name n m fd fd' n_room m_room other same = other (
    ok-injective (
      sym (number_in-session_id name n fd n_room)
      ∙ ap (number_in name) same
      ∙ number_in-session_id name m fd' m_room))
