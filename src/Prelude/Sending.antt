-- ===== src/Prelude/Sending.antt =====
-- Calls that change an object, send bytes to a client and can throw. What was sent and changed
-- before an exception stays.
use Prim.Native.Nat.{ℕ}
use mathlib.Core.Bool.{Bool}
use mathlib.Core.Path.{◌≡◌, refl, ◌∙◌}
use mathlib.Core.List.{List, [], ◌∷◌, ◌++◌}
use streaming.Prelude.Outcome.{Error, Result, err, ok}

-- One call of `socket_sender::send`.
pub record Send : Type 0 where
  pub bytes : List ℕ
  pub is_async : Bool
  pub is_close : Bool

pub record Done (S : Type 0) (A : Type 0) : Type 0 where
  pub sent : List Send
  pub state : S
  pub value : Result A

abbrev pub Call : Type 0 → Type 0 → Type 0
Call S A = S → Done S A

module _ {S : Type 0} where
  abbrev pub behind : {B : Type 0} → List Send → Done S B → Done S B
  behind sent d = record { sent = sent ++ d.sent; state = d.state; value = d.value }

  module _ {A : Type 0} where
    abbrev pub return : A → Call S A
    return a s = record { sent = []; state = s; value = ok a }

    -- A call that only throws or gives a value.
    abbrev pub lift : Result A → Call S A
    lift r s = record { sent = []; state = s; value = r }

    abbrev continue : {B : Type 0} → List Send → S → Result A → (A → Call S B) → Done S B
    continue sent s (err e) next = record { sent = sent; state = s; value = err e }
    continue sent s (ok a) next = behind sent (next a s)

    infixl 5 ◌>>=◌
    abbrev pub ◌>>=◌ : {B : Type 0} → Call S A → (A → Call S B) → Call S B
    (call >>= next) s = let d = call s in continue d.sent d.state d.value next

    abbrev handle : List Send → S → Result A → (Error → Call S A) → Done S A
    handle sent s (ok a) handler = record { sent = sent; state = s; value = ok a }
    handle sent s (err e) handler = behind sent (handler e s)

    -- `try { call } catch (e) { handler }`
    abbrev pub catch : Call S A → (Error → Call S A) → Call S A
    catch call handler s = let d = call s in handle d.sent d.state d.value handler

  infixl 5 ◌>>◌
  abbrev pub ◌>>◌ : {B : Type 0} → Call S (Unit {0}) → Call S B → Call S B
  call >> next = call >>= (λ done. next)

  abbrev pub modify : (S → S) → Call S (Unit {0})
  modify f s = record { sent = []; state = f s; value = ok tt }

  abbrev pub get : Call S S
  get s = record { sent = []; state = s; value = ok s }

  abbrev pub send : List ℕ → Bool → Bool → Call S (Unit {0})
  send bytes is_async is_close s = record {
    sent = record { bytes = bytes; is_async = is_async; is_close = is_close } ∷ [];
    state = s;
    value = ok tt;
  }

  -- A call that gives a value, and what is done with it.
  pub >>=-ok :
      {A B : Type 0} (call : Call S A) (next : A → Call S B) (s s' : S) (sent : List Send) (a : A)
      → call s ≡ record { sent = sent; state = s'; value = ok a }
      → (call >>= next) s ≡ behind sent (next a s')
  >>=-ok call next s s' sent a done = rw done refl

  pub lift-ok :
      {A B : Type 0} (r : Result A) (next : A → Call S B) (s : S) (a : A)
      → r ≡ ok a
      → (lift r >>= next) s ≡ next a s
  lift-ok r next s a done = rw done refl

-- Calls that leave a part of the object, which `f` gives, as it is.
module _ {S B : Type 0} (f : S → B) where
  abbrev pub Keeps : {A : Type 0} → Call S A → Type 0
  Keeps call = (s : S) → f (call s).state ≡ f s

  continue-Keeps :
      {A C : Type 0} (sent : List Send) (s : S) (r : Result A) (next : A → Call S C)
      → ((a : A) → Keeps (next a))
      → f (continue sent s r next).state ≡ f s
  continue-Keeps sent s (err e) next keeps = refl
  continue-Keeps sent s (ok a) next keeps = keeps a s

  pub >>=-Keeps :
      {A C : Type 0} (call : Call S A) (next : A → Call S C)
      → Keeps call
      → ((a : A) → Keeps (next a))
      → Keeps (call >>= next)
  >>=-Keeps call next first keeps s =
      continue-Keeps (call s).sent (call s).state (call s).value next keeps ∙ first s

  handle-Keeps :
      {A : Type 0} (sent : List Send) (s : S) (r : Result A) (handler : Error → Call S A)
      → ((e : Error) → Keeps (handler e))
      → f (handle sent s r handler).state ≡ f s
  handle-Keeps sent s (ok a) handler keeps = refl
  handle-Keeps sent s (err e) handler keeps = keeps e s

  pub catch-Keeps :
      {A : Type 0} (call : Call S A) (handler : Error → Call S A)
      → Keeps call
      → ((e : Error) → Keeps (handler e))
      → Keeps (catch call handler)
  catch-Keeps call handler first keeps s =
      handle-Keeps (call s).sent (call s).state (call s).value handler keeps ∙ first s
