-- ===== src/Network/Sessions/Laws.antt =====
-- What the session manager of network/session.cpp keeps and closes.
use streaming.Rtmp.Chunk.{update}
use streaming.Prelude.{
  ℕ, ◌≡◌, refl, sym, ap, ◌∙◌, ==_iff, arith, true, none, some, List, [], ◌∷◌, ◌==◌, Bool-cases, inl,
  inr, ==_refl,
}
use streaming.Rtmp.Amf.Map.{key_eq}
use streaming.Network.Sessions.{
  Session, Manager, find, remove, close, close_at, stop, stop_found, erase, shutdown, close_all,
  stop_all,
}

pub find-remove : (id : List ℕ) (l : List (List ℕ × ℕ)) → find id (remove id l) ≡ none
unfolding find remove
find-remove id [] = refl
find-remove id ((k, i) ∷ l) = elim (Bool-cases (key_eq k id)) [
  | inl e ↦ rw e (find-remove id l)
  | inr e ↦ rw e (rw e (find-remove id l))
]

pub close-is_closed : (s : Session) → (close s).is_closed ≡ true
unfolding close
close-is_closed s = elim (Bool-cases s.is_closed) [ inl e ↦ ground arith | inr e ↦ ground arith ]

-- If the map has an entry for the id of a session, `stop` closes the session, and the map has no
-- entry for the id any more.
pub stop-closes :
    (i j : ℕ) (m : Manager)
    → find (m.session i).id m.session_map ≡ some j
    → ((stop (some i) m).session i).is_closed ≡ true
      × find (m.session i).id (stop (some i) m).session_map ≡ none
unfolding stop stop_found
stop-closes i j m h =
    rw h
      (rw (==_refl i) (close-is_closed (m.session i)), find-remove (m.session i).id m.session_map)

pub close-id : (s : Session) → (close s).id ≡ s.id
unfolding close
close-id s = ground arith

pub close_all-keeps :
    (l : List (List ℕ × ℕ)) (f : ℕ → Session) (i : ℕ)
    → (f i).is_closed ≡ true
    → (close_all l f i).is_closed ≡ true
unfolding close_all
close_all-keeps [] f i h = h
close_all-keeps ((k, j) ∷ l) f i h =
    close_all-keeps l _ i
      (elim (Bool-cases (i == j)) [ inl e ↦ rw e (close-is_closed (f j)) | inr e ↦ rw e h ])

pub close_all-id :
    (l : List (List ℕ × ℕ)) (f : ℕ → Session) (i : ℕ) → (close_all l f i).id ≡ (f i).id
unfolding close_all
close_all-id [] f i = refl
close_all-id ((k, j) ∷ l) f i =
    close_all-id l (update f j (close (f j))) i ∙ elim (Bool-cases (i == j)) [
      | inl e ↦ rw e (close-id (f j) ∙ ap (λ (n : ℕ). (f n).id) (sym ((==_iff i j).0 e)))
      | inr e ↦ rw e refl
    ]

close_all-closes :
    (l : List (List ℕ × ℕ)) (f : ℕ → Session) (id : List ℕ) (i : ℕ)
    → find id l ≡ some i
    → (close_all l f i).is_closed ≡ true
unfolding close_all find
close_all-closes [] f id i h = absurd (cc)
close_all-closes ((k, j) ∷ l) f id i h = elim (Bool-cases (key_eq k id)) [
  | inl e ↦
      let same : i ≡ j = ground arith in
      rw same (close_all-keeps l _ j (rw (==_refl j) (close-is_closed (f j))))
  | inr e ↦ close_all-closes l _ id i (rw e at h)
]

-- After `stop_all` every session that the map had under some id is closed, and the map is empty.
pub stop_all-closes :
    (m : Manager) (id : List ℕ) (i : ℕ)
    → find id m.session_map ≡ some i
    → ((stop_all m).session i).is_closed ≡ true × (stop_all m).session_map ≡ []
unfolding stop_all
stop_all-closes m id i h = (close_all-closes m.session_map m.session id i h, refl)

erase-none : (id : List ℕ) (b : ℕ) (bs : List ℕ) (m : Manager) → id ≡ b ∷ bs → erase id m ≡ m
unfolding erase
erase-none id b bs m h = rw h refl

-- A session whose id is not empty and that shuts down by itself is closed, but the manager's map
-- stays as it was, since `erase` returns at once.
pub shutdown-keeps :
    (i b : ℕ) (bs : List ℕ) (m : Manager)
    → (m.session i).id ≡ b ∷ bs
    → ((shutdown i m).session i).is_closed ≡ true × (shutdown i m).session_map ≡ m.session_map
unfolding shutdown
shutdown-keeps i b bs m h =
    rw (erase-none (m.session i).id b bs (close_at i m) h)
      (rw (==_refl i) (close-is_closed (m.session i)), refl)
