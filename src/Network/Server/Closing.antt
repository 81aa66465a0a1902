-- ===== src/Network/Server/Closing.antt =====
-- What a server of src/network/tcp_server.cpp keeps to, and that sessions which stop keep it so.
use streaming.Prelude.{
  ℕ, ◌^◌, ◌<◌, ◌≡◌, ◌≢◌, refl, sym, ap, ◌∙◌, Bool, true, false, none, some, List, [], ◌∷◌,
  if◌then◌else◌, ◌==◌, ==_iff, Bool-cases, Option-cases, inl, inr, subst,
}
use streaming.Network.Sessions.{
  Manager, find, remove, close, close_at, stop, stop_found, erase, shutdown,
}
use streaming.Network.Sessions.Laws.{close-is_closed, close-id}
use streaming.Network.Sessions.Entries.{find-remove_other, find-remove-none}
use streaming.Network.Server.{Server, session_id, generate_session_prefix}

abbrev pub id_of : Server → ℕ → ℕ → List ℕ
id_of sv n raw_fd = session_id (generate_session_prefix sv.server_name n) raw_fd

-- The sessions that are not closed are in the map, no two have one name, no name comes that was
-- there, and once the acceptor is closed all are.
pub record Inv (sv : Server) : Type 0 where
  pub listed :
      (i : ℕ)
      → i < sv.next
      → (sv.manager.session i).is_closed ≡ false
      → find (sv.manager.session i).id sv.manager.session_map ≡ some i
  pub apart :
      (i j : ℕ)
      → i < sv.next
      → j < sv.next
      → i ≢ j
      → (sv.manager.session i).id ≢ (sv.manager.session j).id
  pub unused :
      (i n raw_fd : ℕ)
      → i < sv.next
      → sv.session_index < n
      → n < 2 ^ 64
      → (sv.manager.session i).id ≢ id_of sv n raw_fd
  pub absent :
      (n raw_fd : ℕ)
      → sv.session_index < n
      → n < 2 ^ 64
      → find (id_of sv n raw_fd) sv.manager.session_map ≡ none
  pub ended : sv.is_open ≡ false → (i : ℕ) → i < sv.next → (sv.manager.session i).is_closed ≡ true

-- A change of the manager that keeps the names and closes sessions.
pub record Closing (m m' : Manager) (n : ℕ) : Type 0 where
  pub same_id : (i : ℕ) → (m'.session i).id ≡ (m.session i).id
  pub stays : (i : ℕ) → (m.session i).is_closed ≡ true → (m'.session i).is_closed ≡ true
  pub still :
      (i : ℕ)
      → i < n
      → (m'.session i).is_closed ≡ false
      → find (m.session i).id m'.session_map ≡ some i
  pub no_more : (id : List ℕ) → find id m.session_map ≡ none → find id m'.session_map ≡ none

pub Inv-Closing :
    (sv : Server) (m' : Manager)
    → Inv sv
    → Closing sv.manager m' sv.next
    → Inv (record sv { manager = m' })
Inv-Closing sv m' inv c = record {
  listed = λ i old closed. ap (λ id. find id m'.session_map) (c.same_id i) ∙ c.still i old closed;
  apart = λ i j old old' other same.
      inv.apart i j old old' other (sym (c.same_id i) ∙ same ∙ c.same_id j);
  unused = λ i n raw_fd old later room same.
      inv.unused i n raw_fd old later room (sym (c.same_id i) ∙ same);
  absent = λ n raw_fd later room. c.no_more _ (inv.absent n raw_fd later room);
  ended = λ closed i old. c.stays i (inv.ended closed i old);
}

-- A session that is closed, with the map as it was or without its name.
module _ (sv : Server) (inv : Inv sv) (i : ℕ) (old : i < sv.next) where
  abbrev m : Manager
  m = sv.manager

  close_at-id : (j : ℕ) → ((close_at i m).session j).id ≡ (m.session j).id
  close_at-id j = elim (Bool-cases (j == i)) [
    | inl same ↦
        rw same
          (close-id (m.session i) ∙ ap (λ (k : ℕ). (m.session k).id) (sym ((==_iff j i).0 same)))
    | inr other ↦ rw other refl
  ]

  close_at-stays :
      (j : ℕ) → (m.session j).is_closed ≡ true → ((close_at i m).session j).is_closed ≡ true
  close_at-stays j closed = elim (Bool-cases (j == i)) [
    | inl same ↦ rw same (close-is_closed (m.session i))
    | inr other ↦ rw other closed
  ]

  not_closed :
      (j : ℕ)
      → ((close_at i m).session j).is_closed ≡ false
      → (j ≢ i) × ((m.session j).is_closed ≡ false)
  not_closed j alive = elim (Bool-cases (j == i)) [
    | inl same ↦ absurd (clash (sym (close-is_closed (m.session i)) ∙ at_i same))
    | inr other ↦ (
      λ same. clash (sym ((==_iff j i).1 same) ∙ other),
      ap (λ b. (if b then close (m.session i) else m.session j).is_closed) (sym other) ∙ alive,
    )
  ]
    where
      clash : ◌≡◌ {A = Bool} true false → ⊥
      clash h = cc

      at_i : (j == i) ≡ true → (close (m.session i)).is_closed ≡ false
      at_i same =
          ap (λ b. (if b then close (m.session i) else m.session j).is_closed) (sym same) ∙ alive

  close_at-Closing : Closing m (close_at i m) sv.next
  close_at-Closing = record {
    same_id = close_at-id;
    stays = close_at-stays;
    still = λ j known alive. inv.listed j known (not_closed j alive).1;
    no_more = λ id nothing. nothing;
  }

  removed-Closing :
      Closing m
        (record (close_at i m) { session_map = remove (m.session i).id m.session_map })
        sv.next
  removed-Closing = record {
    same_id = close_at-id;
    stays = close_at-stays;
    still = λ j known alive.
        let (other, was) = not_closed j alive in
        find-remove_other (m.session j).id (m.session i).id m.session_map
          (inv.apart j i known old other)
        ∙ inv.listed j known was;
    no_more = λ id nothing. find-remove-none id (m.session i).id m.session_map nothing;
  }

  unchanged-Closing : Closing m m sv.next
  unchanged-Closing = record {
    same_id = λ j. refl;
    stays = λ j closed. closed;
    still = λ j known alive. inv.listed j known alive;
    no_more = λ id nothing. nothing;
  }

  pub stop-Closing : Closing m (stop (some i) m) sv.next
  unfolding stop stop_found
  stop-Closing = elim (Option-cases (find (m.session i).id m.session_map)) [
    | inl nothing ↦
        subst (λ o. Closing m (stop_found o i m) sv.next) (sym nothing) unchanged-Closing
    | inr (x, there) ↦ subst (λ o. Closing m (stop_found o i m) sv.next) (sym there) removed-Closing
  ]

  erased : (id : List ℕ) → id ≡ (m.session i).id → Closing m (erase id (close_at i m)) sv.next
  unfolding erase
  erased [] named =
      subst
        (λ k. Closing m (record (close_at i m) { session_map = remove k m.session_map }) sv.next)
        (sym named) removed-Closing
  erased (b ∷ bs) named = close_at-Closing

  pub shutdown-Closing : Closing m (shutdown i m) sv.next
  unfolding shutdown
  shutdown-Closing = erased (m.session i).id refl
