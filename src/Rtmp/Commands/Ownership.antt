-- ===== src/Rtmp/Commands/Ownership.antt =====
-- Who may publish to a source: the token of `get_ownership` in `on_amf_publish`.
use streaming.Prelude.{
  ℕ, List, inl, inr, ==_iff, Bool-cases, Option-cases, ◌≡◌, ◌≢◌, refl, sym, ap, ◌∙◌, Bool, true,
  false, some, ◌==◌,
}
use streaming.Prelude.Outcome.{Error, Result, ok, err, ◌>>=◌, not_owner}
use streaming.Media.Info.{Info, parse_stream}
use streaming.Media.Sources.{Sources, find, get_ownership, release_ownership}
use streaming.Rtmp.Amf.{Decoder, pop_front, load_string, amf_null}
use streaming.Rtmp.Source.{RtmpSource}
use streaming.Rtmp.Commands.{
  Connection, Client, give_up, rename, claim, take_source, tell, on_amf_publish,
}

==-other : (i j : ℕ) → some j ≢ some i → (i == j) ≡ false
==-other i j other = elim (Bool-cases (i == j)) [
  | inl e ↦ absurd (other (ap some (sym ((==_iff i j).0 e))))
  | inr e ↦ e
]

-- What a connection gives up is its own token only.
give_up-owned :
    (i : ℕ) (c : Connection)
    → c.src_ownership ≢ some i
    → c.sources.owned i ≡ true
    → (give_up c).sources.owned i ≡ true
unfolding give_up release_ownership
give_up-owned i c other taken = elim (Option-cases c.src_ownership) [
  | inl nothing ↦ rw nothing taken
  | inr (j, held) ↦ rw held (elim (Bool-cases (c.sources.alive j)) [
    | inl living ↦ rw (living, ==-other i j (λ e. other (held ∙ e))) taken
    | inr dead ↦ rw dead taken
  ])
]

take_source-owned :
    (blank : RtmpSource) (info : Info) (i : ℕ) (c : Connection)
    → c.src_ownership ≢ some i
    → c.sources.owned i ≡ true
    → take_source blank info (some i) c ≡ err not_owner
unfolding take_source claim get_ownership
take_source-owned blank info i c other taken = rw (give_up-owned i c other taken) refl

throws_anyway : (r : Result Client) (e : Error) (x : Client) → (r >>= (λ told. err e)) ≢ ok x
throws_anyway (err e') e x h = cc
throws_anyway (ok st) e x h = cc

tell-err : (what : Error → List ℕ) (st st' : Client) (e : Error) → tell what st (err e) ≢ ok st'
unfolding tell
tell-err what st st' e = throws_anyway _ e st'

rename-keeps :
    (info : Info) (c : Connection)
    → ((rename info c).src_ownership ≡ c.src_ownership) × ((rename info c).sources ≡ c.sources)
unfolding rename
rename-keeps info c = elim (Option-cases c.shared_with) [
  | inl alone ↦ rw alone (refl, refl)
  | inr (i, shared) ↦ rw shared (refl, refl)
]

-- A `publish` for a path that leads to a source whose token another connection has never succeeds,
-- whatever token the connection has itself, and whatever the client is told.
pub on_amf_publish-refused :
    (what : Error → List ℕ) (blank : RtmpSource) (dec dec1 dec2 : Decoder) (st st' : Client)
    (text : List ℕ) (old info : Info) (i : ℕ) (has_created : Bool)
    → pop_front dec ≡ ok (amf_null, dec1)
    → load_string dec1 ≡ ok (text, dec2)
    → st.media.media_info ≡ some old
    → parse_stream text old ≡ ok info
    → find info.schema info.vhost info.app info.stream_id st.media.sources
      ≡ ok (some i, has_created)
    → st.media.src_ownership ≢ some i
    → st.media.sources.owned i ≡ true
    → on_amf_publish what blank dec st ≢ ok st'
unfolding on_amf_publish
on_amf_publish-refused what blank dec dec1 dec2 st st' text old info i has_created front name known
      parsed found other taken done =
    let c = rename info st.media in
    let (same_token, same_sources) = rename-keeps info st.media in
    let refused : take_source blank info (some i) c ≡ err not_owner =
      take_source-owned blank info i c (λ e. other (sym same_token ∙ e))
        (ap (λ (s : Sources). s.owned i) same_sources ∙ taken) in
    let told : on_amf_publish what blank dec st
        ≡ tell what (record st { media = c }) (err not_owner) =
      rw (front, name, known, parsed, found, refused) refl in
    tell-err what (record st { media = c }) st' not_owner (sym told ∙ done)
