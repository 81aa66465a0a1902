-- ===== src/Rtmp/Source/Runs.antt =====
-- What the readers of a source are given in a run of `process_av_packet`.
use streaming.Prelude.{
  ℕ, map, ◌≡◌, refl, sym, ap, ◌∙◌, subst, Bool, true, false, ◌&&◌, ◌||◌, not, Option, none, some,
  List, [], ◌∷◌, ◌==◌, ==_refl, if◌then◌else◌,
}
use streaming.Prelude.Outcome.{Result, ok, err, throw_if, not_av, ◌>>=◌, >>=-eq-ok, ok-injective}
use streaming.Media.Info.{Info}
use streaming.Media.Sources.{Sources, lock, value_or, weak_source, regist}
use streaming.Media.Sources.Registry.{Registered, again, anew, regist-Registered, weak_source-slot}
use streaming.Media.Dispatcher.{Dispatcher, distribute}
use streaming.Codec.H264.{SpsInfo}
use streaming.Rtmp.Packet.{Packet, msg_audio, msg_video, size, is_config_frame, is_video_keyframe}
use streaming.Rtmp.Demuxer.{Demuxer, input_rtmp}
use streaming.Rtmp.Source.{
  RtmpSource, get_dispatcher, deliver, publish, note_packet, process_av_packet,
}

abbrev is_true : Result Bool → Bool
is_true (ok b) = b
is_true (err e) = false

abbrev sized : Packet → Packet
sized pkt = (size pkt).1

abbrev pub config : Packet → Bool
config pkt = is_true (is_config_frame (sized pkt))

-- Every packet goes to the readers, except configurations in front of the first other packet.
abbrev pub broadcast : Bool → List Packet → Dispatcher Packet → Dispatcher Packet
broadcast on_air [] d = d
broadcast on_air (pkt ∷ pkts) d =
    if config pkt && not on_air
    then broadcast on_air pkts d
    else broadcast true pkts (distribute (sized pkt) (is_true (is_video_keyframe (sized pkt))) d)

-- The registry holds a living source only under its flag.
abbrev pub IsFlagged : ℕ → Info → Sources → Type 0
IsFlagged this p sources =
    lock sources.alive (weak_source p sources.media_sources) ≡ some this
    → sources.is_registered this ≡ true

regist-flag :
    (this : ℕ) (p : Info) (st st' : Sources)
    → IsFlagged this p st
    → regist this p st ≡ ok st'
    → st'.is_registered this ≡ true
regist-flag this p st st' flagged done = by_case (regist-Registered this p st st' done)
  where
    by_case : {s : Sources} → Registered this p st s → s.is_registered this ≡ true
    by_case (again w e locked) =
        flagged
          (ap (lock st.alive) (weak_source-slot p st.media_sources ∙ ap (value_or none) e) ∙ locked)
    by_case (anew free) = rw (==_refl this) refl

-- What a call leaves of a source. `kept` says that the packet was only kept.
record Left (pkt : Packet) (kept : Bool) (d : Dispatcher Packet) (s s' : RtmpSource)
    (sources' : Sources) : Type 0 where
  same_this : s'.this ≡ s.this
  same_info : s'.media_info ≡ s.media_info
  given :
      s'.dispatcher
      ≡ (if kept then s.dispatcher else some (distribute pkt (is_true (is_video_keyframe pkt)) d))
  flag : sources'.is_registered s.this ≡ not kept
  still : IsFlagged s.this s.media_info sources'

deliver-Left :
    (pkt : Packet) (d : Dispatcher Packet) (s s' : RtmpSource) (src src' : Sources)
    → deliver pkt d s src ≡ ok (s', src')
    → src.is_registered s.this ≡ true
    → Left pkt false d s s' src'
unfolding deliver
deliver-Left pkt d s s' src src' done flag =
    let (key, is_key, e) =
      >>=-eq-ok (is_video_keyframe pkt)
        (λ key. ok (record s { dispatcher = some (distribute pkt key d) }, src)) done in
    let same : (record s { dispatcher = some (distribute pkt key d) }, src) ≡ (s', src') =
      ok-injective e in
    subst (λ (r : RtmpSource × Sources). Left pkt false d s (r.0) (r.1)) same
      (record {
        same_this = refl;
        same_info = refl;
        given = ap (λ r. some (distribute pkt (is_true r) d)) (sym is_key);
        flag = flag;
        still = λ stored. flag;
      })

publish-Left :
    (c on_air : Bool) (pkt : Packet) (d : Dispatcher Packet) (s s' : RtmpSource)
    (src src' : Sources)
    → src.is_registered s.this ≡ on_air
    → IsFlagged s.this s.media_info src
    → publish c on_air pkt d s src ≡ ok (s', src')
    → Left pkt (c && not on_air) d s s' src'
unfolding publish
publish-Left true false pkt d s s' src src' flag flagged done =
    subst (λ (r : RtmpSource × Sources). Left pkt true d s (r.0) (r.1)) (ok-injective done)
      (record { same_this = refl; same_info = refl; given = refl; flag = flag; still = flagged })
publish-Left true true pkt d s s' src src' flag flagged done =
    deliver-Left pkt d s s' src src' done flag
publish-Left false true pkt d s s' src src' flag flagged done =
    deliver-Left pkt d s s' src src' done flag
publish-Left false false pkt d s s' src src' flag flagged done =
    let (registered, r, e) =
      >>=-eq-ok (regist s.this s.media_info src) (λ registered. deliver pkt d s registered) done in
    deliver-Left pkt d s s' registered src' e
      (regist-flag s.this s.media_info src registered flagged r)

one_of :
    {A : Type 0} (b : Bool) {o : Option A} {x : A} (y : A)
    → o ≡ some x
    → (if b then o else some y) ≡ some (if b then x else y)
one_of true y h = h
one_of false y h = refl

either :
    {A : Type 0} (c o : Bool) (f : Bool → A → A) (x y : A)
    → (if c && not o then f o x else f true y) ≡ f (not (c && not o)) (if c && not o then x else y)
either true true f x y = refl
either true false f x y = refl
either false o f x y = refl

get_dispatcher-some :
    (s : RtmpSource) (d : Dispatcher Packet) → s.dispatcher ≡ some d → get_dispatcher s ≡ ok d
unfolding get_dispatcher
get_dispatcher-some s d has = rw has refl

module _ (parse_sps : List ℕ → Option SpsInfo) where
  process_av_packet-Left :
      (now : ℕ) (pkt : Packet) (d : Dispatcher Packet) (s s' : RtmpSource) (src src' : Sources)
      → s.dispatcher ≡ some d
      → IsFlagged s.this s.media_info src
      → process_av_packet parse_sps now pkt s src ≡ ok (s', src')
      → Left (sized pkt) (config pkt && not (src.is_registered s.this)) d s s' src'
  unfolding process_av_packet note_packet
  process_av_packet-Left now pkt d s s' src src' has flagged done =
      let on_air = src.is_registered s.this in
      let noted = λ (demuxer : Demuxer) (c : Bool).
        note_packet now ((size pkt).0) c (sized pkt) (record s { demuxer = demuxer }) in
      let published = λ (d' : Dispatcher Packet) (demuxer : Demuxer) (c : Bool).
        publish c on_air (sized pkt) d' (noted demuxer c) src in
      let fed = λ (d' : Dispatcher Packet) (demuxer : Demuxer).
        is_config_frame (sized pkt) >>= published d' demuxer in
      let given = λ (d' : Dispatcher Packet). input_rtmp parse_sps pkt s.demuxer >>= fed d' in
      let is_av = not (pkt.msg_type_id == msg_audio || pkt.msg_type_id == msg_video) in
      let (checked, _, r1) =
        >>=-eq-ok (throw_if is_av not_av) (λ checked. get_dispatcher s >>= given) done in
      let (d', e2, r2) = >>=-eq-ok (get_dispatcher s) given r1 in
      let (demuxer, _, r3) = >>=-eq-ok (input_rtmp parse_sps pkt s.demuxer) (fed d') r2 in
      let (c, e4, r4) = >>=-eq-ok (is_config_frame (sized pkt)) (published d' demuxer) r3 in
      let same_d : d' ≡ d = ok-injective (sym e2 ∙ get_dispatcher-some s d has) in
      let same_c : c ≡ config pkt = ap is_true (sym e4) in
      let left =
        publish-Left c on_air (sized pkt) d' (noted demuxer c) s' src src' refl flagged r4 in
      let kept : Left (sized pkt) (c && not on_air) d' s s' src' = record {
        same_this = left.same_this;
        same_info = left.same_info;
        given = left.given;
        flag = left.flag;
        still = left.still;
      } in
      subst (λ x. Left (sized pkt) (config pkt && not on_air) x s s' src') same_d
        (subst (λ b. Left (sized pkt) (b && not on_air) d' s s' src') same_c kept)

  -- `process_av_packet` for each packet, with the time at its call.
  unfoldable pub process_all :
      List (ℕ × Packet) → RtmpSource → Sources → Result (RtmpSource × Sources)
  process_all [] s src = ok (s, src)
  process_all ((now, pkt) ∷ events) s src =
      process_av_packet parse_sps now pkt s src >>= (λ (s', src'). process_all events s' src')

  -- A run that does not throw, of a source that has a dispatcher and that the registry holds only
  -- under its flag, gives the readers exactly the packets from the first one on that is no
  -- configuration, or all of them if the source was on the air, each once and in order.
  pub process_all-broadcast :
      (events : List (ℕ × Packet)) (d : Dispatcher Packet) (s s' : RtmpSource) (src src' : Sources)
      → s.dispatcher ≡ some d
      → IsFlagged s.this s.media_info src
      → process_all events s src ≡ ok (s', src')
      → s'.dispatcher ≡ some (broadcast (src.is_registered s.this) (map (λ e. e.1) events) d)
  unfolding process_all
  process_all-broadcast [] d s s' src src' has flagged done =
      ap (λ (r : RtmpSource × Sources). r.0.dispatcher) (sym (ok-injective done)) ∙ has
  process_all-broadcast ((now, pkt) ∷ events) d s s' src src' has flagged done =
      let ((s1, src1), first, rest) =
        >>=-eq-ok (process_av_packet parse_sps now pkt s src)
          (λ (r : RtmpSource × Sources). process_all events (r.0) (r.1)) done in
      let left = process_av_packet-Left now pkt d s s1 src src1 has flagged first in
      let on_air = src.is_registered s.this in
      let kept = config pkt && not on_air in
      let given = distribute (sized pkt) (is_true (is_video_keyframe (sized pkt))) d in
      let still : IsFlagged s1.this s1.media_info src1 =
        subst (λ i. IsFlagged i s1.media_info src1) (sym left.same_this)
          (subst (λ p. IsFlagged s.this p src1) (sym left.same_info) left.still) in
      let on_air' : src1.is_registered s1.this ≡ not kept =
        ap (λ (i : ℕ). src1.is_registered i) left.same_this ∙ left.flag in
      process_all-broadcast events (if kept then d else given) s1 s' src1 src'
        (left.given ∙ one_of kept given has) still rest
      ∙ ap (λ b. some (broadcast b (map (λ e. e.1) events) (if kept then d else given))) on_air'
      ∙ ap some
          (sym (either (config pkt) on_air (λ b x. broadcast b (map (λ e. e.1) events) x) d given))
