-- ===== src/Media/Examples.antt =====
-- Runs of the code of media/, at one input for each theorem.
use streaming.Prelude.{ℕ, ◌≡◌, refl, true, false, some, [], ◌∷◌, ◌++◌}
use streaming.Prelude.Outcome.{ok}
use streaming.Media.Info.{Info, parse_stream, is_alpha}
use streaming.Media.Info.RoundTrip.{vhost_part, parse_stream_lem}
use streaming.Media.Dispatcher.{
  Dispatcher, create, regist_reader, deregist_reader, distribute, on_read, replay, visit, cache,
  insert, merge, set_registered,
}
use streaming.Media.Dispatcher.Sets.{mem}
use streaming.Media.Dispatcher.Laws.{
  IsValid, create-IsValid, regist_reader-IsValid, distribute-IsValid,
}
use streaming.Media.Dispatcher.Runs.{broadcast, broadcast-regist_reader, deregist_reader-keeps}

-- Packets are numbers. Reader 7 has joined and had its first packet, 20.
abbrev start : Dispatcher ℕ
start = create 100 (λ i. record {
  is_registered = false;
  has_read_cb = true;
  has_detach_cb = true;
  received = [];
  detached = [];
})

abbrev joined : Dispatcher ℕ
joined = regist_reader (some 7) start

joined-IsValid : IsValid joined
joined-IsValid = regist_reader-IsValid 7 start (create-IsValid 100 _)

abbrev running : Dispatcher ℕ
running = distribute 20 true joined

running-IsValid : IsValid running
running-IsValid = distribute-IsValid 20 true joined joined-IsValid

running-old : mem 7 running.old_clients ≡ true
unfolding distribute regist_reader create merge insert
running-old = refl

running-new : mem 7 running.new_clients ≡ false
unfolding distribute
running-new = refl

running-other : mem 9 running.old_clients ≡ false
unfolding distribute regist_reader create merge insert
running-other = refl

running-has_read_cb : (running.readers 7).has_read_cb ≡ true
unfolding distribute replay visit on_read regist_reader set_registered create insert cache
running-has_read_cb = refl

deregist_reader-keeps_example :
    ((broadcast ((21, false) ∷ []) (deregist_reader (some 7) running)).readers 7).received
    ≡ (running.readers 7).received ++ (21 ∷ [])
deregist_reader-keeps_example =
    deregist_reader-keeps ((21, false) ∷ []) running 7 running-IsValid running-old running-new
      running-has_read_cb

other-has_read_cb : (running.readers 9).has_read_cb ≡ true
unfolding distribute replay visit on_read regist_reader set_registered create insert cache
other-has_read_cb = refl

broadcast-regist_reader_example :
    ((broadcast ((21, false) ∷ (22, false) ∷ []) (regist_reader (some 9) running)).readers
      9).received
    ≡ (running.readers 9).received
      ++ (cache running.max_size 21 false running.packet_list ++ (22 ∷ []))
broadcast-regist_reader_example =
    broadcast-regist_reader 21 false ((22, false) ∷ []) running 9 running-IsValid running-other
      other-has_read_cb

-- The name "cam", the host "h" and the token "x&".
abbrev blank : Info
blank = record { schema = []; app = []; vhost = []; stream_id = []; token = []; tc_url = [] }

letter : is_alpha 99 ≡ true
unfolding is_alpha
letter = refl

parse_stream_lem_example :
    parse_stream ((99 ∷ 97 ∷ 109 ∷ []) ++ vhost_part (104 ∷ []) (120 ∷ 38 ∷ [])) blank
    ≡ ok (record blank { stream_id = 99 ∷ 97 ∷ 109 ∷ []; vhost = 104 ∷ []; token = 120 ∷ 38 ∷ [] })
parse_stream_lem_example =
    parse_stream_lem 99 (97 ∷ 109 ∷ []) (104 ∷ []) (120 ∷ 38 ∷ []) blank letter
      (refl, (refl, (refl, tt))) (refl, tt)
