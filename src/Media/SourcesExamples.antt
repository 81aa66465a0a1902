-- ===== src/Media/SourcesExamples.antt =====
-- Runs of the registry of sources, at one input for each theorem.
use streaming.Prelude.{ℕ, ◌≡◌, refl, true, false, some, [], ◌∷◌, if◌then◌else◌}
use streaming.Prelude.Outcome.{ok}
use streaming.Media.Info.{Info}
use streaming.Media.Sources.{Sources, regist, unregist, set_weak_source}
use streaming.Media.Sources.Slots.{same_path}
use streaming.Media.Sources.Registry.{search, search-regist}
use streaming.Media.Sources.Exclusive.{
  Reachable, start, step, regists, unregists, Reachable-exclusive,
}
use streaming.Rtmp.Chunk.{update}

abbrev stream : Info
stream = record {
  schema = 82 ∷ [];
  app = 97 ∷ [];
  vhost = 118 ∷ [];
  stream_id = 115 ∷ [];
  token = [];
  tc_url = [];
}

abbrev empty : Sources
empty = record {
  media_sources = [];
  alive = λ i. true;
  is_registered = λ i. false;
  owned = λ i. false;
}

-- Source 7 is on the air.
abbrev on_air : Sources
on_air = record empty {
  media_sources = set_weak_source stream (some 7) [];
  is_registered = update (λ i. false) 7 true;
}

registers : regist 7 stream empty ≡ ok on_air
unfolding regist
registers = refl

search-regist_example :
    search stream on_air
    ≡ (if same_path stream stream then ok (some 7, true) else search stream empty)
search-regist_example = search-regist 7 stream stream empty on_air registers refl refl

-- Source 7 left the path that source 8 takes now.
abbrev taken_over : Sources
taken_over = record on_air {
  media_sources = set_weak_source stream (some 8) (unregist 7 stream on_air).media_sources;
  is_registered = update (update on_air.is_registered 7 false) 8 true;
}

registers_again : regist 8 stream (unregist 7 stream on_air) ≡ ok taken_over
unfolding regist unregist set_weak_source
registers_again = refl

run : Reachable (λ i. stream) (λ i. true) taken_over
run = step (step (step start (regists 7 registers)) (unregists 7)) (regists 8 registers_again)

Reachable-exclusive_example : ◌≡◌ {A = ℕ} 8 8
Reachable-exclusive_example = Reachable-exclusive (λ i. stream) 8 8 run refl refl refl refl refl
