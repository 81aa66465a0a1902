-- ===== src/Rtmp/Chunk/Delivery.antt =====
-- What it means that `split_rtmp` hands on a message: what it leaves alone, and what the handler
-- is given.
use streaming.Prelude.{ℕ, ◌≡◌, ◌≢◌, refl, ◌∙◌, arith, none, some, List}
use streaming.Prelude.Outcome.{Result, ◌>>=◌}
use streaming.Rtmp.Packet.{Packet}
use streaming.Rtmp.Chunk.{Protocol}
use streaming.Rtmp.Chunk.Round.{store, closed, split_rtmp}
use streaming.Rtmp.Chunk.Framing.{counted}

-- What taking a message of chunk stream `id` leaves as it was.
pub record Keeps {M : Type 0} (id : ℕ) (st st' : Protocol M) : Type 0 where
  pub size_in : st'.chunk_size_in ≡ st.chunk_size_in
  pub size_out : st'.chunk_size_out ≡ st.chunk_size_out
  pub stages : st'.stage ≡ st.stage
  pub transaction : st'.transaction_id ≡ st.transaction_id
  pub sending : st'.sent ≡ st.sent
  pub window : st'.windows_size ≡ st.windows_size
  pub medium : st'.media ≡ st.media
  pub others : (j : ℕ) → j ≢ id → st'.chunked_data_map j ≡ st.chunked_data_map j

pub Keeps-trans :
    {M : Type 0} {id : ℕ} {a b c : Protocol M} → Keeps id a b → Keeps id b c → Keeps id a c
Keeps-trans k l = record {
  size_in = l.size_in ∙ k.size_in;
  size_out = l.size_out ∙ k.size_out;
  stages = l.stages ∙ k.stages;
  transaction = l.transaction ∙ k.transaction;
  sending = l.sending ∙ k.sending;
  window = l.window ∙ k.window;
  medium = l.medium ∙ k.medium;
  others = λ j h. l.others j h ∙ k.others j h;
}

pub closed-Keeps :
    {M : Type 0} (id : ℕ) (p : Packet) (st : Protocol M) → Keeps id st (closed id p st)
closed-Keeps id p st = record {
  size_in = refl;
  size_out = refl;
  stages = refl;
  transaction = refl;
  sending = refl;
  window = refl;
  medium = refl;
  others = λ j h. ground arith;
}

pub store-Keeps :
    {M : Type 0} (id n : ℕ) (p : Packet) (st : Protocol M) → Keeps id st (counted n (store id p st))
store-Keeps id n p st = record {
  size_in = refl;
  size_out = refl;
  stages = refl;
  transaction = refl;
  sending = refl;
  window = refl;
  medium = refl;
  others = λ j h. ground arith;
}

-- The handler is called once, with a packet of type `k` and stream `s` that holds `bytes`, in a
-- state whose chunk stream is free again; after it the loop goes on with `rest`.
pub record Delivery {M : Type 0} (handle : Protocol M → Packet → Result (Protocol M)) (id ts : ℕ)
    (rest : List ℕ) (st : Protocol M) (k s : ℕ) (bytes : List ℕ)
    (out : Result (Protocol M × List ℕ)) : Type 0 where
  pub state : Protocol M
  pub packet : Packet
  pub result : out ≡ (handle state packet >>= λ st'. split_rtmp handle st' rest)
  pub keeps : Keeps id st state
  pub free : (state.chunked_data_map id).now ≡ none
  pub context : (state.chunked_data_map id).last ≡ some packet
  pub contents : packet.buf ≡ bytes
  pub kind : packet.msg_type_id ≡ k
  pub stream : packet.msg_stream_id ≡ s
  pub chunk_stream : packet.chunk_stream_id ≡ id
  pub stamp : packet.time_stamp ≡ ts
