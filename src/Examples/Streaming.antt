-- ===== src/Examples/Streaming.antt =====
-- core/emunel_core/relay/xhttp.py: an upload of three chunks, the second one of which is not written.
use emunel.Prelude.{◌+◌, ◌<◌, ◌≡◌, ◌⊎◌, true, false, some, List, [], ◌∷◌, codes, arith}
use emunel.Relay.Gate.{cap_reached, quota_start_batch, quota_max_batch}
use emunel.Relay.Xhttp.Streaming.{Chunk, Stream, complete, well, badly, stream_chunks, stream_body}
use emunel.Relay.Xhttp.Streaming.Settled.{accounted, let_through, stream_body-total}
use emunel.Examples.Fixtures.{milli, moment, ctx_with, alice}

abbrev stream : Stream milli
stream = record {
  ctx = ctx_with 5000;
  gate = record {
    uuid = alice;
    conn_id = some (codes "c");
    pending = 5;
    last_check = 100;
    ok = true;
    batch_bytes = quota_start_batch;
    rate_ewma = 0;
  };
}

abbrev upload : List (Chunk milli)
upload =
    record { moment = moment; body = 1 ∷ 2 ∷ []; went = well }
    ∷ record { moment = moment; body = 3 ∷ []; went = badly }
    ∷ record { moment = moment; body = 4 ∷ []; went = well }
    ∷ []

stream_body-total_example :
    (let before = stream_chunks milli upload complete stream in
      let total = (stream_body milli upload complete moment stream).0.ctx.stats.total_bytes in
      (total ≡ accounted milli stream + let_through milli upload stream)
      ⊎ (((before.0.gate.ok ≡ false) ⊎ (cap_reached before.0.ctx.stats ≡ true))
          × (accounted milli stream + let_through milli upload stream < total + quota_max_batch)))
stream_body-total_example =
    stream_body-total milli upload complete moment stream
      (record { least = omega arith; most = omega arith; open_batch = omega arith })
