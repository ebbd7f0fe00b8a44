-- ===== src/Relay/Xhttp/Upload/Flow.antt =====
-- core/emunel_core/relay/xhttp.py: `_AdaptiveFlow.drain` over the drains of a stream.
use emunel.Prelude.{ℕ, ◌≤◌, List, [], ◌∷◌, arith}
use emunel.Relay.Xhttp.Upload.{after_drain, flow_start, flow_min, flow_max}

-- The mark after the drains of a stream, by their durations.
unfoldable pub after_drains : List ℕ → ℕ → ℕ
after_drains [] high_water = high_water
after_drains (elapsed ∷ durations) high_water =
    after_drains durations (after_drain elapsed high_water)

stays :
    (durations : List ℕ) (h : ℕ)
    → flow_min ≤ h
    → h ≤ flow_max
    → (flow_min ≤ after_drains durations h) × (after_drains durations h ≤ flow_max)
unfolding after_drains after_drain
stays [] h l u = (l, u)
stays (elapsed ∷ durations) h l u =
    stays durations (after_drain elapsed h) (ground arith) (ground arith)

-- However long the drains take, the mark stays between 256 KB and 32 MB.
pub after_drains_bounds :
    (durations : List ℕ)
    → (flow_min ≤ after_drains durations flow_start)
      × (after_drains durations flow_start ≤ flow_max)
after_drains_bounds durations = stays durations flow_start (omega arith) (omega arith)
