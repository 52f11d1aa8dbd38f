-- ===== src/Examples/Codec.antt =====
-- The theorems on the messages, the packets, the buffer and the rates, each on an example.
use schunk_fts_ros.Base.{◌≤◌, ◌≡◌, refl, none, some, [], ◌∷◌, map, length, ok, arith, true}
use schunk_fts_ros.Message.{set_parameter_request, init, to_bytes, from_bytes}
use schunk_fts_ros.Message.Layout.{Body, IsValid, layout, message}
use schunk_fts_ros.Message.RoundTrip.{to_bytes-layout, from_bytes-layout}
use schunk_fts_ros.Packet.{
  decode_packet, unpack_header, packet_body, unpack_single, decode_sample_batch,
}
use schunk_fts_ros.Packet.Agree.{samples_of, decoders_agree}
use schunk_fts_ros.Buffer.{new}
use schunk_fts_ros.Buffer.Bounds.{put, get, calls, queue_bounded}
use schunk_fts_ros.Buffer.Samples.{samples_in, drain, puts, drain-puts}
use schunk_fts_ros.Buffer.Batches.{batch_of, drain_batches, drain_batches-puts}
use schunk_fts_ros.Examples.{set_rate, single, packed}

set_rate-IsValid : IsValid set_rate
set_rate-IsValid = ground arith

to_bytes-layout_example : to_bytes (message set_parameter_request set_rate none) ≡ (
  message set_parameter_request set_rate (some 5),
  ok (255 ∷ 255 ∷ 2 ∷ 1 ∷ 5 ∷ 0 ∷ 0xf1 ∷ 0x20 ∷ 0x10 ∷ 0 ∷ 10 ∷ []),
)
unfolding layout
to_bytes-layout_example = to_bytes-layout set_parameter_request set_rate none set_rate-IsValid

-- With a value of two bytes, which come out in reverse.
abbrev two_bytes : Body
two_bytes = record set_rate { value = 1 ∷ 2 ∷ [] }

from_bytes-layout_example :
    from_bytes (init set_parameter_request) (layout set_parameter_request two_bytes)
    ≡ (message set_parameter_request (record two_bytes { value = 2 ∷ 1 ∷ [] }) (some 6), ok true)
unfolding layout
from_bytes-layout_example = from_bytes-layout set_parameter_request two_bytes

-- A packet that ends within its header.
decoders_agree_example :
    decode_sample_batch (255 ∷ 255 ∷ 7 ∷ []) ≡ samples_of (decode_packet (255 ∷ 255 ∷ 7 ∷ []))
decoders_agree_example = decoders_agree (255 ∷ 255 ∷ 7 ∷ [])

-- Three packets for a queue of two.
queue_bounded_example :
    length (calls (put single ∷ put packed ∷ put single ∷ get 5 ∷ []) (new 2 0)).queue ≤ 2
queue_bounded_example =
    queue_bounded 2 0 (put single ∷ put packed ∷ put single ∷ get 5 ∷ []) (omega arith)

drain-puts_example :
    drain (1 ∷ 2 ∷ []) (puts (single ∷ single ∷ []) (new 2 0))
    ≡ map (λ d. ok (some d)) (samples_in (single ∷ single ∷ []))
unfolding decode_packet unpack_header packet_body unpack_single
drain-puts_example =
    drain-puts 2 0 (single ∷ single ∷ []) (1 ∷ 2 ∷ []) (refl, (refl, tt)) (omega arith) refl

-- A packet, one that does not decode, and another packet.
drain_batches-puts_example :
    drain_batches (1 ∷ 2 ∷ 3 ∷ []) (puts (single ∷ [] ∷ packed ∷ []) (new 5 0))
    ≡ map batch_of (single ∷ [] ∷ packed ∷ [])
drain_batches-puts_example =
    drain_batches-puts 5 0 (single ∷ [] ∷ packed ∷ []) (1 ∷ 2 ∷ 3 ∷ []) (omega arith) refl
