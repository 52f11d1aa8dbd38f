-- ===== src/Dummy/Udp.antt =====
-- The stream of schunk_fts_dummy/src/udp.rs. The forces are sines of the time as `f32`; `wave`
-- gives their bit patterns, by the time, the sample of the packet and the axis.
use schunk_fts_ros.Base.{ℕ, zero, suc, ◌+◌, ◌*◌, ◌/◌, ◌%◌, ◌∷◌, [], Bytes}
use schunk_fts_ros.Packet.{Reading}
use schunk_fts_ros.Packet.Encode.{with_reading}
use schunk_fts_ros.Dummy.{OutputRateMode}

abbrev pub Wave : Type 0
Wave = ℕ → ℕ → ℕ → ℕ

unfoldable pub payload_len : OutputRateMode → ℕ
payload_len m = (1 + m.samples_per_packet * 28) % 65536

unfoldable pub sample : Wave → ℕ → ℕ → Reading
sample wave elapsed sample_index = record {
  status_bits = 1;
  fx = wave elapsed sample_index 0;
  fy = wave elapsed sample_index 1;
  fz = wave elapsed sample_index 2;
  tx = wave elapsed sample_index 3;
  ty = wave elapsed sample_index 4;
  tz = wave elapsed sample_index 5;
}

-- `put_samples`, with `left` samples to go.
unfoldable pub put_samples : Wave → ℕ → ℕ → ℕ → Bytes
unfolding sample
put_samples wave elapsed zero sample_index = []
put_samples wave elapsed (suc left) sample_index =
    with_reading (sample wave elapsed sample_index)
      (put_samples wave elapsed left (sample_index + 1))

pub record Stream : Type 0 where
  pub counter : ℕ
  pub packet_id : ℕ

unfoldable pub start : Stream
start = record { counter = 0; packet_id = 0 }

unfoldable pub packet : Wave → OutputRateMode → ℕ → Stream → Bytes
unfolding payload_len put_samples
packet wave m elapsed s =
    255
    ∷ 255
    ∷ s.counter % 256
    ∷ s.counter / 256
    ∷ payload_len m % 256
    ∷ payload_len m / 256
    ∷ s.packet_id
    ∷ put_samples wave elapsed m.samples_per_packet 0

-- One round of `stream_ft_data`.
unfoldable pub round : Wave → OutputRateMode → ℕ → Stream → Stream × Bytes
unfolding packet
round wave m elapsed s = (
  record { counter = (s.counter + 1) % 65536; packet_id = (s.packet_id + 1) % 256 },
  packet wave m elapsed s,
)
