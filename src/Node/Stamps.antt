-- ===== src/Node/Stamps.antt =====
-- Counters that wrap, and the time stamps computed from them.
use schunk_fts_ros.Base.{ℕ, ◌+◌, ◌*◌, ◌%◌, ◌<◌, ◌≡◌, ◌∙◌, some, arith}
use schunk_fts_ros.Packet.{FtData}
use schunk_fts_ros.Packet.Agree.{value_or}
use schunk_fts_ros.Node.{
  packet_gap, counter_delta, calculate_sample_timestamp_ns, set_stamp_from_ns,
}

-- If `lost` packets, fewer than 65536, are missing between two packets, the gap is `lost`, also
-- where the counter has wrapped in between.
pub packet_gap_exact :
    (previous lost : ℕ)
    → previous < 65536
    → lost < 65536
    → packet_gap (some previous) ((previous + 1 + lost) % 65536) ≡ lost
unfolding packet_gap
packet_gap_exact previous lost h k = omega arith

counter_delta-mod :
    (base k : ℕ) → base < 65536 → counter_delta (some base) ((base + k) % 65536) ≡ k % 65536
unfolding counter_delta
counter_delta-mod base k h = omega arith

-- The sample `sample_index` of the `k`-th packet after the base packet is stamped with the base
-- time, plus `k` modulo 65536 packet periods, plus the sample's place in its packet. The stamps
-- are thus exact for the first 65536 packets, and then start over from the base time.
pub timestamp_of_packet :
    (d : FtData) (base k base_stamp_ns sample_period_ns : ℕ)
    → base < 65536
    → d.counter ≡ (base + k) % 65536
    → calculate_sample_timestamp_ns d (some base) base_stamp_ns sample_period_ns
      ≡ base_stamp_ns
        + k % 65536 * (sample_period_ns * value_or d.samples_per_packet 1)
        + value_or d.sample_index 0 * sample_period_ns
unfolding calculate_sample_timestamp_ns
timestamp_of_packet d base k base_stamp_ns sample_period_ns h e = rw (e, counter_delta-mod base k h)

spread :
    (start k per_packet index period : ℕ)
    → k < 65536
    → start + k % 65536 * (period * per_packet) + index * period
      ≡ start + (k * per_packet + index) * period
spread start k per_packet index period h = ground arith

-- Within 65536 packets of the base packet the samples are stamped evenly: the `n`-th sample
-- after the base, counted over the packets, is stamped `n` sample periods after the base time.
pub stamps_even :
    (d : FtData) (base k base_stamp_ns sample_period_ns : ℕ)
    → base < 65536
    → k < 65536
    → d.counter ≡ (base + k) % 65536
    → calculate_sample_timestamp_ns d (some base) base_stamp_ns sample_period_ns
      ≡ base_stamp_ns
        + (k * value_or d.samples_per_packet 1 + value_or d.sample_index 0) * sample_period_ns
stamps_even d base k base_stamp_ns sample_period_ns h within e =
    timestamp_of_packet d base k base_stamp_ns sample_period_ns h e
    ∙ spread base_stamp_ns k (value_or d.samples_per_packet 1) (value_or d.sample_index 0)
        sample_period_ns within

-- A stamp's two parts make up the nanoseconds, and the second part is below a second.
pub stamp_parts :
    (ns : ℕ)
    → ((set_stamp_from_ns ns).sec * 1000000000 + (set_stamp_from_ns ns).nanosec ≡ ns)
      × ((set_stamp_from_ns ns).nanosec < 1000000000)
unfolding set_stamp_from_ns
stamp_parts ns = omega arith
