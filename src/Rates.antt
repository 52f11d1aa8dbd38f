-- ===== src/Rates.antt =====
-- The output rates of schunk_fts_library/schunk_fts_library/driver.py: `OutputRateMode`, its table
-- and `_normalize_output_rate`. The argument of the latter is taken as `str(output_rate)`.
use schunk_fts_ros.Base.{
  ℕ, ◌+◌, ◌*◌, ◌/◌, ◌%◌, ◌≡◌, Option, none, some, List, [], ◌∷◌, Text, codes, same, same→eq, ltb,
  ◌==◌, if◌then◌else◌, Result, ok, err, value_error, arith,
}

pub record OutputRateMode : Type 0 where
  pub output_rate : Text
  pub parameter_value : Text
  pub packet_rate_hz : ℕ
  pub sample_rate_hz : ℕ
  pub samples_per_packet : ℕ

-- Python's `round(a / b)`: to the nearest integer, and to the even one of two. The quotients of
-- the table are whole numbers, which a float holds exactly.
unfoldable pub round_div : ℕ → ℕ → ℕ
round_div a b =
    let q = a / b in
    let r = 2 * (a % b) in
    if ltb r b then q else if ltb b r then q + 1 else if q % 2 == 0 then q else q + 1

unfoldable pub sample_period_ns : OutputRateMode → ℕ
unfolding round_div
sample_period_ns m = round_div 1000000000 m.sample_rate_hz

unfoldable pub packet_period_ns : OutputRateMode → ℕ
unfolding sample_period_ns
packet_period_ns m = sample_period_ns m * m.samples_per_packet

abbrev pub mode : Text → Text → ℕ → ℕ → ℕ → OutputRateMode
mode rate value packet_rate sample_rate per_packet = record {
  output_rate = rate;
  parameter_value = value;
  packet_rate_hz = packet_rate;
  sample_rate_hz = sample_rate;
  samples_per_packet = per_packet;
}

-- `OUTPUT_RATE_TO_MODE`
abbrev pub output_rate_to_mode : List (Text × OutputRateMode)
output_rate_to_mode =
    (codes "1000", mode (codes "1000") (codes "00") 1000 1000 1)
    ∷ (codes "500", mode (codes "500") (codes "01") 500 500 1)
    ∷ (codes "250", mode (codes "250") (codes "02") 250 250 1)
    ∷ (codes "100", mode (codes "100") (codes "03") 100 100 1)
    ∷ (codes "500_16", mode (codes "500_16") (codes "0a") 500 8000 16)
    ∷ []

unfoldable pub lookup_mode : Text → List (Text × OutputRateMode) → Option OutputRateMode
lookup_mode rate [] = none
lookup_mode rate ((key, m) ∷ rest) = if same key rate then some m else lookup_mode rate rest

-- `_normalize_output_rate`, with the lookup that the driver makes next.
unfoldable pub normalize_output_rate : Text → Result OutputRateMode
unfolding lookup_mode
normalize_output_rate rate = elim (lookup_mode rate output_rate_to_mode) [
  | none ↦ err value_error
  | some m ↦ ok m
]

-- Of every supported output rate, the mode bears the name, a second is a whole number of sample
-- periods, as many as the sample rate says, and a whole number of packet periods, as many as the
-- packet rate says.
pub periods_exact :
    (rate : Text) (m : OutputRateMode)
    → normalize_output_rate rate ≡ ok m
    → (m.output_rate ≡ rate)
      × (sample_period_ns m * m.sample_rate_hz ≡ 1000000000)
      × (packet_period_ns m * m.packet_rate_hz ≡ 1000000000)
unfolding normalize_output_rate packet_period_ns
periods_exact rate m h = ground (
  arith,
  same→eq (codes "1000") rate,
  same→eq (codes "500") rate,
  same→eq (codes "250") rate,
  same→eq (codes "100") rate,
  same→eq (codes "500_16") rate,
)
