-- ===== src/Dummy/Agree.antt =====
-- The output rates of the simulator beside those of the driver.
use mathlib.Core.Path.{subst}
use schunk_fts_ros.Base.{
  ℕ, ◌≡◌, refl, some, [], ◌∷◌, Text, same, ok, arith, Bool-cases, inl, inr, All, List,
}
use schunk_fts_ros.Wire.{from_hex, digit_value, cons_byte, is_space}
use schunk_fts_ros.Rates
use schunk_fts_ros.Rates.{
  normalize_output_rate, sample_period_ns, packet_period_ns, mode, lookup_mode, output_rate_to_mode,
}
use schunk_fts_ros.Dummy
use schunk_fts_ros.Dummy.{OutputRateMode, from_enum, packet_interval}

lookup_mode-All {ℓ} :
    (P : Rates.OutputRateMode → Type ℓ) (rate : Text) (table : List (Text × Rates.OutputRateMode))
    (m : Rates.OutputRateMode)
    → All (λ (e : Text × Rates.OutputRateMode). P e.1) table
    → lookup_mode rate table ≡ some m
    → P m
unfolding lookup_mode
lookup_mode-All P rate [] m a h = cc
lookup_mode-All P rate ((key, m') ∷ table) m (a, b) h = elim (Bool-cases (same key rate)) [
  | inl e ↦ subst P (ground (arith, e)) a
  | inr e ↦ lookup_mode-All P rate table m b (ground (arith, e))
]

found :
    (rate : Text) (m : Rates.OutputRateMode)
    → normalize_output_rate rate ≡ ok m
    → lookup_mode rate output_rate_to_mode ≡ some m
unfolding normalize_output_rate
found rate m h = ground (arith, lookup_mode rate output_rate_to_mode)

-- A property of the five modes holds of every mode that the driver accepts.
pub mode_cases :
    (P : Rates.OutputRateMode → Type 0) (rate : Text) (m : Rates.OutputRateMode)
    → normalize_output_rate rate ≡ ok m
    → All (λ (e : Text × Rates.OutputRateMode). P e.1) output_rate_to_mode
    → P m
mode_cases P rate m h a = lookup_mode-All P rate output_rate_to_mode m a (found rate m h)

-- The two tables say the same.
abbrev pub Agrees : Rates.OutputRateMode → Type 0
Agrees m =
    (value : ℕ) × (d : OutputRateMode) × (from_hex m.parameter_value ≡ some (value ∷ []))
    × (from_enum value ≡ some d)
    × (d.enum_value ≡ value)
    × (d.requested_hz ≡ m.sample_rate_hz)
    × (d.udp_packet_rate_hz ≡ m.packet_rate_hz)
    × (d.samples_per_packet ≡ m.samples_per_packet)
    × (d.sample_period ≡ sample_period_ns m)
    × (packet_interval d ≡ packet_period_ns m)

-- Every output rate that the driver accepts has one byte as its parameter value, which the
-- simulator knows, and under which it streams at the same sample rate and packet rate, with as
-- many samples in a packet and with the same periods, to the nanosecond.
pub rates-Agrees :
    (rate : Text) (m : Rates.OutputRateMode) → normalize_output_rate rate ≡ ok m → Agrees m
unfolding from_enum sample_period_ns packet_period_ns packet_interval from_hex digit_value cons_byte
    is_space
rates-Agrees rate m h = mode_cases Agrees rate m h (
  (0, Dummy.mode 0 1000 1000 1, refl, refl, refl, refl, refl, refl, refl, refl),
  (
    (1, Dummy.mode 1 500 500 1, refl, refl, refl, refl, refl, refl, refl, refl),
    (
      (2, Dummy.mode 2 250 250 1, refl, refl, refl, refl, refl, refl, refl, refl),
      (
        (3, Dummy.mode 3 100 100 1, refl, refl, refl, refl, refl, refl, refl, refl),
        ((10, Dummy.mode 10 8000 500 16, refl, refl, refl, refl, refl, refl, refl, refl), tt),
      ),
    ),
  ),
)
