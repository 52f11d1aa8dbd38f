-- ===== src/Dummy/Start.antt =====
-- The driver's start of the stream against the simulator.
use mathlib.Core.Path.{subst}
use schunk_fts_ros.Base.{
  ℕ, ◌≡◌, refl, Bool, true, Option, none, some, List, [], ◌∷◌, Text, Bytes, codes, Result, ok, err,
  get_or, All,
}
use schunk_fts_ros.Packet.{item}
use schunk_fts_ros.Message.{
  get_parameter_request, set_parameter_request, init, to_bytes, from_bytes,
}
use schunk_fts_ros.Message.Layout.{layout}
use schunk_fts_ros.Message
use schunk_fts_ros.Wire
use schunk_fts_ros.Wire.{hex, hex_digit, digit_value, from_hex}
use schunk_fts_ros.Rates
use schunk_fts_ros.Rates.{normalize_output_rate, mode, output_rate_to_mode, periods_exact}
use schunk_fts_ros.Connection
use schunk_fts_ros.Connection.{Network}
use schunk_fts_ros.Commands
use schunk_fts_ros.Commands.Branches.{command_bytes}
use schunk_fts_ros.Sensor.{
  Sensor, new, streaming_on, identify, configure_output_rate, finish_streaming_on, decode_name,
}
use schunk_fts_ros.Dummy.{
  OutputRateMode, Session, handle_requests, handle_request, process, dispatch, get_parameter,
  set_parameter, set_rate, param_index_of, accept,
}
use schunk_fts_ros.Dummy.Agree.{mode_cases}
use schunk_fts_ros.Dummy.Dialogue.{rate_body, set_request}

abbrev pub get_request_of : ℕ → Bytes
get_request_of subindex =
    layout get_parameter_request
      (record (rate_body 0xf0 0 0 []) { index_high = 0; index_low = 1; subindex = subindex })

-- The four requests of a start: the name, the product id, the output rate, the stream.
abbrev pub start_requests : ℕ → List Bytes
start_requests value =
    get_request_of 0 ∷ get_request_of 3 ∷ set_request value ∷ command_bytes 0x40 ∷ []

-- The byte of the mode's parameter value.
abbrev pub rate_byte : Rates.OutputRateMode → ℕ
rate_byte m = elim (from_hex m.parameter_value) [ none ↦ 0 | some bs ↦ get_or bs 0 0 ]

-- The driver and the connection's task after a start.
abbrev pub Started : Rates.OutputRateMode → Session → Sensor × Result Bool → Type 0
Started m after (s, r) =
    (r ≡ ok true)
    × (s.is_streaming ≡ true)
    × (s.connection.is_open ≡ true)
    × (s.name ≡ codes "KMS")
    × (s.connection.net.sent ≡ start_requests (rate_byte m))
    × (after.output_rate.requested_hz ≡ m.sample_rate_hz)
    × (after.output_rate.udp_packet_rate_hz ≡ m.packet_rate_hz)
    × (after.output_rate.samples_per_packet ≡ m.samples_per_packet)

-- The simulator with the rate `d`, after the requests of a start under the mode.
abbrev pub simulated : OutputRateMode → Rates.OutputRateMode → Session × List (Option Bytes)
simulated d m = handle_requests (start_requests (rate_byte m)) (accept d)

-- A network that lets one connection through, and on which that simulator answers.
abbrev pub network : OutputRateMode → Rates.OutputRateMode → Network
network d m = record {
  connects = true ∷ [];
  sends = true ∷ true ∷ true ∷ true ∷ [];
  replies = (simulated d m).1;
  sent = [];
}

module _ (host : Text) (port now : ℕ) (d : OutputRateMode) (auto_reconnect : Bool) where
  abbrev StartsFrom : Rates.OutputRateMode → Type 0
  StartsFrom m =
      (s : Sensor)
      → new host port m.output_rate now (network d m) ≡ ok s
      → Started m (simulated d m).0 (streaming_on true auto_reconnect s)

  abbrev StartsBy : Rates.OutputRateMode → Result Sensor → Type 0
  StartsBy m (err e) = Unit {0}
  StartsBy m (ok t) = Started m (simulated d m).0 (streaming_on true auto_reconnect t)

  starts_by :
      (m : Rates.OutputRateMode) (r : Result Sensor) (s : Sensor)
      → StartsBy m r
      → r ≡ ok s
      → Started m (simulated d m).0 (streaming_on true auto_reconnect s)
  starts_by m (err x) s h e = cc
  starts_by m (ok t) s h e =
      subst (λ (u : Sensor). Started m (simulated d m).0 (streaming_on true auto_reconnect u)) (cc)
        h

  starts_from :
      (m : Rates.OutputRateMode)
      → StartsBy m (new host port m.output_rate now (network d m))
      → StartsFrom m
  starts_from m h s = starts_by m (new host port m.output_rate now (network d m)) s h

  modes-StartsFrom : All (λ (e : Text × Rates.OutputRateMode). StartsFrom e.1) output_rate_to_mode
  unfolding new normalize_output_rate streaming_on identify configure_output_rate
      finish_streaming_on decode_name digit_value Connection.new Connection.open_connection
      Connection.transact Connection.enter Connection.exit Connection.send Connection.receive
      Commands.get_parameter Commands.set_parameter Commands.start_udp_stream Commands.run_command
      init to_bytes from_bytes hex hex_digit from_hex handle_requests handle_request process item
      dispatch get_parameter set_parameter set_rate param_index_of accept layout Message.frame
      Wire.from_hex_or_raise Wire.is_space Wire.cons_byte Wire.pack_u16 Message.payload_bytes
      Message.field_bytes Message.get_attr Message.read_counter Wire.unpack_u16 Message.read_length
      Message.read_fields
  modes-StartsFrom = (
    starts_from (mode (codes "1000") (codes "00") 1000 1000 1)
        (refl, refl, refl, refl, refl, refl, refl, refl),
    (
      starts_from (mode (codes "500") (codes "01") 500 500 1)
          (refl, refl, refl, refl, refl, refl, refl, refl),
      (
        starts_from (mode (codes "250") (codes "02") 250 250 1)
            (refl, refl, refl, refl, refl, refl, refl, refl),
        (
          starts_from (mode (codes "100") (codes "03") 100 100 1)
              (refl, refl, refl, refl, refl, refl, refl, refl),
          (
            starts_from (mode (codes "500_16") (codes "0a") 500 8000 16)
                (refl, refl, refl, refl, refl, refl, refl, refl),
            tt,
          ),
        ),
      ),
    ),
  )

  -- Started against the simulator, whatever rate it had, a new driver sends the four requests and
  -- no more, returns true, is streaming with the connection open, and knows the product's name; the
  -- simulator then streams at the sample rate, the packet rate and the number of samples in a
  -- packet of the rate that the driver was made with.
  pub streaming_on-simulated :
      (rate : Text) (m : Rates.OutputRateMode) (s : Sensor)
      → normalize_output_rate rate ≡ ok m
      → new host port rate now (network d m) ≡ ok s
      → Started m (simulated d m).0 (streaming_on true auto_reconnect s)
  streaming_on-simulated rate m s h e =
      mode_cases StartsFrom rate m h modes-StartsFrom s (rw (periods_exact rate m h).0 e)
