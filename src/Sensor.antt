-- ===== src/Sensor.antt =====
-- Class `Driver` of schunk_fts_library/schunk_fts_library/driver.py. Its requests are in Commands,
-- its update loop is in Loop, its wait for the stream in Wait, and its threads are in Threads.
-- Here each method is one step: what the other thread does during a wait is a step before or after
-- it. The prints are not modelled.
pub mod Streaming
pub mod Reconnect
pub mod Loop
pub mod Update
pub mod Lost
pub mod Wait
pub mod Threads
use schunk_fts_ros.Base.{
  ℕ, ◌+◌, ◌*◌, Bool, true, false, not, ◌&&◌, ◌||◌, Option, none, some, List, [], ◌∷◌, Text, Bytes,
  codes, same, ltb, leb, ◌==◌, if◌then◌else◌, length, get_or, Result, Error, ok, err, value_error,
}
use schunk_fts_ros.Base.Act.{Act, pure, lift, gets, modify, ◌>>=◌, ◌>>◌}
use schunk_fts_ros.Wire.{digit_value, u16}
use schunk_fts_ros.Message.{Message}
use schunk_fts_ros.Packet.{FtData, FtSample, byte_at}
use schunk_fts_ros.Buffer
use schunk_fts_ros.Buffer.{Buffer}
use schunk_fts_ros.Connection
use schunk_fts_ros.Connection.{Connection, Network}
use schunk_fts_ros.Rates.{OutputRateMode, normalize_output_rate}
use schunk_fts_ros.Status.{SensorStatus, from_bits}
use schunk_fts_ros.Commands.{
  has_code, get_parameter, set_parameter, start_udp_stream, stop_udp_stream,
}

-- `last_producer_counter` is `none` for -1.
pub record Sensor : Type 0 where
  pub connection : Connection
  pub output_rate_mode : OutputRateMode
  pub ft_data : Buffer
  pub is_streaming : Bool
  pub auto_reconnect : Bool
  pub received_data : Bool
  pub name : Text
  pub hardware_id : Text
  pub producer_packet_count : ℕ
  pub last_producer_counter : Option ℕ

-- `__init__`: an unsupported output rate raises ValueError.
unfoldable pub new : Text → ℕ → Text → ℕ → Network → Result Sensor
new host port output_rate now net = elim (normalize_output_rate output_rate) [
  | err e ↦ err e
  | ok m ↦ ok (record {
    connection = Connection.new host port net;
    output_rate_mode = m;
    ft_data = Buffer.new 1000 now;
    is_streaming = false;
    auto_reconnect = false;
    received_data = false;
    name = codes "SCHUNK FTS";
    hardware_id = codes "unknown";
    producer_packet_count = 0;
    last_producer_counter = none;
  })
]

-- A request of the driver acts on its connection alone.
unfoldable pub on_connection : {A : Type 0} → Act Connection A → Act Sensor A
on_connection m s = let (c, r) = m s.connection in (record s { connection = c }, r)

unfoldable pub close : Sensor → Sensor
close s = record s { connection = Connection.close s.connection }

-- `int(nameasciistr[i : i + 2], 16)`, pair by pair; a last digit may stand alone.
unfoldable pub pair_value : Option ℕ → Option ℕ → Option (List ℕ) → Option (List ℕ)
pair_value (some hi) (some lo) (some rest) = some ((hi * 16 + lo) ∷ rest)
pair_value _ _ _ = none

unfoldable pub pairs : Text → Option (List ℕ)
unfolding pair_value
pairs [] = some []
pairs (c ∷ []) = elim (digit_value c) [ none ↦ none | some v ↦ some (v ∷ []) ]
pairs (c ∷ d ∷ rest) = pair_value (digit_value c) (digit_value d) (pairs rest)

-- `strip("\x00")`
unfoldable pub strip_left : List ℕ → List ℕ
strip_left [] = []
strip_left (c ∷ cs) = elim (c == 0) [ true ↦ strip_left cs | false ↦ c ∷ cs ]

unfoldable pub strip_right : List ℕ → List ℕ
strip_right [] = []
strip_right (c ∷ cs) = elim (strip_right cs) [
  | [] ↦ if c == 0 then [] else c ∷ []
  | d ∷ ds ↦ c ∷ d ∷ ds
]

unfoldable pub decode_name : Text → Result Text
unfolding pairs strip_left strip_right
decode_name t = elim (pairs t) [
  | none ↦ err value_error
  | some cs ↦ ok (strip_right (strip_left cs))
]

abbrev pub text_or : Option Text → Text
text_or none = []
text_or (some t) = t

-- `_configure_output_rate`
unfoldable pub configure_output_rate : Act Sensor Bool
unfolding on_connection
configure_output_rate s =
    (do
      response ←
          on_connection
            (set_parameter s.output_rate_mode.parameter_value (codes "1020") (codes "00"))
      pure (has_code (codes "00") response.error_code))
      s

-- The rest of `streaming_on` once the stream is open.
unfoldable pub finish_streaming_on : Bool → Act Sensor Bool
unfolding close on_connection
finish_streaming_on false s =
    (close (record s { is_streaming = false; auto_reconnect = false }), ok false)
finish_streaming_on true s = (do _ ← on_connection start_udp_stream; pure true) s

unfoldable pub identify : Act Sensor Bool
unfolding on_connection
identify = do
  name_response ← on_connection (get_parameter (codes "0001") (codes "00"))
  name ← lift (decode_name (text_or name_response.param_value))
  modify (λ s. record s { name = name })
  id_response ← on_connection (get_parameter (codes "0001") (codes "03"))
  modify (λ s. record s { hardware_id = text_or id_response.param_value })
  configured ← configure_output_rate
  finish_streaming_on configured

-- `stream_opens` says whether the update thread opens the stream before the time is up. The time
-- is a float, as its annotation says.
unfoldable pub streaming_on : Bool → Bool → Act Sensor Bool
streaming_on stream_opens auto_reconnect s =
    if s.is_streaming
    then (s, ok true)
    else (let (c, opened) = Connection.open_connection s.connection in
        let s' : Sensor = record s { connection = c } in
        if opened
        then (if stream_opens
            then identify (record s' { is_streaming = true; auto_reconnect = auto_reconnect })
            else (record s' { is_streaming = false; auto_reconnect = auto_reconnect }, ok false))
        else (record s' { is_streaming = false }, ok false))

unfoldable pub streaming_off : Act Sensor Unit
unfolding on_connection close
streaming_off = do
  _ ← on_connection stop_udp_stream
  modify (λ s. close (record s { auto_reconnect = false; is_streaming = false }))

unfoldable pub sample : ℕ → Act Sensor (Option FtData)
sample now s =
    if s.is_streaming
    then (let (b, r) = Buffer.get now s.ft_data in (record s { ft_data = b }, r))
    else (s, ok none)

unfoldable pub sample_batch : ℕ → Act Sensor (Option (List FtSample))
sample_batch now s =
    if s.is_streaming
    then (let (b, r) = Buffer.get_sample_batch now s.ft_data in (record s { ft_data = b }, r))
    else (s, ok none)

unfoldable pub clear_samples : ℕ → Sensor → Sensor
clear_samples now s = record s { ft_data = Buffer.clear now s.ft_data }

abbrev pub status_of : Option FtData → Option SensorStatus
status_of none = none
status_of (some d) = some (from_bits d.status_bits)

-- `get_status`; the argument, a dictionary with entries, is true.
unfoldable pub get_status : Option FtData → ℕ → Act Sensor (Option SensorStatus)
unfolding sample
get_status status now s =
    if s.is_streaming
    then elim status [
      | some d ↦ (s, ok (status_of (some d)))
      | none ↦ (do d ← sample now; pure (status_of d)) s
    ]
    else (s, ok none)

-- `_attempt_reconnect`: every exception ends in `close` and False.
unfoldable pub judge_start : Sensor × Result Message → Sensor × Bool
unfolding close
judge_start (s, err e) = (close s, false)
judge_start (s, ok response) =
    if has_code (codes "00") response.error_code then (s, true) else (close s, false)

unfoldable pub judge_configured : Sensor × Result Bool → Sensor × Bool
unfolding close on_connection judge_start
judge_configured (s, err e) = (close s, false)
judge_configured (s, ok false) = (close s, false)
judge_configured (s, ok true) = judge_start (on_connection start_udp_stream s)

unfoldable pub attempt_reconnect : Sensor → Sensor × Bool
unfolding close judge_configured
attempt_reconnect s =
    let (c, opened) = Connection.open_connection (close s).connection in
    let s' : Sensor = record s { connection = c } in
    if opened then judge_configured (configure_output_rate s') else (s', false)
