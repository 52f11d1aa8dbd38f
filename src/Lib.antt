-- ===== src/Lib.antt =====
-- The driver of SCHUNK force-torque sensors: the client library (schunk_fts_library) and the ROS
-- lifecycle node on top of it (schunk_fts_driver), both in Python, the simulator of a sensor for
-- tests in Rust (schunk_fts_dummy), and the scanner for known vulnerabilities of their dependencies
-- (security).
--
-- The sensor is asked over TCP, by messages of a fixed layout, and streams its measurements over
-- UDP, in packets of one or of 16 samples. The library's `Driver` has a thread that reads the
-- stream into a buffer and reconnects when packets stop coming; the node has a thread that takes
-- the samples from the buffer and publishes them, and offers the sensor's commands as services.
--
-- The files, with the code that each one is about (UTIL is
-- schunk_fts_library/schunk_fts_library/utility.py, LIB is
-- schunk_fts_library/schunk_fts_library/driver.py, NODE is
-- schunk_fts_driver/schunk_fts_driver/driver.py):
--   Base        shared names: Boolean tests, lists over the native ℕ, results, and actions, which
--               are methods that change an object and may raise
--   Wire        `bytes.hex`, `bytes.fromhex` and the integer formats of `struct`
--   Message     UTIL: class `Message` and its seven subclasses, `to_bytes` and `from_bytes`
--   Packet      UTIL: `FTData`, `FTSample`, `decode_packet`, `decode_sample_batch`
--   Buffer      UTIL: class `FTDataBuffer`
--   Connection  UTIL: class `Connection`, and the `with` block of a transaction
--   Stream      UTIL: class `Stream`
--   Rates       LIB: `OutputRateMode`, `OUTPUT_RATE_TO_MODE`, `_normalize_output_rate`
--   Status      LIB: `SensorStatus`
--   Commands    LIB: the requests of class `Driver`, from `get_parameter` to
--               `select_noise_filter`
--   Sensor      LIB: the rest of class `Driver`: `streaming_on`, `streaming_off`, the samples,
--               `_attempt_reconnect`
--   Sensor/Loop LIB: `_update`
--   Sensor/Wait LIB: the wait of `streaming_on` for the stream
--   Sensor/Threads
--               LIB: `Driver` with its stream and its update threads, as a step relation
--   Node        NODE: the static helpers, `_get_status_level`, `_publish_samples`
--   Node/Publish
--               NODE: `_publish_data`
--   Services    NODE: the six service callbacks
--   Lifecycle   NODE: `__init__`, `on_configure` to `on_shutdown`, and the rounds of the thread;
--               Lifecycle/Runs: their runs, as a step relation
--   Dummy       the simulator of the sensor, schunk_fts_dummy/src: the table of rates
--               (output_rate.rs), the answers to requests (sensor.rs, tcp.rs); Dummy/Udp: the
--               packets (udp.rs); Dummy/Start and Dummy/Arrive set it against the driver,
--               Dummy/Published against the node
--   Strings     the methods of Python's texts, lists, sets and dicts that the scanner calls
--   Scanner     SCAN: `Dependency`, `deduplicate_deps` (SCAN is security/cve_scanner.py)
--   Scanner/Requirement
--               SCAN: `_parse_requirement_string`
--   Scanner/Sources
--               SCAN: the three extractors: Sources/Setup for setup.py, Sources/Cargo for
--               Cargo.lock, Sources/PackageXml for package.xml
--   Scanner/Web SCAN: what OSV and GitHub answer
--   Scanner/Score
--               SCAN: `_fetch_ghsa_cvss_score`, `_extract_severity`, `_compute_cvss_score`
--   Scanner/Osv SCAN: `scan_github_advisories` to `enrich_vulnerabilities`
--   Scanner/Parse
--               SCAN: `Vulnerability`, `parse_vulnerabilities`, `parse_github_advisory`
--   Scanner/Scan
--               SCAN: `ScanResult`, `run_scan`
--   Scanner/Report
--               SCAN: `generate_markdown_report`; Report/Body: `generate_alert_body`
--   Scanner/Alert
--               SCAN: `write_alert_output`, `save_reports`, `main`
--   Fixtures    schunk_fts_library/schunk_fts_library/fixtures.py: the session fixture `sensor`;
--               Fixtures/Reach: `sensor_available_at`
--   Launch      schunk_fts_driver/launch/driver.launch.py, with the parameters of NODE's `__init__`
--   Packaging   schunk_fts_driver/setup.py and schunk_fts_library/setup.py
--   Examples    concrete objects, on which the theorems are applied
--
-- State and errors. An object is a record, and a method a function from the object to the object
-- and its result; an exception is a value, and what was written before it stays written. A method
-- is one step, so that locks have no counterpart, but for the one that is held across the waits of
-- `streaming_on` and `streaming_off` (Sensor/Threads); threads are sequences of such steps, in any
-- interleaving (Sensor/Lost for the connection, Sensor/Threads for the stream, Lifecycle/Runs for
-- the node and its publishing thread). The base class of the node keeps the order of the callbacks
-- that ROS 2 documents for managed nodes: Lifecycle/Runs has a step for each callback, in the
-- states that it is called in.
--
-- What stands outside. The network is a script of outcomes of `connect`, `sendall` and `recv`; the
-- datagrams, the outcome of `bind`, the name service and the clocks are arguments. Times are whole
-- nanoseconds. A float of a measurement is kept as its 32 bits, since the code only copies it. For
-- the scanner, the network is a function for each request (`Web`), and the parsers of Python and of
-- XML, the files of the repository, the time, the dump of JSON and the print of a score are
-- arguments too. A score is a decimal number. A null in a reply, where the code reads a value, is
-- left out.
--
-- The simulator is the sensor's side of the dialogue: its answers are the script of replies that
-- the driver reads. An index past the end of a slice is a panic, which ends the connection's task;
-- a message of less than six bytes ends it too, by a return.
-- The sines of its forces are a function, the bits of an `f32` by the time, the sample and the axis.
--
-- Loops. The loops over `range(16)`, over packets and over fields are structural recursions, with
-- no fuel. The two `while` loops of the threads are given by one round each (`iterate`,
-- `publish_round`), and their runs by sequences of rounds. The wait of `streaming_on` has fuel: one
-- test for each ten milliseconds of the timeout and one more are enough, if no sleep is shorter;
-- that of `sensor_available_at` has a test for each tenth of a second and two more. `split` of a
-- text has its length and one as fuel, and each round takes at least one character from it.
--
-- Not modelled. The tests but for their fixture; the declarations of messages and services; the
-- main functions of the node and of the simulator, which start the parts; printing and logging; the
-- ROS base classes.
pub mod Base
pub mod Wire
pub mod Strings
pub mod Message
pub mod Packet
pub mod Buffer
pub mod Connection
pub mod Rates
pub mod Status
pub mod Commands
pub mod Sensor
pub mod Node
pub mod Stream
pub mod Services
pub mod Lifecycle
pub mod Dummy
pub mod Scanner
pub mod Fixtures
pub mod Launch
pub mod Packaging
pub mod Examples
