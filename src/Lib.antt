-- ===== src/Lib.antt =====
-- A verification library of the ceramic glaze crack monitor: its C++ backend (backend/) and its sensor
-- simulator (simulator/).
--
-- Sensors send PROFINET packets over TCP and UDP. The server cuts them into frames, parses each frame
-- into laser or vibration data, answers with an acknowledgement, and hands the data to a pipeline of
-- modules that are connected by lock-free queues: a fan-out, a router of detected cracks, a fatigue
-- predictor, a DEM simulator, and a module that stores the data, raises alerts and broadcasts them over
-- WebSockets. An HTTP server sends files and answers from the database; a registry of metrics can be read
-- as a text. The simulator builds the packets that real sensors would send.
--
-- The files, and the code that each is about:
--   Prelude, Outcome, Bytes, Text  the shared names; how a C++ call ends (returned, thrown, or undefined
--                       behaviour); byte vectors; std::to_string and the equality of strings
--   Double              IEEE-754 numbers as bit patterns: comparison and widening
--   Json                what the program uses of nlohmann::json, as a record that is a parameter
--   Common              the records of backend/include/common.h
--   Profinet            backend/src/profinet_parser.cpp: Reads (read_u16 ... write_u32), Packet
--                       (packet_type_to_string, parse), Cursor (reading at an offset that moves on),
--                       Payload (parse_laser_data, parse_vibration_data), Acknowledge
--                       (build_acknowledge); proofs in Reads/Total, Packet/Shape, Cursor/Laws,
--                       Cursor/Encodes, Cursor/Safe, Cursor/Spends and Payload/Faults
--   Simulator           simulator/main.cpp: Encode (append_u16 ... append_double) and Packet
--                       (build_profinet_packet and the two payloads); proofs in Cracks, RoundTrip,
--                       Framing and Loss
--   Tcp                 backend/src/tcp_server.cpp: Frames (the loop of try_parse_frames) and Session
--                       (what is done with a frame, do_read, UdpServer::handle_receive); proofs in
--                       Frames/Pending, Frames/Chunks, Frames/Bounds and Session/Replies
--   LockFreeQueue       backend/include/lockfree_queue.h as interleaved atomic steps; proofs in
--                       Invariant, Runs, Calls, Fifo and Sharing
--   Pipeline            backend/include/module_base.h, backend/include/modules and wire_pipeline of
--                       backend/src/main.cpp: Queues (pop, push and the fan-out), Router
--                       (CrackRouterModule) and System (all modules and one step of each); proofs in
--                       Wiring and Delivery
--   WebSocket           backend/src/websocket_server.cpp: the send queue of a session; proofs in
--                       Delivery
--   Alerts              backend/src/alert_manager.cpp: Worker (start, stop, enqueue_alert and the thread
--                       of process_alerts, as interleaved steps) and Checks (the threshold checks, with
--                       DatabaseManager::insert_alert), and Module (the handlers of AlertWsModule);
--                       proofs in Worker/Order, Worker/Shutdown, Checks/Raised and
--                       Module/Lost, Module/Kept, Module/Stored and Module/Pool
--   Database            backend/src/database.cpp: the pool and the transactions, Statements (the texts),
--                       Inserts and Batches (the operations that write) and Queries; proofs in
--                       Balance and Answers
--   Metrics             backend/include/prometheus_metrics.h: the registry, and Serialize (its text);
--                       proofs in Calls, Empty and Histogram
--   Http                backend/src/http_server.cpp: the routes and the files; proofs in Routing
--   Fatigue             backend/algorithms/crack_propagation.cpp and the fatigue predictor module: Stress
--                       (the functions that only compute), Growth (estimate_remaining_life), Predict
--                       (predict and assess_risk_level), Calibrate and Module; proofs in Growth/Ends,
--                       Predict/Series, Predict/Risk, Predict/Risk/First and Calibrate/Ranges
--   Dem                 backend/algorithms/dem_simulation.cpp and the DEM simulator module: Vectors,
--                       Forces, Seeding (set_crack_geometry and the generation of particles), Steps,
--                       Rates, Run and Module; proofs in Forces/Collisions, Seeding/Apart, Seeding/Ids,
--                       Steps/Frame, Steps/Contacts, Rates/Bounds and Run/Stops
--   Examples            concrete data and runs
--
-- Numbers: a uint8_t is a number below 256, a wider word its pattern, least significant byte first where
-- it is stored; a float or double is its IEEE-754 pattern, and Double/Arithmetic computes with it as the
-- program does, in double precision with rounding to the nearest even number. <cmath> (records
-- MathLibrary and DemLibrary) and random numbers are parameters. A 64-bit offset into a vector does not
-- wrap around, since no vector is that long. In Fatigue and Dem an int that counts is a number that is
-- not negative.
--
-- Fuel: the frame loop runs on the length of the buffer, which is enough since every round erases at
-- least the sixteen bytes of a header; the loops with a counter run on the number of rounds, and are
-- structural. The loop of estimate_remaining_life runs on 27779 rounds of one hour, more than it takes
-- to reach its limit of 1e8 seconds (Growth/Ends), and the search for contacts on the number of
-- particles.
--
-- Not modelled: check_prediction, which does not compile, the queries of porcelains and materials, the
-- handlers of the HTTP interface and the configuration; interpolate_history and vector_cross, which
-- nothing calls; the shock injector and main of the simulator; the life of threads and sockets, logging,
-- the browser client, and the memory order of the atomic operations, which are taken to be sequentially
-- consistent. In the pipeline, what the two algorithms compute for a crack is a parameter. The decimal
-- text of a double and of a time is a parameter of the database (record Postgres) and of the metrics
-- (record Printing), and regular expressions and files are one of the HTTP server (record
-- HttpLibraries).
pub mod Prelude
pub mod Outcome
pub mod Bytes
pub mod Profinet
pub mod Simulator
pub mod Text
pub mod Common
pub mod Json
pub mod Double
pub mod Tcp
pub mod LockFreeQueue
pub mod Pipeline
pub mod WebSocket
pub mod Alerts
pub mod Database
pub mod Examples
pub mod Dem
pub mod Fatigue
pub mod Metrics
pub mod Http
