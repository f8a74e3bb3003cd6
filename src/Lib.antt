-- ===== src/Lib.antt =====
-- The gateway between sensors, ROS, MQTT and a robot hand: its parts in C++ and C, modelled function by
-- function, and what the theorems of this library show of them.
--
-- The program's parts, and the files that model them:
--
-- HandBridge (ros2_ws/src/hand_bridge): the ROS node that takes commands for the hand, gives each a
-- number, sends it over a serial port, reads the answers, and sends a command again that is not
-- answered.
--   HandBridge/AckParser: `parse_ack` and `ack_status_to_string` of src/ack_parser.cpp. Accepts states
--     which lines are accepted, Digits is about the digit loop.
--   HandBridge/RetryPolicy: `RetryPolicy` of include/hand_bridge/retry_policy.hpp. `requests_` is a
--     list in the order of its keys (Common/OrderedMap); each operation returns the policy and what
--     the source returns. Calls has sequences of calls, Pointwise what a call does to one entry,
--     Invariant the well-formedness of the entries, Progress the transitions of the states, Retries
--     the count of what is given out, Timeouts the decisions of `poll` and the refusals.
--   HandBridge/Uart: `open_uart` and `write_uart` of src/hand_bridge_node.cpp; the replies of the
--     system calls are inputs, and `write_uart` waits when it has none left.
--   HandBridge/Node: `HandBridgeNode` of src/hand_bridge_node.cpp. A callback or a worker is a program
--     counter and a function for each critical section, so that a step is what happens under one lock;
--     Schedule lets the steps come in any order. Sound, Polled, Invariant, Callbacks and Threads carry the
--     node's invariant, Safety its consequences; PolicyCalls says which calls of the policy a
--     step makes, and which steps keep the latest number (Latest); Preemption and Priority are about
--     STOP, Answers about the receiver. Registration and Tracking are about the request that was
--     registered last, Status about the service that reports it.
-- SerialFrame (cpp_modules/serial_frame_demo): `FrameCodec` in SerialFrame/Codec and `StreamParser` in
-- SerialFrame/StreamParser, of src/serial_frame.cpp. Scan is a scanner that goes byte by byte; Search
-- and Refine compare the parser with it, Streams and Sound are about whole streams.
-- ReliableSerial (cpp_modules/reliable_serial_demo): `ProtocolCodec` of src/reliable_protocol.cpp in
-- ReliableSerial/Protocol, `SimulatedDevice` of demo/main.cpp in ReliableSerial/Device.
-- ProtocolParser (cpp_modules/protocol_parser): `ProtocolParser` of src/protocol_parser.cpp.
-- LogManager (cpp_modules/log_manager): `LogManager` of src/log_manager.cpp, each method one step. History
-- is about the counters and the file, Cache about the recent lines, with the lemmas of Last.
-- GatewayAck (cpp_modules/gateway_ack_demo): main.cpp, the threads `inputProducer` and
-- `commandConsumer` with the queue between them, on top of ProtocolParser and LogManager. A turn of a
-- thread is one step (Schedule). Order and Answers are about any interleaving, Progress about fair ones.
-- GatewayTimeout (cpp_modules/gateway_timeout_demo): main.cpp, `commandSender`, which waits for each ACK
-- with a deadline and retries once, and `simulatedDevice`. A turn of a thread is one step, and the
-- deadline may come in any turn of the sender (Schedule). Accounts and Outcomes relate the counters
-- and the output to the outcomes of the requests, Settled is about the end, Loss about the ACK that the
-- device loses, Progress about fair turns.
-- SensorGateway: the gateway in C. Parser is sensor_parser.c (RoundTrip and Sound are about the texts
-- that are parsed, Json about the length of the JSON), Source is data_source.c (Lines is about one
-- read, Reads about a stream of lines, Mock about the mock), Mqtt is mqtt_client.c, Main is main.c with
-- log_writer.c and app_log.c: Reports says what a round of the loop adds, Delivery goes from the bytes
-- on the wire to the payloads, Release is about what the process holds.
-- EchoServer (examples/day04_tcp_echo_server.c): `send_all` and `main`, with the replies of the system
-- calls as inputs; Echoes is about what is sent and what is closed.
-- FrameParser (practice/day01): protocol_parser.c, a parser that is fed byte by byte. Receiver is what it
-- stands for, Refine compares the two; Frames is about streams of frames, Sound about what a report
-- means.
-- RingBuffer (practice/day02): ring_buffer.c. Queue is the queue that it stands for, Refine compares the
-- two.
-- ThreadSafeQueue (practice/day01): `ThreadSafeQueue` of thread_safe_queue.cpp, one step for each
-- method. Threads is a producer and a consumer over it, with what they do around it as a parameter
-- (`Client`) and a turn of a thread as one step; Order is about any interleaving, Progress about fair
-- ones. Two modules are about its clients:
-- QueuePrograms: the threads of practice/day01/thread_safe_queue.cpp, of
-- cpp_modules/interview_practice/day28_producer_consumer.cpp and of
-- cpp_modules/producer_consumer_demo/main.cpp; Consumed says what the consumers print.
-- GatewayPipeline (cpp_modules/gateway_pipeline_demo): main.cpp, on top of ProtocolParser and
-- LogManager; Counts is about its counters.
-- ThreadSafeLog (cpp_modules/thread_safe_log_demo): main.cpp, two workers over LogManager; Counts is about
-- the counters of the log.
-- MoveSemantics (cpp_modules/move_semantics_demo): `Buffer` of main.cpp, on all the objects of a program
-- and its arrays. Counts is about single steps, Ownership about sequences of operations.
-- ScopedFd (practice/day02): `ScopedFd` of scoped_fd.cpp, on all the objects of a program.
-- Each definition's counterpart is the function of the same name in the source's spelling (`mark_sent`
-- has the same name there, `extract_frames` is `extractFrames`), and a helper stands for the part of a
-- function that its comment names.
-- Common has the shared notation, lists, maps, decimal numbers, bytes and words, and objects that own
-- resources (Slots). Examples has runs on
-- concrete inputs.
--
-- Numbers: a `std::uint32_t` or `std::uint8_t` is a natural number with its wrap-around written out
-- where the source can reach it. Time is a number of nanoseconds. Counters of type `int` or
-- `std::size_t` that the source does not check are not bounded.
--
-- Fuel: only the loop of `extractFrames` has fuel, the length of the buffer and one; every round that
-- goes on shortens the buffer, so that it never runs out.
--
-- Not modelled: the ROS parameters and logging, the termios flags, the joins and the final close of
-- the node's destructor, the errors of `read`, which end the receiver, and its
-- look at `rx_stop_`, so that bytes may also come behind the stop; the demo programs of the
-- modules (scripts that call them), cpp_modules/lambda_algorithm_demo, smart_pointer_demo, thread_demo and
-- interview_practice/day28_protocol_parser.cpp, and the programs under test. In SensorGateway the
-- termios flags and the output on the console are left out; `sscanf` and `snprintf` are modelled by what
-- the C standard says of the conversions that are used.
pub mod Common
pub mod HandBridge
pub mod SerialFrame
pub mod ReliableSerial
pub mod ProtocolParser
pub mod LogManager
pub mod GatewayAck
pub mod GatewayTimeout
pub mod SensorGateway
pub mod EchoServer
pub mod FrameParser
pub mod RingBuffer
pub mod ThreadSafeQueue
pub mod QueuePrograms
pub mod GatewayPipeline
pub mod ThreadSafeLog
pub mod MoveSemantics
pub mod ScopedFd
pub mod Examples
