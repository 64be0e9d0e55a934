-- ===== src/Lib.antt =====
-- A verification library for the C firmware of a robot base: motor drivers on RS485, a PPM receiver,
-- control over LAN, and the authority that decides which command moves the robot.
--
-- The program's parts and their files:
--
--   CommandAuthority/  components/command_authority/command_authority_model.c. Commands of three
--     sources arrive in mailboxes (`publish`), a cycle picks the highest fresh source and applies its
--     command (`arbitrate`), and a stop revokes everything (`stop`). State is the data and the small
--     predicates, Stop, Publish and Arbitrate the operations; Rules says what one step may do,
--     Invariant and Trace speak of runs, Ranking of the choice of a source, Cycles and Stopping of
--     one cycle, FailSafe of refused commands, Replay of old sequence numbers and replaced streams, and Names is what is
--     printed.
--   MotionApplication/  components/motion_application/motion_application_model.c. ARM, COMMAND,
--     DISARM and STOP events of one stream at a time become plans for the motors. State is the data,
--     Plans the conversion of a cycle of the command authority through the kinematics, Operations the
--     calls (`submit`, `tick`, `record_actuation`). It is composed with CommandAuthority and
--     Kinematics as the code is: the authority is a field of its state. Trace has sequences of
--     calls, Safety speaks of plans that move motors, Idle of states without a stream, Link of the
--     authority inside, Invariant and Steps of what each operation keeps, Runs of any sequence.
--   Kinematics/  components/robot_kinematics/robot_kinematics.c. Model is the code, Limits speaks of
--     completed calls.
--   PpmMotion/  components/ppm_motion_source/ppm_motion_model.c. Frames of the receiver become
--     events for the motion application. Model is the code, Sticks speaks of the range of an axis,
--     Handshake of the events of any run.
--   Capabilities/  components/robot_capabilities/robot_capabilities.c. Endpoint is what an endpoint
--     can do, behind ports that the adapters fill, Registry the list of endpoints and its ids.
--   Actuation/  components/actuation_coordinator/actuation_coordinator.c. Coordinator is the code,
--     Orders says what endpoints are told by their ports and what they answer, Reports speaks of
--     setpoints and their rollback, Stops of the stop of all and of the lock.
--   BusTransport/  components/bus_transport/bus_transport.c. Controller is the code, Transactions
--     speaks of sequences of exchanges.
--   Ibus/  components/ibus_receiver/ibus_receiver.c, its frames. Receiver is the collection and the
--     processing of a frame, Framing speaks of the bytes of any length. The UART is left out.
--   RobotState/  components/robot_state. The state machine of the robot with its inhibits and latched
--     faults. State and Operations are robot_state_model.c; Invariant speaks of reachable states,
--     Transitions of single requests. Service is robot_state_service.c: the model with the inhibits
--     of each source and the epoch of the motion gate; Epoch speaks of that epoch.
--   Interlock/  components/robot_safety/robot_safety_rc_lan_interlock_model.c. A channel of the
--     receiver takes priority over LAN once enough frames confirm it. Model is the code, Confirm
--     speaks of one observation and Takeover of sequences.
--   CommunicationQuality/  components/communication_quality/communication_quality_model.c. The
--     health of a link from its good and failed exchanges. Model is the code, Recovery speaks of
--     sequences of exchanges, Health of the reported state.
--   PpmDecoder/  components/ppm_decoder/ppm_decoder_model.c. Rising edges become channels. Model is
--     the code, Frames an abstract view of it and the frames that its header promises, Refine the
--     simulation of one edge, RoundTrip the pulses of a frame, Delivery a whole frame, Runs whole
--     runs against the header. The two differ where a frame has a pulse out of range, which the
--     code skips, besides exactly the configured number in range.
--   Svd48/  components/svd48/svd48_protocol.c. Frames of the motor drivers. Protocol is the code,
--     Checksum speaks of valid frames, Requests of what is built, Replies and Exceptions of what is
--     accepted, Registers of ranges. PollService is components/svd48/svd48_poll_service.c with the
--     clock and the poll of a device as parameters, Polling speaks of its deadlines.
--   SerialGateway/  components/serial_gateway/serial_gateway_framing.c. Characters become lines.
--     Framing is the code, Lines an abstract specification and the simulation, RoundTrip single
--     lines. Policy is components/serial_gateway/serial_gateway_policy.c, which says what is let
--     through over LAN, with the comparison of Text, and Confirmation speaks of it.
--   Base/  what the others share: Boolean tests and words, lists over native numbers, signed
--     integers, masks of bits, and the interfaces of floating point.
--
-- In the firmware the receiver's decoder feeds the interlock and the PPM motion model, whose events
-- and those of the LAN go to the motion application. That one asks the command authority, turns an
-- applied command into targets by the kinematics, and hands a plan to the actuation coordinator,
-- which sets the endpoints of the registry; the drivers behind them exchange frames over a bus
-- transport, and each link keeps its quality. The state machine of the robot gates motion. The
-- motion application is modelled with its authority and kinematics inside, the coordinator with the
-- registry; the other parts meet in components/robot_composition and main, which are not modelled,
-- so each of them is modelled for any sequence of its own calls.
--
-- Conventions. A C function on a struct is a function from the record to the new record and the
-- result. A pointer that the code compares with NULL is an `Option`, or a flag where only its
-- presence matters; other pointers are values, since the modelled functions hold no alias. Enums are
-- data types, arrays are lists, and an index out of range reads a default that the code does not
-- reach. Fixed-width arithmetic wraps where C wraps (`u16`, `u32`, `sub_u32`); a counter that the
-- code saturates is saturated. Loops are structural recursions over lists or counts, so no fuel is
-- used. Velocities are of a type `F` with the interface `Float32`, which holds the comparisons and
-- four facts of IEEE 754 that the theorems use; `Milli` is an instance for concrete runs. `Double`,
-- `Widening` and `FloatArith` are the interfaces of double and long double, of the conversion to them
-- and of float arithmetic, with the two and five facts that are used. Functions behind pointers (the
-- locks, the ports of endpoints, the backend of a bus) act on a world of any type, and what they do
-- with locks is a named hypothesis of the theorems on locks; that a backend that is up finds valid a
-- request with bytes and room, as components/rs485_transport does, is one of the theorem on counts.
--
-- Not modelled, and why: tasks, locks, interrupt handlers and calls of ESP-IDF and FreeRTOS (I/O);
-- the setup of the UARTs; robot_profile and robot_safety; the drivers, adapters and gateways above the
-- protocol, of which svd48_device is the next to model; the Python tools.
mod Base
pub mod CommandAuthority
pub mod RobotState
pub mod Interlock
pub mod CommunicationQuality
pub mod PpmDecoder
pub mod Svd48
pub mod SerialGateway
pub mod Kinematics
pub mod MotionApplication
pub mod Capabilities
pub mod Actuation
pub mod BusTransport
pub mod PpmMotion
pub mod Ibus
