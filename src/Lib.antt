-- ===== src/Lib.antt =====
-- A verification library for the firmware of s3-hidbot, a USB and BLE HID device that a host drives
-- over a UART control plane (firmware/components).
--
-- Bytes from the UART are cut into protocol frames, frames become requests of a session, and a
-- serialized executor carries them out against the USB and BLE lifecycles and the HID routes. This
-- library models the state machines below that executor, one module to a component, and proves what
-- each promises to its callers.
--
-- Common                 Boolean tests, lists that stand for fixed arrays, signed error codes.
-- Framing                firmware/components/control_framing: the class `Transport`. Its children
--                        describe lines (Lines), the reader that the transport stands for (Reader),
--                        the members after a part of a line (Holds, LineEnd), and the theorems
--                        (Bounds, Stream, Refine, RoundTrip).
-- UsbLifecycle           firmware/components/usb_lifecycle: the class `StateMachine` over its packed
--                        byte, all methods (Members, Requests, Completions, Observations) and histories
--                        of calls (Calls).
-- UsbSpec                the tables that the methods implement (Lifecycle), the packing of the byte
--                        (Packing), the refinement (Refine), and what follows from it over histories
--                        (Safety, Faults, Teardown).
-- HidRoute               firmware/components/hid_route: which output may send reports, in which epoch. Its
--                        children are the readers and the publication word of USB (Publication), the
--                        sole writer (Writer), the invalidations (Invalidate, Claims), and taking and
--                        releasing a route (Commit).
-- RouteSafety            what a callback can do to a writer (Callbacks), how a writer leaves (Handoff),
--                        the stages of taking a route (Published, Commit), revoking it meanwhile
--                        (Refusal, Revoke, Veto), taking it away (Retire), releasing it (Release, TwoStages),
--                        and the tokens of watchdogs (Tokens).
-- BleLifecycle           firmware/components/ble_lifecycle: the class `StateMachine` of the BLE stack.
-- BleStop                the same component's stop_transaction.hpp.
-- BleSpec                the packing of its byte (Packing), the states that are reached (Safety,
--                        Histories), recovery and stale reports (Recovery), stopping (Stopping).
-- HidSequence            firmware/components/hid_sequence: the text of a sequence of keys and buttons
--                        (Tokens, Parse), the report state (Keys), the decision of a wait, the status
--                        word (StatusWord), and the class `Controller` (Control, Waits).
-- SequenceSpec           the decimal numbers (Decimal), tokens (Tokens) and texts (Text) as they are printed,
--                        what the token loop reads (Grammar, Sound), and the whole parser (Plan).
-- ControllerSpec         the fields of the status word (Word), a sequence that is over (Ends), aborted
--                        (Aborted) or not taken up (Untaken), who releases (Release), an abort while a
--                        sequence starts (Starting), and a wait (Waiting).
-- ControlSession         firmware/components/control_session: the class `State`, the session of the
--                        control plane with its retry caches (Caches, Requests) and its life (Authority).
-- SessionSpec            the fixed arrays (Bytes), a request against what was completed (Retries, Once), the
--                        owners of a session (Owners), its lease (Lease) and tokens (RandomTokens).
-- BlePairing             firmware/components/ble_pairing: the class `StateMachine` of a passkey pairing.
-- PairingSpec            snapshots beside a publication (Torn, Shown), the ids (Responses), an exchange
--                        from its start to its end (Exchange).
--
-- A class is a record of its members, a method a function to the new members and its results. Words
-- wrap where the source's do: `next_generation` is modulo 2 ^ 32, `std::size_t` is 32 bits wide as on
-- the target, a byte is cut modulo 256. The loops run over the bytes given, or over a count of at most
-- three zeros; the compare-and-swap loops end at their first exchange, because a method is one step
-- here. One loop is on fuel, `allocate_rounds`: it skips two values of a counter, so three rounds are
-- enough. Interleavings of two threads inside one method are not modelled, with these exceptions. In
-- HidRoute, callbacks run while a writer is active, at the points where the source has its test hooks,
-- as lists of calls that a method is given. While a sequence starts, other tasks may abort it where
-- the backend is asked. In BlePairing, a publication is a list of stores and a snapshot a list of
-- loads, which see the members at any moments, in one order. Memory orders, the platform's calls and
-- the logging are not modelled. What the source gets from outside is a parameter: the executor's
-- `schedule`, the callback of the framing, the answers to the worker that stops the BLE stack, the
-- clock and the random bytes of a session. The parser's recursion is on the 64 places of a plan, which
-- the source counts up. Of hid_sequence, the loop of `Controller::run` over the plan is not modelled,
-- nor the reports that it sends; its first exchange, its waits and its ends are. A wait runs over
-- the moments that it is given, at each of which other tasks, the clock and the backend have had their
-- say.
pub mod BleLifecycle
pub mod BlePairing
pub mod BleSpec
pub mod BleStop
pub mod Common
pub mod ControlSession
pub mod ControllerSpec
pub mod Framing
pub mod HidRoute
pub mod HidSequence
pub mod PairingSpec
pub mod RouteSafety
pub mod SequenceSpec
pub mod SessionSpec
pub mod UsbLifecycle
pub mod UsbSpec
