-- ===== src/Lib.antt =====
-- The Python client of Tay (clients/python/tay): a producer and executor of jobs that speaks JSON
-- frames over a Unix socket, or over HTTP, to a server in Elixir.
--
-- How the program fits together. A producer validates a submission (job_options.py, schedules.py,
-- validation.py), normalizes its values (protocol.py) and exchanges it with the server (client.py). The
-- client writes each message as an envelope in a length-prefixed frame, reads frames in a loop, and
-- settles the future of the request that a reply names. A message `execute` starts a task of the
-- registry (task.py) under the client's capacity; its result or its error is bounded in size
-- (execution.py) and sent back. The HTTP client (http.py) does the same over requests and answers, and its
-- worker claims jobs by long polling, under a token that stands for its session. A producer waits for a
-- result by polling (results.py).
--
-- Which file models which part.
-- - Prelude, Text, Number, Value, Table: lists, UTF-8, ints and doubles, the values of Python that the
--   client handles, and dicts from text. Prelude/Outcome: an exception is a value, its class a
--   constructor (errors.py). An int is an ℤ over the native numbers. A double is a sign with a multiple
--   of 2^-1074, and arithmetic on doubles rounds to nearest, ties to even.
-- - Protocol (protocol.py): `normalize_json`, `validate_task_name`; Protocol/Codec: the hook against
--   duplicate keys and the JSON writer; Protocol/Envelope: `validate_envelope`; Protocol/Frame:
--   `encode_frame`, `decode_payload`, `read_frame`, over a stream of bytes.
-- - Execution (execution.py): `error_details`, `bounded_error`; Execution/Runs: `run_task`.
-- - Validation (validation.py), Options (job_options.py), Responses (responses.py), SocketPath
--   (socket_path.py), Tasks (task.py): the functions of the same names. Tasks/Arguments: the arguments
--   of a call as a dict and back, for a signature as a list of parameters; Tasks/Static:
--   `static_schedule_declaration`.
-- - Schedules (schedules.py): the checks; Schedules/Api: the methods of `Scheduling` over a transport;
--   Schedules/Pages: the paging loop of `schedules`.
-- - Client (client.py): the fields of `Tay` that its handlers change, as a record; an action on it
--   returns or raises, and leaves a state either way. Client/Sending: `_send_envelope`, `_send_event`;
--   Client/Requests: `_exchange`, `_fail_pending`, the replies; Client/Executions:
--   `_accept_execution` and the end, failure and cancellation of an execution; Client/Runs:
--   `_handle_message`, a round of `_read_loop`, the parts of `close`, and runs of any events in any order;
--   Client/Names and Client/Registration: `register_tasks`, `unregister_tasks`, `enqueue`. A method
--   that waits is a step for each part between its waits, so that other events come between: `_exchange`
--   registers, sends, fails to drain and gets its reply in steps of their own, and `close` has three.
--   Client/Settings: the checks of the constructor; Client/Bootstrap: the requests of a new connection;
--   Client/Activity: what `_run_execution` sends. Client/Runs/Answers and Client/Runs/Refinement: the
--   life of one request. Client/Handles: `JobHandle`; Client/Backoff and
--   Client/Supervisor: `start`, `_connection_supervisor` and `close` around the machine of Client/Runs,
--   with the pauses between attempts and the supervisors that are cancelled and have yet to end.
-- - Http (http.py): `_request` and the reading of its answer; Http/Settings: the checks of
--   `TayHTTP.__init__`; Http/Producer: `enqueue`, the schedule calls and the handle; Http/Worker: the
--   fields of `TayHTTPWorker` and its session; Http/Worker/Settings: the checks of its constructor; Http/Worker/Executions: a round of `_run_loop` and the
--   parts of `_execute` between its waits; Http/Worker/Runs: `serve_forever`, `close`, and runs of any
--   events in any order. The requests that declare the schedules of a registration are one step.
-- - Results (results.py): `wait_result`, over the times that its polls and sleeps take. Doctor (doctor.py): `diagnose_http` and `diagnose_socket`, as the
--   reports that they return. Command (__main__.py): `_instance`, the default command, the exit code.
-- - Release: the release tooling. Release/Qualification (.github/scripts/check_release_qualification.py):
--   `qualified_run`; Release/Trials and Release/Reports (bench/release_compare.py): `trial_order` and
--   `aggregate`.
--
-- Fuel. `shrink_to`, the loop of `bounded_error`, has one step more than the error has characters, and
-- each round shortens the error. `pages` has fuel as an argument; one step for each cursor the server
-- may return, and one, are enough. `poll_from` has one step more than the timeout has units of time, and
-- each sleep lasts at least one. All else is structural recursion.
--
-- What comes from outside, as a parameter: `json.dumps` and `json.loads` (`Json`), `uuid4`, `str`, the
-- texts of an exception, and the state of the sockets (`World`), the file system and the environment
-- (`Host`), the server behind a transport (`Transport`), the opener of HTTP requests with `urllib` and
-- `json.loads` on bytes (`Listener`), the loopback test of `ipaddress`, what the host
-- tells of a socket (`Probe`), what a module exposes (`Module`), the pages of the GitHub API, the SHA-256 fingerprint, and the digits that `\d` matches.
--
-- Not modelled: the loading of a PKCS#12 bundle and of ssl contexts, `inspect.signature`, the event loop's
-- choice between a coroutine and a thread, the decorators and context managers that only pass on,
-- `argparse` and signals, the comparison of benchmarks (bench/compare.py, which needs the quotients of
-- floats), the runs of the benchmarks themselves, the rounding of the event loop's clock, what the
-- callback of an execution that `close` gave up does to a later one of the same id, and the server.
pub mod Prelude
pub mod Text
pub mod Number
pub mod Value
pub mod Protocol
pub mod Execution
pub mod Validation
pub mod Options
pub mod Table
pub mod Responses
pub mod Client
pub mod Results
pub mod Doctor
pub mod Command
pub mod Release
pub mod Http
pub mod SocketPath
pub mod Schedules
pub mod Tasks
pub mod Tests
