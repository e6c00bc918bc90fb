-- ===== src/Lib.antt =====
-- nw-edit v2, the backend that configures network devices: jobs with a life cycle, runs of a job on
-- a canary device and then on the others, and the endpoints that start and control them.
--
-- The parts and their files:
--   * Domain.Models, Domain.StateMachine: backend_v2/app/domain/models.py and state_machine.py. The
--     table of transitions is a function into Option, a ValueError an `err`. Domain.StateMachine.
--     Lifecycle reads the table as a step relation.
--   * Stores: backend_v2/app/infrastructure/in_memory_*_store.py with application/events.py and
--     execution_control.py. A store is an insertion-ordered dictionary (Dict) and a method a function
--     of it, since each method holds the store's lock throughout.
--   * JobService: backend_v2/app/application/job_service.py over the job store.
--   * Engine: backend_v2/app/application/execution_engine.py. Env holds the surroundings of a
--     thread; Retry is `_run_with_retry`; Run, Rounds and RunJob are `run_job`, Rounds its loop.
--     Steps gives the loop's moves as a step relation, and Scheduling, Total, Course and Results
--     prove over it.
--   * Api.State, Api.Execution, Api.Control, Api.Jobs: the stores of backend_v2/app/api/main.py as one
--     record, run_execution.py, and the endpoints for jobs and their control. A handler returns its
--     answer or error together with the application, so that what a failing handler has changed
--     before it fails stays changed.
--   * Api.Preparation: backend_v2/app/api/run_preparation.py. Api.Runs: the two endpoints that run a
--     job and backend_v2/app/infrastructure/run_coordinator.py.
--   * CommandTemplate: backend_v2/app/application/command_template.py.
--   * DeviceImport: backend_v2/app/application/device_import_service.py. Reader is `csv.DictReader`,
--     Row the checks of a row, Validation the loop over the validations, Service `import_csv`.
--   * Netmiko: backend_v2/app/infrastructure/netmiko_executor.py, and in Adapters the two device
--     workers and the two connection validators. Session has the calls of netmiko, each of which may
--     raise; Execute is `execute_device_commands`, Status the status commands.
--   * Api.Mappers, Api.Schemas: backend_v2/app/api/mappers.py, and the bounds of the requests in
--     backend_v2/app/api/schemas.py. Api.Listing: the endpoints of main.py that only read.
--   * Api.Wiring: how backend_v2/app/api/main.py chooses the worker and the validator. Its children
--     prove what the engine, the device store and the Netmiko worker do together.
--   * Api.Devices, Api.Stream: the endpoints for devices and status commands, and the WebSocket
--     handler; Stream.Announced puts a run and the handler together.
--   * Frontend: backend_v2/app/frontend_server.py, the handler of a request for a static file, and
--     in Server the start of the server.
--   * Text: the methods of `str` and the regular expressions that these parts use.
--   * Presets: backend_v2/app/infrastructure/file_preset_store.py and the endpoints that create and
--     update presets; the state is the list of presets in the file, and Presets.Items reads
--     and writes one as an item of the JSON file.
--   * Prelude, Result, Dict: tests, lists, texts, results and dictionaries that all parts share.
-- The endpoints call JobService, which calls the state machine and the job store; a run reads
-- the flags that the control endpoints set, publishes to the event store, and at its end moves the
-- job through JobService.
--
-- `prepare_run` renders the commands of each device; an import writes the device store, from which the
-- Netmiko worker takes the profile of a target.
--
-- What the code takes from outside is an argument: the fresh ids and the times, the answers of the
-- device worker, what each look at the pause and cancel flags sees, and which calls in flight
-- `wait` reports as done, in which order. They are functions of the number of the look, so that the
-- theorems hold for every behaviour of other threads. A device call reads the flags and the
-- clock of its own thread. What other requests do to the stores during a run is an argument of
-- `execute_prepared_run`. Sleeps change nothing. The engine's two floats are in milliseconds.
-- The answers and exceptions of netmiko, the elapsed time and the cancel event are functions of the
-- number of the observation, too. `csv.reader`, `json.loads` and `difflib.unified_diff` are arguments,
-- as is the order in which the validations of an import finish, and for the frontend the file system.
-- What is used of `Path.resolve` is that its answer holds neither a link nor `..`. Letters and digits are those of
-- ASCII; white space and line ends are Python's.
--
-- Fuel: the scheduling loop runs on the number of its rounds, and the pause loop on the number of
-- its polls. Each round but one ends with a call taken out of those in flight, so that more rounds
-- than targets are enough.
--
-- Not modelled: the syntax of the preset file's JSON and the replacement of the file, the loops of the
-- web servers and the browser code; an exception that a connection validator lets through. In
-- Api.Jobs.Requests and Presets.Requests the requests are served one after the other.
mod Prelude
pub mod Result
pub mod Text
pub mod Dict
pub mod CommandTemplate
pub mod Domain
pub mod Stores
pub mod JobService
pub mod Engine
pub mod Netmiko
pub mod DeviceImport
pub mod Api
pub mod Presets
pub mod Frontend
