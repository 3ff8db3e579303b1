-- ===== src/Lib.antt =====
-- Verification library for rec, a system that runs WASM jobs on nodes that reach each other over a
-- delay-tolerant network (rec/dtn) or, in a second variant, over HTTP (rec/rest).
--
-- How the parts interact. Every node registers with its DTN agent, fetches bundles in rounds, handles
-- each with its own `_handle_bundle`, and sends the replies. A broker announces itself; the other nodes
-- ask it for association and wait for its acknowledgement. Clients submit jobs to executors, which keep
-- named data in a store, queue the jobs, ask the datastores for data that is missing, and run a job when
-- its data is there and the system has the resources that it needs.
--
-- Which file models which part:
--   Eid            rec/dtn/eid.py: `EID` as `Endpoint` (`eid`, or `plain` for a str that was not made by
--                  the class), `_normalize` as `normalize`, `EID.dtn`, `EID.ipn`, `node()` as `node_of`,
--                  `service()` as `service_of`. Eid/Number is `int(text, 10)`, Eid/Canonical an
--                  abstract description of endpoints.
--   Wire           the values that msgpack packs, dictionaries as lists of fields, and the codec.
--   Bundles        rec/dtn/messages.py, `BundleData`, `NodeType` and `BundleType`.
--   Messages       rec/dtn/messages.py, the message classes, `serialize` and `deserialize`.
--   Storage        rec/dtn/storage.py: one function for each method, on a record of the database and the
--                  blobs. Storage/View is its abstract view, a partial function from names to data.
--   Capabilities   rec/dtn/job.py, `Capabilities`.
--   Jobs           rec/dtn/job.py, `JobInfo` and `Job`. The fields named `data` are `inputs` and `content`.
--                  Jobs/Reading reads them, with the UUIDs of Jobs/Uuid.
--   Node           rec/dtn/node.py: association, fetching, and the round of `_handle_bundles` that the
--                  executor and the datastore share; Node/Framing is `_send_message`, and Node/Agent the
--                  registration and the sending of bundles.
--   Broker         rec/dtn/broker.py; Broker/Handshake relates it to the node that asks it.
--   Datastore      rec/dtn/datastore.py.
--   Executor       rec/dtn/executor.py: the intake of jobs and data and the queue of pending jobs;
--                  Executor/Handling is `_handle_bundle`, Executor/Directory the directory of a job and
--                  what is collected from it, Executor/Scheduler `_run_job` and the rounds of
--                  `_scheduler`, and Executor/Results the sending of results.
--   Client         rec/dtn/client.py: the search for a broker, the wait for a reply, and the bundles that
--                  its commands send; Client/Exchange relates them to the programs that answer,
--                  and Client/Ending is the end of the search.
--   Rest           the REST variant: Rest/Names the names of rec/rest/nodes/node.py, Rest/Model
--                  rec/rest/model.py, Rest/ExecutorBroker rec/rest/nodes/brokers/executorbroker.py,
--                  with the jobs in Rest/ExecutorBroker/Jobs, Rest/DatastoreCache
--                  rec/rest/nodes/brokers/datastorecache.py, Rest/DataBroker
--                  rec/rest/nodes/brokers/databroker.py, and Rest/Datastore
--                  rec/rest/nodes/datastore.py, with the uploads of a file in Rest/Datastore/Upload and
--                  `prevent_breakout` of rec/util/fs.py in Rest/Breakout; Rest/Jobs what client and
--                  executor make of a job in rec/rest/job.py, and Rest/Delivery what the executor of
--                  rec/rest/nodes/executor.py does with the results, by the calls of the broker;
--                  Rest/Client the client of rec/rest/nodes/client.py.
--   Base           what they share: texts and bytes as lists of numbers, lists, association lists,
--                  exceptions as values (`Result`), calls that change a state and may raise (`Action`),
--                  natural numbers with their tests.
--
-- How the code is read. A method that changes its object is a function from the state to a result
-- and the new state; where an exception ends it, the state is the one at that point. Python's
-- dictionaries are association lists in the order of insertion. A set is a list without repetition,
-- in the order of insertion, which Python does not fix. Locks are left out, so a method is one step.
-- Integers are unbounded, as in Python; where `msgpack` or `to_bytes` bounds them, the bound is
-- written out.
--
-- Parameters, for packages that the repository does not hold: `asynctinydb` and `sha1`
-- (Storage.Backend, with the laws Storage.IsLawful; Storage/Memory is one that can be run),
-- `msgpack` (Wire.Codec, with the law Wire.IsLawful; Wire/Plain is one that can be run), what
-- `Capabilities.from_system` returns (Executor.Readings: it may differ from one round of a loop to
-- the next), the answers of the DTN agent (Node.Agent.Agent where it is asked; arguments of
-- Node.new_bundles and Node.round, a list for the client's loops, which report it when the list ends
-- first), the pieces in which bytes arrive on a socket (Node.Framing.recv), the file system, links
-- included, under a job's directory (Executor.Directory.Disk; Executor/Directory/Memory is one that
-- can be run), `zipfile` (Executor.Directory.Collect.Zip) and the WASM runtime
-- (Executor.Scheduler.Runtime). In the REST variant they are the answers of the nodes that are
-- called and of the file system, functions of `os.path`, the clock, and what `random.choice` and
-- `uuid4` draw.
--
-- Bounds and fuel. `Eid.Number.decimal` writes a number with as much fuel as the number itself and
-- one more, and each digit divides it by ten; `parse_int` reads at most `max_digits` = 4300 digits,
-- the limit of Python's `int`. The digits and the white space that `int` accepts outside ASCII are
-- those of Unicode 15. `pop_loop` makes as many rounds as there are pending jobs, as the source
-- does, and an empty queue has `index_error`, which `popleft` raises there. `Rest.Delivery.retry`
-- makes the ten tries of each loop in the source. A value of a Python type that a field is not
-- declared with gives the error `ill_typed`, which marks the edge of the model.
--
-- Not modelled: the client's context file, the call of the WASM runtime in its thread, TOML files,
-- waiting on condition variables; of the REST variant the calls of requests and FastAPI, the globs,
-- downloads and archives of its jobs, the registration of its executor; the other utilities
-- (rec/util), and the command lines (rec/run_dtn.py, rec/run_rest.py).
pub mod Base
pub mod Eid
pub mod Wire
pub mod Bundles
pub mod Messages
pub mod Storage
pub mod Capabilities
pub mod Jobs
pub mod Node
pub mod Broker
pub mod Datastore
pub mod Executor
pub mod Client
pub mod Rest
