-- ===== src/Lib.antt =====
-- Android Workbench: the shared queue that gives phones, files and services to tasks.
--
-- The service (workbench/service.py) keeps a table of tasks in a database (workbench/store.py). A
-- task names the resources that it reads or writes (workbench/common.py). Under one lock the
-- service decides which queued task may start (`available`), asks a policy for an order
-- (workbench/policy.py), looks at the queue once more and grants one task (`select`, `grant`), and
-- later takes its result and releases or blocks its resources (`finish`).
--
-- Prelude            tests, lists and texts that the parts share.
-- Resource           resource keys: `overlap` and `conflict` of common.py. Resource/Paths is the part
--                    of PurePosixPath behind them, Resource/Laws their laws.
-- Scheduler/Model    the rows of the tables, the configuration, and what a handler sees around it.
-- Scheduler/Store    the operations of store.py, and actions that return or raise.
-- Scheduler/Finish   `finish` and `prepare_artifacts`; Finish/Blocked and Finish/Faults are about the
--                    faults that it leaves.
-- Scheduler/Available  `dependencies_ready` and `available`; Available/Clear says what a legal answer
--                    means.
-- Scheduler/Grant, Scheduler/Choice, Scheduler/Select  `grant`, the orders of `min` and `max`, `select`.
-- Scheduler/Exclusion  the promise of the queue; Scheduler/Frame the changes that keep it: a row only
--                    gives resources back, and no task becomes active. Scheduler/Ends and
--                    Scheduler/Answer carry facts through actions that may raise.
-- Scheduler/Worker   `worker_request`: what a running worker asks; Worker/Frame and Worker/Laws are its
--                    laws. Scheduler/Rows has the laws of reading a row after a change of it.
-- Scheduler/Insertion  `choose_insertion`, which puts a task into a paused scene.
-- Scheduler/Control  `jobs.cancel`, `jobs.set_priority`, and the loop of `Service.__init__` over the tasks
--                    that a start finds active; Scheduler/Admission `submit` from the second time
--                    that it takes the lock, and Scheduler/Submit its two ends.
-- Scheduler/Recovery `prepare_recovery`, which freezes what a repair may repair; Scheduler/Tick `tick`, which
--                    looks after the running tasks and sorts the waiting ones. Scheduler/Each has the
--                    law of loops that change every row.
-- Scheduler/Reached  runs of the service as sequences of handlers. Scheduler/Keeps says when an action
--                    keeps the promise of the queue.
-- Scheduler/Grows    how a lease changes; Scheduler/Carries the actions that lose no task and no lease,
--                    and Reached/Carried runs of them.
-- Leases             leases, which stand for the use of a tool by someone outside: Leases/Processes what
--                    /proc says of a process (common.py), Leases/Descent `descendants` and the check of a
--                    lease's process tree (workbench/leases.py), Leases/Requests the requests about leases
--                    in service.py. Each has the laws of its part in child modules.
-- Policy             `Policy.choose` of policy.py; Policy/Laws and Policy/Answers say what it chooses,
--                    Policy/Budget how often it asks the model. Scheduler/Choice/Oldest describes the
--                    task that has waited longest, for both `choose` and `select`.
-- Protobuf           protobuf_decode_raw.py, a tool of the workbench that takes messages of unknown type apart
--                    (skills/android-workbench/components/apk-reverse/scripts): Protobuf/Varint the
--                    varints, Protobuf/Walk the fields of a message, Protobuf/Framing packed values and
--                    frames. Each has a RoundTrip; Varint/Bounds and Walk/Fuel are about any bytes.
-- Dex                dexutil.py beside it, a reader of dex files: Dex/Bytes the numbers, Dex/Opcodes and
--                    Dex/Names the tables, Dex/Decode the instructions of a method, Dex/Branch where
--                    branches lead, Dex/Classes and Dex/Tables the header, the index tables and the
--                    methods of a class, Dex/Header the checksum and the signature.
-- Elf                elf_plt.py beside it, which names what the stubs of a library call: Elf/Words the words of
--                    aarch64, Elf/Stubs the search for stubs and for branches, with what is found and what
--                    is passed over in its children, Elf/File the headers and the relocated slots.
-- Examples           concrete queues, tasks and answers.
--
-- An action takes the tables to a value or an exception and the tables it leaves; a transaction
-- that raises leaves the tables as they were. A handler runs under the service's lock, so it is one
-- action, and `choose_insertion`, which gives the lock up while the policy decides, is two. What it
-- sees of the clock, of the processes and of the files is one `Env`: a handler reads the clock
-- once. Times are whole tenths of a second, and a priority from -5 to 5 is shifted by 5. A row of
-- the resources table carries the two keys of its detail that the scheduler reads. A key that a
-- task description lacks is `none`, `false`, `0` or the empty list, as its `get` says.
-- `Store.update` changes the one row with the key, which is the table's primary key.
--
-- The answer of the model that orders the candidates is a parameter, a function of what it is told;
-- `none` stands for every way in which it can fail. The purpose of a task, which only the payload for
-- the model reads, is a parameter too; `none` is a task without that key. Processes, file hashes and tokens are fields of
-- `Env`, and the start of a worker is one too. SHA-1, Adler-32 and the decoding of UTF-8 are parameters.
--
-- `finish` calls itself for the tasks that a repair has repaired. The inner result is a failure,
-- and a failure makes no further call, so `finish` is its body applied twice: no fuel is needed.
-- The loops of the service are structural. The loops over bytes run on fuel: a round takes a byte at
-- least, so the number of bytes (and one more for `walk`, which needs a round to see the end) is enough. An instruction takes a
-- unit at least, so the number of units and one more is enough to decode a method. A round of the search
-- for descendants finds a process that was not found before, so their number and one more is enough. A round of the
-- search for stubs takes a byte at least, so the size of the segment is enough.
--
-- A byte is a number below 256 and a position in a buffer is the list of the bytes from it on. An `|=`
-- of bits above all earlier ones is a sum. `walk` is modelled for `analyse=False`, in which it keeps a
-- payload as bytes.
--
-- /proc is one snapshot (`Proc`) while a request is served; a line of it is there and well formed, or
-- missing, or unreadable. Whether a boot id is a canonical UUID is a parameter.
--
-- Not modelled: the deaths of several workers within one `tick` of a run, the kill of a worker and
-- the reaping of processes, the requests for manual control, `normalize_lease`, the loop of a
-- lease's worker, what `record_mcp_call` writes (its receipt is an argument), the call of
-- `prepare_recovery` in `submit` (the scope of a repair is part of the request there), the cache of
-- device status and device information (a table that no modelled decision reads), the files that a
-- grant writes, the event log's rendering, sockets, subprocesses, the tool adapters and the command
-- line; of protobuf_decode_raw.py the guesses about a payload (`analyse_payload`), the notes for
-- the reader, the parsing of the input and the printing; of dexutil.py the rendering of
-- instructions and the opening of files; of elf_plt.py the commands.
pub mod Prelude
pub mod Resource
pub mod Scheduler
pub mod Policy
pub mod Protobuf
pub mod Dex
pub mod Leases
pub mod Elf
mod Examples
