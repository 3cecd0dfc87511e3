-- ===== src/Lib.antt =====
-- Verification library of the h-axe simulator, a simulator of cluster schedulers driven by events
-- (the sources are under src/).
--
-- Parts of the program, and the files that model them:
--
-- - Prelude: names of the libraries, Boolean tests, lists, the integers of `int`, and `Outcome`, the
--   result of code that may abort (a failed CHECK, `at` out of range, an empty std::function, behaviour
--   that the language leaves undefined) or, in the model only, run out of fuel.
-- - Number: `double` is a parameter, a type with the operations and tests that the code uses. A theorem
--   that needs a law of them names it (IsCounter, IsExact, IsOrder, IsSteady, IsTally, IsTicks, IsZero). The
--   instance Number.Whole has whole numbers, on which definitions run.
-- - Resource: src/resource, the packs of four resources and the requests.
-- - Job: src/job, tasks, subgraphs and jobs as they are once parsed.
-- - Flow: struct Dinic and GetMemoryCap of src/job/subgraph.h. Bfs runs as many rounds as there are
--   vertices and one more, since a vertex is put on the queue only when it is reached first; Dfs and the
--   loop of GetMaxFlow take fuel.
-- - Event: src/event and src/event_queue.h. std::priority_queue is a list from which the first event
--   that no other comes before is taken; of events that tie the standard leaves the choice open.
-- - RecordMap: the maps from times to records of src/worker/worker_abstract.h and src/play_back/player.h,
--   with `insert` and the rows of ReportUtilization, whose fuel is the gap between two entries.
-- - Worker: src/worker. Worker.State has the members of a worker and of its three components, which
--   share packs by pointer in the code and are one record here; Worker.Cpu is worker_cpu.h,
--   Worker.Channel is worker_disk.h and worker_network.h, one program for two resources, and
--   Worker.Machine is worker_abstract.h, worker.h and node_manager.h. The random noise of a duration is
--   a function of the number of the event that is made. Worker.Kept lists the calls that the rest of the
--   program makes on a worker.
-- - Placement: src/algorithm, FIFO and TETRIS. The static worker_id is part of the state.
-- - User: src/user.h. Scheduler: src/scheduler. Manager: src/job_manager.h, with Manager.State for its
--   maps and BuildDependencies and Manager.Handlers for its handlers. A map that is read by operator[]
--   is a function that gives 0 for a missing key. Manager.Requests counts what the handlers ask for, and
--   Manager.Life is a manager from the admission of its job on.
-- - Simulator: src/simulator.h. Dispatch hands an event to the scheduler or to a manager, whose handlers
--   call the workers and users that all share (Cluster) and return events; Serve puts these on the
--   queue. Its loop takes fuel, one unit for each event that is handled or skipped.
-- - Effect: the steps that the handlers are made of, an event that is made, a call of a worker and a
--   placement, as an interface for relations between what the handlers share before and after them.
--   Manager.Effects, Scheduler.Effects and Simulator.Effects carry such a relation from the steps to
--   Dispatch; Effect.Numbers, Effect.Kept, Effect.Sized and Effect.Classes are such relations, and
--   Simulator.Reach, Simulator.Workers, Simulator.Returns and Simulator.Events follow them through the
--   rounds of Serve.
-- - Player: src/play_back, which reads the units of a job that ran and computes what its workers used.
--   Player is unit.h with the time line and the events of player.h, Player.Records its GenerateRecords,
--   Player.Report the rows of ReportUtilization and the peaks, Player.Durations the statistics of the
--   tasks and Player.Init the whole. The queue gives an event for each round of its fuel, its length;
--   std::sort is an insertion that keeps the order of units that tie.
-- - Loading: the functions from_json of src/resource, src/job, src/worker and src/play_back. The library
--   nlohmann::json is a parameter, a type of values with what the code calls on them; Loading.Text is
--   std::stoi and the erasing of bytes.
-- - Main: src/main.cc, src/common.h, and the constructor and from_json of src/simulator.h. The files are a
--   parameter. The fuel of a run serves the loop of Serve and the maximum flows. Main.Yarn is a
--   run with the executor YARN, whose workers are node managers.
--
-- A counter that the code keeps in an `int` and only counts up is a native number here; that it stays
-- below the bound of `int` is not stated, but where the cores of a worker are counted. Times of the
-- player, `int64_t`, are integers without a bound, and an `int` that one is stored in holds it.
--
-- Not modelled: flags and logs, the opening of files, and the text of reports and other output;
-- src/worker/worker_local_queue.h, which nothing uses; the unit tests, whose cases are comments in the
-- sources. A task whose resource is a number without a name stops the model when it is read, where the
-- code goes on until it places the task.
pub mod Prelude
pub mod Number
pub mod Resource
pub mod Job
pub mod Flow
pub mod Event
pub mod RecordMap
pub mod Worker
pub mod Effect
pub mod Placement
pub mod User
pub mod Scheduler
pub mod Manager
pub mod Simulator
pub mod Player
pub mod Loading
pub mod Main
pub mod Sample
