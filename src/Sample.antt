-- ===== src/Sample.antt =====
-- A worker, tasks and a job with whole numbers, on which the theorems are tried.
use h_axe_simulation.Prelude.{◌≡◌, true, List, [], ◌∷◌, arith}
use h_axe_simulation.Prelude.Int.{ℤ, pos, ◌-ℤ◌}
use h_axe_simulation.Number.{close}
use h_axe_simulation.Number.Whole.{whole_double}
use h_axe_simulation.Resource.{ResourceType, ResourcePack}
use h_axe_simulation.Job.{ShardTaskId, ShardTask, SubGraph, Job, unplaced}
use h_axe_simulation.Worker.State.{Worker, Shared, Channel}

abbrev pub room : ResourcePack ℤ
room = record { cpu_of = pos 2; memory_of = pos 100; disk_of = pos 60; network_of = pos 60 }

abbrev pub no_load : ResourcePack ℤ
no_load = record { cpu_of = pos 0; memory_of = pos 0; disk_of = pos 0; network_of = pos 0 }

abbrev pub idle_channel : Channel ℤ
idle_channel = record { current = pos 0; slot = pos 6; queue = []; running = [] }

abbrev pub idle_worker : Worker ℤ
idle_worker = record {
  is_worker = true;
  worker_id = pos 0;
  capacity = room;
  usage = no_load;
  reservation = no_load;
  maximum_reservation = record {
    cpu_of = pos 2000;
    memory_of = pos 100;
    disk_of = pos 2000;
    network_of = pos 2000;
  };
  records = [];
  cpu_queue = [];
  disk_channel = idle_channel;
  network_channel = idle_channel;
}

-- No noise.
abbrev pub quiet : Shared ℤ
quiet = record { event_num = 0; invalid = []; draw = λ _ _. pos 0 }

abbrev pub task_id : ℤ → ℤ → ShardTaskId
task_id t s = record { task_id = t; shard_id = s }

-- A task of three units that reads, and its child, which computes.
abbrev pub read_task : ShardTask ℤ
read_task = record {
  task_id = pos 1;
  job_id = pos 0;
  shard_id = pos 0;
  resource_type = ResourceType.disk;
  memory_need = pos 5;
  req = pos 180;
  children = task_id (pos 2) (pos 0) ∷ [];
}

abbrev pub compute_task : ShardTask ℤ
compute_task = record {
  task_id = pos 2;
  job_id = pos 0;
  shard_id = pos 0;
  resource_type = ResourceType.cpu;
  memory_need = pos 0;
  req = pos 7;
  children = [];
}

abbrev pub subgraph : List (ShardTask ℤ) → ResourcePack ℤ → SubGraph ℤ
subgraph tasks pack = record {
  memory_cap = pos 5;
  job_id = pos 0;
  is_worker = true;
  resource_pack = pack;
  shard_tasks = tasks;
  data_locality = [];
  worker_id = unplaced;
}

-- The tasks in one subgraph each.
abbrev pub two_step_job : Job ℤ
two_step_job = record {
  subgraphs =
      subgraph (read_task ∷ [])
        (record { cpu_of = pos 0; memory_of = pos 5; disk_of = pos 180; network_of = pos 0 })
      ∷ subgraph (compute_task ∷ [])
          (record { cpu_of = pos 7; memory_of = pos 5; disk_of = pos 0; network_of = pos 0 })
      ∷ [];
  job_id = pos 0;
  user_id = pos 0;
  submission_time = pos 10;
}

-- A whole number is as good as equal to itself.
pub close_self : (x : ℤ) → close x x ≡ true
unfolding ◌-ℤ◌
close_self x = ground arith
