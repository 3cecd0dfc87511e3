-- ===== src/Worker/Tests.antt =====
-- The sample worker.
use h_axe_simulation.Prelude.{
  ℕ, ◌+◌, ◌≡◌, inl, inr, refl, List, [], Outcome, ok, fail, arith, length, Ensures,
}
use h_axe_simulation.Prelude.Int.{ℤ, pos, int_laws, ◌+ℤ◌, ◌-ℤ◌}
use h_axe_simulation.Number.Whole.{whole_double, div_ℤ}
use h_axe_simulation.Resource.{by_index, set_index}
use h_axe_simulation.Event.{Event}
use h_axe_simulation.Worker.State.{Worker, Shared, finish_event, take_memory, release_memory}
use h_axe_simulation.Worker.Cpu.{
  core_available, place_cpu_task, finish_cpu_task, start_cpu_task, start_next_cpu_task,
  increase_cpu_usage, decrease_cpu_usage, decrease_cpu_reservation, cpu_duration,
}
use h_axe_simulation.Worker.Cpu.Cores.{IsCounter, IsServed, place_cpu_task_lem}
use h_axe_simulation.Worker.Cpu.Cores.Finish.{finish_cpu_task_lem}
use h_axe_simulation.Worker.Channel.{
  Lane, channel_of, set_channel, capacity_of, place_channel_task, finish_channel_task,
}
use h_axe_simulation.Worker.Channel.Update.{event_ids}
use h_axe_simulation.Worker.Channel.Account.{IsAccounted}
use h_axe_simulation.Worker.Channel.Settled.{IsSettled, IsSteady}
use h_axe_simulation.Worker.Channel.Place.{place_channel_task_lem}
use h_axe_simulation.Worker.Channel.Finish.{finish_channel_task_lem}
use h_axe_simulation.Worker.Machine.{place_new_task, task_finish}
use h_axe_simulation.Worker.Records.{IsRecorded, step-IsRecorded}
use h_axe_simulation.Worker.Returns.{IsTaken, place_task_returns}
use h_axe_simulation.Sample.{idle_worker, quiet, read_task, compute_task, close_self}

int-IsCounter : IsCounter ℤ
unfolding ◌+ℤ◌ ◌-ℤ◌
int-IsCounter = record {
  up = λ n h. grind int_laws;
  down = λ n h. grind int_laws;
  cast = λ n h. refl;
}

idle-IsServed : IsServed 2 0 idle_worker
idle-IsServed = record {
  counted = refl;
  limit = refl;
  representable = omega arith;
  bounded = omega arith;
  busy = inl refl;
}

abbrev result {ℓ} : {A : Type ℓ} → A → Outcome A → A
result a (ok b) = b
result a (fail e) = a

-- The worker once it computes.
abbrev computing : Worker ℤ × Shared ℤ × List (Event ℤ)
computing = result (idle_worker, quiet, []) (place_cpu_task (pos 3) compute_task idle_worker quiet)

place_cpu_task_lem_example :
    (used : ℕ) × IsServed 2 used (computing.0)
    × (used + length computing.0.cpu_queue + 0 ≡ 0 + 0 + 1)
    × (used + 0 ≡ 0 + length computing.2)
unfolding place_cpu_task core_available start_cpu_task increase_cpu_usage take_memory finish_event
    cpu_duration ◌+ℤ◌
place_cpu_task_lem_example =
    place_cpu_task_lem int-IsCounter 2 0 (pos 3) compute_task idle_worker quiet idle-IsServed refl

abbrev busy_worker : Worker ℤ
busy_worker = record idle_worker { usage = record (idle_worker.usage) { cpu_of = pos 1 } }

busy-IsServed : IsServed 2 1 busy_worker
busy-IsServed = record {
  counted = refl;
  limit = refl;
  representable = omega arith;
  bounded = omega arith;
  busy = inl refl;
}

-- and once it has computed.
abbrev computed : Worker ℤ × Shared ℤ × List (Event ℤ)
computed = result (idle_worker, quiet, []) (finish_cpu_task (pos 9) compute_task busy_worker quiet)

finish_cpu_task_lem_example :
    (used : ℕ) × IsServed 2 used (computed.0)
    × (used + length computed.0.cpu_queue + 1 ≡ 1 + 0 + 0)
    × (used + 1 ≡ 1 + length computed.2)
unfolding finish_cpu_task start_next_cpu_task decrease_cpu_usage decrease_cpu_reservation
    release_memory
finish_cpu_task_lem_example =
    finish_cpu_task_lem int-IsCounter 2 0 (pos 9) compute_task busy_worker quiet busy-IsServed refl

int-IsSteady : (capacity : ℤ) → IsSteady capacity
int-IsSteady capacity n = close_self _

idle-IsAccounted : IsAccounted Lane.disk_lane [] [] idle_worker quiet
unfolding channel_of
idle-IsAccounted = record { balance = λ n. refl; once = λ n. omega arith; fresh = λ n h. refl }

idle-IsSettled : IsSettled (pos 60) (channel_of Lane.disk_lane idle_worker)
unfolding channel_of
idle-IsSettled = record { counted = refl; bounded = omega arith; steady = tt; busy = inl refl }

-- The worker once it reads.
abbrev reading : Worker ℤ × Shared ℤ × List (Event ℤ)
reading =
    result (idle_worker, quiet, [])
      (place_channel_task Lane.disk_lane (pos 3) read_task idle_worker quiet)

place_channel_task_lem_example :
    IsAccounted Lane.disk_lane [] (event_ids (reading.2)) (reading.0) (reading.1)
    × IsSettled (capacity_of Lane.disk_lane (reading.0)) (channel_of Lane.disk_lane (reading.0))
unfolding channel_of place_channel_task by_index ◌+ℤ◌ take_memory set_channel set_index
place_channel_task_lem_example =
    place_channel_task_lem Lane.disk_lane [] [] (pos 3) read_task idle_worker quiet
      (int-IsSteady (pos 60)) idle-IsAccounted idle-IsSettled refl

-- and once it has read.
abbrev idle_again : Worker ℤ × Shared ℤ × List (Event ℤ)
idle_again =
    result (idle_worker, quiet, [])
      (finish_channel_task Lane.disk_lane (pos 6) 0 read_task (reading.0) (reading.1))

finish_channel_task_lem_example :
    IsAccounted Lane.disk_lane [] (event_ids (idle_again.2)) (idle_again.0) (idle_again.1)
    × IsSettled
        (capacity_of Lane.disk_lane (idle_again.0))
        (channel_of Lane.disk_lane (idle_again.0))
unfolding channel_of finish_channel_task place_channel_task by_index ◌+ℤ◌ ◌-ℤ◌ take_memory
    set_channel set_index release_memory div_ℤ finish_event
finish_channel_task_lem_example =
    let (accounted, settled) =
      place_channel_task_lem Lane.disk_lane [] [] (pos 3) read_task idle_worker quiet
        (int-IsSteady (pos 60)) idle-IsAccounted idle-IsSettled refl in
    finish_channel_task_lem Lane.disk_lane [] [] (pos 6) 0 read_task (reading.0) (reading.1)
      (int-IsSteady (pos 60)) refl accounted settled refl

place_task_returns_example :
    ((r : Worker ℤ × Shared ℤ × List (Event ℤ)) × (place_cpu_task
          (pos 3)
          read_task
          idle_worker
          quiet
        ≡ ok r)
      × IsTaken read_task [] r.0.cpu_queue r.2)
    × ((r : Worker ℤ × Shared ℤ × List (Event ℤ)) × (place_channel_task Lane.disk_lane
            (pos 3)
            read_task
            idle_worker
            quiet
          ≡ ok r)
        × IsTaken read_task [] (channel_of Lane.disk_lane r.0).queue r.2)
unfolding channel_of ◌+ℤ◌
place_task_returns_example =
    place_task_returns Lane.disk_lane (pos 3) read_task idle_worker quiet (inr refl)

step-IsRecorded_example :
    Ensures
      (λ (r : Worker ℤ × Shared ℤ × List (Event ℤ)). IsRecorded (pos 3) [] r.0)
      (place_new_task (pos 3) read_task idle_worker quiet)
    × Ensures
        (λ (r : Worker ℤ × Shared ℤ × List (Event ℤ)). IsRecorded (pos 3) [] r.0)
        (task_finish (pos 3) 0 read_task idle_worker quiet)
step-IsRecorded_example = step-IsRecorded (pos 3) 0 read_task idle_worker quiet tt
