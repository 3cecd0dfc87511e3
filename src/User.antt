-- ===== src/User.antt =====
-- src/user.h: what a user has reserved, and the record of it.
pub mod Account
pub mod Report
pub mod Tests
use h_axe_simulation.Prelude.{ℕ, List, [], ◌∷◌, ◌++◌, map}
use h_axe_simulation.Prelude.Int.{ℤ}
use h_axe_simulation.Number.{Double, ◌⊖◌, ◌⊘◌, zero_double}
use h_axe_simulation.Resource.{
  ResourceType, cpu, memory, disk, network, all_types, ResourcePack, by_index, empty_pack,
  add_to_me,
}
use h_axe_simulation.Job.{ShardTask}

pub record User (W : Type 0) : Type 0 where
  pub cluster_capacity : ResourcePack W
  pub reservation : ResourcePack W
  pub jobs_id : List ℤ
  -- `records_`, each the time and the shares
  pub records : List (List W)

module _ {W : Type 0} ⦃d : Double W⦄ where
  -- `User()`
  abbrev pub new_user : User W
  new_user = record {
    cluster_capacity = empty_pack;
    reservation = empty_pack;
    jobs_id = [];
    records = [];
  }

  -- `GenerateResourceReservationRecord`
  pub reservation_record : W → User W → List W
  unfolding by_index
  reservation_record time u =
      time ∷ map (λ i. by_index u.reservation i ⊘ by_index u.cluster_capacity i) all_types

  pub note_reservation : W → User W → User W
  unfolding reservation_record
  note_reservation time u = record u { records = u.records ++ reservation_record time u ∷ [] }

  -- `SetClusterResourceCapacity`
  unfoldable pub set_cluster_capacity : ResourcePack W → User W → User W
  unfolding note_reservation
  set_cluster_capacity pack u = note_reservation zero_double (record u { cluster_capacity = pack })

  -- `AddJobID`
  unfoldable pub add_job_id : ℤ → User W → User W
  add_job_id job_id u = record u { jobs_id = u.jobs_id ++ job_id ∷ [] }

  -- `PlacementDecision`
  unfoldable pub user_placement : W → ResourcePack W → User W → User W
  unfolding note_reservation
  user_placement time resource u =
      note_reservation time (record u { reservation = add_to_me u.reservation resource })

  -- What `TaskFinish` gives back: a task that is of no other kind counts as one of the disk.
  pub give_back : ResourceType → W → ResourcePack W → ResourcePack W
  give_back cpu req p = record p { cpu_of = p.cpu_of ⊖ req }
  give_back network req p = record p { network_of = p.network_of ⊖ req }
  give_back _ req p = record p { disk_of = p.disk_of ⊖ req }

  -- `TaskFinish`
  unfoldable pub user_task_finish : W → ShardTask W → User W → User W
  unfolding note_reservation give_back
  user_task_finish time task u =
      note_reservation time
        (record u { reservation = give_back task.resource_type task.req u.reservation })

  -- `SubGraphFinish`
  unfoldable pub user_subgraph_finish : W → W → User W → User W
  unfolding note_reservation
  user_subgraph_finish time mem u = note_reservation time (record u {
    reservation = record (u.reservation) { memory_of = u.reservation.memory_of ⊖ mem };
  })
