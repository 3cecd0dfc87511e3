-- ===== src/Resource.antt =====
-- src/resource/resource.h and resource_request.h: packs of the four resources. The vector of four
-- doubles is a record, and `GetResourceByIndex` reads it by the enumeration.
pub mod Laws
pub mod Tests
use h_axe_simulation.Prelude.{ℕ, Bool, true, ◌&&◌, List, [], ◌∷◌, if◌then◌else◌}
use h_axe_simulation.Prelude.Int.{ℤ, pos}
use h_axe_simulation.Number.{Double, ◌⊕◌, ◌⊖◌, ◌⊗◌, lt, zero_double}

pub data ResourceType : Type 0 where
  cpu memory disk network : ResourceType

-- the order of the indices 0 to 3, and `kNumResourceTypes` entries
abbrev pub all_types : List ResourceType
all_types = cpu ∷ memory ∷ disk ∷ network ∷ []

pub record ResourcePack (W : Type 0) : Type 0 where
  pub cpu_of : W
  pub memory_of : W
  pub disk_of : W
  pub network_of : W

unfoldable pub by_index : {W : Type 0} → ResourcePack W → ResourceType → W
by_index p cpu = p.cpu_of
by_index p memory = p.memory_of
by_index p disk = p.disk_of
by_index p network = p.network_of

unfoldable pub set_index : {W : Type 0} → ResourcePack W → ResourceType → W → ResourcePack W
set_index p cpu x = record p { cpu_of = x }
set_index p memory x = record p { memory_of = x }
set_index p disk x = record p { disk_of = x }
set_index p network x = record p { network_of = x }

module _ {W : Type 0} ⦃d : Double W⦄ where
  abbrev pub empty_pack : ResourcePack W
  empty_pack = record {
    cpu_of = zero_double;
    memory_of = zero_double;
    disk_of = zero_double;
    network_of = zero_double;
  }

  unfoldable pub add : ResourcePack W → ResourcePack W → ResourcePack W
  add p q = record {
    cpu_of = p.cpu_of ⊕ q.cpu_of;
    memory_of = p.memory_of ⊕ q.memory_of;
    disk_of = p.disk_of ⊕ q.disk_of;
    network_of = p.network_of ⊕ q.network_of;
  }

  -- The result is built from an empty pack, so its memory is zero.
  subtract_without_memory : ResourcePack W → ResourcePack W → ResourcePack W
  subtract_without_memory p q = record empty_pack {
    cpu_of = p.cpu_of ⊖ q.cpu_of;
    disk_of = p.disk_of ⊖ q.disk_of;
    network_of = p.network_of ⊖ q.network_of;
  }

  pub subtract : ResourcePack W → ResourcePack W → ResourcePack W
  unfolding subtract_without_memory
  subtract p q =
      let result = subtract_without_memory p q in
      record result { memory_of = p.memory_of ⊖ q.memory_of }

  unfoldable pub add_to_me : ResourcePack W → ResourcePack W → ResourcePack W
  add_to_me me q = record me {
    cpu_of = me.cpu_of ⊕ q.cpu_of;
    memory_of = me.memory_of ⊕ q.memory_of;
    disk_of = me.disk_of ⊕ q.disk_of;
    network_of = me.network_of ⊕ q.network_of;
  }

  subtract_from_me_without_memory : ResourcePack W → ResourcePack W → ResourcePack W
  subtract_from_me_without_memory me q = record me {
    cpu_of = me.cpu_of ⊖ q.cpu_of;
    disk_of = me.disk_of ⊖ q.disk_of;
    network_of = me.network_of ⊖ q.network_of;
  }

  pub subtract_from_me : ResourcePack W → ResourcePack W → ResourcePack W
  unfolding subtract_from_me_without_memory
  subtract_from_me me q =
      let me' = subtract_from_me_without_memory me q in
      record me' { memory_of = me'.memory_of ⊖ q.memory_of }

  dot_loop : ResourcePack W → ResourcePack W → W → List ResourceType → W
  dot_loop p q product [] = product
  dot_loop p q product (i ∷ is) = dot_loop p q (product ⊕ by_index p i ⊗ by_index q i) is

  pub dot_product : ResourcePack W → ResourcePack W → W
  unfolding dot_loop by_index
  dot_product p q = dot_loop p q zero_double all_types

  fit_loop : ResourcePack W → ResourcePack W → Bool → List ResourceType → Bool
  fit_loop p resource ret [] = ret
  fit_loop p resource ret (i ∷ is) =
      fit_loop p resource (ret && lt (by_index p i) (by_index resource i)) is

  -- `p.FitIn(resource)`
  unfoldable pub fit_in : ResourcePack W → ResourcePack W → Bool
  unfolding fit_loop by_index
  fit_in p resource = fit_loop p resource true all_types

  weak_test : ResourcePack W → ResourcePack W → W → ResourceType → Bool
  weak_test p resource alpha memory = lt (by_index p memory) (by_index resource memory)
  weak_test p resource alpha i = lt (by_index p i ⊗ alpha) (by_index resource i)

  weak_fit_loop : ResourcePack W → ResourcePack W → W → Bool → List ResourceType → Bool
  weak_fit_loop p resource alpha ret [] = ret
  weak_fit_loop p resource alpha ret (i ∷ is) =
      weak_fit_loop p resource alpha (ret && weak_test p resource alpha i) is

  pub weak_fit_in : ResourcePack W → ResourcePack W → W → Bool
  unfolding weak_fit_loop weak_test by_index
  weak_fit_in p resource alpha = weak_fit_loop p resource alpha true all_types

pub record ResourceRequest (W : Type 0) : Type 0 where
  pub job_id : ℤ
  pub subgraph_id : ℤ
  pub data_locality : List ℤ
  pub resource : ResourcePack W
