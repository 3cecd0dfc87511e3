-- ===== src/User/Account.antt =====
-- src/user.h and src/job/subgraph.h: what a user reserves for a subgraph comes back when it ends.
use mathlib.Core.List.{Permᴰ}
use h_axe_simulation.Prelude.{◌≡◌, ◌≢◌, refl, sym, ap, ◌∙◌, true, List, [], ◌∷◌, map, All}
use h_axe_simulation.Number.{Double, ◌⊕◌, ◌⊖◌, zero_double}
use h_axe_simulation.Resource.{
  ResourceType, cpu, memory, disk, network, ResourcePack, empty_pack, add, add_to_me,
}
use h_axe_simulation.Resource.Laws.{in_place}
use h_axe_simulation.Job.{ShardTask, SubGraph, demand_of, worker_demand, set_resources_req}
use h_axe_simulation.User.{
  User, note_reservation, give_back, user_placement, user_task_finish, user_subgraph_finish,
}

-- Sums that lose nothing, as those of whole numbers that stay small.
pub record IsExact (W : Type 0) ⦃d : Double W⦄ : Type 0 where
  pub assoc : (x y z : W) → (x ⊕ y) ⊕ z ≡ x ⊕ (y ⊕ z)
  pub comm : (x y : W) → x ⊕ y ≡ y ⊕ x
  pub cancel : (x y : W) → (x ⊕ y) ⊖ y ≡ x
  pub right_zero : (x : W) → x ⊕ zero_double ≡ x

module _ {W : Type 0} ⦃d : Double W⦄ where
  -- Tasks end one after the other, each at its time.
  abbrev pub finish_all : List (W × ShardTask W) → User W → User W
  finish_all [] u = u
  finish_all ((time, task) ∷ ts) u = finish_all ts (user_task_finish time task u)

  abbrev pub OfChannels : ShardTask W → Type 0
  OfChannels t = t.resource_type ≢ memory

  abbrev return_all : List (ShardTask W) → ResourcePack W → ResourcePack W
  return_all [] p = p
  return_all (t ∷ ts) p = return_all ts (give_back t.resource_type t.req p)

  finish_all_reservation :
      (ts : List (W × ShardTask W)) (u : User W)
      → (finish_all ts u).reservation ≡ return_all (map (λ t. t.1) ts) u.reservation
  unfolding user_task_finish note_reservation
  finish_all_reservation [] u = refl
  finish_all_reservation ((time, t) ∷ ts) u = finish_all_reservation ts (user_task_finish time t u)

  module _ (law : IsExact W) where
    pub right_comm : (x y z : W) → (x ⊕ y) ⊕ z ≡ (x ⊕ z) ⊕ y
    right_comm x y z = law.assoc x y z ∙ ap (λ s. x ⊕ s) (law.comm y z) ∙ sym (law.assoc x z y)

    demand_comm :
        (k l : ResourceType) (s t : ShardTask W) (p : ResourcePack W)
        → demand_of s k (demand_of t l p) ≡ demand_of t l (demand_of s k p)
    unfolding demand_of
    demand_comm cpu cpu s t p = ap (λ x. record p { cpu_of = x }) (right_comm p.cpu_of t.req s.req)
    demand_comm cpu memory s t p = refl
    demand_comm cpu disk s t p = refl
    demand_comm cpu network s t p = refl
    demand_comm memory l s t p = refl
    demand_comm disk cpu s t p = refl
    demand_comm disk memory s t p = refl
    demand_comm disk disk s t p =
        ap (λ x. record p { disk_of = x }) (right_comm p.disk_of t.req s.req)
    demand_comm disk network s t p = refl
    demand_comm network cpu s t p = refl
    demand_comm network memory s t p = refl
    demand_comm network disk s t p = refl
    demand_comm network network s t p =
        ap (λ x. record p { network_of = x }) (right_comm p.network_of t.req s.req)

    worker_demand_perm :
        {ss ts : List (ShardTask W)}
        → Permᴰ ss ts
        → (p : ResourcePack W) → worker_demand ss p ≡ worker_demand ts p
    unfolding worker_demand
    worker_demand_perm Permᴰ.nil p = refl
    worker_demand_perm {ss = s ∷ ss} {ts = t ∷ ts} (Permᴰ.cons e d) p =
        worker_demand_perm d _
        ∙ ap (λ (x : ShardTask W). worker_demand ts (demand_of x x.resource_type p)) e
    worker_demand_perm {ss = a ∷ b ∷ l} {ts = c ∷ e ∷ l'} (Permᴰ.swap h k) p =
        ap (λ q. worker_demand l q) (demand_comm b.resource_type a.resource_type b a p)
        ∙ ap
            (λ (x : ShardTask W).
              worker_demand l (demand_of a a.resource_type (demand_of x x.resource_type p)))
            k
        ∙ ap
            (λ (x : ShardTask W).
              worker_demand l (demand_of x x.resource_type (demand_of c c.resource_type p)))
            h
    worker_demand_perm (Permᴰ.trans d e) p = worker_demand_perm d p ∙ worker_demand_perm e p

    worker_demand_after :
        (ts : List (ShardTask W)) (t : ShardTask W) (p : ResourcePack W)
        → worker_demand ts (demand_of t t.resource_type p)
          ≡ demand_of t t.resource_type (worker_demand ts p)
    unfolding worker_demand
    worker_demand_after [] t p = refl
    worker_demand_after (s ∷ ts) t p =
        ap (λ q. worker_demand ts q) (demand_comm s.resource_type t.resource_type s t p)
        ∙ worker_demand_after ts t (demand_of s s.resource_type p)

    give_back_lem :
        (k : ResourceType) (t : ShardTask W) (p : ResourcePack W)
        → k ≢ memory
        → give_back k t.req (demand_of t k p) ≡ p
    unfolding give_back demand_of
    give_back_lem cpu t p h = ap (λ x. record p { cpu_of = x }) (law.cancel p.cpu_of t.req)
    give_back_lem memory t p h = absurd (h refl)
    give_back_lem disk t p h = ap (λ x. record p { disk_of = x }) (law.cancel p.disk_of t.req)
    give_back_lem network t p h =
        ap (λ x. record p { network_of = x }) (law.cancel p.network_of t.req)

    return_all_lem :
        (ts : List (ShardTask W)) (p : ResourcePack W)
        → All OfChannels ts
        → return_all ts (worker_demand ts p) ≡ p
    unfolding worker_demand
    return_all_lem [] p hs = refl
    return_all_lem (t ∷ ts) p (h, hs) =
        ap (λ q. return_all ts (give_back t.resource_type t.req q)) (worker_demand_after ts t p)
        ∙ ap (λ q. return_all ts q) (give_back_lem t.resource_type t (worker_demand ts p) h)
        ∙ return_all_lem ts p hs

    add_demand :
        (k : ResourceType) (t : ShardTask W) (r p : ResourcePack W)
        → add r (demand_of t k p) ≡ demand_of t k (add r p)
    unfolding add demand_of
    add_demand cpu t r p =
        ap (λ x. record (add r p) { cpu_of = x }) (sym (law.assoc r.cpu_of p.cpu_of t.req))
    add_demand memory t r p = refl
    add_demand disk t r p =
        ap (λ x. record (add r p) { disk_of = x }) (sym (law.assoc r.disk_of p.disk_of t.req))
    add_demand network t r p =
        ap (λ x. record (add r p) { network_of = x })
          (sym (law.assoc r.network_of p.network_of t.req))

    memory_demand :
        (k : ResourceType) (t : ShardTask W) (p : ResourcePack W) (c : W)
        → record (demand_of t k p) { memory_of = c } ≡ demand_of t k (record p { memory_of = c })
    unfolding demand_of
    memory_demand cpu t p c = refl
    memory_demand memory t p c = refl
    memory_demand disk t p c = refl
    memory_demand network t p c = refl

    -- A reservation grows by the demand of each task in turn.
    add-worker_demand :
        (ts : List (ShardTask W)) (r p : ResourcePack W) (c : W)
        → add r (record (worker_demand ts p) { memory_of = c })
          ≡ worker_demand ts (add r (record p { memory_of = c }))
    unfolding worker_demand
    add-worker_demand [] r p c = refl
    add-worker_demand (t ∷ ts) r p c =
        add-worker_demand ts r (demand_of t t.resource_type p) c
        ∙ ap (λ q. worker_demand ts (add r q)) (memory_demand t.resource_type t p c)
        ∙ ap (λ q. worker_demand ts q) (add_demand t.resource_type t r (record p { memory_of = c }))

    add_memory :
        (r : ResourcePack W) (c : W)
        → add r (record (empty_pack {W = W}) { memory_of = c })
          ≡ record r { memory_of = r.memory_of ⊕ c }
    unfolding add
    add_memory r c =
        rw (law.right_zero r.cpu_of, law.right_zero r.disk_of, law.right_zero r.network_of) refl

-- A user's reservation for a subgraph comes back in full: the placement adds the subgraph's resources,
-- and after its tasks have ended, in any order and at any times, and its memory is given back, the
-- reservation is what it was. It needs sums that lose nothing, a subgraph loaded for a worker, and
-- that no task's resource is the memory.
pub reservation_returned :
    {W : Type 0} ⦃d : Double W⦄ (law : IsExact W) (u : User W) (sg : SubGraph W)
    (cap start stop : W) (ended : List (W × ShardTask W))
    → sg.is_worker ≡ true
    → sg.resource_pack ≡ empty_pack
    → All OfChannels (map (λ (e : W × ShardTask W). e.1) ended)
    → Permᴰ sg.shard_tasks (map (λ (e : W × ShardTask W). e.1) ended)
    → (user_subgraph_finish stop cap (
        finish_all ended
          (user_placement start ((set_resources_req cap sg).resource_pack) u))).reservation
      ≡ u.reservation
unfolding user_subgraph_finish note_reservation user_placement set_resources_req
reservation_returned {W} law u sg cap start stop ended worker fresh kinds order =
    let ts : List (ShardTask W) = map (λ (e : W × ShardTask W). e.1) ended in
    let r : ResourcePack W = u.reservation in
    let pack : ResourcePack W = (set_resources_req cap sg).resource_pack in
    let same : pack ≡ record (worker_demand sg.shard_tasks empty_pack) { memory_of = cap } =
      rw (worker, fresh) refl in
    let placed : add_to_me r pack ≡ worker_demand ts (record r { memory_of = r.memory_of ⊕ cap }) =
      (in_place r pack).0
      ∙ ap (λ q. add r q) same
      ∙ ap (λ q. add r (record q { memory_of = cap })) (worker_demand_perm law order empty_pack)
      ∙ add-worker_demand law ts r empty_pack cap
      ∙ ap (λ q. worker_demand ts q) (add_memory law r cap) in
    let back =
      finish_all_reservation ended (user_placement start pack u)
      ∙ ap (λ q. return_all ts q) placed
      ∙ return_all_lem law ts (record r { memory_of = r.memory_of ⊕ cap }) kinds in
    ap (λ (p : ResourcePack W). record p { memory_of = p.memory_of ⊖ cap }) back
    ∙ ap (λ x. record r { memory_of = x }) (law.cancel r.memory_of cap)
