-- ===== src/Player/Balance.antt =====
-- src/play_back/player.h: GenerateRecords. While the events go by, the snapshot of each worker is the
-- load of the units that run on it.
use mathlib.Core.List.{Permᴰ}
use mathlib.Core.List.Permᴰ
use h_axe_simulation.Prelude.{
  ℕ, zero, suc, ◌≡◌, ◌≢◌, refl, sym, ap, ◌∙◌, false, inl, inr, List, [], ◌∷◌, All, Bool-cases,
  arith, ok, ◌<◌, length, get_elem?, set, some, length-set, get_elem?-set_self, get_elem?-set_ne,
  get_elem?_lt, get_elem?-replicate, length-replicate, replicate, eq-replicate, All-mono, ◌==◌,
  ==_iff, Outcome,
}
use h_axe_simulation.Prelude.Int.{pos, eqb_ℤ, eqb_ℤ_iff}
use h_axe_simulation.Prelude.Pick.{Pick, Pick-perm, All-Pick}
use h_axe_simulation.Number.{Double, le, zero_double}
use h_axe_simulation.Resource.{ResourcePack, empty_pack}
use h_axe_simulation.Player.{
  TaskUnit, RecordEvent, earlier, start_event, finish_event, generate_event, pop_record_event,
}
use h_axe_simulation.RecordMap.{insert_entry}
use h_axe_simulation.Player.Records.{
  Snapshots, Records, load_of, record_event, record_loop, generate_records, generate_record,
  start_load, finish_load, first_snapshots, first_records, workers_of, update_snapshot, add_record,
}
use h_axe_simulation.Player.Order.{
  IsPlaying, next_event, generate_event-waiting, earlier-length, Starts, Ends,
}
use h_axe_simulation.Player.Load.{
  IsTally, IsPlayable, load, charge, load-Pick, load-NotNegative, finish_start,
}

none_left : {A : Type 0} (l : List A) → Permᴰ [] l → l ≡ []
none_left [] p = refl
none_left (x ∷ l) p =
    absurd (let (_, picked, _) = Pick-perm (Permᴰ.symm p) Pick.here in elim picked [ ])

module _ {W : Type 0} ⦃d : Double W⦄ where
  abbrev pub IsLoaded : List (TaskUnit W) → Snapshots W → Type 0
  IsLoaded active snaps = (k : ℕ) → k < length snaps → get_elem? snaps k ≡ some (load k active)

  record_event_ok :
      (e : RecordEvent W) (snaps : Snapshots W) (ms : List (Records W)) (j : ℕ) (p : ResourcePack W)
      (m : Records W)
      → le e.resource_request zero_double ≡ false
      → e.worker_id ≡ pos j
      → get_elem? snaps j ≡ some p
      → get_elem? ms j ≡ some m
      → record_event e snaps ms
        ≡ ok (set snaps j (load_of e p), set ms j (insert_entry e.time (load_of e p) m))
  unfolding record_event generate_record update_snapshot add_record
  record_event_ok e snaps ms j p m a b s r = rw (a, b, s, r) refl

  IsLoaded-set :
      (snaps : Snapshots W) (before after : List (TaskUnit W)) (j : ℕ) (v : ResourcePack W)
      → IsLoaded before snaps
      → v ≡ load j after
      → ((k : ℕ) → j ≢ k → load k after ≡ load k before)
      → IsLoaded after (set snaps j v)
  IsLoaded-set snaps before after j v h e same k b =
      let inside : k < length snaps = let l = length-set snaps j v in omega arith in
      elim (Bool-cases (j == k)) [
        | inl c ↦
            let eq : j ≡ k = (==_iff j k).0 c in
            ap (λ i. get_elem? (set snaps j v) i) (sym eq)
            ∙ get_elem?-set_self snaps j v (ground arith)
            ∙ ap (λ (x : ResourcePack W). some x) (e ∙ ap (λ i. load i after) eq)
        | inr c ↦
            let ne : j ≢ k = λ eq. let yes = (==_iff j k).1 eq in cc in
            get_elem?-set_ne snaps j k v ne
            ∙ h k inside
            ∙ ap (λ (x : ResourcePack W). some x) (sym (same k ne))
      ]

  -- A unit is charged to its worker and to no other.
  charge_there :
      (j : ℕ) (u : TaskUnit W) (p : ResourcePack W)
      → u.worker_id ≡ pos j
      → charge j u p ≡ start_load (start_event u) p
  charge_there j u p e = let yes = (eqb_ℤ_iff u.worker_id (pos j)).1 e in rw yes refl

  charge_elsewhere :
      (j k : ℕ) (u : TaskUnit W) (p : ResourcePack W)
      → u.worker_id ≡ pos j
      → j ≢ k
      → charge k u p ≡ p
  charge_elsewhere j k u p e ne = elim (Bool-cases (eqb_ℤ u.worker_id (pos k))) [
    | inr c ↦ rw c refl
    | inl c ↦ absurd (let same = (eqb_ℤ_iff u.worker_id (pos k)).0 c in ground arith)
  ]

  -- Between two events: the units, the queue, and the state of `n` workers.
  record IsStage (n : ℕ) (starts ends active : List (TaskUnit W)) (queue : List (RecordEvent W))
      (snaps : Snapshots W) (ms : List (Records W)) : Type 0 where
    playing : IsPlaying starts ends active queue
    to_start : All (IsPlayable n) starts
    to_end : All (IsPlayable n) active
    snapshots : length snaps ≡ n
    records : length ms ≡ n
    loaded : IsLoaded active snaps

  abbrev Continues :
      ℕ → RecordEvent W → List (RecordEvent W) → Snapshots W → List (Records W) → Type 0
  Continues n top rest snaps ms =
      (starts : List (TaskUnit W)) × (ends : List (TaskUnit W)) × (active : List (TaskUnit W))
      × (snaps' : Snapshots W) × (ms' : List (Records W)) × (record_event top snaps ms
          ≡ ok (snaps', ms'))
      × IsStage n starts ends active rest snaps' ms'

  module _ (law : IsTally W) (n : ℕ) (starts ends active : List (TaskUnit W)) (top : RecordEvent W)
      (rest : List (RecordEvent W)) (snaps : Snapshots W) (ms : List (Records W)) where
    start_step :
        {queue : List (RecordEvent W)}
        → IsStage n starts ends active queue snaps ms
        → Starts starts ends active top rest
        → Continues n top rest snaps ms
    unfolding load_of start_event
    start_step now (u, left, e, picked, playing) =
        let (h, hs) = All-Pick (IsPlayable n) picked now.to_start in
        let j = h.place in
        let held = now.loaded j (let a = now.snapshots in let b = h.in_range in omega arith) in
        let (m, found) =
          get_elem?_lt ms j (let a = now.records in let b = h.in_range in omega arith) in
        let v = load_of (start_event u) (load j active) in
        (
          left,
          ends,
          u ∷ active,
          set snaps j v,
          set ms j (insert_entry ((start_event u).time) v m),
          ap (λ x. record_event x snaps ms) e
              ∙ record_event_ok (start_event u) snaps ms j (load j active) m h.asks h.placed held
                  found,
          record {
            playing = playing;
            to_start = hs;
            to_end = (h, now.to_end);
            snapshots = length-set snaps j v ∙ now.snapshots;
            records = length-set ms j _ ∙ now.records;
            loaded =
                IsLoaded-set snaps active (u ∷ active) j v now.loaded
                  (sym (charge_there j u (load j active) h.placed))
                  (λ k ne. charge_elsewhere j k u (load k active) h.placed ne);
          },
        )

    finish_step :
        {queue : List (RecordEvent W)}
        → IsStage n starts ends active queue snaps ms
        → Ends starts ends active top rest
        → Continues n top rest snaps ms
    unfolding load_of finish_event
    finish_step now (u, left, others, e, picked, playing) =
        let (h, hs) = All-Pick (IsPlayable n) picked now.to_end in
        let j = h.place in
        let held = now.loaded j (let a = now.snapshots in let b = h.in_range in omega arith) in
        let (m, found) =
          get_elem?_lt ms j (let a = now.records in let b = h.in_range in omega arith) in
        let v = load_of (finish_event u) (load j active) in
        let back : v ≡ load j left =
          ap (λ p. finish_load (finish_event u) p)
            (load-Pick law j picked ∙ charge_there j u (load j left) h.placed)
          ∙ finish_start law u (load j left) (load-NotNegative law j n left hs) in
        (
          starts,
          others,
          left,
          set snaps j v,
          set ms j (insert_entry ((finish_event u).time) v m),
          ap (λ x. record_event x snaps ms) e
              ∙ record_event_ok (finish_event u) snaps ms j (load j active) m h.asks h.placed held
                  found,
          record {
            playing = playing;
            to_start = now.to_start;
            to_end = hs;
            snapshots = length-set snaps j v ∙ now.snapshots;
            records = length-set ms j _ ∙ now.records;
            loaded = IsLoaded-set snaps active left j v now.loaded back (λ k ne.
                sym (load-Pick law k picked ∙ charge_elsewhere j k u (load k left) h.placed ne));
          },
        )

  drained : (starts ends active : List (TaskUnit W)) → IsPlaying starts ends active [] → active ≡ []
  drained [] [] active now = none_left active now.splits
  drained [] (e ∷ ends) active now = absurd (let gone = none_left _ now.holds in cc)
  drained (s ∷ starts) ends active now = absurd (let gone = none_left _ now.holds in cc)

  abbrev Balances : ℕ → Outcome (Snapshots W × List (Records W)) → Type 0
  Balances n run =
      (snaps : Snapshots W) × (ms : List (Records W)) × (run ≡ ok (snaps, ms))
      × (length snaps ≡ n)
      × IsLoaded [] snaps

  record_loop_lem :
      (law : IsTally W) (n fuel : ℕ) (queue : List (RecordEvent W))
      (starts ends active : List (TaskUnit W)) (snaps : Snapshots W) (ms : List (Records W))
      → length queue ≡ fuel
      → IsStage n starts ends active queue snaps ms
      → Balances n (record_loop fuel queue snaps ms)
  unfolding record_loop pop_record_event
  record_loop_lem law n fuel [] starts ends active snaps ms len now = (
    snaps,
    ms,
    refl,
    now.snapshots,
    λ k b. now.loaded k b ∙ ap (λ us. some (load k us)) (drained starts ends active now.playing),
  )
  record_loop_lem law n zero (e ∷ es) starts ends active snaps ms len now = absurd (omega arith)
  record_loop_lem law n (suc fuel) (e ∷ es) starts ends active snaps ms len now =
      let (starts', ends', active', snaps', ms', stepped, later) : Continues n (earlier e es).0
          (earlier e es).1 snaps ms =
        elim (next_event starts ends active e es now.playing) [
          | inl s ↦ start_step law n starts ends active _ _ snaps ms now s
          | inr f ↦ finish_step law n starts ends active _ _ snaps ms now f
        ] in
      let (done, kept, e', l, loaded) =
        record_loop_lem law n fuel (earlier e es).1 starts' ends' active' snaps' ms'
          (let l = earlier-length e es in omega arith) later in
      (done, kept, rw stepped e', l, loaded)

-- The records of units on the workers 0 to `worker_num` are made without an abort, and every snapshot
-- ends where it began, at zero: each end takes back what its start added, whichever units run between.
-- Each unit must ask for something, start before it ends and stand on one of the workers, and sums lose
-- nothing.
pub generate_records_lem :
    {W : Type 0} ⦃d : Double W⦄ (law : IsTally W) (worker_num : ℕ) (us : List (TaskUnit W))
    → All (IsPlayable (suc worker_num)) us
    → (ms : List (Records W)) × (generate_records
          (pos worker_num)
          (generate_event us)
          (first_snapshots (pos worker_num))
        ≡ ok (replicate (suc worker_num) empty_pack, ms))
unfolding generate_records first_snapshots first_records workers_of
generate_records_lem {W} law worker_num us hs =
    let snaps : Snapshots W = replicate (suc worker_num) empty_pack in
    let ms : List (Records W) = replicate (suc worker_num) ((pos 0, empty_pack) ∷ []) in
    let (done, kept, e, l, loaded) =
      record_loop_lem law (suc worker_num) (length (generate_event us)) (generate_event us) us us []
        snaps ms refl
        (record {
          playing = record {
            holds = generate_event-waiting us;
            splits = Permᴰ.symm (Permᴰ.append-nil us);
            in_time = All-mono (λ u (h : IsPlayable (suc worker_num) u). h.in_time) us hs;
          };
          to_start = hs;
          to_end = tt;
          snapshots = length-replicate (suc worker_num) (empty_pack {W = W});
          records = length-replicate (suc worker_num) ((pos 0, empty_pack {W = W}) ∷ []);
          loaded = λ k b.
              get_elem?-replicate (suc worker_num) k empty_pack
                (let same = length-replicate (suc worker_num) (empty_pack {W = W}) in omega arith);
        }) in
    (
      kept,
      e
          ∙ ap (λ (s : Snapshots W). ok (s, kept))
              (eq-replicate done empty_pack loaded ∙ ap (λ n. replicate n empty_pack) l),
    )
