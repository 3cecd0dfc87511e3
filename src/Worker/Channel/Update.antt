-- ===== src/Worker/Channel/Update.antt =====
-- src/worker/worker_disk.h: `UpdateRunningTask`, which events it makes and which it makes invalid.
use h_axe_simulation.Prelude.{
  ℕ, ◌+◌, ◌≤◌, ◌≡◌, refl, true, inl, inr, List, [], ◌∷◌, ◌++◌, map, arith, Bool-cases, All, length,
  if◌then◌else◌, leb, ltb, ◌&&◌, ◌==◌,
}
use h_axe_simulation.Number.{Double, close}
use h_axe_simulation.Event.{Event}
use h_axe_simulation.Worker.State.{Shared, RunningTask, insert_id, finish_event}
use h_axe_simulation.Worker.Channel.{update_record, update_running}

-- How often an id stands in a list.
abbrev pub count : ℕ → List ℕ → ℕ
count n [] = 0
count n (m ∷ ms) = (if m == n then 1 else 0) + count n ms

pub count-append : (n : ℕ) (xs ys : List ℕ) → count n (xs ++ ys) ≡ count n xs + count n ys
count-append n [] ys = omega arith
count-append n (x ∷ xs) ys = omega (arith, count-append n xs ys)

pub count-insert_id :
    (n m : ℕ) (ids : List ℕ) → count m ids ≡ 0 → count n (insert_id m ids) ≡ count n (m ∷ ids)
count-insert_id n m [] h = refl
count-insert_id n m (k ∷ ks) h = ground (arith, count-insert_id n m ks)

-- 1 for the numbers from `a` up to `b`, `b` left out.
abbrev pub within : ℕ → ℕ → ℕ → ℕ
within a b n = if leb a n && ltb n b then 1 else 0

module _ {W : Type 0} where
  abbrev pub running_ids : List (RunningTask W) → List ℕ
  running_ids = map λ r. r.event_id

  abbrev pub event_ids : List (Event W) → List ℕ
  event_ids = map λ e. e.event_id

  pub event_ids-append :
      (n : ℕ) (xs ys : List (Event W))
      → count n (event_ids (xs ++ ys)) ≡ count n (event_ids xs) + count n (event_ids ys)
  event_ids-append n [] ys = omega arith
  event_ids-append n (x ∷ xs) ys = omega (arith, event_ids-append n xs ys)

  pub running_ids-append :
      (n : ℕ) (xs ys : List (RunningTask W))
      → count n (running_ids (xs ++ ys)) ≡ count n (running_ids xs) + count n (running_ids ys)
  running_ids-append n [] ys = omega arith
  running_ids-append n (x ∷ xs) ys = omega (arith, running_ids-append n xs ys)

-- No id stands twice among the records and the invalid ids.
abbrev pub AreApart : {W : Type 0} → List (RunningTask W) → Shared W → Type 0
AreApart rs s = (n : ℕ) → count n (running_ids rs) + count n s.invalid ≤ 1

-- The events that are made take the next numbers, and of the old and new ones together each is
-- either that of a record or invalid.
pub record Accounts {W : Type 0} (rs rs' : List (RunningTask W)) (s s' : Shared W)
    (events : List (Event W)) : Type 0 where
  pub grows : s.event_num ≤ s'.event_num
  pub numbered : (n : ℕ) → count n (event_ids events) ≡ within s.event_num s'.event_num n
  pub balance :
      (n : ℕ)
      → count n (running_ids rs') + count n s'.invalid
        ≡ count n (running_ids rs) + count n s.invalid + count n (event_ids events)

module _ {W : Type 0} ⦃d : Double W⦄ (time bandwidth : W) where
  update_record-Accounts :
      (r : RunningTask W) (s : Shared W)
      → count r.event_id s.invalid ≡ 0
      → let (r', s', events) = update_record time bandwidth r s in
        Accounts (r ∷ []) (r' ∷ []) s s' events
  unfolding update_record finish_event
  update_record-Accounts r s h = elim (Bool-cases (close r.last_check_bandwidth bandwidth)) [
    | inl e ↦
        rw e
          (record { grows = omega arith; numbered = λ n. ground arith; balance = λ n. omega arith })
    | inr e ↦ rw e (record {
      grows = omega arith;
      numbered = λ n. ground arith;
      balance = λ n. omega (arith, count-insert_id n r.event_id s.invalid h);
    })
  ]

  update_record_invalid :
      (r : RunningTask W) (s : Shared W) (n : ℕ)
      → count r.event_id s.invalid ≡ 0
      → count n (update_record time bandwidth r s).1.invalid ≤ count n (r.event_id ∷ s.invalid)
  unfolding update_record finish_event
  update_record_invalid r s n h = ground (arith, count-insert_id n r.event_id s.invalid h)

  -- The whole loop keeps the account, if no id stands twice.
  pub update_running-Accounts :
      (rs : List (RunningTask W)) (s : Shared W)
      → AreApart rs s
      → let (rs', s', events) = update_running time bandwidth rs s in Accounts rs rs' s s' events
  unfolding update_running
  update_running-Accounts [] s apart = record {
    grows = omega arith;
    numbered = λ n. ground arith;
    balance = λ n. omega arith;
  }
  update_running-Accounts (r ∷ rs) s apart =
      let (r', s1, events) = update_record time bandwidth r s in
      let (rs', s2, more) = update_running time bandwidth rs s1 in
      let once : count r.event_id s.invalid ≡ 0 = ground (arith, apart r.event_id) in
      let first : Accounts (r ∷ []) (r' ∷ []) s s1 events = update_record-Accounts r s once in
      let apart' : AreApart rs s1 = λ n. omega (arith, apart n, update_record_invalid r s n once) in
      let rest : Accounts rs rs' s1 s2 more = update_running-Accounts rs s1 apart' in
      record {
        grows = omega (arith, first.grows, rest.grows);
        numbered = λ n. ground (
          arith,
          event_ids-append n events more,
          first.numbered n,
          rest.numbered n,
          first.grows,
          rest.grows,
        );
        balance =
            λ n. omega (arith, event_ids-append n events more, first.balance n, rest.balance n);
      }

  -- A loop over records that are at the bandwidth changes nothing and makes no event.
  pub update_running-settled :
      (rs : List (RunningTask W)) (s : Shared W)
      → All (λ r. close r.last_check_bandwidth bandwidth ≡ true) rs
      → update_running time bandwidth rs s ≡ (rs, s, [])
  unfolding update_running
  update_running-settled [] s h = refl
  update_running-settled (r ∷ rs) s (h, hs) =
      rw (h, update_record, update_running-settled rs s hs) refl

  -- After the loop every record is at the bandwidth.
  pub update_running-All :
      close bandwidth bandwidth ≡ true
      → (rs : List (RunningTask W)) (s : Shared W)
      → All
          (λ r. close r.last_check_bandwidth bandwidth ≡ true)
          (update_running time bandwidth rs s).0
  unfolding update_running
  update_running-All h [] s = tt
  update_running-All h (r ∷ rs) s =
      (ground arith, update_running-All h rs (update_record time bandwidth r s).1)

  pub length-update_running :
      (rs : List (RunningTask W)) (s : Shared W)
      → length (update_running time bandwidth rs s).0 ≡ length rs
  unfolding update_running
  length-update_running [] s = refl
  length-update_running (r ∷ rs) s =
      omega (arith, length-update_running rs (update_record time bandwidth r s).1)
