-- ===== src/Player/Order.antt =====
-- src/play_back/player.h: in which order the queue gives the events of the units. The events that wait
-- are those of the starts of some units and of the ends of these and of the units that run.
use mathlib.Core.List.{Permᴰ}
use mathlib.Core.List.Permᴰ
use mathlib.Core.Path.{subst}
use h_axe_simulation.Prelude.{
  Bool, length, suc, if◌then◌else◌, ◌≡◌, refl, sym, ap, ◌∙◌, true, false, inl, inr, ◌⊎◌, List, [],
  ◌∷◌, ◌++◌, map, All, Bool-cases, arith, suc, length, if◌then◌else◌,
}
use h_axe_simulation.Prelude.Int.{ltb_ℤ, ◌≤ℤ◌}
use h_axe_simulation.Prelude.Pick.{
  Pick, Pick-perm, Permᴰ-Pick, Pick-append, Pick-map, All-perm, All-Pick, All-left, All-map_inv,
}
use h_axe_simulation.Number.{Double}
use h_axe_simulation.Player.{
  TaskUnit, RecordEvent, earlier, start_event, finish_event, generate_event,
}

module _ {W : Type 0} where
  pub earlier_perm :
      (e : RecordEvent W) (es : List (RecordEvent W))
      → Permᴰ (e ∷ es) ((earlier e es).0 ∷ (earlier e es).1)
  unfolding earlier
  earlier_perm e [] = Permᴰ.refl _
  earlier_perm e (x ∷ xs) = elim (Bool-cases (ltb_ℤ x.time e.time)) [
    | inl h ↦ rw h (Permᴰ.trans (Permᴰ.cons refl (earlier_perm x xs)) (Permᴰ.swap refl refl))
    | inr h ↦ rw h (
        Permᴰ.trans (Permᴰ.swap refl refl)
          (Permᴰ.trans (Permᴰ.cons refl (earlier_perm e xs)) (Permᴰ.swap refl refl)))
  ]

  -- Chosen from `e` and others: what is left is no earlier.
  abbrev IsFirst : RecordEvent W → RecordEvent W × List (RecordEvent W) → Type 0
  IsFirst e r = (r.0.time ≤ℤ e.time) × All (λ (x : RecordEvent W). r.0.time ≤ℤ x.time) r.1

  earlier_step :
      (e x : RecordEvent W) (xs : List (RecordEvent W)) (b : Bool)
      → ltb_ℤ x.time e.time ≡ b
      → earlier e (x ∷ xs) ≡ (
        (earlier (if b then x else e) xs).0,
        (if b then e else x) ∷ (earlier (if b then x else e) xs).1,
      )
  unfolding earlier
  earlier_step e x xs b h = rw h refl

  earlier_le : (e : RecordEvent W) (es : List (RecordEvent W)) → IsFirst e (earlier e es)
  unfolding earlier
  earlier_le e [] = (omega arith, tt)
  earlier_le e (x ∷ xs) = elim (Bool-cases (ltb_ℤ x.time e.time)) [
    | inl h ↦
        let (le, all) = earlier_le x xs in
        subst (IsFirst e) (sym (earlier_step e x xs true h)) (ground arith, (ground arith, all))
    | inr h ↦
        let (le, all) = earlier_le e xs in
        subst (IsFirst e) (sym (earlier_step e x xs false h)) (le, (ground arith, all))
  ]

  pub earlier-length :
      (e : RecordEvent W) (es : List (RecordEvent W)) → length (earlier e es).1 ≡ length es
  unfolding earlier
  earlier-length e [] = refl
  earlier-length e (x ∷ xs) = ap suc (earlier-length (if ltb_ℤ x.time e.time then x else e) xs)

module _ {W : Type 0} ⦃d : Double W⦄ where
  abbrev pub waiting : List (TaskUnit W) → List (TaskUnit W) → List (RecordEvent W)
  waiting starts ends = map start_event starts ++ map finish_event ends

  pub generate_event-waiting : (us : List (TaskUnit W)) → Permᴰ (generate_event us) (waiting us us)
  unfolding generate_event
  generate_event-waiting [] = Permᴰ.nil
  generate_event-waiting (u ∷ us) = Permᴰ.cons refl (
      Permᴰ.trans (Permᴰ.cons refl (generate_event-waiting us))
        (Permᴰ.symm (Permᴰ.middle (finish_event u) (map start_event us) (map finish_event us))))

  -- A unit starts before it ends.
  abbrev pub InTime : TaskUnit W → Type 0
  InTime u = ltb_ℤ u.assigned_time u.finished_time ≡ true

  -- The units that wait, those whose end waits, those that run, and the queue.
  pub record IsPlaying (starts ends active : List (TaskUnit W)) (queue : List (RecordEvent W))
      : Type 0 where
    pub holds : Permᴰ queue (waiting starts ends)
    pub splits : Permᴰ ends (starts ++ active)
    pub in_time : All InTime starts

  abbrev pub Starts :
      List (TaskUnit W)
      → List (TaskUnit W)
      → List (TaskUnit W)
      → RecordEvent W
      → List (RecordEvent W)
      → Type 0
  Starts starts ends active top rest =
      (u : TaskUnit W) × (left : List (TaskUnit W)) × (top ≡ start_event u)
      × Pick u starts left
      × IsPlaying left ends (u ∷ active) rest

  abbrev pub Ends :
      List (TaskUnit W)
      → List (TaskUnit W)
      → List (TaskUnit W)
      → RecordEvent W
      → List (RecordEvent W)
      → Type 0
  Ends starts ends active top rest =
      (u : TaskUnit W) × (left : List (TaskUnit W)) × (others : List (TaskUnit W)) × (top
        ≡ finish_event u)
      × Pick u active left
      × IsPlaying starts others left rest

  move_start :
      (u : TaskUnit W) (starts left active : List (TaskUnit W))
      → Pick u starts left
      → Permᴰ (starts ++ active) (left ++ u ∷ active)
  move_start u starts left active p =
      Permᴰ.trans (Permᴰ.append_right active (Permᴰ-Pick p))
        (Permᴰ.symm (Permᴰ.middle u left active))

  -- The end of a unit that waits for its start is not first.
  end_later :
      (top : RecordEvent W) (rest m : List (RecordEvent W)) (starts left : List (TaskUnit W))
      (u : TaskUnit W)
      → All (λ (x : RecordEvent W). top.time ≤ℤ x.time) rest
      → Permᴰ rest (map start_event starts ++ m)
      → All InTime starts
      → top ≡ finish_event u
      → Pick u starts left
      → ⊥
  unfolding start_event finish_event
  end_later top rest m starts left u first perm timely e p =
      let After : RecordEvent W → Type 0 = λ x. top.time ≤ℤ x.time in
      let held = All-left After (map start_event starts) m (All-perm After perm first) in
      let (late, _) =
        All-Pick (λ v. After (start_event v)) p (All-map_inv After start_event starts held) in
      let (timely', _) = All-Pick InTime p timely in
      let same : top.time ≡ u.finished_time = ap (λ (x : RecordEvent W). x.time) e in
      ground (arith, rw same at late)

  module _ (starts ends active : List (TaskUnit W)) (e : RecordEvent W)
      (es : List (RecordEvent W)) where
    pub next_event :
        IsPlaying starts ends active (e ∷ es)
        → Starts starts ends active (earlier e es).0 (earlier e es).1
          ⊎ Ends starts ends active (earlier e es).0 (earlier e es).1
    next_event now =
        let (left, p, perm) =
          Pick-perm (Permᴰ.trans (Permᴰ.symm (earlier_perm e es)) now.holds) Pick.here in
        elim (Pick-append (map start_event starts) (map finish_event ends) p) [
          | inl (s, q, f) ↦
              let (u, s', g, picked, h) = Pick-map start_event starts q in
              inl (
                u,
                s',
                g,
                picked,
                record {
                  holds =
                      subst (Permᴰ (earlier e es).1) (f ∙ ap (λ l. l ++ map finish_event ends) h)
                        perm;
                  splits = Permᴰ.trans now.splits (move_start u starts s' active picked);
                  in_time = (All-Pick InTime picked now.in_time).1;
                },
              )
          | inr (s, q, f) ↦
              let (u, others, g, picked, h) = Pick-map finish_event ends q in
              let (r, from, perm') = Pick-perm now.splits picked in
              let held =
                subst (Permᴰ (earlier e es).1) (f ∙ ap (λ l. map start_event starts ++ l) h) perm in
              elim (Pick-append starts active from) [
                | inl (s', first, k) ↦ absurd (
                    end_later _ _ (map finish_event others) starts s' u (earlier_le e es).1 held
                      now.in_time g first)
                | inr (left', running, k) ↦ inr (
                  u,
                  left',
                  others,
                  g,
                  running,
                  record {
                    holds = held;
                    splits = subst (Permᴰ others) k perm';
                    in_time = now.in_time;
                  },
                )
              ]
        ]
