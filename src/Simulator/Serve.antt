-- ===== src/Simulator/Serve.antt =====
-- src/simulator.h: the loop of `Serve`.
use h_axe_simulation.Prelude.{ℕ, zero, suc, ◌≡◌, refl, List, none, some, ok, fail, no_fuel, ◌>>=◌}
use h_axe_simulation.Number.{Double}
use h_axe_simulation.Event.{Event, top_pop}
use h_axe_simulation.Simulator.{Simulator, serve_event, serve}

module _ {W : Type 0} ⦃d : Double W⦄ where
  pub serve_empty : (n : ℕ) (sim : Simulator W) → top_pop sim.queue ≡ none → serve n sim ≡ ok sim
  unfolding serve
  serve_empty zero sim h = rw (serve, h) refl
  serve_empty (suc n) sim h = rw (serve, h) refl

  pub serve_next :
      (n : ℕ) (sim : Simulator W) (event : Event W) (rest : List (Event W))
      → top_pop sim.queue ≡ some (event, rest)
      → serve (suc n) sim ≡ (serve_event event (record sim { queue = rest }) >>= serve n)
  unfolding serve
  serve_next n sim event rest h = rw (serve, h) refl

  pub serve_out_of_fuel :
      (sim : Simulator W) (event : Event W) (rest : List (Event W))
      → top_pop sim.queue ≡ some (event, rest)
      → serve 0 sim ≡ fail no_fuel
  unfolding serve
  serve_out_of_fuel sim event rest h = rw (serve, h) refl
