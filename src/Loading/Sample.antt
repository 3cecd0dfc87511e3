-- ===== src/Loading/Sample.antt =====
-- Values of a small language of objects, with whole numbers for doubles, and some input in it.
use Prim.Native.String.{String}
use text.Mathlib.Text.{◌==◌}
use h_axe_simulation.Prelude.{List, [], ◌∷◌, Option, none, some, if◌then◌else◌}
use h_axe_simulation.Prelude.Int.{ℤ, pos}
use h_axe_simulation.Loading.{Json}

mutual
  pub data Value : Type 0 where
    number : ℤ → Value
    word : String → Value
    vector : Values → Value
    object : Fields → Value

  pub data Values : Type 0 where
    done : Values
    next : Value → Values → Values

  pub data Fields : Type 0 where
    close : Fields
    field : String → Value → Fields → Fields

abbrev find_field : Fields → String → Option Value
find_field close key = none
find_field (field k v fs) key = if k == key then some v else find_field fs key

abbrev to_list : Values → List Value
to_list done = []
to_list (next v vs) = v ∷ to_list vs

abbrev find_of : Value → String → Option Value
find_of (object fs) key = find_field fs key
find_of _ key = none

abbrev number_of : Value → Option ℤ
number_of (number k) = some k
number_of _ = none

abbrev text_of_value : Value → Option String
text_of_value (word s) = some s
text_of_value _ = none

abbrev vector_of : Value → Option (List Value)
vector_of (vector vs) = some (to_list vs)
vector_of _ = none

abbrev pub values : Json Value ℤ
values = record {
  find = find_of;
  int_of = number_of;
  double_of = number_of;
  text_of = text_of_value;
  items_of = vector_of;
}

abbrev pub one : Value → Value
one v = vector (next v done)

-- A task of the processor, which takes and keeps memory for two seconds.
abbrev computing : Value
computing = object (
    field "taskid" (number (pos 0)) (
      field "shardid" (number (pos 0)) (
        field "resourcetype" (number (pos 0))
          (field "request" (number (pos 2)) (field "memory" (number (pos 5)) close)))))

abbrev pub sample_job : Value
sample_job = object (
    field "jobid" (number (pos 0)) (
      field "userid" (number (pos 0)) (
        field "submissiontime" (number (pos 1))
          (field "subgraph" (one (object (field "shardtask" (one computing) close))) close))))

abbrev pub sample_worker : Value
sample_worker = object (
    field "cpu" (number (pos 2)) (
      field "memory" (number (pos 100))
        (field "disk" (number (pos 60)) (field "network" (number (pos 60)) close))))

-- The three files of a simulation.
abbrev pub files : String → Option Value
files name =
    if name == "workers.json"
    then some (object (field "worker" (one sample_worker) close))
    else if name == "jobs.json"
    then some (object (field "job" (one sample_job) close))
    else if name == "alg.json"
    then some (object (field "TaskPlacement" (word "FIFO") close))
    else none
