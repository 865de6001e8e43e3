-- ===== src/Worker/Fifo.antt =====
-- The ring buffer of src/migration/worker.c is a first-in first-out queue.
use native.Mathlib.Nat.{mod-add-mod}
use buckets.Prelude.{
  get_or-set_ne, get_or-set_self, ℕ-cases, ℕ, zero, suc, ◌+◌, ◌-◌, ◌%◌, ◌≤◌, ◌<◌, ◌≡◌, ◌≢◌, refl,
  sym, ap, ◌∙◌, subst, ◌⊎◌, inl, inr, true, false, List, [], ◌∷◌, ◌++◌, none, some, length, get_or,
  set, length-set, length-replicate, Bool-cases, leb, arith,
}
use buckets.Status.{ok, err, invalid_arg}
use buckets.Scanner.{Task}
use buckets.Worker.{TaskQueue, blank_task, task_queue_init, task_queue_push, task_queue_pop}

pub record IsValid (q : TaskQueue) : Type 0 where
  pub allocated : length q.tasks ≡ q.capacity
  pub positive : 0 < q.capacity
  pub fits : q.count ≤ q.capacity
  pub head_inside : q.head < q.capacity
  pub tail_lem : q.tail ≡ (q.head + q.count) % q.capacity

-- The `n` tasks from index `h` on, round the array.
unfoldable pub read_round : List Task → ℕ → ℕ → ℕ → List Task
read_round tasks capacity h zero = []
read_round tasks capacity h (suc n) =
    get_or tasks h blank_task ∷ read_round tasks capacity ((h + 1) % capacity) n

abbrev pub contents : TaskQueue → List Task
contents q = read_round q.tasks q.capacity q.head q.count

next_index : (h n c : ℕ) → ((h + 1) % c + n) % c ≡ (h + suc n) % c
next_index h n c = mod-add-mod (h + 1) c n ∙ ap (λ i. i % c) (omega arith)

next_inside : (h c : ℕ) → h < c → (h + 1) % c < c
next_inside h c lt = grind arith

apart : (h m c : ℕ) → h < c → 0 < m → m < c → (h + m) % c ≢ h
apart h m c lt pos_m lt_m e = grind arith

-- A write to the first free index changes none of the tasks before it.
read_round-set :
    (tasks : List Task) (c h n m : ℕ) (v : Task)
    → h < c
    → n ≤ m
    → m < c
    → read_round (set tasks ((h + m) % c) v) c h n ≡ read_round tasks c h n
unfolding read_round
read_round-set tasks c h zero m v lt le lt_m = refl
read_round-set tasks c h (suc n) zero v lt le lt_m = absurd (omega arith)
read_round-set tasks c h (suc n) (suc m) v lt le lt_m =
    rw
      (get_or-set_ne tasks ((h + suc m) % c) h v blank_task
        (apart h (suc m) c lt (omega arith) lt_m))
      (ap (◌∷◌ (get_or tasks h blank_task)) (
        subst
          (λ i. read_round (set tasks i v) c ((h + 1) % c) n ≡ read_round tasks c ((h + 1) % c) n)
          (next_index h m c)
          (read_round-set tasks c ((h + 1) % c) n m v (next_inside h c lt) (omega arith)
            (omega arith))))

read_round-last :
    (tasks : List Task) (c h n : ℕ)
    → h < c
    → read_round tasks c h (suc n)
      ≡ read_round tasks c h n ++ get_or tasks ((h + n) % c) blank_task ∷ []
unfolding read_round
read_round-last tasks c h zero lt = ap (λ i. get_or tasks i blank_task ∷ []) (grind arith)
read_round-last tasks c h (suc n) lt = ap (◌∷◌ (get_or tasks h blank_task)) (
    read_round-last tasks c ((h + 1) % c) n (next_inside h c lt)
    ∙ ap (λ i. read_round tasks c ((h + 1) % c) n ++ get_or tasks i blank_task ∷ [])
        (next_index h n c))

appended :
    (q : TaskQueue) (task : Task)
    → IsValid q
    → q.count < q.capacity
    → read_round (set q.tasks q.tail task) q.capacity q.head (q.count + 1) ≡ contents q ++ task ∷ []
appended q task v room =
    let at : ℕ = (q.head + q.count) % q.capacity in
    let same =
      read_round-set q.tasks q.capacity q.head q.count q.count task v.head_inside (omega arith)
        room in
    let written =
      get_or-set_self q.tasks at task blank_task (grind (arith, v.allocated, v.positive)) in
    rw v.tail_lem (
      ap (read_round (set q.tasks at task) q.capacity q.head) (omega arith)
      ∙ read_round-last (set q.tasks at task) q.capacity q.head q.count v.head_inside
      ∙ ap (λ xs. xs ++ get_or (set q.tasks at task) at blank_task ∷ []) same
      ∙ ap (λ x. contents q ++ x ∷ []) written)

popped :
    (q : TaskQueue) (n : ℕ)
    → q.count ≡ suc n
    → contents q
      ≡ get_or q.tasks q.head blank_task
        ∷ read_round q.tasks q.capacity ((q.head + 1) % q.capacity) (q.count - 1)
unfolding read_round
popped q n e =
    ap (read_round q.tasks q.capacity q.head) e
    ∙ ap
        (λ k.
          get_or q.tasks q.head blank_task
          ∷ read_round q.tasks q.capacity ((q.head + 1) % q.capacity) k)
        (omega arith)

-- The queue after a push with room, and after a pop.
abbrev pub with_task : TaskQueue → Task → TaskQueue
with_task q task = record q {
  tasks = set q.tasks q.tail task;
  tail = (q.tail + 1) % q.capacity;
  count = q.count + 1;
}

abbrev pub without_first : TaskQueue → TaskQueue
without_first q = record q { head = (q.head + 1) % q.capacity; count = q.count - 1 }

with_task-IsValid :
    (q : TaskQueue) (task : Task) → IsValid q → q.count < q.capacity → IsValid (with_task q task)
with_task-IsValid q task v room = record {
  allocated = length-set q.tasks q.tail task ∙ v.allocated;
  positive = v.positive;
  fits = omega arith;
  head_inside = v.head_inside;
  tail_lem =
      ap (λ i. (i + 1) % q.capacity) v.tail_lem
      ∙ mod-add-mod (q.head + q.count) q.capacity 1
      ∙ ap (λ i. i % q.capacity) (omega arith);
}

without_first-IsValid : (q : TaskQueue) → IsValid q → 0 < q.count → IsValid (without_first q)
without_first-IsValid q v some_there = record {
  allocated = v.allocated;
  positive = v.positive;
  fits = omega (arith, v.fits);
  head_inside = next_inside q.head q.capacity v.head_inside;
  tail_lem =
      v.tail_lem
      ∙ sym (
          next_index q.head (q.count - 1) q.capacity
          ∙ ap (λ i. (q.head + i) % q.capacity) (omega arith));
}

-- A push waits exactly on a full queue that is not shut down, is refused exactly after the shutdown,
-- and otherwise puts the task behind the others, in a queue that is as sound as before.
pub task_queue_push_lem :
    (q : TaskQueue) (task : Task)
    → IsValid q
    → ((task_queue_push q task ≡ none) × (q.count ≡ q.capacity) × (q.shutdown ≡ false))
      ⊎ ((task_queue_push q task ≡ some (err invalid_arg)) × (q.shutdown ≡ true))
      ⊎ ((q' : TaskQueue) × (task_queue_push q task ≡ some (ok q'))
          × (q.shutdown ≡ false)
          × (q.count < q.capacity)
          × IsValid q'
          × (contents q' ≡ contents q ++ task ∷ []))
unfolding task_queue_push
task_queue_push_lem q task v = elim (Bool-cases q.shutdown) [
  | inl down ↦ inr (inl (ground (arith, down), down))
  | inr up ↦ elim (Bool-cases (leb q.capacity q.count)) [
    | inl full ↦ inl (ground (arith, up, full), ground (arith, full, v.fits), up)
    | inr room ↦
        let room' : q.count < q.capacity = ground (arith, room) in
        inr (
          inr (
            with_task q task,
            ground (arith, up, room),
            up,
            room',
            with_task-IsValid q task v room',
            appended q task v room',
          ))
  ]
]

-- A pop waits exactly on an empty queue that is not shut down, tells the worker to leave exactly on an
-- empty queue that is, and otherwise takes the first of the tasks.
pub task_queue_pop_lem :
    (q : TaskQueue)
    → IsValid q
    → ((task_queue_pop q ≡ none) × (contents q ≡ []) × (q.shutdown ≡ false))
      ⊎ ((task_queue_pop q ≡ some none) × (contents q ≡ []) × (q.shutdown ≡ true))
      ⊎ ((task : Task) × (q' : TaskQueue) × (task_queue_pop q ≡ some (some (task, q')))
          × IsValid q'
          × (contents q ≡ task ∷ contents q'))
unfolding task_queue_pop read_round
task_queue_pop_lem q v = elim (ℕ-cases q.count) [
  | inl empty ↦ elim (Bool-cases q.shutdown) [
    | inl down ↦ inr (inl (ground (arith, down, empty), rw (empty, read_round) refl, down))
    | inr up ↦ inl (ground (arith, up, empty), rw (empty, read_round) refl, up)
  ]
  | inr (n, some_there) ↦ inr (
      inr (
        get_or q.tasks q.head blank_task,
        without_first q,
        ground (arith, some_there),
        without_first-IsValid q v (omega (arith, some_there)),
        popped q n some_there,
      ))
]

pub init-IsValid : (capacity : ℕ) → 0 < capacity → IsValid (task_queue_init capacity)
unfolding task_queue_init
init-IsValid capacity h = record {
  allocated = length-replicate capacity blank_task;
  positive = h;
  fits = omega arith;
  head_inside = h;
  tail_lem = grind arith;
}

-- The queue that a push or a pop leaves.
pub push_inv :
    (q q' : TaskQueue) (task : Task)
    → IsValid q
    → task_queue_push q task ≡ some (ok q')
    → IsValid q' × (q'.count ≡ q.count + 1) × (q.shutdown ≡ false) × (q'.shutdown ≡ false)
unfolding task_queue_push
push_inv q q' task v h = elim (Bool-cases q.shutdown) [
  | inl down ↦ absurd (ground (arith, down, h))
  | inr up ↦ elim (Bool-cases (leb q.capacity q.count)) [
    | inl full ↦ absurd (ground (arith, up, full, h))
    | inr room ↦
        let e : with_task q task ≡ q' = ground (arith, up, room, h) in
        subst
          (λ r. IsValid r × (r.count ≡ q.count + 1) × (q.shutdown ≡ false) × (r.shutdown ≡ false)) e
          (with_task-IsValid q task v (ground (arith, room)), refl, up, up)
  ]
]

pub pop_inv :
    (q q' : TaskQueue) (task : Task)
    → IsValid q
    → task_queue_pop q ≡ some (some (task, q'))
    → IsValid q' × (q.count ≡ q'.count + 1) × (q'.shutdown ≡ q.shutdown)
unfolding task_queue_pop
pop_inv q q' task v h = elim (ℕ-cases q.count) [
  | inl empty ↦ absurd (elim (Bool-cases q.shutdown) [
    | inl down ↦ ground (arith, down, empty, h)
    | inr up ↦ ground (arith, up, empty, h)
  ])
  | inr (n, some_there) ↦
      let e : without_first q ≡ q' = ground (arith, some_there, h) in
      subst (λ r. IsValid r × (q.count ≡ r.count + 1) × (r.shutdown ≡ q.shutdown)) e
        (without_first-IsValid q v (omega (arith, some_there)), omega (arith, some_there), refl)
]

pub leave_inv : (q : TaskQueue) → task_queue_pop q ≡ some none → (q.count ≡ 0) × (q.shutdown ≡ true)
unfolding task_queue_pop
leave_inv q h = elim (Bool-cases q.shutdown) [
  | inl down ↦ (ground (arith, down, h), down)
  | inr up ↦ absurd (ground (arith, up, h))
]
