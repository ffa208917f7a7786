-- ===== src/Edu/Watch.antt =====
-- A test that waits for its interrupt (`test_irq_show` of edu/sysfs.c) with the handlers and the timeout
-- of edu/irq.c: what will wake it up.
use ldd3_workshop.Prelude.{
  ℕ, suc, ◌<◌, ◌≡◌, ◌⊎◌, inl, inr, refl, Bool, true, false, ◌||◌, Option, none, some, arith,
  if◌then◌else◌, Bool-cases,
}
use mathlib.Core.Path.{subst}
use ldd3_workshop.Edu.State.{QeduDevice, qedu_is_irq_done, qedu_set_waiting_irq}
use ldd3_workshop.Edu.Irq.{
  is_irq_raised, handle_irq_locked, qedu_handle_irq, qedu_thr_handle_irq, qedu_timeout,
}
use ldd3_workshop.Edu.TestIrq.{start_test, finish_test}

-- Where the process of a test is: in no test; with the lock released, before `prepare_to_wait`; in the
-- queue, before it looks at the flags again without the lock; asleep; or done with waiting, before it
-- takes the lock again. In the queue it has the number of wake-ups sent before.
pub data Phase : Type 0 where
  away released back : Phase
  in_queue asleep : ℕ → Phase

-- The device, where a test is, and whether the device holds an interrupt raised that no handler has
-- dealt with.
pub record Bedside : Type 0 where
  pub dev : QeduDevice
  pub phase : Phase
  pub owed : Bool

-- A test that begins, or has taken the lock again, looks at the flags: it ends, or releases the lock.
abbrev pub looks : QeduDevice → Bool → Bedside
looks edu owed =
    if qedu_is_irq_done edu
    then record { dev = (finish_test edu).1; phase = away; owed = owed }
    else record { dev = edu; phase = released; owed = owed }

-- Whether `signal_pending` is asked next, at the latest when the sleep ends.
abbrev pub is_waiting : Phase → Bool
is_waiting away = false
is_waiting released = false
is_waiting back = true
is_waiting (in_queue n) = true
is_waiting (asleep n) = true

-- The pieces of code that run while the driver is attached, each with the lock held or a single look at
-- the state. A signal ends a test that waits.
pub data Move : Bedside → Bedside → Type 0 where
  hard_irq :
      (intr_status : ℕ) (locked : Bool) (s : Bedside)
      → Move s (record s {
        dev = (qedu_handle_irq intr_status locked s.dev).1;
        owed = if is_irq_raised intr_status then (if locked then false else true) else s.owed;
      })
  thread_irq :
      (intr_status : ℕ) (s : Bedside)
      → Move s (record s { dev = (qedu_thr_handle_irq intr_status s.dev).1; owed = false })
  timeout :
      (intr_status status dma_status jiffies : ℕ) (s : Bedside)
      → Move s (record s {
        dev = qedu_timeout intr_status status dma_status jiffies s.dev;
        owed = is_irq_raised intr_status || s.owed;
      })
  start :
      (jiffies : ℕ) (s : Bedside)
      → s.dev.state.shutdown ≡ false
      → s.dev.state.irq_wait ≡ false
      → Move s (looks (start_test jiffies s.dev) s.owed)
  prepare : (s : Bedside) → s.phase ≡ released → Move s (record s { phase = in_queue s.dev.wakes })
  recheck :
      (s : Bedside) (n : ℕ)
      → s.phase ≡ in_queue n
      → Move s (record s { phase = if qedu_is_irq_done s.dev then back else asleep n })
  wake :
      (s : Bedside) (n : ℕ)
      → s.phase ≡ asleep n
      → n < s.dev.wakes
      → Move s (record s { phase = back })
  take_lock : (s : Bedside) → s.phase ≡ back → Move s (looks s.dev s.owed)
  interrupt : (s : Bedside) → is_waiting s.phase ≡ true → Move s (record s { phase = away })

pub data Moves : Bedside → Bedside → Type 0 where
  stay : (s : Bedside) → Moves s s
  move : {s t u : Bedside} → Move s t → Moves t u → Moves s u

abbrev pub is_set : Option ℕ → Bool
is_set none = false
is_set (some t) = true

-- What is to come for a test: it is done, or the timer or an interrupt is to come.
abbrev pub Hopes : QeduDevice → Bool → Type 0
Hopes edu owed =
    (qedu_is_irq_done edu ≡ true)
    ⊎ ((qedu_is_irq_done edu ≡ false) × ((is_set edu.timer ≡ true) ⊎ (owed ≡ true)))

-- A wake-up that was sent since a test came to the queue finds it done.
abbrev pub Awakes : QeduDevice → ℕ → Type 0
Awakes edu n = (n ≡ edu.wakes) ⊎ ((n < edu.wakes) × (qedu_is_irq_done edu ≡ true))

-- A test that sleeps was woken up, and will find that it is done, or it has the timer or an interrupt
-- to come.
unfoldable pub Awaits : QeduDevice → Bool → Phase → Type 0
Awaits edu owed away = Unit
Awaits edu owed released = (edu.state.irq_wait ≡ true) × Hopes edu owed
Awaits edu owed back = (edu.state.irq_wait ≡ true) × (qedu_is_irq_done edu ≡ true)
Awaits edu owed (in_queue n) = (edu.state.irq_wait ≡ true) × Awakes edu n × Hopes edu owed
Awaits edu owed (asleep n) =
    (edu.state.irq_wait ≡ true)
    × (((n < edu.wakes) × (qedu_is_irq_done edu ≡ true))
        ⊎ ((n ≡ edu.wakes)
            × (qedu_is_irq_done edu ≡ false)
            × ((is_set edu.timer ≡ true) ⊎ (owed ≡ true))))

abbrev pub IsWatched : Bedside → Type 0
IsWatched s = Awaits s.dev s.owed s.phase

-- What a handler does: it ends the test and wakes it up, or it leaves the flags alone, and something is
-- to come if it was before.
Handled : QeduDevice → Bool → QeduDevice → Bool → Type 0
Handled edu owed edu' owed' =
    (edu'.state.irq_wait ≡ edu.state.irq_wait)
    × (((edu'.wakes ≡ suc edu.wakes) × (qedu_is_irq_done edu' ≡ true))
        ⊎ ((edu'.wakes ≡ edu.wakes)
            × (qedu_is_irq_done edu' ≡ qedu_is_irq_done edu)
            × ((is_set edu'.timer ≡ true)
                ⊎ ((owed' ≡ true) ⊎ ((is_set edu'.timer ≡ is_set edu.timer) × (owed' ≡ owed))))))

hard_irq-Handled :
    (i : ℕ) (l : Bool) (s : Bedside)
    → Handled s.dev s.owed
        (qedu_handle_irq i l s.dev).1
        (if is_irq_raised i then (if l then false else true) else s.owed)
unfolding Handled qedu_handle_irq handle_irq_locked qedu_is_irq_done
hard_irq-Handled i l s = ground arith

timeout-Handled :
    (i a b j : ℕ) (s : Bedside)
    → Handled s.dev s.owed (qedu_timeout i a b j s.dev) (is_irq_raised i || s.owed)
unfolding Handled qedu_timeout qedu_is_irq_done
timeout-Handled i a b j s = ground arith

Handled-Awaits :
    (edu : QeduDevice) (owed : Bool) (edu' : QeduDevice) (owed' : Bool) (phase : Phase)
    → Handled edu owed edu' owed'
    → Awaits edu owed phase
    → Awaits edu' owed' phase
unfolding Handled Awaits
Handled-Awaits edu owed edu' owed' away h v = tt
Handled-Awaits edu owed edu' owed' released h v = ground (arith, h, v)
Handled-Awaits edu owed edu' owed' back h v = ground (arith, h, v)
Handled-Awaits edu owed edu' owed' (in_queue n) h v = ground (arith, h, v)
Handled-Awaits edu owed edu' owed' (asleep n) h v = ground (arith, h, v)

thread_irq-Handled :
    (i : ℕ) (s : Bedside) → Handled s.dev s.owed (qedu_thr_handle_irq i s.dev).1 false
unfolding Handled qedu_thr_handle_irq handle_irq_locked qedu_is_irq_done
thread_irq-Handled i s = (refl, inl (refl, refl))

looks-IsWatched :
    (edu : QeduDevice) (owed : Bool)
    → edu.state.irq_wait ≡ true
    → (qedu_is_irq_done edu ≡ true) ⊎ ((is_set edu.timer ≡ true) ⊎ (owed ≡ true))
    → IsWatched (looks edu owed)
unfolding Awaits
looks-IsWatched edu owed waits next = elim (Bool-cases (qedu_is_irq_done edu)) [
  | inl done ↦
      (let ends : looks edu owed ≡ record { dev = (finish_test edu).1; phase = away; owed = owed } =
          rw done refl in
        rw ends tt)
  | inr more ↦
      (let goes_on : looks edu owed ≡ record { dev = edu; phase = released; owed = owed } =
          rw more refl in
        rw goes_on (waits, inr (more, ground (arith, next, more))))
]

start-IsWatched :
    (j : ℕ) (edu : QeduDevice) (owed : Bool) → IsWatched (looks (start_test j edu) owed)
unfolding start_test qedu_set_waiting_irq
start-IsWatched j edu owed = looks-IsWatched (start_test j edu) owed refl (inr (inl refl))

-- The look at the flags without the lock.
recheck-Awaits :
    (edu : QeduDevice) (owed : Bool) (n : ℕ)
    → Awaits edu owed (in_queue n)
    → Awaits edu owed (if qedu_is_irq_done edu then back else asleep n)
unfolding Awaits
recheck-Awaits edu owed n v = elim (Bool-cases (qedu_is_irq_done edu)) [
  | inl done ↦
      (let to : (if qedu_is_irq_done edu then back else asleep n) ≡ back = rw done refl in
        rw to (v.0, done))
  | inr more ↦
      (let to : (if qedu_is_irq_done edu then back else asleep n) ≡ asleep n = rw more refl in
        rw to (v.0, ground (arith, v, more)))
]

Move-IsWatched : {s t : Bedside} → Move s t → IsWatched s → IsWatched t
unfolding Awaits
Move-IsWatched (hard_irq i l s) v = Handled-Awaits _ _ _ _ s.phase (hard_irq-Handled i l s) v
Move-IsWatched (thread_irq i s) v = Handled-Awaits _ _ _ _ s.phase (thread_irq-Handled i s) v
Move-IsWatched (timeout i a b j s) v = Handled-Awaits _ _ _ _ s.phase (timeout-Handled i a b j s) v
Move-IsWatched (start j s up free) v = start-IsWatched j s.dev s.owed
Move-IsWatched (prepare s e) v =
    let (waits, hopes) = subst (Awaits s.dev s.owed) e v in (waits, inl refl, hopes)
Move-IsWatched (recheck s n e) v = recheck-Awaits s.dev s.owed n (subst (Awaits s.dev s.owed) e v)
Move-IsWatched (wake s n e l) v =
    let v' : Awaits s.dev s.owed (asleep n) = subst (Awaits s.dev s.owed) e v in
    ground (arith, v', l)
Move-IsWatched (take_lock s e) v =
    let (waits, done) = subst (Awaits s.dev s.owed) e v in
    looks-IsWatched s.dev s.owed waits (inl done)
Move-IsWatched (interrupt s e) v = tt

-- Whatever interrupts, timeouts, tests and signals come, in any order, also between the moment at which
-- a test releases the lock, the moment at which it enters the queue, its look at the flags without the
-- lock, and its sleep, while the driver is attached: if it was so at the start, a test that sleeps
-- either was woken up and finds that it is done, or is not done, and then the timer is pending or the
-- device holds an interrupt that a handler has yet to deal with; and a test that is about to sleep is
-- done, or has one of these two to come.
pub Moves-IsWatched : (s t : Bedside) → Moves s t → IsWatched s → IsWatched t
Moves-IsWatched s t (stay s') v = v
Moves-IsWatched s t (move first rest) v = Moves-IsWatched _ _ rest (Move-IsWatched first v)
