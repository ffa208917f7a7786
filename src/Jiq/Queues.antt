-- ===== src/Jiq/Queues.antt =====
-- The queues of jiq/jiq.c where at most one of them is queued.
use ldd3_workshop.Prelude.{◌≡◌, ◌⊎◌, inl, inr, refl, Bool, true, false, arith}
use ldd3_workshop.Jiq.Sharing.{
  JiqFile, wq, wq_delayed, by_tasklet, run_timer, Queues, queued, queue, nothing_queued,
  after_sleep,
}

-- Nothing but the queue of one file may be queued.
abbrev pub only : JiqFile → Bool → Queues
only k b = queue k b nothing_queued

pub queue-only : (k : JiqFile) (b c : Bool) → queue k b (only k c) ≡ only k b
queue-only wq b c = refl
queue-only wq_delayed b c = refl
queue-only by_tasklet b c = refl
queue-only run_timer b c = refl

pub only-none : (k : JiqFile) → only k false ≡ nothing_queued
only-none wq = refl
only-none wq_delayed = refl
only-none by_tasklet = refl
only-none run_timer = refl

-- A queue that runs is that of the reader.
pub queued-only : (k k' : JiqFile) (b : Bool) → queued k (only k' b) ≡ true → (k ≡ k') × (b ≡ true)
queued-only wq wq b e = (refl, e)
queued-only wq_delayed wq_delayed b e = (refl, e)
queued-only by_tasklet by_tasklet b e = (refl, e)
queued-only run_timer run_timer b e = (refl, e)
queued-only wq wq_delayed b e = ground (arith, e)
queued-only wq by_tasklet b e = ground (arith, e)
queued-only wq run_timer b e = ground (arith, e)
queued-only wq_delayed wq b e = ground (arith, e)
queued-only wq_delayed by_tasklet b e = ground (arith, e)
queued-only wq_delayed run_timer b e = ground (arith, e)
queued-only by_tasklet wq b e = ground (arith, e)
queued-only by_tasklet wq_delayed b e = ground (arith, e)
queued-only by_tasklet run_timer b e = ground (arith, e)
queued-only run_timer wq b e = ground (arith, e)
queued-only run_timer wq_delayed b e = ground (arith, e)
queued-only run_timer by_tasklet b e = ground (arith, e)

-- Where the sleep is over nothing is queued any more.
pub after_sleep-only :
    (k : JiqFile) (b : Bool)
    → (b ≡ false) ⊎ (k ≡ run_timer)
    → after_sleep k (only k b) ≡ nothing_queued
after_sleep-only k b (inr e) = rw e refl
after_sleep-only wq b (inl e) = rw e refl
after_sleep-only wq_delayed b (inl e) = rw e refl
after_sleep-only by_tasklet b (inl e) = rw e refl
after_sleep-only run_timer b (inl e) = refl

pub sleeps_on : (k : JiqFile) (q : Queues) → ¬ (k ≡ run_timer) → after_sleep k q ≡ q
sleeps_on wq q other = refl
sleeps_on wq_delayed q other = refl
sleeps_on by_tasklet q other = refl
sleeps_on run_timer q other = absurd (other refl)

pub only-queued : (k : JiqFile) (b : Bool) → queued k (only k b) ≡ b
only-queued wq b = refl
only-queued wq_delayed b = refl
only-queued by_tasklet b = refl
only-queued run_timer b = refl
