-- ===== src/Pipe/Release.antt =====
-- What a release (scull/pipe.c) does to the counts of a pipe device, and that its queue does not look at
-- them.
use ldd3_workshop.Prelude.{
  ℕ, ◌+◌, ◌^◌, ◌<◌, ◌≡◌, ap, ◌∙◌, false, none, List, arith, if◌then◌else◌, ◌==◌, add64, sub64,
}
use ldd3_workshop.Kernel.{ok, Kernel}
use ldd3_workshop.Pipe.Device.{ScullPipe, File, Session, unlock}
use ldd3_workshop.Pipe.Ring.{contents, waiting, fill}
use ldd3_workshop.Pipe.Open.{uncounted, freed, scull_p_fasync, scull_p_release}
use ldd3_workshop.Pipe.History.{History, IsFifo}

-- The queue does not look at the counts.
pub recounted :
    (h : History) (r w : ℕ) (q : List ℕ)
    → IsFifo h
    → IsFifo (record h { dev = record h.dev { readers = r; writers = w; async_q = q } })
unfolding contents waiting fill
recounted h r w q f = record {
  is_open = record {
    some_room = f.is_open.some_room;
    small = f.is_open.small;
    allocated = f.is_open.allocated;
    end_is = f.is_open.end_is;
    rp_in = f.is_open.rp_in;
    wp_in = f.is_open.wp_in;
  };
  in_order = f.in_order;
}

module _ (k : Kernel) where
  -- The device after a release that got the lock, with `r` readers and `w` writers left.
  abbrev pub left : File → ScullPipe → ℕ → ℕ → ScullPipe
  left file d r w = record d {
    readers = r;
    writers = w;
    async_q = k.fasync_helper file.id false d.async_q;
  }

  pub release_outcome :
      (file : File) (s : Session) (r w : ℕ)
      → s.dev.readers ≡ (if file.mode_read then 1 else 0) + r
      → s.dev.writers ≡ (if file.mode_write then 1 else 0) + w
      → r < 2 ^ 63
      → w < 2 ^ 63
      → let d = left file s.dev r w in
        scull_p_release k file false s
        ≡ (ok 0, record (unlock s) { dev = if r + w == 0 then record d { buf = none } else d })
  unfolding scull_p_release
  release_outcome file s r w hr hw br bw =
      let d = left file s.dev r w in
      let reads' : (if file.mode_read then sub64 s.dev.readers 1 else s.dev.readers) ≡ r =
        ground arith in
      let writes' : (if file.mode_write then sub64 s.dev.writers 1 else s.dev.writers) ≡ w =
        ground arith in
      let exact : add64 r w ≡ r + w = omega arith in
      let same : uncounted file (scull_p_fasync k file false s.dev) ≡ d =
        λ i. record d { readers = reads' i; writers = writes' i } in
      ap (λ x. (ok 0, record (unlock s) { dev = x }))
        (ap freed same ∙ ap (λ (m : ℕ). if m == 0 then record d { buf = none } else d) exact)
