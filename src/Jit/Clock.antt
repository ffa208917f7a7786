-- ===== src/Jit/Clock.antt =====
-- `jit_currenttime_show` of jit/jit.c: the file of the current time.
use ldd3_workshop.Prelude.{ℕ}
use ldd3_workshop.Kernel.{Ret, ok}

-- `struct timespec64`.
pub record Timespec64 : Type 0 where
  pub tv_sec : ℕ
  pub tv_nsec : ℕ

-- The clocks of the kernel, as they are when the file is read.
pub record Clocks : Type 0 where
  pub jiffies : ℕ
  pub jiffies_64 : ℕ
  pub real_time : Timespec64
  pub coarse_time : Timespec64

-- A number that is printed, with the least number of its digits.
pub record Field : Type 0 where
  pub value : ℕ
  pub width : ℕ

-- The six numbers of the line. The nanoseconds of the first time have six digits.
pub record TimeLine : Type 0 where
  pub j1 : Field
  pub j2 : Field
  pub tv1_sec : Field
  pub tv1_nsec : Field
  pub tv2_sec : Field
  pub tv2_nsec : Field

abbrev pub jit_currenttime_show : Clocks → Ret × TimeLine
jit_currenttime_show c = (
  ok 0,
  record {
    j1 = record { value = c.jiffies; width = 8 };
    j2 = record { value = c.jiffies_64; width = 16 };
    tv1_sec = record { value = c.real_time.tv_sec; width = 10 };
    tv1_nsec = record { value = c.real_time.tv_nsec; width = 6 };
    tv2_sec = record { value = c.coarse_time.tv_sec; width = 40 };
    tv2_nsec = record { value = c.coarse_time.tv_nsec; width = 9 };
  },
)
