-- ===== src/Kernel/Toy/Lawful.antt =====
-- The small kernel meets the assumptions of `Kernel.Laws` and `Kernel.Flags`.
use close_fds.Base.{arith}
use close_fds.Kernel.Toy.{toy}
use close_fds.Kernel.Laws.{IsTable}
use close_fds.Kernel.Flags.{IsFlagTable}

pub toy-IsTable : IsTable toy
toy-IsTable = record {
  getfd-neg = λ fd w h. ground arith;
  getfd_failed = λ fd w h. ground arith;
  setfd_absent = λ fd flags j w closed. ground arith;
  getfd-close = λ i j w. ground arith;
  getfd-closefrom = λ i j w. ground arith;
  getfd-close_range = λ first last j w e. ground arith;
  close_range_failed = λ first last flags j w e. ground arith;
  close_range_inverted = λ first last flags w lt e. ground arith;
}

pub toy-IsFlagTable : IsFlagTable toy
toy-IsFlagTable = record {
  getfd-setfd = λ i j w h. ground arith;
  getfd-mark_range = λ first last j w e. ground arith;
}
