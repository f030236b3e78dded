-- ===== src/Examples/Processor.antt =====
-- A processor that enters the kernel and leaves it.
use door_rtos.Base.{◌+◌, false, refl, arith}
use door_rtos.Boot.Stack.{init_local_stack}
use door_rtos.Machine.{Machine}
use door_rtos.Machine.Handler.{enter, leave}
use door_rtos.Machine.Handler.Resume.{Resumed, leave-Resumed}
use door_rtos.Machine.Handler.Start.{stores, Started, leave-Started}

-- A process in user mode whose registers are 101, 102 and so on.
abbrev running_process : Machine
running_process = record {
  reg = λ i. 101 + i;
  sp = 0x2000;
  pc = 0x4000;
  sr = 4;
  mem = λ a. 7;
  tmp_sp = 0;
}

-- Another process runs, and its registers are 0, when the first one is resumed.
abbrev other_process : Machine
other_process = record (enter 24 0x4080 0x5000 running_process) {
  reg = λ i. 0;
  sp = 0x3000;
  pc = 0x5100;
  sr = 0x2700;
}

leave-Resumed_example : Resumed running_process (leave other_process)
leave-Resumed_example =
    leave-Resumed 24 0x4080 0x5000 running_process other_process (omega arith) (omega arith) refl
      (λ b l u. refl)

-- The stack of a process with the entry 0x6000, seen from the kernel.
abbrev before_start : Machine
before_start = record running_process {
  mem = stores (init_local_stack 0x2400 0x6000 false).0 (λ a. 7);
  tmp_sp = (init_local_stack 0x2400 0x6000 false).1;
}

leave-Started_example : Started 0x2400 0x6000 false (leave before_start)
leave-Started_example =
    leave-Started 0x2400 0x6000 false (λ a. 7) before_start (omega arith) refl (λ a l u. refl)
