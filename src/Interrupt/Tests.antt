-- ===== src/Interrupt/Tests.antt =====
-- A sleeper in a small memory: 108 runs, 100 and 104 are ready, the manager of the timers is at 16 with no
-- timers, and its lock is at 12.
use lutf.Base.{refl, [], ◌∷◌, arith, Returns}
use lutf.Interrupt.{end_of_slice}
use lutf.Interrupt.Samples.{sleepy_clock, sleepy_clock-Sleepy}
use lutf.Interrupt.Sleeper.{Slept, end_of_slice-Slept}

end_of_slice-Slept_example :
    Returns
      (λ _. Slept sleepy_clock [] (λ _. []) 7 700 100 (104 ∷ []))
      (end_of_slice 5 7 sleepy_clock)
end_of_slice-Slept_example =
    end_of_slice-Slept 5 7 sleepy_clock [] (λ _. []) 700 (800 ∷ []) 100 (104 ∷ [])
      sleepy_clock-Sleepy refl (ground arith)
