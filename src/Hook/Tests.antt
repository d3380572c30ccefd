-- ===== src/Hook/Tests.antt =====
-- The theorems about the hooks at a small memory, with a system that remembers the status flags.
use lutf.Base.{
  ℕ, suc, ◌≡◌, refl, ◌==◌, if◌then◌else◌, leb, not, ◌&&◌, [], ◌∷◌, arith, Option, none, some, Cmd,
  ok, spin, Returns, true, ◌>>=◌,
}
use lutf.Hook.{
  FcntlCmd, f_dupfd, f_getfd, f_setfd, f_getfl, f_setfl, f_getlk, f_setlk, f_setlkw, other_cmd,
  Hooks, fresh_attributes, attributes_length, is_negative, has_nonblock, fcntl, socket, usleep,
}
use lutf.Hook.Descriptors.{is_fault, fcntl_bounds, fcntl_leaks, socket-nonblocking}
use lutf.Hook.Nap.{asking, usleep-Awake}
use lutf.Interrupt.{end_of_slice}
use lutf.Interrupt.Samples.{sleepy_clock, sleepy_clock-Sleepy}
use lutf.Interrupt.Sleeper.{Naps}
use lutf.Store.{Store}
use lutf.Tasks.Queue.{IsReady}
use lutf.Timers.Run.{Callbacks}

-- The world is the number that the next descriptor gets, and the status flags of all.
abbrev World : Type 0
World = ℕ × ℕ

abbrev flag_of : Option ℕ → ℕ
flag_of none = 0
flag_of (some p) = p

abbrev os_fcntl : (fd : ℕ) → FcntlCmd → Option ℕ → World → ℕ × World
os_fcntl fd f_setfl arg w = (0, (w.0, flag_of arg))
os_fcntl fd f_getfl arg w = (w.1, w)
os_fcntl fd f_dupfd arg w = (w.0, w)
os_fcntl fd f_getfd arg w = (0, w)
os_fcntl fd f_setfd arg w = (0, w)
os_fcntl fd f_getlk arg w = (0, w)
os_fcntl fd f_setlk arg w = (0, w)
os_fcntl fd f_setlkw arg w = (0, w)
os_fcntl fd (other_cmd n) arg w = (0, w)

abbrev os_socket : (domain type protocol : ℕ) → World → ℕ × World
os_socket domain type protocol w = (w.0, (suc w.0, w.1))

abbrev os_usleep : ℕ → Cmd Store ℕ
os_usleep usec s = ok 0 s

abbrev quiet : Callbacks
quiet timer_fn p_param s = ok tt s

abbrev hooks : Hooks World
hooks = record {
  store = sleepy_clock.store;
  fd_2_attributes = λ fd. if fd == 3 then some fresh_attributes else none;
  world = (5, 2);
}

fcntl_bounds_example :
    is_fault (fcntl os_fcntl 2000000 f_getfl 0 hooks)
    ≡ (leb attributes_length 2000000 && not (is_negative 2000000))
fcntl_bounds_example =
    fcntl_bounds os_fcntl 2000000 700 (800 ∷ []) f_getfl 0 hooks refl (ground arith)

fcntl_leaks_example :
    Returns
      (λ flags h'.
        (has_nonblock flags ≡ true)
        × (h'.fd_2_attributes 3 ≡ some (record fresh_attributes { fd_flag = 1 })))
      ((fcntl os_fcntl 3 f_setfl 1 >>= λ _. fcntl os_fcntl 3 f_getfl 0) hooks)
fcntl_leaks_example =
    fcntl_leaks os_fcntl 3 1 fresh_attributes hooks (λ p w. (refl, refl)) (omega arith) refl
      (ground arith) refl refl

socket-nonblocking_example :
    Returns
      (λ r h'.
        (r ≡ 5)
        × (h'.fd_2_attributes 5
            ≡ some (record { domain = 2; fd_flag = 2; read_timeout = 1000; wirte_timeout = 1000 }))
        × (has_nonblock (os_fcntl 5 f_getfl none h'.world).0 ≡ true))
      (socket os_fcntl os_socket 2 1 0 hooks)
socket-nonblocking_example =
    socket-nonblocking os_fcntl os_socket 2 1 0 5 2 700 (800 ∷ []) (6, 2) (6, 2) hooks
      (λ p w. (refl, refl)) refl refl (omega arith) refl refl (ground arith) (ground arith) refl

usleep-Awake_example :
    (usleep os_usleep 100000 sleepy_clock.store ≡ spin (asking sleepy_clock.store 100))
    × Returns
        (λ _ c'.
          (c'.store.current_task ≡ 100)
          × IsReady c'.store.links (104 ∷ [])
          × Naps quiet 300 5 7 108 (104 ∷ []) 1100 c')
        (end_of_slice 5 7 (record sleepy_clock { store = asking sleepy_clock.store 100 }))
usleep-Awake_example =
    usleep-Awake os_usleep quiet 300 5 7 100000 sleepy_clock 700 (800 ∷ []) 100 (104 ∷ [])
      sleepy_clock-Sleepy refl (ground arith) (omega arith) (omega arith) (omega arith)
      (omega arith) (omega arith) (omega arith)
