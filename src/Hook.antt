-- ===== src/Hook.antt =====
-- The hooks of src/hook.c: `fcntl`, `socket` and the functions that sleep, with what they call in the C library
-- as parameters. An `int` is its word of 32 bits.
pub mod Descriptors
pub mod Nap
mod Tests
use lutf.Base.{
  ℕ, ◌+◌, ◌-◌, ◌*◌, ◌/◌, ◌%◌, ◌^◌, Bool, true, false, not, ◌&&◌, ◌==◌, leb, if◌then◌else◌, Option,
  none, some, Cmd, Unit₀, ok, fault, pure, run_on, ◌>>=◌, ◌>>◌,
}
use lutf.Lists.{Ptr, null}
use lutf.Store.{Store}
use lutf.Store.Access.{get_task, modify_task, get_current, malloc, loop_forever}
use lutf.Tasks.{current_is_hook}

-- `struct fd_attributes`
pub record FdAttributes : Type 0 where
  pub domain : ℕ
  pub fd_flag : ℕ
  pub read_timeout : ℕ
  pub wirte_timeout : ℕ

-- the commands that `fcntl` tells apart, and any other
pub data FcntlCmd : Type 0 where
  f_dupfd f_getfd f_setfd f_getfl f_setfl f_getlk f_setlk f_setlkw : FcntlCmd
  other_cmd : ℕ → FcntlCmd

abbrev pub attributes_length : ℕ
attributes_length = 125100 * 8

abbrev pub is_negative : ℕ → Bool
is_negative n = leb (2 ^ 31) n

-- the bit `O_NONBLOCK` of a word, 2^11
abbrev pub has_nonblock : ℕ → Bool
has_nonblock w = w / 2 ^ 11 % 2 == 1

abbrev pub add_nonblock : ℕ → ℕ
add_nonblock w = if has_nonblock w then w else w + 2 ^ 11

abbrev pub drop_nonblock : ℕ → ℕ
drop_nonblock w = if has_nonblock w then w - 2 ^ 11 else w

-- The memory of the library, the table `fd_2_attributes`, and what the C library works on.
pub record Hooks (W : Type 0) : Type 0 where
  pub store : Store
  pub fd_2_attributes : ℕ → Option FdAttributes
  pub world : W

abbrev pub on_memory : {W A : Type 0} → Cmd Store A → Cmd (Hooks W) A
on_memory = run_on (λ h. h.store) (λ s h. record h { store = s })

-- a function of the C library
abbrev pub on_world : {W A : Type 0} → (W → A × W) → Cmd (Hooks W) A
on_world f h = ok (f h.world).0 (record h { world = (f h.world).1 })

abbrev pub set_attributes : {W : Type 0} → ℕ → FdAttributes → Cmd (Hooks W) Unit₀
set_attributes fd r h =
    ok tt (record h { fd_2_attributes = λ k. if k == fd then some r else h.fd_2_attributes k })

-- what a new entry of the table holds
abbrev pub fresh_attributes : FdAttributes
fresh_attributes = record { domain = 0; fd_flag = 0; read_timeout = 1000; wirte_timeout = 1000 }

abbrev pub make_attributes : {W : Type 0} → ℕ → Cmd (Hooks W) FdAttributes
make_attributes fd = do
  p ← on_memory malloc
  if p == null then (λ h. fault) else (do set_attributes fd fresh_attributes; pure fresh_attributes)

abbrev pub found_or_made : {W : Type 0} → ℕ → Option FdAttributes → Cmd (Hooks W) FdAttributes
found_or_made fd (some r) = pure r
found_or_made fd none = make_attributes fd

-- The first test of the source holds for no number: one that the table does not have is used all the
-- same. `memset` writes through NULL if there is no memory.
unfoldable pub create_fd_attributes : {W : Type 0} → ℕ → Cmd (Hooks W) FdAttributes
create_fd_attributes fd h =
    if leb attributes_length fd then fault else found_or_made fd (h.fd_2_attributes fd) h

module _ {W : Type 0} (os_fcntl : (fd : ℕ) → FcntlCmd → Option ℕ → W → ℕ × W) where
  -- the cases of `fcntl`
  unfoldable pub fcntl_case : (fd : ℕ) → FcntlCmd → (param : ℕ) → FdAttributes → Cmd (Hooks W) ℕ
  fcntl_case fd f_getfd param attributes = do
    ret ← on_world (os_fcntl fd f_getfd none)
    pure (if not (has_nonblock attributes.fd_flag) then drop_nonblock ret else ret)
  fcntl_case fd f_setfd param attributes = do on_world (os_fcntl fd f_setfd (some param)); pure 0
  fcntl_case fd f_getfl param attributes = on_world (os_fcntl fd f_getfl none)
  fcntl_case fd f_setfl param attributes = do
    hook ← on_memory current_is_hook
    ret ← on_world (os_fcntl fd f_setfl (some (if hook then add_nonblock param else param)))
    if ret == 0 then set_attributes fd (record attributes { fd_flag = param }) else pure tt
    pure ret
  fcntl_case fd f_getlk param attributes = on_world (os_fcntl fd f_getlk (some param))
  fcntl_case fd f_setlk param attributes = on_world (os_fcntl fd f_setlk (some param))
  fcntl_case fd f_setlkw param attributes = on_world (os_fcntl fd f_setlkw (some param))
  fcntl_case fd f_dupfd param attributes = on_world (os_fcntl fd f_dupfd (some param))
  fcntl_case fd (other_cmd n) param attributes = pure 0

  -- 119 is the line of the source on which a negative descriptor is refused.
  unfoldable pub fcntl : (fd : ℕ) → FcntlCmd → (param : ℕ) → Cmd (Hooks W) ℕ
  fcntl fd cmd param =
      if is_negative fd
      then pure 119
      else (do attributes ← create_fd_attributes fd; fcntl_case fd cmd param attributes)

  -- what `socket` does with the new descriptor
  unfoldable pub adopt : (fd domain : ℕ) → Cmd (Hooks W) ℕ
  adopt fd domain = do
    attributes ← create_fd_attributes fd
    set_attributes fd (record attributes { domain = domain })
    flags ← on_world (os_fcntl fd f_getfl (some 0))
    fcntl fd f_setfl flags
    pure fd

  unfoldable pub socket :
      (os_socket : (domain type protocol : ℕ) → W → ℕ × W) (domain type protocol : ℕ)
      → Cmd (Hooks W) ℕ
  socket os_socket domain type protocol = do
    hook ← on_memory current_is_hook
    if not hook then on_world (os_socket domain type protocol) else (do
      fd ← on_world (os_socket domain type protocol)
      if is_negative fd then pure fd else adopt fd domain)

-- The loop that waits for the end of a sleep: only the clock signal changes what it tests.
unfoldable pub wait_awake : Cmd Store ℕ
wait_awake = do
  current ← get_current
  r ← get_task current
  if r.is_collaborative_schedule then loop_forever else pure 0

-- a sleep of that many milliseconds
unfoldable pub ask_sleep : ℕ → Cmd Store ℕ
ask_sleep sleep_millisecond = do
  current ← get_current
  modify_task current (λ r. record r { is_collaborative_schedule = true })
  modify_task current (λ r. record r { sleep_millisecond = sleep_millisecond })
  wait_awake

unfoldable pub sleep : (os_sleep : ℕ → Cmd Store ℕ) (seconds : ℕ) → Cmd Store ℕ
sleep os_sleep seconds = do
  hook ← current_is_hook
  if not hook then os_sleep seconds else ask_sleep (seconds * 1000 % 2 ^ 32)

unfoldable pub nanosleep :
    (os_nanosleep : (tv_sec tv_nsec : ℕ) → Cmd Store ℕ) (tv_sec tv_nsec : ℕ) → Cmd Store ℕ
nanosleep os_nanosleep tv_sec tv_nsec = do
  hook ← current_is_hook
  if not hook
      then os_nanosleep tv_sec tv_nsec
      else ask_sleep ((tv_sec * 1000 % 2 ^ 32 + tv_nsec / 1000000) % 2 ^ 32)

unfoldable pub usleep : (os_usleep : ℕ → Cmd Store ℕ) (usec : ℕ) → Cmd Store ℕ
usleep os_usleep usec = do
  hook ← current_is_hook
  if not hook then os_usleep usec else ask_sleep (usec / 1000)

unfoldable pub co_enable_hook_sys : Cmd Store Unit₀
co_enable_hook_sys = do
  current ← get_current
  modify_task current (λ r. record r { is_hook = true })
