-- ===== src/Console.antt =====
-- The console of src/device/console.c: output under a lock. What the C library works on, and what it does
-- there, are parameters.
pub mod Exclusive
use lutf.Base.{ℕ, List, [], ◌∷◌, Cmd, Unit₀, ok, pure, run_on, ◌>>=◌, ◌>>◌}
use lutf.Base.Int.{ℤ}
use lutf.Lists.{Ptr}
use lutf.Store.{Store}
use lutf.Sync.{lock_init, lock_acquire, lock_release}

pub record Screen (W : Type 0) : Type 0 where
  pub store : Store
  pub world : W

abbrev pub on_tasks : {W A : Type 0} → Cmd Store A → Cmd (Screen W) A
on_tasks = run_on (λ c. c.store) (λ s c. record c { store = s })

abbrev pub output : {W : Type 0} → (W → W) → Cmd (Screen W) Unit₀
output f c = ok tt (record c { world = f c.world })

-- the address of the lock, in front of the tasks
abbrev pub concole_lock : Ptr
concole_lock = 10

-- `fionbio_attr` is 1, and the descriptors of the input and the output are 0 and 1.
unfoldable pub console_init :
    {W : Type 0} → (os_ioctl : (fd fionbio_attr : ℕ) → W → W) → Cmd (Screen W) Unit₀
console_init os_ioctl = do
  on_tasks (lock_init concole_lock)
  output (os_ioctl 0 1)
  output (os_ioctl 1 1)

unfoldable pub console_acquire : {W : Type 0} → ℕ → Cmd (Screen W) Unit₀
console_acquire rounds = on_tasks (lock_acquire rounds concole_lock)

unfoldable pub console_release : {W : Type 0} → ℕ → Cmd (Screen W) Unit₀
console_release rounds = on_tasks (lock_release rounds concole_lock)

-- The characters of the string, without the NUL behind them.
unfoldable pub console_put_str :
    {W : Type 0} → (os_write : List ℕ → W → W) → (rounds : ℕ) (str : List ℕ) → Cmd (Screen W) Unit₀
console_put_str os_write rounds str = do
  console_acquire rounds
  output (os_write str)
  console_release rounds

unfoldable pub console_put_int :
    {W : Type 0} → (os_printf : ℤ → W → W) → (rounds : ℕ) (n : ℤ) → Cmd (Screen W) Unit₀
console_put_int os_printf rounds n = do
  console_acquire rounds
  output (os_printf n)
  console_release rounds

unfoldable pub console_put_char :
    {W : Type 0} → (os_write : List ℕ → W → W) → (rounds ch : ℕ) → Cmd (Screen W) Unit₀
console_put_char os_write rounds ch = do
  console_acquire rounds
  output (os_write (ch ∷ []))
  console_release rounds

-- Up to 1024 characters, the size of `io_buffer`, are read to where `str` points.
unfoldable pub console_get_str :
    {W : Type 0}
    → (os_read : (str : Ptr) (size : ℕ) → W → W) → (rounds : ℕ) (str : Ptr) → Cmd (Screen W) Unit₀
console_get_str os_read rounds str = do
  console_acquire rounds
  output (os_read str 1024)
  console_release rounds
