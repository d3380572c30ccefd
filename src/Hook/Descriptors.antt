-- ===== src/Hook/Descriptors.antt =====
-- What `fcntl` and `socket` do to the table of descriptors and to the descriptors of the system.
use lutf.Base.{
  ℕ, ◌<◌, ◌≡◌, refl, ◌≢◌, Bool, true, false, ◌==◌, leb, if◌then◌else◌, arith, Option, none, some,
  List, ◌∷◌, Run, ok, fault, Returns, returns, ◌>>=◌, ◌∙◌, ==_self, Bool-cases, inl, inr, not, ◌&&◌,
  pure, and_then, spin, switched, out_of_fuel,
}
use lutf.Hook.{
  FcntlCmd, f_dupfd, f_getfd, f_setfd, f_getfl, f_setfl, f_getlk, f_setlk, f_setlkw, other_cmd,
  set_attributes, FdAttributes, Hooks, fresh_attributes, attributes_length, is_negative,
  has_nonblock, add_nonblock, create_fd_attributes, found_or_made, fcntl_case, fcntl, adopt, socket,
}
use lutf.Lists.{null}
use lutf.Store.{Store}
use lutf.Store.Access.{get_task-eq, malloc-eq}
use lutf.Tasks.{current_is_hook}

pub current_is_hook-eq :
    (s : Store) → s.current_task ≢ null → current_is_hook s ≡ ok (s.task s.current_task).is_hook s
unfolding current_is_hook
current_is_hook-eq s h =
    let running : (s.current_task == null) ≡ false = ground arith in
    rw (running, get_task-eq s s.current_task h) refl

current_is_hook_runs : (s : Store) → (b : Bool) × (current_is_hook s ≡ ok b s)
unfolding current_is_hook
current_is_hook_runs s = elim (Bool-cases (s.current_task == null)) [
  | inl e ↦ (false, rw e refl)
  | inr n ↦ ((s.task s.current_task).is_hook, current_is_hook-eq s (ground arith))
]

-- a call with undefined behaviour
abbrev pub is_fault : {S A : Type 0} → Run S A → Bool
is_fault fault = true
is_fault (ok a s) = false
is_fault (spin s) = false
is_fault (switched s) = false
is_fault out_of_fuel = false

has-add_nonblock : (w : ℕ) → has_nonblock (add_nonblock w) ≡ true
has-add_nonblock w = ground arith

module _ {W : Type 0} (os_fcntl : (fd : ℕ) → FcntlCmd → Option ℕ → W → ℕ × W) where
  -- a descriptor with an entry
  known-eq :
      (fd : ℕ) (cmd : FcntlCmd) (param : ℕ) (r : FdAttributes) (h : Hooks W)
      → fd < attributes_length
      → h.fd_2_attributes fd ≡ some r
      → fcntl os_fcntl fd cmd param h ≡ fcntl_case os_fcntl fd cmd param r h
  unfolding fcntl create_fd_attributes
  known-eq fd cmd param r h near known =
      let whole : is_negative fd ≡ false = ground arith in
      let room : leb attributes_length fd ≡ false = ground arith in rw (whole, room, known) refl

  -- after `F_SETFL` by a hooked task
  abbrev after_setfl : (fd param : ℕ) → FdAttributes → Hooks W → Hooks W
  after_setfl fd param r h = record h {
    world = (os_fcntl fd f_setfl (some (add_nonblock param)) h.world).1;
    fd_2_attributes =
        λ k. if k == fd then some (record r { fd_flag = param }) else h.fd_2_attributes k;
  }

  setfl-eq :
      (fd param : ℕ) (r : FdAttributes) (h : Hooks W)
      → fd < attributes_length
      → h.fd_2_attributes fd ≡ some r
      → h.store.current_task ≢ null
      → (h.store.task h.store.current_task).is_hook ≡ true
      → (os_fcntl fd f_setfl (some (add_nonblock param)) h.world).0 ≡ 0
      → fcntl os_fcntl fd f_setfl param h ≡ ok 0 (after_setfl fd param r h)
  unfolding fcntl_case
  setfl-eq fd param r h near known running hooked done =
      rw
        (known-eq fd f_setfl param r h near known, current_is_hook-eq h.store running, hooked, done)
        refl

  -- What a hooked task sees of the status flags of a known descriptor after it has set them: `F_GETFL`
  -- shows `O_NONBLOCK`, which the task did not ask for and the hook has added, and the table remembers
  -- what it asked for. The system sets the flag as it is asked to.
  pub fcntl_leaks :
      (fd param : ℕ) (r : FdAttributes) (h : Hooks W)
      → ((p : ℕ) (w : W)
          → ((os_fcntl fd f_setfl (some p) w).0 ≡ 0)
            × (has_nonblock (os_fcntl fd f_getfl none (os_fcntl fd f_setfl (some p) w).1).0
                ≡ has_nonblock p))
      → fd < attributes_length
      → h.fd_2_attributes fd ≡ some r
      → h.store.current_task ≢ null
      → (h.store.task h.store.current_task).is_hook ≡ true
      → has_nonblock param ≡ false
      → Returns
          (λ flags h'.
            (has_nonblock flags ≡ true)
            × (h'.fd_2_attributes fd ≡ some (record r { fd_flag = param })))
          ((fcntl os_fcntl fd f_setfl param >>= λ _. fcntl os_fcntl fd f_getfl 0) h)
  unfolding fcntl_case
  fcntl_leaks fd param r h law near known running hooked plain =
      rw (setfl-eq fd param r h near known running hooked (law (add_nonblock param) h.world).0) (
        rw
          (known-eq fd f_getfl 0 (record r { fd_flag = param }) (after_setfl fd param r h) near
            (rw ==_self refl))
          (returns
            ((law (add_nonblock param) h.world).1 ∙ has-add_nonblock param, rw ==_self refl)))

  create-eq :
      (fd t : ℕ) (more : List ℕ) (h : Hooks W)
      → fd < attributes_length
      → h.fd_2_attributes fd ≡ none
      → h.store.supply ≡ t ∷ more
      → t ≢ null
      → create_fd_attributes fd h
        ≡ ok fresh_attributes (record h {
          store = record h.store { supply = more };
          fd_2_attributes = λ k. if k == fd then some fresh_attributes else h.fd_2_attributes k;
        })
  unfolding create_fd_attributes
  create-eq fd t more h near new supply some_memory =
      let room : leb attributes_length fd ≡ false = ground arith in
      let got : (t == null) ≡ false = ground arith in
      rw (room, new, malloc-eq h.store t more supply, got) refl

  -- `socket` by a hooked task, where the system gives a descriptor that has no entry, and there is
  -- memory: the entry remembers the domain and the status flags of the descriptor, and the descriptor
  -- does not block. The system sets the flag as it is asked to.
  pub socket-nonblocking :
      (os_socket : (domain type protocol : ℕ) → W → ℕ × W) (domain type protocol fd flags t : ℕ)
      (more : List ℕ) (w₁ w₂ : W) (h : Hooks W)
      → ((p : ℕ) (w : W)
          → ((os_fcntl fd f_setfl (some p) w).0 ≡ 0)
            × (has_nonblock (os_fcntl fd f_getfl none (os_fcntl fd f_setfl (some p) w).1).0
                ≡ has_nonblock p))
      → os_socket domain type protocol h.world ≡ (fd, w₁)
      → os_fcntl fd f_getfl (some 0) w₁ ≡ (flags, w₂)
      → fd < attributes_length
      → h.fd_2_attributes fd ≡ none
      → h.store.supply ≡ t ∷ more
      → t ≢ null
      → h.store.current_task ≢ null
      → (h.store.task h.store.current_task).is_hook ≡ true
      → Returns
          (λ r h'.
            (r ≡ fd)
            × (h'.fd_2_attributes fd
                ≡ some (record {
                  domain = domain;
                  fd_flag = flags;
                  read_timeout = 1000;
                  wirte_timeout = 1000;
                }))
            × (has_nonblock (os_fcntl fd f_getfl none h'.world).0 ≡ true))
          (socket os_fcntl os_socket domain type protocol h)
  unfolding socket adopt
  socket-nonblocking os_socket domain type protocol fd flags t more w₁ w₂ h law made read near new
        supply some_memory running hooked =
      let whole : is_negative fd ≡ false = ground arith in
      let h₁ : Hooks W = record h { world = w₁ } in
      let r : FdAttributes = record fresh_attributes { domain = domain } in
      let h₂ : Hooks W = record h {
        store = record h.store { supply = more };
        fd_2_attributes = λ k.
            if k == fd
            then some r
            else (if k == fd then some fresh_attributes else h.fd_2_attributes k);
        world = w₂;
      } in
      rw
        (
          current_is_hook-eq h.store running,
          hooked,
          made,
          whole,
          create-eq fd t more h₁ near new supply some_memory,
          read,
          setfl-eq fd flags r h₂ near (rw ==_self refl) running hooked
              (law (add_nonblock flags) w₂).0,
        )
        (returns (refl, rw ==_self refl, (law (add_nonblock flags) w₂).1 ∙ has-add_nonblock flags))

  remember-safe :
      (fd ret : ℕ) (r : FdAttributes) (h : Hooks W)
      → is_fault
          (((if ret == 0 then set_attributes fd r else pure tt) >>= λ _. pure {S = Hooks W} ret) h)
        ≡ false
  remember-safe fd ret r h = elim (Bool-cases (ret == 0)) [ inl e ↦ rw e refl | inr n ↦ rw n refl ]

  fcntl_case-safe :
      (fd : ℕ) (cmd : FcntlCmd) (param : ℕ) (r : FdAttributes) (h : Hooks W)
      → is_fault (fcntl_case os_fcntl fd cmd param r h) ≡ false
  unfolding fcntl_case
  fcntl_case-safe fd f_dupfd param r h = refl
  fcntl_case-safe fd f_getfd param r h = refl
  fcntl_case-safe fd f_setfd param r h = refl
  fcntl_case-safe fd f_getfl param r h = refl
  fcntl_case-safe fd f_setfl param r h =
      let (b, eq) = current_is_hook_runs h.store in rw eq (remember-safe fd _ _ _)
  fcntl_case-safe fd f_getlk param r h = refl
  fcntl_case-safe fd f_setlk param r h = refl
  fcntl_case-safe fd f_setlkw param r h = refl
  fcntl_case-safe fd (other_cmd n) param r h = refl

  entry-safe :
      (fd t : ℕ) (more : List ℕ) (cmd : FcntlCmd) (param : ℕ) (h : Hooks W)
      (e : Option FdAttributes)
      → h.store.supply ≡ t ∷ more
      → t ≢ null
      → is_fault (and_then (found_or_made fd e h) (fcntl_case os_fcntl fd cmd param)) ≡ false
  entry-safe fd t more cmd param h (some r) supply some_memory = fcntl_case-safe fd cmd param r h
  entry-safe fd t more cmd param h none supply some_memory =
      let got : (t == null) ≡ false = ground arith in
      rw (malloc-eq h.store t more supply, got) (fcntl_case-safe fd cmd param fresh_attributes _)

  -- Where there is memory, `fcntl` with any command behaves as it is defined just for the numbers that
  -- the table has room for, and for negative ones: of the others the first test lets every one pass.
  pub fcntl_bounds :
      (fd t : ℕ) (more : List ℕ) (cmd : FcntlCmd) (param : ℕ) (h : Hooks W)
      → h.store.supply ≡ t ∷ more
      → t ≢ null
      → is_fault (fcntl os_fcntl fd cmd param h)
        ≡ (leb attributes_length fd && not (is_negative fd))
  unfolding fcntl create_fd_attributes
  fcntl_bounds fd t more cmd param h supply some_memory = elim (Bool-cases (is_negative fd)) [
    | inl e ↦ rw e (ground arith)
    | inr n ↦ rw n (elim (Bool-cases (leb attributes_length fd)) [
      | inl far ↦ rw far refl
      | inr near ↦
          rw near (entry-safe fd t more cmd param h (h.fd_2_attributes fd) supply some_memory)
    ])
  ]
