-- ===== src/Sync/Init.antt =====
-- `lock_init` makes a lock that is free and that nobody waits for.
use lutf.Base.{◌≡◌, refl, ◌≢◌, [], arith, Returns, returns, Returns-eq, ne→==_false, ◌<◌}
use lutf.Lists.{Ptr, null}
use lutf.Lists.Chain.{nodes, SameOutside}
use lutf.Lists.Write.{list_init-IsList}
use lutf.Store.{Store}
use lutf.Store.Access.{modify_lock}
use lutf.Sync.{sema_init, lock_init}
use lutf.Sync.Acquire.{free_lock}
use lutf.Tasks.Queue.{IsQueue}

-- After `lock_init` at an address of a lock, the lock is free and nobody waits for it. No node but its
-- own sentinels is written, no other lock, and nothing else of the memory.
pub lock_init-free :
    (s : Store) (p : Ptr)
    → p ≢ null
    → p < 99
    → Returns
        (λ _ s'.
          (s'.lock p ≡ free_lock)
          × IsQueue s'.links p []
          × SameOutside (nodes p []) s.links s'.links
          × ((q : Ptr) → q ≢ p → s'.lock q ≡ s.lock q)
          × (s' ≡ record s { lock = s'.lock; links = s'.links }))
        (lock_init p s)
unfolding lock_init sema_init modify_lock
lock_init-free s p hp place =
    let (_, m, eq, (is, same)) = Returns-eq (list_init-IsList s.links p hp) in
    let there = ne→==_false p null hp in
    rw (there, there, there, eq)
      (returns (
        ground arith,
        record { list = is; tasks = tt; place = place },
        same,
        λ q ne. ground arith,
        refl,
      ))
