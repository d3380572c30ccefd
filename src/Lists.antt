-- ===== src/Lists.antt =====
-- The doubly linked lists of src/lib/list.c and src/include/list.h. A pointer to a
-- `struct list_elem` is a number, 0 for NULL, counted in units of that struct: the sentinels of
-- the list at `l` are the nodes `l` (head) and `l + 1` (tail).
pub mod Chain
pub mod Nodes
pub mod Link
pub mod Write
pub mod Read
mod Tests
use lutf.Base.{
  ℕ, zero, suc, ◌+◌, ◌%◌, ◌^◌, Bool, true, false, ◌==◌, if◌then◌else◌, Run, fault, out_of_fuel, Cmd,
  Unit₀, ok, pure, ◌>>=◌, ◌>>◌,
}

abbrev pub Ptr : Type 0
Ptr = ℕ

abbrev pub null : Ptr
null = 0

-- the `next` and `prev` fields of every node in memory
pub record Links : Type 0 where
  pub next : Ptr → Ptr
  pub prev : Ptr → Ptr

abbrev pub update : (Ptr → Ptr) → Ptr → Ptr → Ptr → Ptr
update f p v q = if q == p then v else f q

-- `&list->tail`
abbrev pub tail : Ptr → Ptr
tail l = l + 1

-- reads and writes of a field through a pointer; through NULL they are undefined
unfoldable pub get_next : Ptr → Cmd Links Ptr
get_next p m = if p == null then fault else ok (m.next p) m

unfoldable pub get_prev : Ptr → Cmd Links Ptr
get_prev p m = if p == null then fault else ok (m.prev p) m

unfoldable pub set_next : Ptr → Ptr → Cmd Links Unit₀
set_next p v m = if p == null then fault else ok tt (record m { next = update m.next p v })

unfoldable pub set_prev : Ptr → Ptr → Cmd Links Unit₀
set_prev p v m = if p == null then fault else ok tt (record m { prev = update m.prev p v })

unfoldable pub list_init : Ptr → Cmd Links Unit₀
unfolding set_next set_prev
list_init l = do set_prev l null; set_next l (tail l); set_prev (tail l) l; set_next (tail l) null

-- `elem` goes in front of `before`
unfoldable pub list_insert_before : (before elem : Ptr) → Cmd Links Unit₀
unfolding get_prev set_next set_prev
list_insert_before before elem = do
  p ← get_prev before
  set_next p elem
  q ← get_prev before
  set_prev elem q
  set_next elem before
  set_prev before elem

unfoldable pub list_push : (plist elem : Ptr) → Cmd Links Unit₀
unfolding get_next
list_push plist elem = do first ← get_next plist; list_insert_before first elem

unfoldable pub list_append : (plist elem : Ptr) → Cmd Links Unit₀
list_append plist elem = list_insert_before (tail plist) elem

unfoldable pub list_remove : Ptr → Cmd Links Unit₀
unfolding get_next get_prev set_next set_prev
list_remove pelem = do
  p ← get_prev pelem
  n ← get_next pelem
  set_next p n
  n' ← get_next pelem
  p' ← get_prev pelem
  set_prev n' p'

unfoldable pub list_pop : Ptr → Cmd Links Ptr
unfolding get_next
list_pop plist = do elem ← get_next plist; list_remove elem; pure elem

unfoldable pub list_empty : Ptr → Cmd Links Bool
unfolding get_next
list_empty plist = do first ← get_next plist; pure (if first == tail plist then true else false)

-- The loops take a number of rounds; one more than the number of elements is enough.
unfoldable pub elem_find_from : ℕ → (elem stop obj_elem : Ptr) → Cmd Links Bool
unfolding get_next
elem_find_from zero elem stop obj_elem = λ _. out_of_fuel
elem_find_from (suc k) elem stop obj_elem =
    if elem == stop
    then pure false
    else if elem == obj_elem
    then pure true
    else (do n ← get_next elem; elem_find_from k n stop obj_elem)

unfoldable pub elem_find : ℕ → (plist obj_elem : Ptr) → Cmd Links Bool
unfolding get_next
elem_find rounds plist obj_elem = do
  elem ← get_next plist
  elem_find_from rounds elem (tail plist) obj_elem

module _ {A : Type 0} where
  unfoldable pub list_traversal_from : ℕ → (elem stop : Ptr) → (Ptr → A → Bool) → A → Cmd Links Ptr
  unfolding get_next
  list_traversal_from zero elem stop func arg = λ _. out_of_fuel
  list_traversal_from (suc k) elem stop func arg =
      if elem == stop
      then pure null
      else if func elem arg
      then pure elem
      else (do n ← get_next elem; list_traversal_from k n stop func arg)

  -- the first element that `func` accepts, NULL if there is none
  unfoldable pub list_traversal : ℕ → Ptr → (Ptr → A → Bool) → A → Cmd Links Ptr
  unfolding get_next
  list_traversal rounds plist func arg = do
    elem ← get_next plist
    empty ← list_empty plist
    if empty then pure null else list_traversal_from rounds elem (tail plist) func arg

unfoldable pub list_len_from : ℕ → (elem stop : Ptr) (len : ℕ) → Cmd Links ℕ
unfolding get_next
list_len_from zero elem stop len = λ _. out_of_fuel
list_len_from (suc k) elem stop len =
    if elem == stop
    then pure len
    else (do n ← get_next elem; list_len_from k n stop ((len + 1) % 2 ^ 32))

unfoldable pub list_len : ℕ → Ptr → Cmd Links ℕ
unfolding get_next
list_len rounds plist = do elem ← get_next plist; list_len_from rounds elem (tail plist) 0
