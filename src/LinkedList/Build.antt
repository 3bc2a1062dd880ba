-- ===== src/LinkedList/Build.antt =====
-- list.c: the functions that build a list from another, and list_sort. Lists that are passed
-- together are different ones.
pub mod Results
pub mod Sort
use bflib.Base.{
  ℕ, zero, suc, ◌+◌, Bool, false, Option, none, some, List, [], ◌∷◌, ◌++◌, length, get_elem?, ltb,
  ◌==◌, if◌then◌else◌,
}
use bflib.Run.{Run, ok, fault, ◌>>=◌}
use bflib.TailQueue.{TailQueue}
use bflib.LinkedList.{
  LinkedList, value, loop, list_create, list_append, list_size, list_erase, list_iterator_get_value,
}

-- `constructor ? constructor(item) : item`
abbrev pub made : {A : Type 0} → Option (A → A) → A → A
made none x = x
made (some constructor) x = constructor x

-- `arr[i++] = item` in a block of `n` cells, of which `arr` holds those that are set
abbrev write : {A : Type 0} → ℕ → List A → A → Run (List A)
write n arr x = if ltb (length arr) n then ok (arr ++ (x ∷ [])) else fault

module _ {queue : TailQueue} {A B : Type 0} where
  -- the body of the loops that append to another list what `fun` makes of an item
  pub append_body : (A → B) → LinkedList queue A → ℕ → LinkedList queue B → Run (LinkedList queue B)
  append_body fun list li target =
      list_iterator_get_value list li >>= λ x. ok (list_append target (fun x)).1

  pub list_map : LinkedList queue A → (A → B) → Run (LinkedList queue B)
  unfolding append_body
  list_map list fun = loop list (append_body fun list) list_create

module _ {queue : TailQueue} {A : Type 0} where
  pub list_copy : LinkedList queue A → Option (A → A) → Run (LinkedList queue A)
  unfolding append_body
  list_copy list constructor = loop list (append_body (made constructor) list) list_create

  pub list_append_list :
      LinkedList queue A → LinkedList queue A → Option (A → A) → Run (LinkedList queue A)
  unfolding append_body
  list_append_list list1 list2 constructor = loop list2 (append_body (made constructor) list2) list1

  pub filter_body :
      LinkedList queue A → (A → Bool) → ℕ → LinkedList queue A → Run (LinkedList queue A)
  filter_body list match li filtered = list_iterator_get_value list li >>= λ x.
      ok (if match x then (list_append filtered x).1 else filtered)

  pub list_filter : LinkedList queue A → (A → Bool) → Run (LinkedList queue A)
  unfolding filter_body
  list_filter list match = loop list (filter_body list match) list_create

  -- `S` is what `fun` changes
  pub list_foreach : {S : Type 0} → LinkedList queue A → (A → S → S) → S → Run S
  list_foreach list fun s =
      loop list (λ li s. list_iterator_get_value list li >>= λ x. ok (fun x s)) s

  -- `for( i = 0 ; i < n ; i++ ) list_append(list, arr[i])`
  append_loop : (rounds : ℕ) → List A → ℕ → LinkedList queue A → Run (LinkedList queue A)
  append_loop zero arr i list = ok list
  append_loop (suc rounds) arr i list =
      value (get_elem? arr i) >>= λ x. append_loop rounds arr (i + 1) (list_append list x).1

  sort_items : (List A → List A) → LinkedList queue A → ℕ → Run (LinkedList queue A)
  unfolding append_loop
  sort_items qsort list n = do
    arr ← loop list (λ li arr. list_iterator_get_value list li >>= λ x. write n arr x) []
    (_, list) ← list_erase list false
    append_loop n (qsort arr) 0 list

  -- `qsort` is the library's function at the caller's `cmp`
  pub list_sort : (qsort : List A → List A) → LinkedList queue A → Run (LinkedList queue A)
  unfolding sort_items
  list_sort qsort list = list_size list >>= λ n. if n == 0 then ok list else sort_items qsort list n
