-- ===== src/LinkedList.antt =====
-- list.c: lists of items in a tail queue. An iterator is the address of a struct ListItem; the
-- memory `item` holds what a live one points to, `none` once it is freed, and malloc gives
-- addresses that were never used. `li->list` is the list that is passed on with the iterator.
pub mod Build
pub mod Contents
pub mod Change
pub mod Walks
mod Tests
use bflib.Base.{
  ℕ, zero, suc, ◌+◌, Bool, true, false, Option, none, some, List, [], ◌∷◌, ◌++◌, length, get_elem?,
  ltb, ◌==◌, if◌then◌else◌,
}
use bflib.Run.{Run, ok, fault, out_of_fuel, ◌>>=◌}
use bflib.TailQueue.{TailQueue}

pub record LinkedList (queue : TailQueue) (A : Type 0) : Type 0 where
  pub head : queue.Head
  pub item : ℕ → Option A
  pub fresh : ℕ

abbrev pub store : {A : Type 0} → (ℕ → Option A) → ℕ → Option A → ℕ → Option A
store item a x b = if b == a then x else item b

abbrev pub value : {A : Type 0} → Option A → Run A
value none = fault
value (some x) = ok x

abbrev pub is_null : Option ℕ → Bool
is_null none = true
is_null (some li) = false

abbrev pub equals : Option ℕ → ℕ → Bool
equals none li = false
equals (some first) li = li == first

module _ {queue : TailQueue} {A : Type 0} where
  pub list_create : LinkedList queue A
  list_create = record { head = queue.init; item = λ a. none; fresh = 0 }

  -- `malloc`, with `item` set
  new_item : LinkedList queue A → A → LinkedList queue A
  new_item list x = record list {
    item = store list.item list.fresh (some x);
    fresh = list.fresh + 1;
  }

  pub list_first : LinkedList queue A → Option ℕ
  list_first list = queue.first list.head

  pub list_next : LinkedList queue A → ℕ → Option ℕ
  list_next list li = queue.next list.head li

  pub list_last : LinkedList queue A → Option ℕ
  list_last list = queue.last list.head

  pub list_prev : LinkedList queue A → ℕ → Option ℕ
  list_prev list li = queue.prev list.head li

  pub list_iterator_get_value : LinkedList queue A → ℕ → Run A
  list_iterator_get_value list li = value (list.item li)

  pub list_iter_value : LinkedList queue A → ℕ → Run A
  list_iter_value list li = value (list.item li)

  pub list_empty : LinkedList queue A → Bool
  unfolding list_first
  list_empty list = is_null (list_first list)

  pub list_is_first : LinkedList queue A → ℕ → Bool
  unfolding list_first
  list_is_first list li = equals (list_first list) li

  pub list_append : LinkedList queue A → A → ℕ × LinkedList queue A
  unfolding new_item
  list_append list x =
      let l = new_item list x in
      (list.fresh, record l { head = queue.insert_tail l.head list.fresh })

  pub list_unshift : LinkedList queue A → A → ℕ × LinkedList queue A
  unfolding new_item
  list_unshift list x =
      let l = new_item list x in
      (list.fresh, record l { head = queue.insert_head l.head list.fresh })

  -- a fault if `li` is not live, since `li->list` is read
  pub list_insert_after : LinkedList queue A → ℕ → A → Run (ℕ × LinkedList queue A)
  unfolding new_item
  list_insert_after list li x = value (list.item li) >>= λ _.
      let l = new_item list x in
      ok (list.fresh, record l { head = queue.insert_after l.head li list.fresh })

  insert_at : LinkedList queue A → Option ℕ → ℕ → A → Run (ℕ × LinkedList queue A)
  unfolding list_insert_after list_unshift
  insert_at list none li x = value (list.item li) >>= λ _. ok (list_unshift list x)
  insert_at list (some prev) li x = list_insert_after list li x

  pub list_insert_before : LinkedList queue A → ℕ → A → Run (ℕ × LinkedList queue A)
  unfolding insert_at list_prev
  list_insert_before list li x = insert_at list (list_prev list li) li x

  pub list_remove : LinkedList queue A → ℕ → Run (A × LinkedList queue A)
  list_remove list li = value (list.item li) >>= λ x.
      ok (x, record list { head = queue.remove list.head li; item = store list.item li none })

  -- `for( li = list_first(list) ; li != NULL ; li = list_next(li) )`, from `li` on, with what the
  -- body does to the other variables
  pub for_each : {S : Type 0} → ℕ → LinkedList queue A → Option ℕ → (ℕ → S → Run S) → S → Run S
  unfolding list_next
  for_each zero list li body s = out_of_fuel
  for_each (suc fuel) list none body s = ok s
  for_each (suc fuel) list (some li) body s =
      body li s >>= λ s. for_each fuel list (list_next list li) body s

  -- the loop over the whole list: no more rounds than addresses were given out
  abbrev pub loop : {S : Type 0} → LinkedList queue A → (ℕ → S → Run S) → S → Run S
  loop list body s = for_each (suc list.fresh) list (list_first list) body s

  pub list_size : LinkedList queue A → Run ℕ
  list_size list = loop list (λ li i. ok (i + 1)) 0

  -- the loop of list_find_iterator
  pub find_from : ℕ → LinkedList queue A → Option ℕ → (A → Bool) → Run (Option ℕ)
  unfolding list_next
  find_from zero list li match = out_of_fuel
  find_from (suc fuel) list none match = ok none
  find_from (suc fuel) list (some li) match =
      let rest = find_from fuel list (list_next list li) match in
      value (list.item li) >>= λ x. if match x then ok (some li) else rest

  -- `match` is the C function at its pattern
  pub list_find_iterator : LinkedList queue A → (A → Bool) → Run (Option ℕ)
  unfolding list_first
  list_find_iterator list match = find_from (suc list.fresh) list (list_first list) match

  found_value : LinkedList queue A → Option ℕ → Run (Option A)
  found_value list none = ok none
  found_value list (some li) = value (list.item li) >>= λ x. ok (some x)

  pub list_find : LinkedList queue A → (A → Bool) → Run (Option A)
  unfolding found_value list_find_iterator
  list_find list match = list_find_iterator list match >>= found_value list

  remove_found : LinkedList queue A → Option ℕ → Run (Option A × LinkedList queue A)
  unfolding list_remove
  remove_found list none = ok (none, list)
  remove_found list (some li) = list_remove list li >>= λ (x, list). ok (some x, list)

  pub list_remove_first_match :
      LinkedList queue A → (A → Bool) → Run (Option A × LinkedList queue A)
  unfolding remove_found list_find_iterator
  list_remove_first_match list match = list_find_iterator list match >>= remove_found list

  -- `same` compares the pointers
  pub list_remove_ptr :
      (same : A → A → Bool) → LinkedList queue A → A → Run (Option A × LinkedList queue A)
  unfolding list_remove_first_match
  list_remove_ptr same list ptr = list_remove_first_match list (λ item. same item ptr)

  pub list_shift : LinkedList queue A → Run (Option A × LinkedList queue A)
  unfolding remove_found list_first
  list_shift list = remove_found list (list_first list)

  -- `while( (li = list_first(list)) )`: the items handed to the destructor, if there is one
  pub erase_loop : ℕ → LinkedList queue A → Bool → Run (List A × LinkedList queue A)
  unfolding list_first
  erase_loop zero list destructor = out_of_fuel
  erase_loop (suc fuel) list destructor = elim (list_first list) [
    | none ↦ ok ([], list)
    | some li ↦ (do
      x ← value (list.item li)
      let list = record list { head = queue.remove list.head li; item = store list.item li none }
      (items, list) ← erase_loop fuel list destructor
      ok (if destructor then x ∷ items else items, list))
  ]

  pub list_erase : LinkedList queue A → Bool → Run (List A × LinkedList queue A)
  unfolding erase_loop
  list_erase list destructor = erase_loop (suc list.fresh) list destructor

  pub list_destroy : LinkedList queue A → Bool → Run (List A)
  unfolding list_erase
  list_destroy list destructor = list_erase list destructor >>= λ (items, _). ok items
