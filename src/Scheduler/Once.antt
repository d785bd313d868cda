-- ===== src/Scheduler/Once.antt =====
-- Rounds of a scheduler of src/modules/scheduler.cpp and the table it runs.
use obc.Common.{
  ℕ, zero, suc, ◌+◌, ◌≤◌, ◌<◌, List, [], ◌∷◌, ◌++◌, drop, length, leb, if◌then◌else◌, true, false,
  Option, none, some, ◌≡◌, refl, sym, ap, arith, length-append, length-drop,
}
use native.Mathlib.Nat.{suc-add}
use obc.Scheduler.Tables.{
  Event, TableName, table, relative_to_soe, relative_to_sods, relative_to_liftoff,
}
use obc.Scheduler.{
  Scheduler, is_end, due, events_left, get_elapsed_time_msec, execute_pending_events,
}

-- A table in order of time that ends with an end event, and has no other.
abbrev pub IsOrdered : ℕ → List Event → Type 0
IsOrdered t [] = ⊥
IsOrdered t (e ∷ []) = is_end e.type ≡ true
IsOrdered t (e ∷ f ∷ es) =
    (is_end e.type ≡ false) × (t ≤ e.timestamp_msec) × IsOrdered e.timestamp_msec (f ∷ es)

pub table-IsOrdered : (name : TableName) → IsOrdered 0 (table name)
table-IsOrdered relative_to_soe = ground arith
table-IsOrdered relative_to_sods = ground arith
table-IsOrdered relative_to_liftoff = ground arith

-- The events of a table whose time has come.
unfoldable pub ripe : ℕ → List Event → List Event
ripe elapsed [] = []
ripe elapsed (e ∷ es) =
    let rest = ripe elapsed es in
    if is_end e.type then rest else (if leb e.timestamp_msec elapsed then e ∷ rest else rest)

ripe_none : (elapsed t : ℕ) (es : List Event) → IsOrdered t es → elapsed < t → ripe elapsed es ≡ []
unfolding ripe
ripe_none elapsed t [] h l = absurd h
ripe_none elapsed t (e ∷ []) h l = ground arith
ripe_none elapsed t (e ∷ f ∷ es) h l =
    ground (arith, ripe_none elapsed e.timestamp_msec (f ∷ es) h.2 (omega arith))

-- On an ordered table the loop, which stops at the first event to come, finds all that is ripe.
pub due-ripe : (elapsed t : ℕ) (es : List Event) → IsOrdered t es → due elapsed es ≡ ripe elapsed es
unfolding due ripe
due-ripe elapsed t [] h = absurd h
due-ripe elapsed t (e ∷ []) h = ground arith
due-ripe elapsed t (e ∷ f ∷ es) h = ground (
  arith,
  due-ripe elapsed e.timestamp_msec (f ∷ es) h.2,
  ripe_none elapsed e.timestamp_msec (f ∷ es) h.2,
)

-- The loop stops before the end of the table.
length-due :
    (elapsed t : ℕ) (es : List Event) → IsOrdered t es → length (due elapsed es) < length es
unfolding due
length-due elapsed t [] h = absurd h
length-due elapsed t (e ∷ []) h = ground arith
length-due elapsed t (e ∷ f ∷ es) h =
    ground (arith, length-due elapsed e.timestamp_msec (f ∷ es) h.2)

-- What is due later is due now, and then from there on.
due-later :
    (a b : ℕ) (es : List Event) → a ≤ b → due b es ≡ due a es ++ due b (drop (length (due a es)) es)
unfolding due
due-later a b [] h = refl
due-later a b (e ∷ es) h = ground (arith, due-later a b es h)

drop-nil {ℓ} : {A : Type ℓ} (n : ℕ) → drop {A = A} n [] ≡ []
drop-nil zero = refl
drop-nil (suc n) = refl

drop-drop {ℓ} : {A : Type ℓ} (n m : ℕ) (xs : List A) → drop m (drop n xs) ≡ drop (n + m) xs
drop-drop zero m xs = ap (λ k. drop k xs) (omega arith)
drop-drop (suc n) zero [] = rw suc-add refl
drop-drop (suc n) (suc m) [] = rw suc-add refl
drop-drop (suc n) m (x ∷ xs) = rw suc-add (drop-drop n m xs)

abbrev advanced : Scheduler → ℕ → Scheduler
advanced s k = record s { next_event_index = s.next_event_index + k }

events_left-advanced : (s : Scheduler) (k : ℕ) → events_left (advanced s k) ≡ drop k (events_left s)
unfolding events_left
events_left-advanced s k = by_table s.events
  where
    by_table :
        (o : Option TableName)
        → let at : ℕ → List Event = λ i. elim o [ none ↦ [] | some name ↦ drop i (table name) ] in
          at (s.next_event_index + k) ≡ drop k (at s.next_event_index)
    by_table none = sym (drop-nil k)
    by_table (some name) = sym (drop-drop s.next_event_index k (table name))

events_left-some :
    (s : Scheduler) (name : TableName)
    → s.events ≡ some name
    → events_left s ≡ drop s.next_event_index (table name)
unfolding events_left
events_left-some s name e =
    ap (λ (o : Option TableName). elim o [ none ↦ [] | some n ↦ drop s.next_event_index (table n) ])
      e

elapsed-advanced :
    (s : Scheduler) (k t : ℕ)
    → get_elapsed_time_msec (advanced s k) 0 t ≡ get_elapsed_time_msec s 0 t
unfolding get_elapsed_time_msec
elapsed-advanced s k t = refl

-- Two rounds, the second at a later time of the scheduler, execute together what the second round
-- alone would have executed, in the same order and nothing twice, and leave the same scheduler.
pub execute_pending_events_twice :
    (s : Scheduler) (t₁ t₂ : ℕ)
    → get_elapsed_time_msec s 0 t₁ ≤ get_elapsed_time_msec s 0 t₂
    → let (first, s₁) = execute_pending_events s t₁ in
      let (second, s₂) = execute_pending_events s₁ t₂ in
      execute_pending_events s t₂ ≡ (first ++ second, s₂)
unfolding execute_pending_events
execute_pending_events_twice s t₁ t₂ h =
    let now = get_elapsed_time_msec s 0 t₁ in
    let later = get_elapsed_time_msec s 0 t₂ in
    let k = length (due now (events_left s)) in
    ground (
      arith,
      due-later now later (events_left s) h,
      events_left-advanced s k,
      elapsed-advanced s k t₂,
      length-append (due now (events_left s)) (due later (drop k (events_left s))),
    )

drop-IsOrdered :
    (i t : ℕ) (es : List Event)
    → IsOrdered t es
    → i < length es
    → (t' : ℕ) × IsOrdered t' (drop i es)
drop-IsOrdered zero t es h l = (t, h)
drop-IsOrdered (suc i) t [] h l = absurd h
drop-IsOrdered (suc i) t (e ∷ []) h l = absurd (omega arith)
drop-IsOrdered (suc i) t (e ∷ f ∷ es) h l =
    drop-IsOrdered i e.timestamp_msec (f ∷ es) h.2 (omega arith)

-- While the clock runs, with a table set and the next event inside it, a round executes exactly the
-- events still to come whose time is not later than the elapsed time, and the next event stays
-- inside the table: the end event is never passed.
pub execute_pending_events-ripe :
    (s : Scheduler) (name : TableName) (t : ℕ)
    → s.is_clock_running ≡ true
    → s.events ≡ some name
    → s.next_event_index < length (table name)
    → let (executed, s') = execute_pending_events s t in
      (executed ≡ ripe (get_elapsed_time_msec s 0 t) (drop s.next_event_index (table name)))
      × (s'.next_event_index ≡ s.next_event_index + length executed)
      × (s'.next_event_index < length (table name))
unfolding execute_pending_events
execute_pending_events-ripe s name t r e h =
    let now = get_elapsed_time_msec s 0 t in
    let rest = drop s.next_event_index (table name) in
    let (t', ordered) = drop-IsOrdered s.next_event_index 0 (table name) (table-IsOrdered name) h in
    ground (
      arith,
      events_left-some s name e,
      due-ripe now t' rest ordered,
      length-due now t' rest ordered,
      length-drop s.next_event_index (table name),
    )
