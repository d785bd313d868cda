-- ===== src/Supervisor/Queues.antt =====
-- src/modules/supervisor.cpp: the queues that the supervisor watches.
use obc.Common.{
  ℕ, ◌&&◌, not, if◌then◌else◌, ltb, leb, set, List, [], ◌∷◌, Bool, true, Option, none, some,
}
use obc.Common.Words.{u8}
use obc.Supervisor.{is_named, invalid_token, max_queues}

-- `queue_stats_t`; a queue is the number by which its size is known, and `none` a null pointer.
pub record QueueStats : Type 0 where
  pub name : Option (List ℕ)
  pub queue : Option ℕ
  pub high_water_mark : ℕ

abbrev pub cleared_queue : QueueStats
cleared_queue = record { name = none; queue = none; high_water_mark = 0 }

unfoldable pub is_queue_valid : QueueStats → Bool
is_queue_valid q = is_named q.name

-- The loop of `registerQueue`, which has no exit.
abbrev pub register_all : List ℕ → ℕ → List QueueStats → List QueueStats
register_all name queue [] = []
register_all name queue (q ∷ qs) =
    (if not (is_queue_valid q) then record q { name = some name; queue = some queue } else q)
    ∷ register_all name queue qs

unfoldable pub register_queue : Option (List ℕ) → Option ℕ → List QueueStats → ℕ × List QueueStats
unfolding is_queue_valid
register_queue (some name) (some queue) qs = (invalid_token, register_all name queue qs)
register_queue name queue qs = (invalid_token, qs)

unfoldable pub unregister_queue : ℕ → List QueueStats → List QueueStats
unregister_queue token qs = if ltb token max_queues then set qs token cleared_queue else qs

-- The sizes and limits of the queues, by their numbers.
pub record Queues : Type 0 where
  pub size : ℕ → ℕ
  pub limit : ℕ → ℕ

abbrev pub check_present : Queues → QueueStats → Option ℕ → Bool × QueueStats
check_present queues q none = (true, q)
check_present queues q (some i) =
    let size = u8 (queues.size i) in
    (
      not (leb (queues.limit i) size),
      if ltb q.high_water_mark size then record q { high_water_mark = size } else q,
    )

abbrev pub check_queue : Queues → QueueStats → Bool × QueueStats
check_queue queues q = if not (is_queue_valid q) then (true, q) else check_present queues q q.queue

unfoldable pub check_queues : Queues → List QueueStats → Bool × List QueueStats
unfolding is_queue_valid
check_queues queues [] = (true, [])
check_queues queues (q ∷ qs) =
    let r = check_queue queues q in
    let rest = check_queues queues qs in (r.0 && rest.0, r.1 ∷ rest.1)
