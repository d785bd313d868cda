-- ===== src/Rxsm/Manager.antt =====
-- src/modules/rxsm.cpp: the state manager of the three signals, and what a change of a signal does
-- to the schedulers. Log records and the callback for new log files are left out.
pub mod Follow
use obc.Common.{ℕ, bit_and, bit_or, ◌==◌, ltb, ◌&&◌, ◌-◌, not, if◌then◌else◌, Bool, true, false}
use obc.Common.Words.{sub32}
use obc.Rxsm.Voter
use obc.Scheduler.{Scheduler, SchedulerList, restart, stop}

-- `signal::signal_t`: bits of a bitfield.
abbrev pub sods_signal : ℕ
sods_signal = 1

abbrev pub soe_signal : ℕ
soe_signal = 2

abbrev pub lo_signal : ℕ
lo_signal = 4

-- `State`: the current votes.
pub record Signals : Type 0 where
  pub sods : Bool
  pub soe : Bool
  pub lo : Bool

-- `StateManager`: the histories of the three voters and the times of the last rising edges.
pub record StateManager : Type 0 where
  pub sods : ℕ
  pub soe : ℕ
  pub lo : ℕ
  pub last_lo : ℕ
  pub last_sods : ℕ
  pub last_soe : ℕ

-- The readings of the boot clock that `update` makes, by the place that makes them.
pub record Readings : Type 0 where
  pub lo : ℕ
  pub sods : ℕ
  pub soe : ℕ
  pub lo_clock : ℕ
  pub sods_clock : ℕ
  pub soe_clock : ℕ

unfoldable pub get_state : StateManager → Signals
get_state m = record { sods = Voter.get m.sods; soe = Voter.get m.soe; lo = Voter.get m.lo }

unfoldable pub reset : StateManager → StateManager
reset m = record m { sods = Voter.reset false; soe = Voter.reset false; lo = Voter.reset false }

-- One signal of `StateManager::update`: the bitfield, the history and the time of the last rising
-- edge afterwards.
unfoldable pub feed_signal : ℕ → ℕ → ℕ → ℕ → Bool → ℕ → ℕ × ℕ × ℕ
feed_signal signal changed history last value reading =
    let (history', flipped) = Voter.feed_and_check history value in
    if flipped
    then (bit_or changed signal, history', if Voter.get history' then reading else last)
    else (changed, history', last)

-- `StateManager::update`, in its order: LO, SODS, SOE.
unfoldable pub update_signals : StateManager → Bool → Bool → Bool → Readings → ℕ × StateManager
unfolding feed_signal
update_signals m sods soe lo t =
    let (c₁, lo', last_lo') = feed_signal lo_signal 0 m.lo m.last_lo lo t.lo in
    let (c₂, sods', last_sods') = feed_signal sods_signal c₁ m.sods m.last_sods sods t.sods in
    let (c₃, soe', last_soe') = feed_signal soe_signal c₂ m.soe m.last_soe soe t.soe in
    (
      c₃,
      record {
        sods = sods';
        soe = soe';
        lo = lo';
        last_lo = last_lo';
        last_sods = last_sods';
        last_soe = last_soe';
      },
    )

unfoldable pub get_time_since_liftoff_msec : StateManager → ℕ → ℕ
get_time_since_liftoff_msec m reading = sub32 reading m.last_lo

unfoldable pub was_booted_after_liftoff : StateManager → Bool
was_booted_after_liftoff m =
    ltb 0 m.last_lo && ltb m.last_lo 3000 && ltb 0 m.last_sods && ltb m.last_sods 3000

-- What one changed signal does to its scheduler.
unfoldable pub switch_clock : ℕ → ℕ → Bool → Scheduler → ℕ → Scheduler
switch_clock changed signal value s reading =
    if bit_and changed signal == 0 then s else (if value then restart s reading else stop s reading)

-- `update` of the module.
unfoldable pub update :
    StateManager → SchedulerList → Bool → Bool → Bool → Readings → StateManager × SchedulerList
unfolding switch_clock get_state
update m schedulers sods soe lo t =
    let (changed, m') = update_signals m sods soe lo t in
    let state = get_state m' in
    if changed == 0 then (m', schedulers) else (
      m',
      record {
        sods = switch_clock changed sods_signal state.sods schedulers.sods t.sods_clock;
        soe = switch_clock changed soe_signal state.soe schedulers.soe t.soe_clock;
        lo = switch_clock changed lo_signal state.lo schedulers.lo t.lo_clock;
      },
    )
