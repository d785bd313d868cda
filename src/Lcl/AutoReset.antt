-- ===== src/Lcl/AutoReset.antt =====
-- src/modules/lcl.cpp: the automatic resets of limiters that trigger during the flight.
pub mod Paced
pub mod Exhausted
use obc.Common.{
  ℕ, zero, suc, ◌+◌, ◌==◌, ltb, leb, not, ◌&&◌, if◌then◌else◌, List, [], ◌∷◌, ◌++◌, replicate, Bool,
  true, false,
}
use obc.Common.Words.{sub32, u8}
use obc.Lcl.{PinAction, reset, triggered, num_lcls}

-- `lcl_auto_reset_state_t`.
pub data AutoResetState : Type 0 where
  disabled : AutoResetState
  off : AutoResetState
  on : AutoResetState
  tried_recently : AutoResetState
  waiting : AutoResetState
  given_up : AutoResetState

-- `lcl_auto_reset_t`.
pub record AutoReset : Type 0 where
  pub state : AutoResetState
  pub last_trigger_at : ℕ
  pub last_reset_at : ℕ
  pub reset_counter : ℕ

-- Times in milliseconds, and the number of resets that are allowed.
abbrev pub delay_after_auto_reset_msec : ℕ
delay_after_auto_reset_msec = 3000

abbrev pub delay_before_auto_reset_msec : ℕ
delay_before_auto_reset_msec = 3000

abbrev pub recovery_period_msec : ℕ
recovery_period_msec = 10000

abbrev pub max_reset_count : ℕ
max_reset_count = 10

-- The static variables of the module.
pub record AutoResetLogic : Type 0 where
  pub last_liftoff_started_at_msec : ℕ
  pub auto_reset : List AutoReset

abbrev pub fresh : AutoResetState → AutoReset
fresh s = record { state = s; last_trigger_at = 0; last_reset_at = 0; reset_counter = 0 }

unfoldable pub clear_auto_reset_logic : AutoResetLogic
clear_auto_reset_logic = record {
  last_liftoff_started_at_msec = 0;
  auto_reset = replicate num_lcls (fresh AutoResetState.disabled);
}

-- The body of the first loop of `updateAutoResetLogicAfterTakeoff`, for one limiter.
unfoldable pub start_tracking : Bool → Bool → AutoReset
start_tracking booted_after_liftoff is_triggered =
    if is_triggered && not booted_after_liftoff
    then fresh AutoResetState.off
    else fresh AutoResetState.on

-- The case of `AUTO_RESET_ON`.
unfoldable pub update_on : ℕ → Bool → AutoReset → AutoReset
update_on now is_triggered r =
    if is_triggered
    then (if leb max_reset_count r.reset_counter
        then record r { state = AutoResetState.given_up; reset_counter = 0 }
        else record r { last_trigger_at = now; state = AutoResetState.waiting })
    else (if ltb 0 r.last_reset_at && leb recovery_period_msec (sub32 now r.last_reset_at)
        then record r { reset_counter = 0; last_reset_at = 0; last_trigger_at = 0 }
        else r)

-- The case of `AUTO_RESET_WAITING`, and whether it resets the limiter.
unfoldable pub update_waiting : ℕ → Bool → AutoReset → AutoReset × Bool
update_waiting now is_triggered r =
    if not is_triggered
    then (record r { state = AutoResetState.on }, false)
    else (if leb delay_before_auto_reset_msec (sub32 now r.last_trigger_at)
        then (
          record r {
            last_reset_at = now;
            state = AutoResetState.tried_recently;
            reset_counter = u8 (suc r.reset_counter);
          },
          true,
        )
        else (r, false))

-- The case of `AUTO_RESET_TRIED_RECENTLY`.
unfoldable pub update_tried_recently : ℕ → AutoReset → AutoReset
update_tried_recently now r =
    if leb delay_after_auto_reset_msec (sub32 now r.last_reset_at)
    then record r { state = AutoResetState.on }
    else r

-- The body of the second loop, for one limiter: its data afterwards, and whether it is reset.
abbrev pub switch_state : AutoResetState → ℕ → Bool → AutoReset → AutoReset × Bool
switch_state AutoResetState.on now is_triggered r = (update_on now is_triggered r, false)
switch_state AutoResetState.waiting now is_triggered r = update_waiting now is_triggered r
switch_state AutoResetState.tried_recently now is_triggered r = (update_tried_recently now r, false)
switch_state _ now is_triggered r = (r, false)

unfoldable pub update_one : ℕ → Bool → AutoReset → AutoReset × Bool
update_one now is_triggered r = switch_state r.state now is_triggered r

-- The first loop, from limiter `i` on; `read` gives the levels of the pins.
abbrev pub start_from : (ℕ → Bool) → Bool → ℕ → List AutoReset → List AutoReset
start_from read booted i [] = []
start_from read booted i (_ ∷ rest) =
    start_tracking booted (triggered read i) ∷ start_from read booted (suc i) rest

-- The second loop, from limiter `i` on, and what it does with the pins.
abbrev pub update_from : ℕ → (ℕ → Bool) → ℕ → ℕ → List AutoReset → List AutoReset × List PinAction
update_from duration read now i [] = ([], [])
update_from duration read now i (r ∷ rest) =
    let (r', is_reset) = update_one now (triggered read i) r in
    let (rest', actions) = update_from duration read now (suc i) rest in
    (r' ∷ rest', (if is_reset then reset duration i else []) ++ actions)

unfoldable pub update_after_takeoff :
    ℕ → (ℕ → Bool) → Bool → ℕ → AutoResetLogic → AutoResetLogic × List PinAction
update_after_takeoff duration read booted now l =
    let (rs, actions) = update_from duration read now 0 l.auto_reset in
    if l.last_liftoff_started_at_msec == 0
    then (
      record {
        last_liftoff_started_at_msec = now;
        auto_reset = start_from read booted 0 l.auto_reset;
      },
      [],
    )
    else (record l { auto_reset = rs }, actions)

unfoldable pub update_before_takeoff : AutoResetLogic → AutoResetLogic
update_before_takeoff l = if l.last_liftoff_started_at_msec == 0 then l else clear_auto_reset_logic

-- `updateAutoResetLogic`: `lo` is the signal, `now` the time since boot, `booted` the answer of
-- `wasBootedAfterLiftoff`.
unfoldable pub update_auto_reset_logic :
    ℕ → (ℕ → Bool) → Bool → ℕ → Bool → AutoResetLogic → AutoResetLogic × List PinAction
update_auto_reset_logic duration read booted now lo l =
    if lo then update_after_takeoff duration read booted now l else (update_before_takeoff l, [])
