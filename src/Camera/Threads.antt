-- ===== src/Camera/Threads.antt =====
-- The threads in default/Camera2NdkBackend.cpp: the one that brings images, the one that tears the camera
-- down, and any others that call. What happens under one lock is one step.
use android_vendor_extra_fac.Common.{
  Bool, true, false, not, ◌&&◌, ◌||◌, List, [], ◌∷◌, if◌then◌else◌,
}

-- Where the thread in `onImageAvailable` is: not there, behind its first test, behind the guard, in
-- the client's callback, or in there waiting for a teardown to end.
pub data Phase : Type 0 where
  away : Phase
  passed : Phase
  inside : Phase
  calling : Phase
  blocked : Phase

-- The thread that tears down: none, one that waits for the callback, one at work without the lock.
pub data Closer : Type 0 where
  nobody : Closer
  waiting : Closer
  tearing : Closer

-- The fields that the threads share; `has_manager` is `mMgr != nullptr`.
pub record Sync : Type 0 where
  pub is_running : Bool
  pub is_stopping : Bool
  pub in_callback : Bool
  pub has_manager : Bool
  pub phase : Phase
  pub closer : Closer

-- A frame comes: the first test.
unfoldable pub on_image_available : Sync → Sync
on_image_available s = elim s.phase [
  | away ↦ if s.is_running then (record s { phase = passed }) else s
  | _ ↦ s
]

unfoldable pub enter_guard : Sync → Sync
enter_guard s = elim s.phase [ passed ↦ record s { phase = inside; in_callback = true } | _ ↦ s ]

unfoldable pub leave_guard : Sync → Sync
leave_guard s = record s { phase = away; in_callback = false }

-- The image, which can be missing or not be packed, and the second test. The client's callback is set.
unfoldable pub take_image : Bool → Sync → Sync
unfolding leave_guard
take_image ok s = elim s.phase [
  | inside ↦ if ok && s.is_running then (record s { phase = calling }) else leave_guard s
  | _ ↦ s
]

unfoldable pub callback_returns : Sync → Sync
unfolding leave_guard
callback_returns s = elim s.phase [ calling ↦ leave_guard s | _ ↦ s ]

abbrev pub nothing_to_stop : Sync → Bool
nothing_to_stop s = not s.is_running && not s.is_stopping && not s.has_manager

-- `stop` up to its wait for the callback; the closer is the calling thread or, in the callback, a new
-- one.
unfoldable pub begin_stop : Sync → Sync
begin_stop s = record s { is_running = false; is_stopping = true; closer = waiting }

-- `stop` by another thread, which waits without a change where a stop is under way.
unfoldable pub stop_elsewhere : Sync → Sync
unfolding begin_stop
stop_elsewhere s = if nothing_to_stop s || s.is_stopping then s else begin_stop s

-- `stop` in the callback.
unfoldable pub stop_in_callback : Sync → Sync
unfolding begin_stop
stop_in_callback s = elim s.phase [
  | calling ↦
      if nothing_to_stop s
      then s
      else if s.is_stopping
      then (record s { phase = blocked })
      else begin_stop s
  | _ ↦ s
]

-- `start` behind its wait, with the outcome of the camera.
unfoldable pub begin_start : Bool → Sync → Sync
begin_start started s =
    if s.is_running then s else record s { is_running = started; has_manager = started }

unfoldable pub start_elsewhere : Bool → Sync → Sync
unfolding begin_start
start_elsewhere started s = if s.is_stopping then s else begin_start started s

unfoldable pub start_in_callback : Bool → Sync → Sync
unfolding begin_start
start_in_callback started s = elim s.phase [
  | calling ↦ if s.is_stopping then (record s { phase = blocked }) else begin_start started s
  | _ ↦ s
]

-- The closer's wait is over, and then its teardown.
unfoldable pub begin_teardown : Sync → Sync
begin_teardown s = elim s.closer [
  | waiting ↦ if s.in_callback then s else record s { closer = tearing; has_manager = false }
  | _ ↦ s
]

unfoldable pub end_teardown : Sync → Sync
end_teardown s = elim s.closer [
  | tearing ↦ record s { closer = nobody; is_stopping = false }
  | _ ↦ s
]

unfoldable pub wake : Sync → Sync
wake s = elim s.phase [
  | blocked ↦ if s.is_stopping then s else record s { phase = calling }
  | _ ↦ s
]

-- onDeviceDisconnected, onDeviceError and onSessionClosed, on threads of the NDK.
unfoldable pub on_lost : Sync → Sync
unfolding stop_elsewhere
on_lost s = if s.is_running && not s.is_stopping then stop_elsewhere s else s

pub data Event : Type 0 where
  image_comes : Event
  guard_entered : Event
  image_taken : Bool → Event
  returns : Event
  stops : Event
  stops_in_callback : Event
  starts : Bool → Event
  starts_in_callback : Bool → Event
  teardown_begins : Event
  teardown_ends : Event
  wakes : Event
  is_lost : Event

unfoldable pub step : Event → Sync → Sync
unfolding on_image_available enter_guard take_image callback_returns stop_elsewhere stop_in_callback
    start_elsewhere start_in_callback begin_teardown end_teardown wake on_lost
step image_comes s = on_image_available s
step guard_entered s = enter_guard s
step (image_taken ok) s = take_image ok s
step returns s = callback_returns s
step stops s = stop_elsewhere s
step stops_in_callback s = stop_in_callback s
step (starts started) s = start_elsewhere started s
step (starts_in_callback started) s = start_in_callback started s
step teardown_begins s = begin_teardown s
step teardown_ends s = end_teardown s
step wakes s = wake s
step is_lost s = on_lost s

unfoldable pub run : List Event → Sync → Sync
unfolding step
run [] s = s
run (e ∷ es) s = run es (step e s)

abbrev pub at_rest : Sync
at_rest = record {
  is_running = false;
  is_stopping = false;
  in_callback = false;
  has_manager = false;
  phase = away;
  closer = nobody;
}
