-- ===== src/Camera/ThreadLaws.antt =====
-- What the threads of default/Camera2NdkBackend.cpp can and cannot do to each other.
use android_vendor_extra_fac.Common.{
  ◌≡◌, refl, ap, ◌∙◌, Bool, true, false, not, ◌&&◌, ◌||◌, List, [], ◌∷◌, arith,
}
use android_vendor_extra_fac.Camera.Threads.{
  Phase, passed, inside, calling, blocked, Closer, nobody, waiting, tearing, Sync,
  on_image_available, enter_guard, leave_guard, take_image, callback_returns, begin_stop,
  stop_elsewhere, stop_in_callback, begin_start, start_elsewhere, start_in_callback, at_rest,
  begin_teardown, end_teardown, wake, on_lost, Event, image_comes, guard_entered, image_taken,
  returns, stops, stops_in_callback, starts, starts_in_callback, teardown_begins, teardown_ends,
  wakes, is_lost, step, run,
}

abbrev pub is_inside : Phase → Bool
is_inside inside = true
is_inside calling = true
is_inside blocked = true
is_inside _ = false

-- A frame is with the client.
abbrev pub with_client : Phase → Bool
with_client calling = true
with_client blocked = true
with_client _ = false

abbrev pub is_closing : Closer → Bool
is_closing nobody = false
is_closing _ = true

abbrev pub is_waiting : Closer → Bool
is_waiting waiting = true
is_waiting _ = false

-- The flags say where the threads are.
abbrev pub Sound : Sync → Type 0
Sound s =
    (s.is_stopping ≡ is_closing s.closer)
    × (s.in_callback ≡ is_inside s.phase)
    × ((s.is_stopping && s.is_running) ≡ false)
    × ((with_client s.phase && not (s.is_running || is_waiting s.closer)) ≡ false)

step-Sound : (e : Event) (s : Sync) → Sound s → Sound (step e s)
unfolding step on_image_available enter_guard leave_guard take_image callback_returns begin_stop
    stop_elsewhere stop_in_callback begin_start start_elsewhere start_in_callback begin_teardown
    end_teardown wake on_lost
step-Sound image_comes s h = ground arith
step-Sound guard_entered s h = ground arith
step-Sound (image_taken ok) s h = ground arith
step-Sound returns s h = ground arith
step-Sound stops s h = ground arith
step-Sound stops_in_callback s h = ground arith
step-Sound (starts started) s h = ground arith
step-Sound (starts_in_callback started) s h = ground arith
step-Sound teardown_begins s h = ground arith
step-Sound teardown_ends s h = ground arith
step-Sound wakes s h = ground arith
step-Sound is_lost s h = ground arith

run_from-Sound : (es : List Event) (s : Sync) → Sound s → Sound (run es s)
unfolding run
run_from-Sound [] s h = h
run_from-Sound (e ∷ es) s h = run_from-Sound es (step e s) (step-Sound e s h)

-- In every history of the threads a stop is under way exactly while a thread tears down or waits to,
-- mInCallback is set exactly behind the guard, nothing runs during a stop, and a frame is with the
-- client only while the camera runs or a stop waits for it: never during a teardown or behind it.
pub run-Sound : (es : List Event) → Sound (run es at_rest)
run-Sound es = run_from-Sound es at_rest (refl, refl, refl, refl)

abbrev Stuck : Sync → Type 0
Stuck s =
    (s.phase ≡ blocked)
    × (s.closer ≡ waiting)
    × (s.is_stopping ≡ true)
    × (s.in_callback ≡ true)
    × (s.is_running ≡ false)

step-Stuck : (e : Event) (s : Sync) → Stuck s → step e s ≡ s
unfolding step on_image_available enter_guard leave_guard take_image callback_returns begin_stop
    stop_elsewhere stop_in_callback begin_start start_elsewhere start_in_callback begin_teardown
    end_teardown wake on_lost
step-Stuck image_comes s h = ground arith
step-Stuck guard_entered s h = ground arith
step-Stuck (image_taken ok) s h = ground arith
step-Stuck returns s h = ground arith
step-Stuck stops s h = ground arith
step-Stuck stops_in_callback s h = ground arith
step-Stuck (starts started) s h = ground arith
step-Stuck (starts_in_callback started) s h = ground arith
step-Stuck teardown_begins s h = ground arith
step-Stuck teardown_ends s h = ground arith
step-Stuck wakes s h = ground arith
step-Stuck is_lost s h = ground arith

run-Stuck : (es : List Event) (s : Sync) → Stuck s → run es s ≡ s
unfolding run
run-Stuck [] s h = refl
run-Stuck (e ∷ es) s h = let same = step-Stuck e s h in ap (run es) same ∙ run-Stuck es s h

waits_in_callback :
    (s : Sync)
    → Sound s
    → s.phase ≡ calling
    → s.is_stopping ≡ true
    → Stuck (stop_in_callback s)
      × ((started : Bool) → start_in_callback started s ≡ stop_in_callback s)
unfolding stop_in_callback start_in_callback
waits_in_callback s h p q = (ground arith, λ started. ground arith)

-- Where a stop is under way while a frame is with the client, a stop or a start by the client in that
-- callback waits for the stop, which waits for the callback: no step of any thread changes anything
-- any more.
pub stop_in_callback-Stuck :
    (before after : List Event) (started : Bool)
    → (run before at_rest).phase ≡ calling
    → (run before at_rest).is_stopping ≡ true
    → let s = stop_in_callback (run before at_rest) in
      (start_in_callback started (run before at_rest) ≡ s)
      × (run after s ≡ s)
      × (s.phase ≡ blocked)
      × (s.closer ≡ waiting)
stop_in_callback-Stuck before after started p q =
    let (stuck, same) = waits_in_callback (run before at_rest) (run-Sound before) p q in
    (same started, run-Stuck after (stop_in_callback (run before at_rest)) stuck, stuck.0, stuck.1)

late_guard :
    (s : Sync)
    → Sound s
    → s.phase ≡ passed
    → s.is_running ≡ true
    → let t = enter_guard (begin_teardown (stop_elsewhere s)) in
      (t.phase ≡ inside) × (t.closer ≡ tearing) × (t.has_manager ≡ false)
unfolding enter_guard begin_teardown stop_elsewhere begin_stop
late_guard s h p q = ground arith

-- A thread that has passed the first test of onImageAvailable is not seen by a stop: the teardown
-- begins, and the thread goes on behind the guard to the reader that is being deleted.
pub enter_guard-begin_teardown :
    (before : List Event)
    → (run before at_rest).phase ≡ passed
    → (run before at_rest).is_running ≡ true
    → let t = enter_guard (begin_teardown (stop_elsewhere (run before at_rest))) in
      (t.phase ≡ inside) × (t.closer ≡ tearing) × (t.has_manager ≡ false)
enter_guard-begin_teardown before p q = late_guard (run before at_rest) (run-Sound before) p q
