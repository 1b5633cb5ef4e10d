-- ===== src/Tests/ThreadRuns.antt =====
-- Histories of the threads of Camera2NdkBackend.cpp.
use android_vendor_extra_fac.Common.{◌≡◌, refl, true, false, List, [], ◌∷◌}
use android_vendor_extra_fac.Camera.Threads.{
  Event, image_comes, guard_entered, image_taken, stops, stops_in_callback, starts, teardown_begins,
  teardown_ends, at_rest, run, step, on_image_available, enter_guard, take_image, stop_elsewhere,
  stop_in_callback, begin_stop, start_elsewhere, start_in_callback, begin_start, begin_teardown,
  passed, inside, calling, blocked, waiting, tearing,
}
use android_vendor_extra_fac.Camera.ThreadLaws.{
  Sound, run-Sound, stop_in_callback-Stuck, enter_guard-begin_teardown,
}

run-Sound_example : Sound (run (starts true ∷ image_comes ∷ stops ∷ teardown_begins ∷ []) at_rest)
run-Sound_example = run-Sound (starts true ∷ image_comes ∷ stops ∷ teardown_begins ∷ [])

-- A frame is with the client, which has called stop.
abbrev stopped_by_client : List Event
stopped_by_client =
    starts true ∷ image_comes ∷ guard_entered ∷ image_taken true ∷ stops_in_callback ∷ []

is_calling : (run stopped_by_client at_rest).phase ≡ calling
unfolding run step start_elsewhere begin_start on_image_available enter_guard take_image
    stop_in_callback begin_stop
is_calling = refl

is_stopping : (run stopped_by_client at_rest).is_stopping ≡ true
unfolding run step start_elsewhere begin_start on_image_available enter_guard take_image
    stop_in_callback begin_stop
is_stopping = refl

stop_in_callback-Stuck_example :
    let s = stop_in_callback (run stopped_by_client at_rest) in
    (start_in_callback true (run stopped_by_client at_rest) ≡ s)
    × (run (teardown_begins ∷ teardown_ends ∷ []) s ≡ s)
    × (s.phase ≡ blocked)
    × (s.closer ≡ waiting)
stop_in_callback-Stuck_example =
    stop_in_callback-Stuck stopped_by_client (teardown_begins ∷ teardown_ends ∷ []) true is_calling
      is_stopping

abbrev one_frame : List Event
one_frame = starts true ∷ image_comes ∷ []

has_passed : (run one_frame at_rest).phase ≡ passed
unfolding run step start_elsewhere begin_start on_image_available
has_passed = refl

runs : (run one_frame at_rest).is_running ≡ true
unfolding run step start_elsewhere begin_start on_image_available
runs = refl

enter_guard-begin_teardown_example :
    let t = enter_guard (begin_teardown (stop_elsewhere (run one_frame at_rest))) in
    (t.phase ≡ inside) × (t.closer ≡ tearing) × (t.has_manager ≡ false)
enter_guard-begin_teardown_example = enter_guard-begin_teardown one_frame has_passed runs
