-- ===== src/Examples/ExclusiveRuns.antt =====
-- A section of asyncengine/exclusive.go that finds one busy lane and one off-lane cleanup.
use pit_go.Base.{◌≤◌, ◌≡◌, refl, true, not, some, [], arith}
use pit_go.Exclusive.{
  Engine, install_exclusive, withdraw_exclusive, release_lanes, create_lane, begin_cleanup,
  end_cleanup,
}
use pit_go.Exclusive.Protocol.{
  starts, takes, finishes, works, meets, parks, creates, begins, ends, stops, registers, installs,
  awaits, waited, offers, offered, collected, runs, returns, withdraws, drains, releases, Reach,
  dynamic_start, next,
}
use pit_go.Exclusive.Lanes.{here, all}
use pit_go.Exclusive.Invariant.Single.{is_busy}
use pit_go.Exclusive.Alone.{running-alone, collecting-ends, withdrawn-settled}

collecting_run : (e : Engine) × Reach e
unfolding create_lane begin_cleanup end_cleanup install_exclusive
collecting_run = (
  _,
  next
      (next
        (next
          (next
            (next
              (next
                (next
                  (next
                    (next
                      (next
                        (next
                          (next (next dynamic_start (creates refl)) (works (starts refl refl) here))
                          (works (takes refl refl) here))
                        (begins (some 7)))
                      (registers refl refl))
                    (installs refl))
                  (ends (some 7)))
                (awaits refl refl refl))
              (waited refl refl))
            (offers refl refl here))
          (offered refl refl))
        (works (finishes refl) here))
      (meets refl refl refl here),
)

parked_run : (e : Engine) × Reach e
unfolding collecting_run create_lane begin_cleanup end_cleanup install_exclusive
parked_run = (_, next collecting_run.1 (parks refl refl here))

running_run : (e : Engine) × Reach e
unfolding parked_run collecting_run create_lane begin_cleanup end_cleanup install_exclusive
running_run = (
  _,
  next (next (next (next parked_run.1 (collected refl (omega arith))) (runs refl refl refl)) stops)
      (begins (some 7)),
)

ended_run : (e : Engine) × Reach e
unfolding running_run parked_run collecting_run create_lane begin_cleanup end_cleanup
    install_exclusive withdraw_exclusive release_lanes
ended_run = (
  _,
  next
      (next
        (next (next (next running_run.1 (returns refl)) (withdraws refl refl))
          (drains refl (omega arith)))
        (withdraws refl refl))
      (releases refl),
)

running-alone_example :
    (all (λ l. not (is_busy l.stage)) running_run.0.lanes ≡ true)
    × (running_run.0.barriers ≡ [])
    × (running_run.0.lifecycle ≡ 0)
unfolding running_run parked_run collecting_run create_lane begin_cleanup end_cleanup
    install_exclusive
running-alone_example = running-alone running_run.1 refl

collecting-ends_example : parked_run.0.expected ≤ parked_run.0.arrived
unfolding parked_run collecting_run create_lane begin_cleanup end_cleanup install_exclusive
collecting-ends_example = collecting-ends parked_run.1 refl refl

withdrawn-settled_example : (ended_run.0.deferred ≡ 0) × (ended_run.0.handed ≡ 0)
unfolding ended_run running_run parked_run collecting_run create_lane begin_cleanup end_cleanup
    install_exclusive withdraw_exclusive release_lanes
withdrawn-settled_example = withdrawn-settled ended_run.1 refl
