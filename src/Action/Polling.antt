-- ===== src/Action/Polling.antt =====
-- The wait for a decision ends: each poll without one sleeps, and time passes.
use nova_project_bible.Common.{
  ℕ, zero, suc, ◌+◌, ◌≤◌, ◌<◌, Uuid, Option, none, some, List, [], ◌∷◌, Bool, false, ◌≡◌, refl,
  arith, ltb, inl, inr, Option-cases, Bool-cases,
}
use nova_project_bible.Common.Effects.{ok, ◌>>=◌}
use nova_project_bible.Action.Model.{ApprovalDecision}
use nova_project_bible.Action.Store.{
  Ports, State, ask, find_pending_approval, decide_pending_approval,
}
use nova_project_bible.Action.Approval.{
  decide_approval, decide_each, serve_endpoint, poll, await_until, poll_interval, await_decision,
}

-- `time.monotonic` reads a clock that no port sets back, and a sleep lasts as long as it is asked to.
pub record Clock {W J F : Type 0} (ports : Ports W J F) : Type 0 where
  pub time : W → ℕ
  pub reads_time : (w : W) → (ports.monotonic w).0 ≡ time w
  pub reading : (w : W) → time w ≤ time (ports.monotonic w).1
  pub stamping : (w : W) → time w ≤ time (ports.now w).1
  pub arriving : (w : W) → time w ≤ time (ports.arrivals w).1
  pub sleeping : (d : ℕ) (w : W) → d + time w ≤ time (ports.sleep d w)

module _ {W J F : Type 0} (ports : Ports W J F) (clock : Clock ports) where
  decide_approval-time :
      (i : Uuid) (approved : Bool) (s : State W J F)
      → clock.time s.world ≤ clock.time (decide_approval ports i approved s).1.world
  unfolding decide_approval decide_pending_approval
  decide_approval-time i approved s = elim (Option-cases (find_pending_approval i s)) [
    | inl e ↦ rw (decide_approval, e) (omega arith)
    | inr (p, e) ↦ elim (Option-cases p.decision) [
      | inl q ↦ rw (decide_approval, e, q) (clock.stamping s.world)
      | inr (d, q) ↦ rw (decide_approval, e, q) (omega arith)
    ]
  ]

  decide_each-time :
      (posts : List (Uuid × Bool)) (s : State W J F)
      → clock.time s.world ≤ clock.time (decide_each ports posts s).world
  unfolding decide_each
  decide_each-time [] s = omega arith
  decide_each-time ((i, approved) ∷ posts) s = omega (
    arith,
    decide_approval-time i approved s,
    decide_each-time posts (decide_approval ports i approved s).1,
  )

  serve_endpoint-time :
      (s : State W J F) → clock.time s.world ≤ clock.time (serve_endpoint ports s).world
  unfolding serve_endpoint
  serve_endpoint-time s =
      let (posts, w) = ports.arrivals s.world in
      omega (arith, clock.arriving s.world, decide_each-time posts (record s { world = w }))

  poll-time :
      (i : Uuid) (interval : ℕ) (s : State W J F)
      → (poll ports i interval s).0 ≡ none
      → interval + clock.time s.world ≤ clock.time (poll ports i interval s).1.world
  unfolding poll
  poll-time i interval s waits =
      let t = serve_endpoint ports s in
      let later : interval + clock.time s.world ≤ clock.time (ports.sleep interval t.world) =
        omega (arith, clock.sleeping interval t.world, serve_endpoint-time s) in
      elim (Option-cases (find_pending_approval i t)) [
        | inl e ↦ rw (poll, e) later
        | inr (p, e) ↦ elim (Option-cases p.decision) [
          | inl q ↦ rw (poll, e, q) later
          | inr (d, q) ↦
              let r : ◌≡◌ {A = Option ApprovalDecision} (some d) none =
                (rw (poll, e, q) at waits) in
              cc
        ]
      ]

  await_until-ends :
      (fuel deadline interval : ℕ) (i : Uuid) (s : State W J F)
      → 0 < interval
      → deadline ≤ clock.time s.world + fuel
      → (d : Option ApprovalDecision) × ((await_until ports (suc fuel) i deadline interval s).0
          ≡ ok d)
  unfolding await_until
  await_until-ends zero deadline interval i s positive enough =
      let over : ltb (ports.monotonic s.world).0 deadline ≡ false =
        ground (arith, clock.reads_time s.world) in
      (none, rw (await_until, over) refl)
  await_until-ends (suc fuel) deadline interval i s positive enough =
      let w = (ports.monotonic s.world).1 in
      let polled = poll ports i interval (record s { world = w }) in
      elim (Bool-cases (ltb (ports.monotonic s.world).0 deadline)) [
        | inr e ↦ (none, rw (await_until, e) refl)
        | inl e ↦ elim (Option-cases polled.0) [
          | inr (d, q) ↦ (some d, rw (await_until, e, q) refl)
          | inl q ↦
              let slept = poll-time i interval (record s { world = w }) q in
              let (d, r) =
                await_until-ends fuel deadline interval i polled.1 positive
                  (omega (arith, slept, clock.reading s.world)) in
              (d, rw (await_until, e, q) r)
        ]
      ]

  poll_interval-positive : (timeout : ℕ) → 0 < poll_interval ports timeout
  poll_interval-positive timeout = ground arith

  -- The wait for a decision returns, a decision or a timeout, on one unit of fuel for each microsecond
  -- of the timeout and one more, where the clock passes in each sleep.
  pub await_decision-ends :
      (timeout : ℕ) (i : Uuid) (s : State W J F)
      → (d : Option ApprovalDecision) × ((await_decision ports (suc timeout) i timeout s).0 ≡ ok d)
  unfolding await_decision ask ◌>>=◌
  await_decision-ends timeout i s =
      let (t, w) = ports.monotonic s.world in
      await_until-ends timeout (t + timeout) (poll_interval ports timeout) i
        (record s { world = w }) (poll_interval-positive timeout)
        (omega (arith, clock.reads_time s.world, clock.reading s.world))
