-- ===== src/Shared/MicrophoneGate/Draining.antt =====
-- The chain of operations of frontend/src/shared/microphone-gate.ts comes to its end.
use dawn_mesh_server.Prelude.{
  ℕ, zero, suc, ◌+◌, ◌*◌, ◌≤◌, ◌<◌, ◌≡◌, ◌≢◌, refl, arith, true, false, Bool-cases, inl, inr, ltb,
  ltb→lt, ◌⊎◌,
}
use dawn_mesh_server.Shared.MicrophoneGate.{
  Phase, Gate, Call, Progress, Reached, Phase.idle, Phase.unmuting, Phase.unmuted, Phase.muting,
  set_gate, dispose, begin_operation, continue_operation,
}
use dawn_mesh_server.Shared.MicrophoneGate.Invariant.{
  is_enabled, is_stopped, IsGuarded, Reached-IsGuarded, Progress-IsGuarded,
}

-- The most steps that an operation still takes.
abbrev pub left_of : Phase → ℕ
left_of idle = 0
left_of muting = 1
left_of unmuted = 2
left_of unmuting = 3

abbrev pub work : Gate → ℕ
work g = g.queued * 4 + left_of g.phase

-- `n` steps of progress without a call.
pub data Run : ℕ → Gate → Gate → Type 0 where
  rests : (g : Gate) → Run 0 g g
  goes : {n : ℕ} {g h k : Gate} → Progress g h → Run n h k → Run (suc n) g k

continue-work : (g : Gate) → work (continue_operation g) ≤ g.queued * 4 + 1
unfolding continue_operation
continue-work g = ground arith

begin-work : (g : Gate) → work (begin_operation g) ≤ g.queued * 4 + 3
unfolding begin_operation continue_operation
begin-work g = ground arith

Progress-work : {g h : Gate} → Progress g h → work h < work g
Progress-work (Progress.begins g n at_rest more) =
    ground (arith, begin-work (record g { queued = n }))
Progress-work (Progress.unmute_fulfils t g waits) = ground arith
Progress-work (Progress.unmute_rejects g waits) = ground arith
Progress-work (Progress.continues g done) = ground (arith, continue-work g)
Progress-work (Progress.mute_settles g waits) = ground arith

Run-work : {n : ℕ} {g h : Gate} → Run n g h → n + work h ≤ work g
Run-work (Run.rests g) = omega arith
Run-work (Run.goes step rest) = omega (arith, Progress-work step, Run-work rest)

-- While something is left to do, some step is possible.
Progress-exists : (g : Gate) → 0 < work g → (h : Gate) × Progress g h
Progress-exists g busy = by_phase g.phase refl g.queued refl
  where
    by_phase : (p : Phase) → g.phase ≡ p → (q : ℕ) → g.queued ≡ q → (h : Gate) × Progress g h
    by_phase idle e zero f = absurd (ground arith)
    by_phase idle e (suc n) f = (begin_operation (record g { queued = n }), Progress.begins g n e f)
    by_phase unmuting e q f = (record g { phase = idle }, Progress.unmute_rejects g e)
    by_phase unmuted e q f = (continue_operation g, Progress.continues g e)
    by_phase muting e q f = (record g { phase = idle }, Progress.mute_settles g e)

continue_wishes :
    (g : Gate)
    → ((continue_operation g).wanted ≡ g.wanted) × ((continue_operation g).disposed ≡ g.disposed)
unfolding continue_operation
continue_wishes g = ground arith

begin_wishes :
    (g : Gate)
    → ((begin_operation g).wanted ≡ g.wanted) × ((begin_operation g).disposed ≡ g.disposed)
unfolding begin_operation continue_operation
begin_wishes g = ground arith

-- Progress leaves what the page asked for.
Progress-wishes : {g h : Gate} → Progress g h → (h.wanted ≡ g.wanted) × (h.disposed ≡ g.disposed)
Progress-wishes (Progress.begins g n at_rest more) = begin_wishes (record g { queued = n })
Progress-wishes (Progress.unmute_fulfils t g waits) = (refl, refl)
Progress-wishes (Progress.unmute_rejects g waits) = (refl, refl)
Progress-wishes (Progress.continues g done) = continue_wishes g
Progress-wishes (Progress.mute_settles g waits) = (refl, refl)

Run-wishes : {n : ℕ} {g h : Gate} → Run n g h → (h.wanted ≡ g.wanted) × (h.disposed ≡ g.disposed)
Run-wishes (Run.rests g) = (refl, refl)
Run-wishes (Run.goes step rest) = ground (arith, Progress-wishes step, Run-wishes rest)

Run-IsGuarded : {n : ℕ} {g h : Gate} → Run n g h → IsGuarded g → IsGuarded h
Run-IsGuarded (Run.rests g) i = i
Run-IsGuarded (Run.goes step rest) i = Run-IsGuarded rest (Progress-IsGuarded step i)

-- Whatever the SDK answers, the operations make at most `work` steps, four for each one queued, and
-- until nothing is left to do another step is possible.
pub Run-ends :
    {n : ℕ} {g h : Gate} → Run n g h → (n ≤ work g) × ((work h ≡ 0) ⊎ ((k : Gate) × Progress h k))
Run-ends {h = h} run = (
  omega (arith, Run-work run),
  elim (Bool-cases (ltb 0 (work h))) [
    | inl busy ↦ inr (Progress-exists h (ltb→lt 0 (work h) busy))
    | inr done ↦ inl (ground arith)
  ],
)

work-idle : (g : Gate) → work g ≡ 0 → g.phase ≢ unmuted
work-idle g done e = ground arith

-- In any reached state a release closes the track at once, and the track is closed when the
-- operations have ended with no further call, however late an `unmute` answers.
pub release_closes :
    {n : ℕ} (g h : Gate)
    → Reached g
    → Run n (set_gate false g) h
    → work h ≡ 0
    → (is_enabled (set_gate false g).track ≡ false) × (is_enabled h.track ≡ false)
unfolding set_gate
release_closes g h r run done = (
  ground arith,
  (Run-IsGuarded run (Reached-IsGuarded (Reached.called r (Call.sets false g)))).closed
      (Run-wishes run).0 (work-idle h done),
)

-- In any reached state `dispose` closes and stops the track at once, and the track is closed and
-- stopped when the operations have ended with no further call, even if `unmute` gave it another
-- device meanwhile.
pub dispose_stops :
    {n : ℕ} (g h : Gate)
    → Reached g
    → Run n (dispose g) h
    → work h ≡ 0
    → (is_stopped (dispose g).track ≡ true) × (is_stopped h.track ≡ true)
unfolding dispose
dispose_stops g h r run done = (
  ground arith,
  (Run-IsGuarded run (Reached-IsGuarded (Reached.called r (Call.disposes g)))).stopped
      (Run-wishes run).1 (work-idle h done),
)
