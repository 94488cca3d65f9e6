-- ===== src/Sched/Running.antt =====
-- `scheduler_yield` of src/scheduler.c leaves one task running.
use cool_os.Prelude.{ℕ, ◌≤◌, ◌≡◌, refl, false, List, [], ◌∷◌, ◌++◌, Bool-cases, inl, inr, length}
use cool_os.Heap.{ok}
use cool_os.Sched.{
  Sched, ProcState, ready, running, blocked, zombie, is_running, tick_slice, scheduler_yield,
}
use cool_os.Sched.Ring.{Entry}
use cool_os.Sched.RoundRobin.{
  demote, is_skipped, skipped, remaining, promote_first, turn, Represents,
}
use cool_os.Sched.Turn.{scheduler_yield-turn}

-- No task of a queue is running.
abbrev pub AllOff : List Entry → Type 0
AllOff [] = Unit {0}
AllOff (e ∷ q) = (is_running e.body.state ≡ false) × AllOff q

-- The first task is running with a full slice, and no other one is running.
abbrev pub OneRuns : List Entry → Type 0
OneRuns [] = ⊥
OneRuns (e ∷ q) = (e.body.state ≡ running) × (e.body.ticks_remaining ≡ tick_slice) × AllOff q

AllOff-join : (a b : List Entry) → AllOff a → AllOff b → AllOff (a ++ b)
AllOff-join [] b h k = k
AllOff-join (e ∷ a) b h k = (h.0, AllOff-join a b h.1 k)

demote-off : (e : Entry) → is_running (demote e).body.state ≡ false
demote-off e = by_state e.body.state refl
  where
    by_state : (t : ProcState) → e.body.state ≡ t → is_running (demote e).body.state ≡ false
    by_state ready h = rw h refl
    by_state running h = rw h refl
    by_state blocked h = rw h refl
    by_state zombie h = rw h refl

remaining-AllOff : (idle : ℕ) (q : List Entry) → AllOff q → AllOff (remaining idle q)
unfolding remaining
remaining-AllOff idle [] h = tt
remaining-AllOff idle (e ∷ q) h = elim (Bool-cases (is_skipped idle e)) [
  | inl pass ↦ rw pass (remaining-AllOff idle q h.1)
  | inr take ↦ rw take h
]

skipped-AllOff : (idle : ℕ) (q : List Entry) → AllOff q → AllOff (skipped idle q)
unfolding skipped
skipped-AllOff idle [] h = tt
skipped-AllOff idle (e ∷ q) h = elim (Bool-cases (is_skipped idle e)) [
  | inl pass ↦ rw pass (h.0, skipped-AllOff idle q h.1)
  | inr take ↦ rw take tt
]

promoted-OneRuns :
    (s : Sched) (q : List Entry)
    → Represents s (promote_first q)
    → AllOff q
    → OneRuns (promote_first q)
promoted-OneRuns s [] h off = absurd h.idle
promoted-OneRuns s (e ∷ q) h off = (refl, refl, off.1)

-- If no task behind the current one is running, then after `scheduler_yield`, with fuel for each task, the
-- new current task is running with a full slice and no other one is.
pub scheduler_yield-OneRuns :
    (n : ℕ) (s : Sched) (old : Entry) (es : List Entry)
    → Represents s (old ∷ es)
    → length (old ∷ es) ≤ n
    → AllOff es
    → (s' : Sched) × (q : List Entry) × (scheduler_yield n s ≡ ok s') × Represents s' q × OneRuns q
unfolding turn
scheduler_yield-OneRuns n s old es h enough off =
    let q = es ++ demote old ∷ [] in
    let idle = s.idle_task in
    let all = AllOff-join es (demote old ∷ []) off (demote-off old, tt) in
    let y = scheduler_yield-turn n s (old ∷ es) h enough in
    let parts =
      AllOff-join (remaining idle q) (skipped idle q) (remaining-AllOff idle q all)
        (skipped-AllOff idle q all) in
    (
      y.0,
      promote_first (remaining idle q ++ skipped idle q),
      y.1,
      y.2,
      promoted-OneRuns y.0 (remaining idle q ++ skipped idle q) y.2 parts,
    )
