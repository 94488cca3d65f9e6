-- ===== src/Isr/Stopped.antt =====
-- After a fault of a user program in src/isr.c: whatever timer interrupts of src/timer.c follow, the
-- task does not run again.
use cool_os.Prelude.{
  ℕ, zero, suc, ◌%◌, ◌-◌, ◌≤◌, ◌≡◌, ◌≢◌, inl, inr, refl, subst, ◌∙◌, true, false, List, [], ◌∷◌,
  ◌++◌, arith, ◌==◌, Bool-cases, length,
}
use cool_os.Heap.{ok}
use cool_os.Sched.{Task, Tasks, Sched, deref, demoted, is_running, zombie}
use cool_os.Sched.Ring.{Entry, Chain}
use cool_os.Sched.RoundRobin.{
  Has, Represents, turn, demote, promote_first, is_skipped, remaining, skipped, find_next,
}
use cool_os.Sched.Yield.{Has-append}
use cool_os.Sched.Fair.{aged, tick, ticked, timer_ticks, length-turn}
use cool_os.Tasks.Adjust.{adjust, adjusted, length-adjust, Has-adjust}
use cool_os.Isr.{switched, finished, isr_handler}
use cool_os.Isr.Fault.{isr_handler-turn}

-- The task at `p` is a zombie wherever it stands, and is not the first.
abbrev pub Buried : ℕ → List Entry → Type 0
Buried p [] = Unit {0}
Buried p (e ∷ q) = (e.task ≡ p → e.body.state ≡ zombie) × Buried p q

abbrev pub Away : ℕ → List Entry → Type 0
Away p [] = Unit {0}
Away p (e ∷ q) = e.task ≢ p

module _ (p : ℕ) where
  Buried-join : (a b : List Entry) → Buried p a → Buried p b → Buried p (a ++ b)
  Buried-join [] b h k = k
  Buried-join (e ∷ a) b h k = (h.0, Buried-join a b h.1 k)

  Has-insert : (a b : List Entry) (e : Entry) → Has p (a ++ b) → Has p (a ++ e ∷ b)
  Has-insert [] b e h = inr h
  Has-insert (x ∷ a) b e (inl h) = inl h
  Has-insert (x ∷ a) b e (inr h) = inr (Has-insert a b e h)

  module _ (idle : ℕ) where
    Buried-remaining : (q : List Entry) → Buried p q → Buried p (remaining idle q)
    unfolding remaining
    Buried-remaining [] h = tt
    Buried-remaining (e ∷ q) h = elim (Bool-cases (is_skipped idle e)) [
      | inl pass ↦ rw pass (Buried-remaining q h.1)
      | inr take ↦ rw take h
    ]

    Buried-skipped : (q : List Entry) → Buried p q → Buried p (skipped idle q)
    unfolding skipped
    Buried-skipped [] h = tt
    Buried-skipped (e ∷ q) h = elim (Bool-cases (is_skipped idle e)) [
      | inl pass ↦ rw pass (h.0, Buried-skipped q h.1)
      | inr take ↦ rw take tt
    ]

    Has-parts : (q : List Entry) → Has p q → Has p (remaining idle q ++ skipped idle q)
    unfolding remaining skipped
    Has-parts [] h = elim h [ ]
    Has-parts (e ∷ q) h = elim (Bool-cases (is_skipped idle e)) [
      | inl pass ↦ rw pass (elim h [
        | inl here ↦ Has-append p (remaining idle q) (e ∷ skipped idle q) (inr (inl here))
        | inr later ↦ Has-insert (remaining idle q) (skipped idle q) e (Has-parts q later)
      ])
      | inr take ↦ rw take (Has-append p (e ∷ q) [] (inl h))
    ]

Has-rotate :
    (p : ℕ) (old new : Entry) (es : List Entry)
    → new.task ≡ old.task
    → Has p (old ∷ es)
    → Has p (es ++ new ∷ [])
Has-rotate p old new es same (inl here) = Has-append p es (new ∷ []) (inr (inl (same ∙ here)))
Has-rotate p old new es same (inr later) = Has-append p es (new ∷ []) (inl later)

demoted-zombie : (t : Task) → t.state ≡ zombie → (demoted t).state ≡ zombie
demoted-zombie t h = rw h refl

Has-promote_first : (p : ℕ) (q : List Entry) → Has p q → Has p (promote_first q)
Has-promote_first p [] h = h
Has-promote_first p (e ∷ q) h = h

-- What a turn of the queue keeps for a task that is not the idle one.
record Kept (p : ℕ) (q : List Entry) : Type 0 where
  buried : Buried p q
  away : Away p q
  has : Has p q

turn-Kept :
    (p idle : ℕ) (old : Entry) (es : List Entry)
    → p ≢ idle
    → Buried p (old ∷ es)
    → Has p (old ∷ es)
    → Has idle (old ∷ es)
    → Kept p (turn idle (old ∷ es))
unfolding turn
turn-Kept p idle old es other h has_p has_idle =
    let q = es ++ demote old ∷ [] in
    let hq : Buried p q =
      Buried-join p es (demote old ∷ []) h.1 ((λ same. demoted-zombie old.body (h.0 same)), tt) in
    let f = find_next idle q (Has-rotate idle old (demote old) es refl has_idle) in
    let left : Buried p (f.next ∷ f.behind) =
      subst (Buried p) f.left (Buried-remaining p idle q hq) in
    let ahead : f.next.task ≢ p =
      λ same. absurd (skipped_if p idle f.next other same (left.0 same) f.able) in
    let parts =
      subst (λ r. Has p (r ++ skipped idle q)) f.left
        (Has-parts p idle q (Has-rotate p old (demote old) es refl has_p)) in
    rw f.left (record {
      buried = (
        (λ same. absurd (ahead same)),
        Buried-join p f.behind (skipped idle q) left.1 (Buried-skipped p idle q hq),
      );
      away = ahead;
      has = parts;
    })
  where
    skipped_if :
        (p idle : ℕ) (e : Entry)
        → p ≢ idle
        → e.task ≡ p
        → e.body.state ≡ zombie
        → is_skipped idle e ≡ false
        → ⊥
    skipped_if p idle e other same dead able =
        let apart : (e.task == idle) ≡ false = ground (arith, other, same) in
        let clash : true ≡ false = rw (dead, apart) at able in ground (arith, clash)

tick-Kept : (p idle : ℕ) (q : List Entry) → p ≢ idle → Has idle q → Kept p q → Kept p (tick idle q)
unfolding tick
tick-Kept p idle [] other has k = k
tick-Kept p idle (old ∷ es) other has k = elim (Bool-cases (is_running old.body.state)) [
  | inl on ↦ rw on (elim (Bool-cases (old.body.ticks_remaining - 1 == 0)) [
    | inl over ↦ rw over (turn-Kept p idle (aged old) es other k.buried k.has has)
    | inr more ↦ rw more (record { buried = k.buried; away = k.away; has = k.has })
  ])
  | inr off ↦ rw off k
]

zombie_at :
    (ts : Tasks) (p : ℕ) (q : List Entry) (stop : ℕ)
    → Chain ts q stop
    → Buried p q
    → Has p q
    → (t : Task) × (deref ts p ≡ ok t) × (t.state ≡ zombie)
zombie_at ts p [] stop h b has = elim has [ ]
zombie_at ts p (e ∷ q) stop h b (inl here) =
    (e.body, subst (λ a. deref ts a ≡ ok e.body) here h.0, b.0 here)
zombie_at ts p (e ∷ q) stop h b (inr later) = zombie_at ts p q stop h.2 b.1 later

-- Another task is the current one, and the task at `p` is a zombie still.
pub record Stays (p : ℕ) (s : Sched) : Type 0 where
  pub other_runs : s.current_task ≢ p
  pub body : Task
  pub there : deref s.tasks p ≡ ok body
  pub dead : body.state ≡ zombie

Kept-Stays : (p : ℕ) (s : Sched) (q : List Entry) → Represents s q → Kept p q → Stays p s
Kept-Stays p s [] h k = elim (k.has) [ ]
Kept-Stays p s (e ∷ q) h k =
    let z = zombie_at s.tasks p (e ∷ q) e.task h.ring k.buried k.has in
    record { other_runs = λ same. k.away (h.current ∙ same); body = z.0; there = z.1; dead = z.2 }

length-tick : (idle : ℕ) (q : List Entry) → length (tick idle q) ≡ length q
unfolding tick
length-tick idle [] = refl
length-tick idle (old ∷ es) = elim (Bool-cases (is_running old.body.state)) [
  | inl on ↦ rw on (elim (Bool-cases (old.body.ticks_remaining - 1 == 0)) [
    | inl over ↦ rw over (length-turn idle (aged old ∷ es))
    | inr more ↦ rw more refl
  ])
  | inr off ↦ rw off refl
]

ticks-Stays :
    (n k : ℕ) (s : Sched) (q : List Entry) (p : ℕ)
    → Represents s q
    → length q ≤ n
    → p ≢ s.idle_task
    → Kept p q
    → (s' : Sched) × (timer_ticks n k s ≡ ok s') × Stays p s'
unfolding timer_ticks
ticks-Stays n zero s q p h enough other kept = (s, refl, Kept-Stays p s q h kept)
ticks-Stays n (suc k) s q p h enough other kept =
    let t = ticked n s q h enough in
    let rest =
      ticks-Stays n k t.next_state (tick s.idle_task q) p t.queue
        (omega (arith, enough, length-tick s.idle_task q)) (λ same. other (same ∙ t.idle))
        (tick-Kept p s.idle_task q other h.idle kept) in
    (rest.0, rw t.runs rest.1, rest.2)

finished-Buried : (p : ℕ) (q : List Entry) → Buried p (adjust p finished q)
finished-Buried p [] = tt
finished-Buried p (e ∷ q) = (at_entry p e, finished-Buried p q)
  where
    at_entry :
        (p : ℕ) (e : Entry)
        → (adjusted p finished e).task ≡ p
        → (adjusted p finished e).body.state ≡ zombie
    at_entry p e same = elim (Bool-cases (e.task == p)) [
      | inl here ↦ rw here refl
      | inr other ↦ absurd (ground (arith, other, (rw other at same)))
    ]

-- A fault in user mode ends the task that ran: another task runs then, and however many timer
-- interrupts follow, the task is never the current one again and stays a zombie. It is not the idle
-- task, there is fuel for each task, and nothing but the interrupts happens.
pub isr_handler-Stays :
    (n cs k : ℕ) (s : Sched) (old : Entry) (es : List Entry)
    → cs % 4 ≡ 3
    → Represents s (old ∷ es)
    → length (old ∷ es) ≤ n
    → old.task ≢ s.idle_task
    → (s₁ s₂ : Sched) × (isr_handler n cs s ≡ ok (switched s₁))
      × (timer_ticks n k s₁ ≡ ok s₂)
      × Stays old.task s₂
isr_handler-Stays n cs k s old es user h fuel busy =
    let p = old.task in
    let q = adjust p finished (old ∷ es) in
    let f = isr_handler-turn n cs s old es user h fuel in
    let kept =
      turn-Kept p s.idle_task (adjusted p finished old) (adjust p finished es) busy
        (finished-Buried p (old ∷ es)) (Has-adjust p p finished (old ∷ es) (inl refl))
        (Has-adjust s.idle_task p finished (old ∷ es) h.idle) in
    let r =
      ticks-Stays n k f.0 (turn s.idle_task q) p f.2
        (omega (arith, fuel, length-turn s.idle_task q, length-adjust p finished (old ∷ es)))
        (λ same. busy (same ∙ f.3)) kept in
    (f.0, r.0, f.1, r.1, r.2)
