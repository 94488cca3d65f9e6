-- ===== src/Xhci/Drain.antt =====
-- The interrupt of the controller in src/xhci.c and the events of its ring.
use cool_os.Prelude.{
  ℕ, zero, suc, ◌+◌, ◌/◌, ◌%◌, ◌≤◌, ◌<◌, ◌≡◌, ◌⊎◌, refl, sym, ap, ap₂, subst, ◌∙◌, inl, inr, Bool,
  true, false, not, Option, none, some, List, [], ◌∷◌, leb, ◌==◌, if◌then◌else◌, get_or, arith,
  Bool-cases,
}
use cool_os.Xhci.{
  Trb, Events, Xhci, ring_size, no_trb, same_bool, is_ready, consumed, poll_event, queue_transfer,
  take_event, drain,
}

-- The ring of each round, and the driver's state at the first one.
module _ (ring : ℕ → List Trb) (e : Events) where
  -- The block that round `k` looks at, and the cycle bit of an event there, which changes with every lap.
  abbrev pub entry : ℕ → Trb
  entry k = get_or (ring k) ((e.dequeue + k) % ring_size) no_trb

  abbrev pub lap : ℕ → Bool
  lap k = if (e.dequeue + k) / ring_size % 2 == 0 then e.cycle else not e.cycle

  -- The controller has written an event there.
  abbrev pub is_event : ℕ → Bool
  is_event k = same_bool ((entry k).control % 2 == 1) (lap k)

  -- What `n` rounds from the `k`th on look at.
  abbrev pub entries : ℕ → ℕ → List Trb
  entries k zero = []
  entries k (suc n) = entry k ∷ entries (k + 1) n

-- The events one after the other.
unfoldable pub take_events : (ℕ → List ℕ) → ℕ → List Trb → Xhci → Xhci
take_events buffer i [] x = x
take_events buffer i (t ∷ ts) x = take_events buffer (i + 1) ts (take_event (buffer i) t x)

-- The pointer has moved over `k` blocks.
pub record Moved (ring : ℕ → List Trb) (e : Events) (k : ℕ) (e' : Events) : Type 0 where
  pub dequeue : e'.dequeue ≡ (e.dequeue + k) % ring_size
  pub cycle : e'.cycle ≡ lap ring e k

next_lap :
    (c : Bool) (m : ℕ)
    → (if leb ring_size (m % ring_size + 1)
        then not (if m / ring_size % 2 == 0 then c else not c)
        else (if m / ring_size % 2 == 0 then c else not c))
      ≡ (if (m + 1) / ring_size % 2 == 0 then c else not c)
next_lap c m = elim (Bool-cases (leb ring_size (m % ring_size + 1))) [
  | inl over ↦
      let full : m % ring_size ≡ 255 = ground (arith, over) in
      let up : (m + 1) / ring_size ≡ m / ring_size + 1 = omega (arith, full) in
      rw (over, up) (ground arith)
  | inr more ↦
      let room : m % ring_size < 255 = ground (arith, more) in
      let same : (m + 1) / ring_size ≡ m / ring_size = omega (arith, room) in rw (more, same) refl
]

together : (a k : ℕ) → (a + k) + 1 ≡ a + (k + 1)
together a k = omega arith

consumed-Moved :
    (ring : ℕ → List Trb) (e : Events) (k : ℕ) (e' : Events)
    → Moved ring e k e'
    → Moved ring e (k + 1) (consumed e')
unfolding consumed
consumed-Moved ring e k e' m = record {
  dequeue = ground (arith, m.dequeue);
  cycle =
      ap₂ (λ a c. if leb ring_size (a + 1) then not c else c) m.dequeue m.cycle
      ∙ next_lap e.cycle (e.dequeue + k)
      ∙ ap (λ j. if j / ring_size % 2 == 0 then e.cycle else not e.cycle) (together e.dequeue k);
}

take_event-events :
    (report : List ℕ) (t : Trb) (x : Xhci) (e : Events)
    → take_event report t (record x { events = e }) ≡ record (take_event report t x) { events = e }
unfolding take_event queue_transfer
take_event-events report t x e = ground arith

-- The rounds from the `k`th on, begun at `x`, have taken `count` events, and then found none.
pub record Drained (ring : ℕ → List Trb) (buffer : ℕ → List ℕ) (e : Events) (k n : ℕ) (x : Xhci)
    (r : Option Xhci) : Type 0 where
  pub count : ℕ
  pub last : Events
  pub within : count < n
  pub returns :
      r ≡ some (record (take_events buffer k (entries ring e k count) x) { events = last })
  pub moved : Moved ring e (k + count) last
  pub written : (i : ℕ) → k ≤ i → i < k + count → is_event ring e i ≡ true
  pub stops : is_event ring e (k + count) ≡ false

-- What the driver reads in round `k`.
abbrev seen : (ℕ → List Trb) → ℕ → Xhci → Events
seen ring k x = record (x.events) { trbs = ring k }

is_ready-seen :
    (ring : ℕ → List Trb) (e : Events) (k : ℕ) (x : Xhci)
    → Moved ring e k x.events
    → is_ready (seen ring k x) ≡ is_event ring e k
is_ready-seen ring e k x m = rw (m.dequeue, m.cycle) refl

poll_event-stop : (e : Events) → is_ready e ≡ false → poll_event e ≡ (none, e)
unfolding poll_event
poll_event-stop e h =
    ap {A = Bool} {B = Option Trb × Events}
      (λ b. if b then (some (get_or e.trbs e.dequeue no_trb), consumed e) else (none, e)) h

poll_event-next :
    (e : Events)
    → is_ready e ≡ true
    → poll_event e ≡ (some (get_or e.trbs e.dequeue no_trb), consumed e)
unfolding poll_event
poll_event-next e h =
    ap {A = Bool} {B = Option Trb × Events}
      (λ b. if b then (some (get_or e.trbs e.dequeue no_trb), consumed e) else (none, e)) h

-- One round, by what it polls.
abbrev round : ℕ → (ℕ → List Trb) → (ℕ → List ℕ) → ℕ → Xhci → Option Trb × Events → Option Xhci
round n ring buffer i x p = elim p.0 [
  | none ↦ some (record x { events = p.1 })
  | some t ↦ drain n ring buffer (i + 1) (take_event (buffer i) t (record x { events = p.1 }))
]

take_events-events :
    (buffer : ℕ → List ℕ) (i : ℕ) (ts : List Trb) (x : Xhci) (e : Events)
    → take_events buffer i ts (record x { events = e })
      ≡ record (take_events buffer i ts x) { events = e }
unfolding take_events
take_events-events buffer i [] x e = refl
take_events-events buffer i (t ∷ ts) x e =
    ap (take_events buffer (i + 1) ts) (take_event-events (buffer i) t x e)
    ∙ take_events-events buffer (i + 1) ts (take_event (buffer i) t x) e

module _ (ring : ℕ → List Trb) (buffer : ℕ → List ℕ) (e : Events) where
  stop_here :
      (n k : ℕ) (x : Xhci)
      → Moved ring e k x.events
      → is_event ring e k ≡ false
      → Drained ring buffer e k (suc n) x (drain (suc n) ring buffer k x)
  unfolding drain take_events
  stop_here n k x m none_there =
      let same : k + 0 ≡ k = omega arith in
      record {
        count = 0;
        last = seen ring k x;
        within = omega arith;
        returns =
            ap (round n ring buffer k x)
              (poll_event-stop (seen ring k x) (is_ready-seen ring e k x m ∙ none_there));
        moved = record {
          dequeue = m.dequeue ∙ ap (λ j. (e.dequeue + j) % ring_size) (sym same);
          cycle = m.cycle ∙ ap (lap ring e) (sym same);
        };
        written = λ i a b. absurd (omega arith);
        stops = rw same none_there;
      }

  -- The state after a round with an event.
  abbrev after : ℕ → Xhci → Xhci
  after k x = record (take_event (buffer k) (entry ring e k) x) {
    events = consumed (seen ring k x);
  }

  next_round :
      (n k : ℕ) (x : Xhci)
      → Moved ring e k x.events
      → is_event ring e k ≡ true
      → drain (suc n) ring buffer k x ≡ drain n ring buffer (k + 1) (after k x)
  unfolding drain
  next_round n k x m there =
      let block : get_or (ring k) x.events.dequeue no_trb ≡ entry ring e k =
        ap (λ i. get_or (ring k) i no_trb) m.dequeue in
      ap (round n ring buffer k x)
        (poll_event-next (seen ring k x) (is_ready-seen ring e k x m ∙ there))
      ∙ ap (drain n ring buffer (k + 1)) (
          take_event-events (buffer k) (get_or (ring k) x.events.dequeue no_trb) x
            (consumed (seen ring k x))
          ∙ ap (λ t. record (take_event (buffer k) t x) { events = consumed (seen ring k x) })
              block)

  go_on :
      (n k : ℕ) (x : Xhci)
      → Moved ring e k x.events
      → is_event ring e k ≡ true
      → Drained ring buffer e (k + 1) n (after k x) (drain n ring buffer (k + 1) (after k x))
      → Drained ring buffer e k (suc n) x (drain (suc n) ring buffer k x)
  unfolding take_events
  go_on n k x m there rest =
      let same : (k + 1) + rest.count ≡ k + suc rest.count = omega arith in
      record {
        count = suc rest.count;
        last = rest.last;
        within = omega (arith, rest.within);
        returns =
            next_round n k x m there
            ∙ rest.returns
            ∙ ap {A = Xhci} (λ y. some (record y { events = rest.last }))
                (take_events-events buffer (k + 1) (entries ring e (k + 1) rest.count)
                  (take_event (buffer k) (entry ring e k) x) (consumed (seen ring k x)));
        moved = subst (λ j. Moved ring e j rest.last) same rest.moved;
        written = λ i a b. elim (Bool-cases (i == k)) [
          | inl here ↦ let eq : i ≡ k = ground (arith, here) in rw eq there
          | inr later ↦ rest.written i (ground (arith, later)) (omega arith)
        ];
        stops = rw (sym same) rest.stops;
      }

  rounds :
      (n k : ℕ) (x : Xhci)
      → Moved ring e k x.events
      → Drained ring buffer e k n x (drain n ring buffer k x)
        ⊎ ((i : ℕ) → k ≤ i → i < k + n → is_event ring e i ≡ true)
  rounds zero k x m = inr (λ i a b. absurd (omega (arith, a, b)))
  rounds (suc n) k x m = elim (Bool-cases (is_event ring e k)) [
    | inl there ↦
        elim (rounds n (k + 1) (after k x) (
          consumed-Moved ring e k (seen ring k x)
            (record { dequeue = m.dequeue; cycle = m.cycle }))) [
              | inl done ↦ inl (go_on n k x m there done)
              | inr all ↦ inr (λ i a b. elim (Bool-cases (i == k)) [
                | inl here ↦ let eq : i ≡ k = ground (arith, here) in rw eq there
                | inr later ↦ all i (ground (arith, later)) (omega (arith, b))
              ])
            ]
    | inr none_there ↦ inl (stop_here n k x m none_there)
  ]

-- The loop over the events, while the controller goes on writing: it takes the event of every round, in the
-- order of the ring and round its end, with the cycle bit that each lap asks for, and returns at the first
-- round that finds none, where the pointer then stands; or each of the `n` rounds has found one.
pub drain-Drained :
    (n : ℕ) (ring : ℕ → List Trb) (buffer : ℕ → List ℕ) (x : Xhci)
    → x.events.dequeue < ring_size
    → Drained ring buffer x.events 0 n x (drain n ring buffer 0 x)
      ⊎ ((i : ℕ) → i < n → is_event ring x.events i ≡ true)
drain-Drained n ring buffer x low =
    elim (rounds ring buffer x.events n 0 x
      (record { dequeue = omega (arith, low); cycle = ground (arith, low, (start low)) })) [
        | inl done ↦ inl done
        | inr all ↦ inr (λ i below. all i (omega arith) (omega (arith, below)))
      ]
  where
    start : {d : ℕ} → d < ring_size → (d + 0) / ring_size ≡ 0
    start low = omega (arith, low)
