-- ===== src/Xhci.antt =====
-- The USB keyboard behind the xHCI controller, src/xhci.c: the reports of the keyboard, which go to the
-- driver of src/kbd.c, and the rings that the driver shares with the controller. The registers are the
-- values that were written to them; what the controller writes into memory is an argument.
pub mod Report
pub mod Drain
mod Tests
use cool_os.Prelude.{
  ℕ, zero, suc, ◌+◌, ◌-◌, ◌*◌, ◌/◌, ◌%◌, ◌^◌, Bool, true, false, not, ◌&&◌, ◌||◌, Option, none,
  some, List, [], ◌∷◌, ◌++◌, bit_or, ltb, leb, ◌==◌, if◌then◌else◌, length, get_or, set, take, drop,
}
use cool_os.Kbd.{Kbd, process_scancode, sc_lshift, sc_rshift, sc_ctrl}

-- `hid_to_scancode`.
abbrev pub hid_to_scancode : List ℕ
hid_to_scancode =
    0 ∷ 0 ∷ 0 ∷ 0 ∷ 30 ∷ 48 ∷ 46 ∷ 32 ∷ 18 ∷ 33 ∷ 34 ∷ 35 ∷ 23 ∷ 36 ∷ 37 ∷ 38 ∷ 50 ∷ 49 ∷ 24 ∷ 25
    ∷ 16 ∷ 19 ∷ 31 ∷ 20 ∷ 22 ∷ 47 ∷ 17 ∷ 45 ∷ 2 ∷ 3 ∷ 4 ∷ 5 ∷ 6 ∷ 7 ∷ 8 ∷ 9 ∷ 10 ∷ 11 ∷ 28 ∷ 1 ∷ 14
    ∷ 15 ∷ 57 ∷ 12 ∷ 13 ∷ 26 ∷ 27 ∷ 43 ∷ 39 ∷ 40 ∷ 41 ∷ 51 ∷ 52 ∷ 53 ∷ 58 ∷ 59 ∷ 60 ∷ 61 ∷ 62 ∷ 63
    ∷ 64 ∷ 65 ∷ 66 ∷ 67 ∷ 68 ∷ 87 ∷ 88 ∷ []

-- A report is an array of eight bytes; bytes 2 to 7 are the keys that are down.
abbrev pub keys : List ℕ → List ℕ
keys report = take 6 (drop 2 report)

-- The loops over `j`: the key is among those.
unfoldable pub present : ℕ → List ℕ → Bool
present key [] = false
present key (k ∷ ks) = if k == key then true else present key ks

-- What a key that went down or up does.
unfoldable pub key_event : Bool → ℕ → Kbd → Kbd
key_event pressed key k =
    if ltb key (length hid_to_scancode)
    then (let sc = get_or hid_to_scancode key 0 in
        if sc == 0 then k else process_scancode k sc pressed)
    else k

-- A loop of `xhci_handle_keyboard_report` over the keys of one report that are not in the other one.
unfoldable pub changes : Bool → List ℕ → List ℕ → Kbd → Kbd
changes pressed [] other k = k
changes pressed (key ∷ ks) other k =
    let k' = if key == 0 || present key other then k else key_event pressed key k in
    changes pressed ks other k'

-- A bit of the modifiers.
abbrev pub modifier : ℕ → List ℕ → Bool
modifier bit report = (get_or report 0 0 / 2 ^ bit) % 2 == 1

-- The two tests for a modifier.
abbrev pub follow : ℕ → ℕ → List ℕ → List ℕ → Kbd → Kbd
follow bit sc report last k =
    let k' =
      if modifier bit report && not (modifier bit last) then process_scancode k sc true else k in
    if not (modifier bit report) && modifier bit last then process_scancode k' sc false else k'

-- `xhci_handle_keyboard_report`, but for the last line, which makes the report the last one.
unfoldable pub handle_report : List ℕ → List ℕ → Kbd → Kbd
handle_report report last k =
    let k₁ = changes true (keys report) (keys last) k in
    let k₂ = changes false (keys last) (keys report) k₁ in
    follow 4 sc_ctrl report last (
      follow 0 sc_ctrl report last
        (follow 5 sc_rshift report last (follow 1 sc_lshift report last k₂)))

-- `xhci_trb_t`.
pub record Trb : Type 0 where
  pub param_low : ℕ
  pub param_high : ℕ
  pub status : ℕ
  pub control : ℕ

abbrev pub trb_c : ℕ
trb_c = 1

abbrev pub trb_type : ℕ → ℕ
trb_type t = t * 2 ^ 10

abbrev pub get_type : ℕ → ℕ
get_type control = (control / 2 ^ 10) % 2 ^ 6

abbrev pub get_code : ℕ → ℕ
get_code status = (status / 2 ^ 24) % 2 ^ 8

abbrev pub ring_size : ℕ
ring_size = 256

-- A ring that the driver fills: the commands, or the transfers of an endpoint.
pub record Ring : Type 0 where
  pub trbs : List Trb
  pub enqueue : ℕ
  pub cycle : Bool

abbrev pub cycle_bit : Bool → ℕ
cycle_bit cycle = if cycle then trb_c else 0

-- A block is written where the ring is filled, and the index moves on.
unfoldable pub place : Trb → Ring → Ring
place t r = record {
  trbs = set r.trbs r.enqueue t;
  enqueue = if leb ring_size (r.enqueue + 1) then 0 else r.enqueue + 1;
  cycle = if leb ring_size (r.enqueue + 1) then not r.cycle else r.cycle;
}

-- The event ring, which the controller fills, with its physical address and the pointer that the driver
-- wrote last into the register of the controller.
pub record Events : Type 0 where
  pub trbs : List Trb
  pub dequeue : ℕ
  pub cycle : Bool
  pub phys : ℕ
  pub erdp : ℕ

-- The state of the driver, with the doorbells that it rang: a slot and a target each.
pub record Xhci : Type 0 where
  pub commands : Ring
  pub ep0 : Ring
  pub ep1 : Ring
  pub events : Events
  pub last_report : List ℕ
  pub kbd : Kbd
  pub kbd_buf_phys : ℕ
  pub doorbells : List (ℕ × ℕ)

abbrev pub no_trb : Trb
no_trb = record { param_low = 0; param_high = 0; status = 0; control = 0 }

abbrev pub same_bool : Bool → Bool → Bool
same_bool a b = if a then b else not b

-- The block that is next, if its cycle bit is that of the driver.
abbrev pub is_ready : Events → Bool
is_ready e = same_bool ((get_or e.trbs e.dequeue no_trb).control % 2 == 1) e.cycle

-- The dequeue pointer goes on, and into the register.
unfoldable pub consumed : Events → Events
consumed e =
    let next = if leb ring_size (e.dequeue + 1) then 0 else e.dequeue + 1 in
    record e {
      dequeue = next;
      cycle = if leb ring_size (e.dequeue + 1) then not e.cycle else e.cycle;
      erdp = bit_or (e.phys + next * 16) (2 ^ 3);
    }

-- `xhci_poll_event`.
unfoldable pub poll_event : Events → Option Trb × Events
poll_event e = if is_ready e then (some (get_or e.trbs e.dequeue no_trb), consumed e) else (none, e)

-- `xhci_queue_transfer`.
unfoldable pub queue_transfer : ℕ → ℕ → Xhci → Xhci
queue_transfer buffer len x =
    let t : Trb = record {
      param_low = buffer % 2 ^ 32;
      param_high = buffer / 2 ^ 32;
      status = len;
      control = bit_or (bit_or (bit_or (trb_type 1) (cycle_bit x.ep1.cycle)) (2 ^ 5)) (2 ^ 2);
    } in
    record x { ep1 = place t x.ep1; doorbells = x.doorbells ++ ((1, 3) ∷ []) }

-- `xhci_send_command`, which rings the doorbell of the controller.
unfoldable pub send_command : ℕ → ℕ → ℕ → ℕ → Xhci → Xhci
send_command type low high flags x =
    let t : Trb = record {
      param_low = low;
      param_high = high;
      status = 0;
      control = bit_or (bit_or (trb_type type) (cycle_bit x.commands.cycle)) flags;
    } in
    record x { commands = place t x.commands; doorbells = x.doorbells ++ ((0, 0) ∷ []) }

-- `xhci_wait_for_event`. Each element is the ring as a poll finds it, and the list ends with the timeout.
unfoldable pub wait_for_event : ℕ → List (List Trb) → Events → Option Trb × Events
wait_for_event type [] e = (none, e)
wait_for_event type (trbs ∷ polls) e =
    let polled = poll_event (record e { trbs = trbs }) in
    elim polled.0 [
      | none ↦ wait_for_event type polls polled.1
      | some t ↦ elim (get_type t.control == type) [
        | true ↦ (some t, polled.1)
        | false ↦ wait_for_event type polls polled.1
      ]
    ]

-- `xhci_enable_slot`; -1 is `none`.
unfoldable pub enable_slot : List (List Trb) → Xhci → Option ℕ × Xhci
enable_slot polls x =
    let x' = send_command 9 0 0 0 x in
    let ev = wait_for_event 33 polls x'.events in
    (
      elim ev.0 [
        | none ↦ none
        | some t ↦ if get_code t.status == 1 then some ((t.control / 2 ^ 24) % 2 ^ 8) else none
      ],
      record x' { events = ev.1 },
    )

-- One event of the interrupt; `report` is what the buffer of the keyboard reads as.
unfoldable pub take_event : List ℕ → Trb → Xhci → Xhci
take_event report t x =
    if get_type t.control == 32
    then queue_transfer x.kbd_buf_phys 8 (
        if get_code t.status == 1 || get_code t.status == 13
        then record x { last_report = report; kbd = handle_report report x.last_report x.kbd }
        else x)
    else x

-- The loop of `xhci_handle_irq`. Every round reads memory afresh: `ring` is what the event ring holds in
-- each round, and `buffer` what the buffer of the keyboard reads as, since the controller goes on writing
-- both. `none` means that the fuel ran out.
unfoldable pub drain : ℕ → (ℕ → List Trb) → (ℕ → List ℕ) → ℕ → Xhci → Option Xhci
drain zero ring buffer i x = none
drain (suc n) ring buffer i x =
    let polled = poll_event (record (x.events) { trbs = ring i }) in
    elim polled.0 [
      | none ↦ some (record x { events = polled.1 })
      | some t ↦
          drain n ring buffer (i + 1) (take_event (buffer i) t (record x { events = polled.1 }))
    ]

-- `xhci_handle_irq`, with the interrupt management register and fuel for the rounds.
unfoldable pub handle_irq : ℕ → ℕ → (ℕ → List Trb) → (ℕ → List ℕ) → Xhci → Option Xhci
handle_irq n iman ring buffer x = if iman % 2 == 1 then drain n ring buffer 0 x else some x
