-- ===== src/Xhci/Tests.antt =====
-- A keyboard behind the controller of src/xhci.c.
use cool_os.Prelude.{
  ℕ, zero, suc, ◌⊎◌, ◌<◌, ◌+◌, ◌^◌, ◌≡◌, refl, true, false, List, [], ◌∷◌, replicate, arith,
}
use cool_os.Kbd.{Kbd, process_scancode}
use cool_os.Xhci.{Trb, Xhci, Ring, no_trb, trb_type, drain, handle_report, key_event}
use cool_os.Xhci.Report.{Shifts, handle_reports, handle_reports-Shifts}
use cool_os.Xhci.Drain.{is_event, Drained, drain-Drained}

abbrev idle : Kbd
idle = record {
  shift_left = false;
  shift_right = false;
  caps_lock = false;
  ctrl_held = false;
  extended_scancode = false;
  buffer = replicate 256 0;
  head = 0;
  tail = 0;
}

abbrev nothing : List ℕ
nothing = replicate 8 0

-- The left shift key with A.
abbrev capital : List ℕ
capital = 2 ∷ 0 ∷ 4 ∷ 0 ∷ 0 ∷ 0 ∷ 0 ∷ 0 ∷ []

handle_reports-Shifts_example :
    Shifts
      (handle_reports (capital ∷ capital ∷ []) nothing idle).0
      (handle_reports (capital ∷ capital ∷ []) nothing idle).1
    × (handle_report
          (handle_reports (capital ∷ capital ∷ []) nothing idle).0
          (handle_reports (capital ∷ capital ∷ []) nothing idle).0
          (handle_reports (capital ∷ capital ∷ []) nothing idle).1
        ≡ (handle_reports (capital ∷ capital ∷ []) nothing idle).1)
handle_reports-Shifts_example =
    handle_reports-Shifts (capital ∷ capital ∷ []) nothing idle
      (record { left = refl; right = refl })

-- Enter is taken for the backspace.
enter_erases : key_event true 0x28 idle ≡ process_scancode idle 14 true
unfolding key_event
enter_erases = refl

abbrev empty_ring : Ring
empty_ring = record { trbs = replicate 256 no_trb; enqueue = 0; cycle = true }

-- A transfer that succeeded, in the lap of the driver.
abbrev report_event : Trb
report_event = record { param_low = 0; param_high = 0; status = 2 ^ 24; control = trb_type 32 + 1 }

abbrev waiting : Xhci
waiting = record {
  commands = empty_ring;
  ep0 = empty_ring;
  ep1 = empty_ring;
  events = record {
    trbs = report_event ∷ report_event ∷ replicate 254 no_trb;
    dequeue = 0;
    cycle = true;
    phys = 0x1000;
    erdp = 0x1008;
  };
  last_report = nothing;
  kbd = idle;
  kbd_buf_phys = 0x2000;
  doorbells = [];
}

-- The controller writes the second event while the driver takes the first.
abbrev ring : ℕ → List Trb
ring zero = report_event ∷ replicate 255 no_trb
ring (suc i) = report_event ∷ report_event ∷ replicate 254 no_trb

drain-Drained_example :
    Drained ring (λ i. capital) waiting.events 0 5 waiting (drain 5 ring (λ i. capital) 0 waiting)
    ⊎ ((i : ℕ) → i < 5 → is_event ring waiting.events i ≡ true)
drain-Drained_example = drain-Drained 5 ring (λ i. capital) waiting (omega arith)
