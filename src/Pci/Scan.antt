-- ===== src/Pci/Scan.antt =====
-- Which functions the enumeration of src/pci.c starts, against a description of the bus.
use cool_os.Prelude.{
  ℕ, zero, suc, ◌+◌, ◌/◌, ◌%◌, ◌^◌, ◌≡◌, refl, sym, ap, ap₂, ◌∙◌, inl, inr, Bool, true, false, not,
  ◌&&◌, List, [], ◌∷◌, ◌++◌, append_assoc, append-nil, ◌==◌, if◌then◌else◌, arith, Bool-cases,
}
use cool_os.Pci.{
  Function, Space, read_config_16, read_config_32, no_vendor, is_xhci, check_function,
  check_functions, check_device, check_devices, check_buses, init,
}

abbrev pub at : ℕ → ℕ → ℕ → Function
at bus slot func = record { bus = bus; slot = slot; func = func }

abbrev pub answers : Space → Function → Bool
answers space f = not (read_config_16 space f 0x00 == no_vendor)

-- A function that is started: it answers, it is an xHCI controller, and it is the first one of its device, or the
-- first one answers and says that there are more.
abbrev pub is_started : Space → Function → Bool
is_started space f =
    answers space f
    && is_xhci space f
    && (if f.func == 0
        then true
        else answers space (at f.bus f.slot 0)
          && (read_config_32 space (at f.bus f.slot 0) 0x0e / 2 ^ 16 / 2 ^ 7) % 2 == 1)

abbrev pub keep : Bool → Function → List Function
keep b f = if b then f ∷ [] else []

-- The started functions of a device from `func` on, of a bus from `slot` on, and from `bus` on.
unfoldable pub in_device : ℕ → Space → ℕ → ℕ → ℕ → List Function
in_device zero space bus slot func = []
in_device (suc n) space bus slot func =
    keep (is_started space (at bus slot func)) (at bus slot func)
    ++ in_device n space bus slot (func + 1)

unfoldable pub in_bus : ℕ → Space → ℕ → ℕ → List Function
in_bus zero space bus slot = []
in_bus (suc n) space bus slot = in_device 8 space bus slot 0 ++ in_bus n space bus (slot + 1)

unfoldable pub in_system : ℕ → Space → ℕ → List Function
in_system zero space bus = []
in_system (suc n) space bus = in_bus 32 space bus 0 ++ in_system n space (bus + 1)

check_function-keep :
    (space : Space) (f : Function) (calls : List Function)
    → check_function space f calls ≡ calls ++ keep (answers space f && is_xhci space f) f
unfolding check_function
check_function-keep space f calls = elim (Bool-cases (read_config_16 space f 0x00 == no_vendor)) [
  | inl absent ↦ rw absent (sym (append-nil calls))
  | inr there ↦ elim (Bool-cases (is_xhci space f)) [
    | inl xhci ↦ rw (there, xhci) refl
    | inr other ↦ rw (there, other) (sym (append-nil calls))
  ]
]

both_true :
    (a b c d e : Bool)
    → c ≡ false
    → d ≡ true
    → e ≡ true
    → (a && b && (if c then true else d && e)) ≡ (a && b)
both_true a b c d e later first more = ground (arith, later, first, more)

both_false : (a b c d : Bool) → c ≡ false → d ≡ false → (a && b && (if c then true else d)) ≡ false
both_false a b c d later single = ground (arith, later, single)

and_true : (a b : Bool) → (a && b && true) ≡ (a && b)
and_true a b = ground arith

absent_and : (a b : Bool) → a ≡ true → (not a && b) ≡ false
absent_and a b h = ground (arith, h)

and_single : (a b : Bool) → b ≡ false → (a && b) ≡ false
and_single a b h = ground (arith, h)

absent_keep : (b : Bool) (x : Bool) (f : Function) → b ≡ true → keep (not b && x) f ≡ []
absent_keep b x f h = rw h refl

started_step :
    (space : Space) (f : Function) (calls : List Function)
    → (f.func == 0) ≡ false
    → answers space (at f.bus f.slot 0) ≡ true
    → ((read_config_32 space (at f.bus f.slot 0) 0x0e / 2 ^ 16 / 2 ^ 7) % 2 == 1) ≡ true
    → (if read_config_16 space f 0x00 == no_vendor then calls else check_function space f calls)
      ≡ calls ++ keep (is_started space f) f
started_step space f calls later first more =
    let started =
      both_true (answers space f) (is_xhci space f) (f.func == 0) _ _ later first more in
    elim (Bool-cases (read_config_16 space f 0x00 == no_vendor)) [
      | inl absent ↦
          ap (λ b. if b then calls else check_function space f calls) absent
          ∙ sym (
              ap (λ l. calls ++ l)
                (ap (λ b. keep b f) started ∙ absent_keep _ (is_xhci space f) f absent)
              ∙ append-nil calls)
      | inr there ↦
          ap (λ b. if b then calls else check_function space f calls) there
          ∙ check_function-keep space f calls
          ∙ ap (λ b. calls ++ keep b f) (sym started)
    ]

-- The functions behind the first one of a device that answers and says that there are more.
check_functions-in_device :
    (n : ℕ) (space : Space) (bus slot func : ℕ) (calls : List Function)
    → (func == 0) ≡ false
    → answers space (at bus slot 0) ≡ true
    → ((read_config_32 space (at bus slot 0) 0x0e / 2 ^ 16 / 2 ^ 7) % 2 == 1) ≡ true
    → check_functions n space bus slot func calls ≡ calls ++ in_device n space bus slot func
unfolding check_functions in_device
check_functions-in_device zero space bus slot func calls later first more = sym (append-nil calls)
check_functions-in_device (suc n) space bus slot func calls later first more =
    let f = at bus slot func in
    let one : (if read_config_16 space f 0x00 == no_vendor
          then calls
          else check_function space f calls)
        ≡ calls ++ keep (is_started space f) f =
      started_step space f calls later first more in
    let after : (func + 1 == 0) ≡ false = ground arith in
    check_functions-in_device n space bus slot (func + 1) _ after first more
    ∙ rw (one)
        (append_assoc calls (keep (is_started space f) f) (in_device n space bus slot (func + 1)))

-- A device whose first function does not answer, or says that it is the only one, has no others that are started.
in_device-none :
    (n : ℕ) (space : Space) (bus slot func : ℕ)
    → (func == 0) ≡ false
    → (answers space (at bus slot 0)
        && (read_config_32 space (at bus slot 0) 0x0e / 2 ^ 16 / 2 ^ 7) % 2 == 1)
      ≡ false
    → in_device n space bus slot func ≡ []
unfolding in_device
in_device-none zero space bus slot func later single = refl
in_device-none (suc n) space bus slot func later single =
    let after : (func + 1 == 0) ≡ false = ground arith in
    let rest = in_device-none n space bus slot (func + 1) after single in
    let none_here : is_started space (at bus slot func) ≡ false =
      both_false (answers space (at bus slot func)) (is_xhci space (at bus slot func)) (func == 0) _
        later single in
    rw (none_here, rest) refl

in_device_first :
    (space : Space) (bus slot : ℕ)
    → in_device 8 space bus slot 0
      ≡ keep (answers space (at bus slot 0) && is_xhci space (at bus slot 0)) (at bus slot 0)
        ++ in_device 7 space bus slot 1
unfolding in_device
in_device_first space bus slot =
    ap (λ b. keep b (at bus slot 0) ++ in_device 7 space bus slot 1)
      (and_true (answers space (at bus slot 0)) (is_xhci space (at bus slot 0)))

check_device-in_device :
    (space : Space) (bus slot : ℕ) (calls : List Function)
    → check_device space bus slot calls ≡ calls ++ in_device 8 space bus slot 0
unfolding check_device
check_device-in_device space bus slot calls =
    let f = at bus slot 0 in
    let here = check_function-keep space f calls in
    let k = keep (answers space f && is_xhci space f) f in
    let whole = ap (λ l. calls ++ l) (in_device_first space bus slot) in
    elim (Bool-cases (read_config_16 space f 0x00 == no_vendor)) [
      | inl absent ↦
          let quiet = in_device-none 7 space bus slot 1 refl (absent_and _ _ absent) in
          let no_first : k ≡ [] = absent_keep _ (is_xhci space f) f absent in
          rw absent (sym (whole ∙ ap₂ (λ a b. calls ++ (a ++ b)) no_first quiet ∙ append-nil calls))
      | inr there ↦ elim (Bool-cases ((read_config_32 space f 0x0e / 2 ^ 16 / 2 ^ 7) % 2 == 1)) [
        | inl more ↦
            rw (there, more)
              (check_functions-in_device 7 space bus slot 1 (check_function space f calls) refl
                  (ap not there) more
                ∙ ap (λ l. l ++ in_device 7 space bus slot 1) here
                ∙ append_assoc calls k (in_device 7 space bus slot 1)
                ∙ sym whole)
        | inr single ↦
            let quiet = in_device-none 7 space bus slot 1 refl (and_single _ _ single) in
            rw (there, single)
              (here
                ∙ sym (
                    whole
                    ∙ ap (λ b. calls ++ (k ++ b)) quiet
                    ∙ ap (λ l. calls ++ l) (append-nil k)))
      ]
    ]

check_devices-in_bus :
    (n : ℕ) (space : Space) (bus slot : ℕ) (calls : List Function)
    → check_devices n space bus slot calls ≡ calls ++ in_bus n space bus slot
unfolding check_devices in_bus
check_devices-in_bus zero space bus slot calls = sym (append-nil calls)
check_devices-in_bus (suc n) space bus slot calls =
    check_devices-in_bus n space bus (slot + 1) (check_device space bus slot calls)
    ∙ ap (λ l. l ++ in_bus n space bus (slot + 1)) (check_device-in_device space bus slot calls)
    ∙ append_assoc calls (in_device 8 space bus slot 0) (in_bus n space bus (slot + 1))

check_buses-in_system :
    (n : ℕ) (space : Space) (bus : ℕ) (calls : List Function)
    → check_buses n space bus calls ≡ calls ++ in_system n space bus
unfolding check_buses in_system
check_buses-in_system zero space bus calls = sym (append-nil calls)
check_buses-in_system (suc n) space bus calls =
    check_buses-in_system n space (bus + 1) (check_devices 32 space bus 0 calls)
    ∙ ap (λ l. l ++ in_system n space (bus + 1)) (check_devices-in_bus 32 space bus 0 calls)
    ∙ append_assoc calls (in_bus 32 space bus 0) (in_system n space (bus + 1))

-- The enumeration calls `xhci_init` once for each xHCI controller of the 256 buses that it can see, in the order
-- of buses, devices and functions.
pub init-in_system : (space : Space) → init space ≡ in_system 256 space 0
unfolding init
init-in_system space = check_buses-in_system 256 space 0 []
