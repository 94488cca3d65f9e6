-- ===== src/Pci.antt =====
-- The enumeration of the PCI bus, src/pci.c. The configuration space is an argument: what the data port
-- reads as for an address in the address port.
pub mod Scan
mod Tests
use cool_os.Prelude.{
  ℕ, zero, suc, ◌+◌, ◌-◌, ◌*◌, ◌/◌, ◌%◌, ◌^◌, Bool, true, false, not, ◌&&◌, ◌||◌, Option, none,
  some, List, [], ◌∷◌, ◌++◌, bit_and, bit_or, ltb, ◌==◌, if◌then◌else◌,
}

-- A bus, a device and a function.
pub record Function : Type 0 where
  pub bus : ℕ
  pub slot : ℕ
  pub func : ℕ

-- `pci_make_address`.
unfoldable pub make_address : Function → ℕ → ℕ
make_address f offset =
    bit_or (bit_or (bit_or (bit_or (2 ^ 31) (f.bus * 2 ^ 16)) (f.slot * 2 ^ 11)) (f.func * 2 ^ 8))
      (bit_and offset 0xfc)

abbrev pub Space : Type 0
Space = ℕ → ℕ

unfoldable pub read_config_32 : Space → Function → ℕ → ℕ
read_config_32 space f offset = space (make_address f offset)

-- `pci_read_config_16`; the shift is (offset & 2) * 8.
unfoldable pub read_config_16 : Space → Function → ℕ → ℕ
read_config_16 space f offset =
    (space (make_address f offset) / 2 ^ ((offset / 2) % 2 * 2 * 8)) % 2 ^ 16

-- `pci_find_capability`; the fuel is the capabilities that are read. A list of capabilities that is a cycle
-- has no end, and `none` means that the fuel ran out.
unfoldable pub find_from_cap : ℕ → Space → Function → ℕ → ℕ → Option ℕ
find_from_cap zero space f cap_id ptr = none
find_from_cap (suc n) space f cap_id ptr =
    let reg = read_config_32 space f ptr in
    let rest = find_from_cap n space f cap_id ((reg / 2 ^ 8) % 2 ^ 8) in
    if ptr == 0
    then some 0
    else if not (ptr % 4 == 0) || ltb ptr 0x40
    then some 0
    else if reg % 2 ^ 8 == cap_id
    then some ptr
    else rest

unfoldable pub find_capability : ℕ → Space → Function → ℕ → Option ℕ
find_capability n space f cap_id =
    if (read_config_16 space f 0x06 / 2 ^ 4) % 2 == 1
    then find_from_cap n space f cap_id (read_config_32 space f 0x34 % 2 ^ 8)
    else some 0

-- No device answers.
abbrev pub no_vendor : ℕ
no_vendor = 0xffff

-- The test of `pci_check_function` for an xHCI controller.
unfoldable pub is_xhci : Space → Function → Bool
is_xhci space f =
    (read_config_32 space f 0x0b / 2 ^ 24) % 2 ^ 8 == 0x0c
    && (read_config_32 space f 0x0a / 2 ^ 16) % 2 ^ 8 == 0x03
    && (read_config_32 space f 0x09 / 2 ^ 8) % 2 ^ 8 == 0x30

-- `pci_check_function`: the calls of `xhci_init` so far and this one.
unfoldable pub check_function : Space → Function → List Function → List Function
check_function space f calls =
    if read_config_16 space f 0x00 == no_vendor
    then calls
    else if is_xhci space f
    then calls ++ (f ∷ [])
    else calls

-- The loop over the other functions of a device, with `n` to go.
unfoldable pub check_functions : ℕ → Space → ℕ → ℕ → ℕ → List Function → List Function
check_functions zero space bus slot func calls = calls
check_functions (suc n) space bus slot func calls =
    let f : Function = record { bus = bus; slot = slot; func = func } in
    check_functions n space bus slot (func + 1)
      (if read_config_16 space f 0x00 == no_vendor then calls else check_function space f calls)

-- The body of the loop over the devices.
unfoldable pub check_device : Space → ℕ → ℕ → List Function → List Function
check_device space bus slot calls =
    let f : Function = record { bus = bus; slot = slot; func = 0 } in
    if read_config_16 space f 0x00 == no_vendor
    then calls
    else (let calls' = check_function space f calls in
        if (read_config_32 space f 0x0e / 2 ^ 16 / 2 ^ 7) % 2 == 1
        then check_functions 7 space bus slot 1 calls'
        else calls')

unfoldable pub check_devices : ℕ → Space → ℕ → ℕ → List Function → List Function
check_devices zero space bus slot calls = calls
check_devices (suc n) space bus slot calls =
    check_devices n space bus (slot + 1) (check_device space bus slot calls)

unfoldable pub check_buses : ℕ → Space → ℕ → List Function → List Function
check_buses zero space bus calls = calls
check_buses (suc n) space bus calls =
    check_buses n space (bus + 1) (check_devices 32 space bus 0 calls)

-- `pci_init`: the functions that `xhci_init` is called for, in order.
unfoldable pub init : Space → List Function
init space = check_buses 256 space 0 []
