-- ===== src/Pci/Tests.antt =====
-- A bus for src/pci.c with one controller, the function 0 of device 4.
use cool_os.Prelude.{◌≡◌, refl, [], ◌∷◌, ◌==◌, if◌then◌else◌}
use cool_os.Pci.{
  Function, Space, make_address, read_config_16, read_config_32, is_xhci, check_function,
  check_device, init,
}
use cool_os.Pci.Scan.{in_system, init-in_system}

abbrev controller : Function
controller = record { bus = 0; slot = 4; func = 0 }

abbrev space : Space
space address =
    if address == 0x80002000
    then 0x8086
    else if address == 0x80002008
    then 0x0c033001
    else if address == 0x8000200c
    then 0
    else 0xffff_ffff

found : check_device space 0 4 [] ≡ controller ∷ []
unfolding check_device check_function is_xhci read_config_16 read_config_32 make_address
found = refl

absent : check_device space 0 5 [] ≡ []
unfolding check_device read_config_16 make_address
absent = refl

init-in_system_example : init space ≡ in_system 256 space 0
init-in_system_example = init-in_system space
