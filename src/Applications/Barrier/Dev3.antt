-- ===== src/Applications/Barrier/Dev3.antt =====
-- src/applications/barrier/barrier_dev3_threads2.cpp: two devices on two threads, and the halt device.
use toy_softswitch.Prelude.{ℕ, List, [], ◌∷◌, ◌==◌, if◌then◌else◌}
use toy_softswitch.Context.{Address, OutputPinTargets, DeviceContext, PThreadContext}
use toy_softswitch.Applications.{new_thread}
use toy_softswitch.Applications.Barrier.{
  GraphProps, barrier_app, input_of, barrier_device, halt_device,
}

abbrev pub inst0_props : GraphProps
inst0_props = record { max_time = 100; dev_count = 2 }

abbrev pub dev0_out_addresses : List Address
dev0_out_addresses = input_of 0 0 ∷ input_of 1 0 ∷ []

abbrev pub dev0_halt_addresses : List Address
dev0_halt_addresses = input_of 1 1 ∷ []

abbrev pub dev0_targets : List OutputPinTargets
dev0_targets =
    (record { num_targets = 2; targets = dev0_out_addresses })
    ∷ (record { num_targets = 1; targets = dev0_halt_addresses })
    ∷ []

abbrev pub dev1_out_addresses : List Address
dev1_out_addresses = input_of 0 0 ∷ input_of 1 0 ∷ []

abbrev pub dev1_halt_addresses : List Address
dev1_halt_addresses = input_of 1 1 ∷ []

abbrev pub dev1_targets : List OutputPinTargets
dev1_targets =
    (record { num_targets = 2; targets = dev1_out_addresses })
    ∷ (record { num_targets = 1; targets = dev1_halt_addresses })
    ∷ []

-- The arrays of device contexts.
abbrev pub device_instance_contexts_thread0 : ℕ → DeviceContext barrier_app
device_instance_contexts_thread0 i = barrier_device inst0_props.dev_count 0 dev0_targets

abbrev pub device_instance_contexts_thread1 : ℕ → DeviceContext barrier_app
device_instance_contexts_thread1 i =
    if i == 0 then barrier_device inst0_props.dev_count 0 dev1_targets else halt_device 1

abbrev pub dev3_threads2 : ℕ → PThreadContext barrier_app
dev3_threads2 thread =
    if thread == 0
    then new_thread 0 inst0_props 1 device_instance_contexts_thread0
    else new_thread 1 inst0_props 2 device_instance_contexts_thread1
