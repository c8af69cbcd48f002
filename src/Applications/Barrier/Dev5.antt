-- ===== src/Applications/Barrier/Dev5.antt =====
-- src/applications/barrier/barrier_dev5_threads3.cpp: four devices on two threads, and the halt device on
-- a third.
use toy_softswitch.Prelude.{ℕ, List, [], ◌∷◌, ◌==◌, if◌then◌else◌}
use toy_softswitch.Context.{Address, OutputPinTargets, DeviceContext, PThreadContext}
use toy_softswitch.Applications.{new_thread}
use toy_softswitch.Applications.Barrier.{
  GraphProps, barrier_app, input_of, barrier_device, halt_device,
}

abbrev pub inst0_props : GraphProps
inst0_props = record { max_time = 100; dev_count = 4 }

abbrev pub dev0_out_addresses : List Address
dev0_out_addresses = input_of 0 0 ∷ input_of 0 1 ∷ input_of 1 0 ∷ input_of 1 1 ∷ []

abbrev pub dev0_halt_addresses : List Address
dev0_halt_addresses = input_of 2 0 ∷ []

abbrev pub dev0_targets : List OutputPinTargets
dev0_targets =
    (record { num_targets = 4; targets = dev0_out_addresses })
    ∷ (record { num_targets = 1; targets = dev0_halt_addresses })
    ∷ []

abbrev pub dev1_out_addresses : List Address
dev1_out_addresses = input_of 0 0 ∷ input_of 0 1 ∷ input_of 1 0 ∷ input_of 1 1 ∷ []

abbrev pub dev1_halt_addresses : List Address
dev1_halt_addresses = input_of 2 0 ∷ []

abbrev pub dev1_targets : List OutputPinTargets
dev1_targets =
    (record { num_targets = 4; targets = dev1_out_addresses })
    ∷ (record { num_targets = 1; targets = dev1_halt_addresses })
    ∷ []

abbrev pub dev2_out_addresses : List Address
dev2_out_addresses = input_of 0 0 ∷ input_of 0 1 ∷ input_of 1 0 ∷ input_of 1 1 ∷ []

abbrev pub dev2_halt_addresses : List Address
dev2_halt_addresses = input_of 2 0 ∷ []

abbrev pub dev2_targets : List OutputPinTargets
dev2_targets =
    (record { num_targets = 4; targets = dev2_out_addresses })
    ∷ (record { num_targets = 1; targets = dev2_halt_addresses })
    ∷ []

abbrev pub dev3_out_addresses : List Address
dev3_out_addresses = input_of 0 0 ∷ input_of 0 1 ∷ input_of 1 0 ∷ input_of 1 1 ∷ []

abbrev pub dev3_halt_addresses : List Address
dev3_halt_addresses = input_of 2 0 ∷ []

abbrev pub dev3_targets : List OutputPinTargets
dev3_targets =
    (record { num_targets = 4; targets = dev3_out_addresses })
    ∷ (record { num_targets = 1; targets = dev3_halt_addresses })
    ∷ []

-- The arrays of device contexts.
abbrev pub device_instance_contexts_thread0 : ℕ → DeviceContext barrier_app
device_instance_contexts_thread0 i =
    if i == 0
    then barrier_device inst0_props.dev_count 0 dev0_targets
    else barrier_device inst0_props.dev_count 1 dev1_targets

abbrev pub device_instance_contexts_thread1 : ℕ → DeviceContext barrier_app
device_instance_contexts_thread1 i =
    if i == 0
    then barrier_device inst0_props.dev_count 0 dev2_targets
    else barrier_device inst0_props.dev_count 1 dev3_targets

abbrev pub device_instance_contexts_thread2 : ℕ → DeviceContext barrier_app
device_instance_contexts_thread2 i = halt_device 0

abbrev pub dev5_threads3 : ℕ → PThreadContext barrier_app
dev5_threads3 thread =
    if thread == 0
    then new_thread 0 inst0_props 2 device_instance_contexts_thread0
    else if thread == 1
    then new_thread 1 inst0_props 2 device_instance_contexts_thread1
    else new_thread 2 inst0_props 1 device_instance_contexts_thread2
