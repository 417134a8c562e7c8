-- ===== src/ReceiverState/Enrollment.antt =====
-- src/vpn/receiver-state.ts, the choice that `enroll` makes: the invitation, and the device.
use kepos.Common.{
  ℕ, zero, suc, ◌+◌, ◌-◌, Bool, false, ◌&&◌, Option, none, some, List, [], ◌∷◌, ◌++◌, map, leb,
  if◌then◌else◌, length,
}
use kepos.Common.Outcome.{Run, return, throw}
use kepos.Common.Integers.{ℤ}
use kepos.Common.Text.{Text, text_eq, has_text}
use kepos.ReceiverState.Addresses.{address, pool_range}
use kepos.ReceiverState.Durable.{
  all_ports, ReceiverDevice, Pending, State, Store, StateError, rejected_excluded,
  rejected_capacity, rejected_pool, invalid_pool, live, max_devices,
}

-- The first live invitation with this digest, and the others in their order.
unfoldable pub find_pending : Text → ℤ → List Pending → Option (Pending × List Pending)
find_pending hash now [] = none
find_pending hash now (p ∷ ps) =
    let later = find_pending hash now ps in
    if text_eq p.digest hash && live now p
    then some (p, ps)
    else elim later [ none ↦ none | some (q, rest) ↦ some (q, p ∷ rest) ]

unfoldable pub find_device : Text → List ReceiverDevice → Option ReceiverDevice
find_device key [] = none
find_device key (d ∷ ds) =
    let later = find_device key ds in if text_eq d.public_key key then some d else later

-- The `for` loop over the range, with as many rounds as the range has numbers left.
unfoldable pub lowest_free : List Text → ℕ → ℕ → Option Text
lowest_free taken zero n = none
lowest_free taken (suc left) n =
    let later = lowest_free taken left (n + 1) in
    if has_text taken (address n) then later else some (address n)

abbrev pub with_excluded : Option Text → List Text → List Text
with_excluded none taken = taken
with_excluded (some a) taken = a ∷ taken

abbrev pub taken_addresses : State → Option Text → List Text
taken_addresses q excluded =
    with_excluded excluded (q.receiver_address ∷ map (λ (d : ReceiverDevice). d.address) q.devices)

abbrev pub excludes : Option Text → Text → Bool
excludes none a = false
excludes (some e) a = text_eq a e

-- The device that the invitation enrols, and the devices with it.
unfoldable pub new_device :
    State → Pending → Text → Run StateError Store (ReceiverDevice × List ReceiverDevice)
unfolding lowest_free
new_device q pending key =
    if leb max_devices (length q.devices)
    then throw rejected_capacity
    else elim (pool_range q.pool) [
      | none ↦ throw invalid_pool
      | some range ↦
          elim (lowest_free (taken_addresses q pending.exclude_address)
            (range.last + 1 - range.first) range.first) [
              | none ↦ throw rejected_pool
              | some a ↦
                  let device : ReceiverDevice = record {
                    public_key = key;
                    address = a;
                    allow_tcp = all_ports;
                  } in
                  return (device, q.devices ++ device ∷ [])
            ]
    ]

unfoldable pub choose :
    State → Pending → Text → Run StateError Store (ReceiverDevice × List ReceiverDevice)
unfolding new_device find_device
choose q pending key = elim (find_device key q.devices) [
  | none ↦ new_device q pending key
  | some device ↦
      if excludes pending.exclude_address device.address
      then throw rejected_excluded
      else return (device, q.devices)
]
