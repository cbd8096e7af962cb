-- ===== src/Link/Channel.antt =====
-- model/p4-p2p-channel.cc, class P4P2PChannel: two wires, one from each device to the other. A device
-- is a number, a time is a number of the simulator's units, and `none` stands for a failed assertion.
use p4simulator.Base.{
  ℕ, ◌+◌, ◌≡◌, ◌≢◌, refl, sym, Bool, true, false, Option, none, some, ◌==◌, ==-refl, ==-false,
  if◌then◌else◌,
}

pub data WireState : Type 0 where
  initializing idle transmitting propagating : WireState

-- The class `Link`.
pub record Wire : Type 0 where
  pub state : WireState
  pub src : Option ℕ
  pub dst : Option ℕ

pub record P4P2PChannel : Type 0 where
  pub delay : ℕ
  pub n_devices : ℕ
  pub link_0 : Wire
  pub link_1 : Wire

unfoldable pub init : ℕ → P4P2PChannel
init delay = record {
  delay = delay;
  n_devices = 0;
  link_0 = record { state = initializing; src = none; dst = none };
  link_1 = record { state = initializing; src = none; dst = none };
}

-- The device is not null.
unfoldable pub attach : P4P2PChannel → ℕ → Option P4P2PChannel
attach c device =
    if c.n_devices == 0
    then some (record c { n_devices = 1; link_0 = record c.link_0 { src = some device } })
    else if c.n_devices == 1
    then some (record c {
      n_devices = 2;
      link_0 = record { state = idle; src = c.link_0.src; dst = some device };
      link_1 = record { state = idle; src = some device; dst = c.link_0.src };
    })
    else none

unfoldable pub is_initializing : WireState → Bool
is_initializing initializing = true
is_initializing idle = false
is_initializing transmitting = false
is_initializing propagating = false

unfoldable pub is_source : Option ℕ → ℕ → Bool
is_source none device = false
is_source (some src) device = src == device

-- A packet that the simulator is to give to a device, and the time until then.
pub record Reception {ℓ} (Packet : Type ℓ) : Type ℓ where
  pub after : ℕ
  pub receiver : ℕ
  pub packet : Packet

-- The wire's far end is known once the wire is not initializing.
unfoldable pub schedule_receive {ℓ} :
    {Packet : Type ℓ} → Option ℕ → ℕ → Packet → Option (Reception Packet)
schedule_receive none after p = none
schedule_receive (some dst) after p = some (record { after = after; receiver = dst; packet = p })

unfoldable pub transmit_start {ℓ} :
    {Packet : Type ℓ} → P4P2PChannel → Packet → ℕ → ℕ → Option (Reception Packet)
transmit_start c p src tx_time =
    if is_initializing c.link_0.state
    then none
    else if is_initializing c.link_1.state
    then none
    else if is_source c.link_0.src src
    then schedule_receive c.link_0.dst (tx_time + c.delay) p
    else schedule_receive c.link_1.dst (tx_time + c.delay) p

-- The device at an end.
unfoldable pub get_device : P4P2PChannel → ℕ → Option ℕ
get_device c i = if i == 0 then c.link_0.src else if i == 1 then c.link_1.src else none

unfoldable pub other_than : Option ℕ → ℕ → Option ℕ → Option ℕ
other_than none self last = last
other_than (some device) self last = if device == self then last else some device

-- The loop of `GetRemote` over the two devices, which yields the device whose address is returned.
unfoldable pub get_remote : P4P2PChannel → ℕ → Option ℕ
get_remote c self =
    if c.n_devices == 2
    then other_than (get_device c 0) self (other_than (get_device c 1) self none)
    else none

-- The channel of two devices.
abbrev pub joined : ℕ → ℕ → ℕ → P4P2PChannel
joined delay a b = record {
  delay = delay;
  n_devices = 2;
  link_0 = record { state = idle; src = some a; dst = some b };
  link_1 = record { state = idle; src = some b; dst = some a };
}

-- The channel of one device.
abbrev pub half : ℕ → ℕ → P4P2PChannel
half delay a = record {
  delay = delay;
  n_devices = 1;
  link_0 = record { state = initializing; src = some a; dst = none };
  link_1 = record { state = initializing; src = none; dst = none };
}

-- Attach two different devices to a new channel: it gives what either starts to transmit to the other
-- one, unchanged, after the transmission time and the delay, and each is the other's remote device; a
-- third device is refused, and so is a transmission while the second device is missing.
pub transmit-joined {ℓ} :
    {Packet : Type ℓ} (delay a b device tx_time : ℕ) (p : Packet)
    → a ≢ b
    → (attach (init delay) a ≡ some (half delay a))
      × (attach (half delay a) b ≡ some (joined delay a b))
      × (attach (joined delay a b) device ≡ none)
      × (transmit_start (half delay a) p a tx_time ≡ none)
      × (transmit_start (joined delay a b) p a tx_time
          ≡ some (record { after = tx_time + delay; receiver = b; packet = p }))
      × (transmit_start (joined delay a b) p b tx_time
          ≡ some (record { after = tx_time + delay; receiver = a; packet = p }))
      × (get_remote (joined delay a b) a ≡ some b)
      × (get_remote (joined delay a b) b ≡ some a)
unfolding attach init transmit_start is_initializing is_source schedule_receive get_remote
    other_than get_device
transmit-joined delay a b device tx_time p ne =
    rw (==-refl a, ==-refl b, ==-false a b ne, ==-false b a (λ e. ne (sym e)))
      (refl, refl, refl, refl, refl, refl, refl, refl)
