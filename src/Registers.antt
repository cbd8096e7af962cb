-- ===== src/Registers.antt =====
-- utils/register-access-v1model.h: seven 16-bit fields packed into the registers that travel with a
-- packet. The register file itself belongs to the packet class of the switch library.
mod Masks
pub mod Fields
mod Tests
use p4simulator.Base.{ℕ, ◌-◌, ◌*◌, ◌/◌, ◌%◌, ◌^◌, ◌<◌, ◌≡◌, ◌≢◌, bit_and, bit_or}

-- `bm::Packet::get_register` and `set_register`: numbered cells of 64 bits.
pub record RegisterFile (P : Type 0) : Type 0 where
  pub get_register : P → ℕ → ℕ
  pub set_register : P → ℕ → ℕ → P
  pub get-lt : (p : P) (i : ℕ) → get_register p i < 2 ^ 64
  pub get-set_self : (p : P) (i v : ℕ) → v < 2 ^ 64 → get_register (set_register p i v) i ≡ v
  pub get-set_ne :
      (p : P) (i j v : ℕ) → i ≢ j → get_register (set_register p i v) j ≡ get_register p j

abbrev pub packet_length_reg_idx : ℕ
packet_length_reg_idx = 0

abbrev pub mask_0 : ℕ
mask_0 = 0x0000_0000_0000_ffff

abbrev pub mask_16 : ℕ
mask_16 = 0x0000_0000_ffff_0000

abbrev pub mask_32 : ℕ
mask_32 = 0x0000_ffff_0000_0000

abbrev pub mask_48 : ℕ
mask_48 = 0xffff_0000_0000_0000

-- `~mask` of a `uint64_t`.
abbrev pub complement : ℕ → ℕ
complement mask = 2 ^ 64 - 1 - mask

-- `static_cast<uint16_t>((rv & mask) >> shift)`
pub read_bits : ℕ → ℕ → ℕ → ℕ
read_bits rv mask shift = bit_and rv mask / 2 ^ shift % 2 ^ 16

-- `(rv & ~mask) | (static_cast<uint64_t>(v) << shift)`, where `v` is a `uint16_t`.
pub write_bits : ℕ → ℕ → ℕ → ℕ → ℕ
write_bits rv mask shift v = bit_or (bit_and rv (complement mask)) (v % 2 ^ 16 * 2 ^ shift % 2 ^ 64)

module _ {P : Type 0} (f : RegisterFile P) where
  open f use {get_register, set_register}

  unfoldable pub clear_all : P → P
  clear_all p = set_register (set_register p 1 0) 2 0

  unfoldable pub get_clone_mirror_session_id : P → ℕ
  get_clone_mirror_session_id p = read_bits (get_register p 1) mask_0 0

  unfoldable pub set_clone_mirror_session_id : P → ℕ → P
  set_clone_mirror_session_id p v = set_register p 1 (write_bits (get_register p 1) mask_0 0 v)

  unfoldable pub get_clone_field_list : P → ℕ
  get_clone_field_list p = read_bits (get_register p 1) mask_16 16

  unfoldable pub set_clone_field_list : P → ℕ → P
  set_clone_field_list p v = set_register p 1 (write_bits (get_register p 1) mask_16 16 v)

  unfoldable pub get_lf_field_list : P → ℕ
  get_lf_field_list p = read_bits (get_register p 1) mask_32 32

  unfoldable pub set_lf_field_list : P → ℕ → P
  set_lf_field_list p v = set_register p 1 (write_bits (get_register p 1) mask_32 32 v)

  unfoldable pub get_resubmit_flag : P → ℕ
  get_resubmit_flag p = read_bits (get_register p 1) mask_48 48

  unfoldable pub set_resubmit_flag : P → ℕ → P
  set_resubmit_flag p v = set_register p 1 (write_bits (get_register p 1) mask_48 48 v)

  unfoldable pub get_recirculate_flag : P → ℕ
  get_recirculate_flag p = read_bits (get_register p 2) mask_0 0

  unfoldable pub set_recirculate_flag : P → ℕ → P
  set_recirculate_flag p v = set_register p 2 (write_bits (get_register p 2) mask_0 0 v)

  unfoldable pub get_ns_protocol : P → ℕ
  get_ns_protocol p = read_bits (get_register p 2) mask_16 16

  unfoldable pub set_ns_protocol : P → ℕ → P
  set_ns_protocol p v = set_register p 2 (write_bits (get_register p 2) mask_16 16 v)

  unfoldable pub get_ns_address : P → ℕ
  get_ns_address p = read_bits (get_register p 2) mask_32 32

  unfoldable pub set_ns_address : P → ℕ → P
  set_ns_address p v = set_register p 2 (write_bits (get_register p 2) mask_32 32 v)
