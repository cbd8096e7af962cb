-- ===== src/Registers/Fields.antt =====
-- The fields of utils/register-access-v1model.h as one family: which register and bits each has.
use p4simulator.Base.{ℕ, ◌+◌, ◌*◌, ◌/◌, ◌%◌, ◌^◌, ◌<◌, ◌≡◌, ◌≢◌, refl, ap, ◌∙◌, arith}
use native.Mathlib.Decide.{ℕ_discrete}
use p4simulator.Registers.Masks.{
  read_bits_0, read_bits_16, read_bits_32, read_bits_48, write_bits_0, write_bits_16, write_bits_32,
  write_bits_48,
}
use p4simulator.Registers.{
  RegisterFile, packet_length_reg_idx, clear_all, get_clone_mirror_session_id,
  set_clone_mirror_session_id, get_clone_field_list, set_clone_field_list, get_lf_field_list,
  set_lf_field_list, get_resubmit_flag, set_resubmit_flag, get_recirculate_flag,
  set_recirculate_flag, get_ns_protocol, set_ns_protocol, get_ns_address, set_ns_address,
}

pub data FieldName : Type 0 where
  clone_mirror_session_id clone_field_list lf_field_list resubmit_flag : FieldName
  recirculate_flag ns_protocol ns_address : FieldName

-- The register of a field, and the weight of its lowest bit.
abbrev pub register_of : FieldName → ℕ
register_of clone_mirror_session_id = 1
register_of clone_field_list = 1
register_of lf_field_list = 1
register_of resubmit_flag = 1
register_of recirculate_flag = 2
register_of ns_protocol = 2
register_of ns_address = 2

abbrev weight : FieldName → ℕ
weight clone_mirror_session_id = 2 ^ 0
weight clone_field_list = 2 ^ 16
weight lf_field_list = 2 ^ 32
weight resubmit_flag = 2 ^ 48
weight recirculate_flag = 2 ^ 0
weight ns_protocol = 2 ^ 16
weight ns_address = 2 ^ 32

module _ {P : Type 0} (f : RegisterFile P) where
  open f use {get_register, set_register, get-lt, get-set_self, get-set_ne}

  abbrev pub get : FieldName → P → ℕ
  get clone_mirror_session_id = get_clone_mirror_session_id f
  get clone_field_list = get_clone_field_list f
  get lf_field_list = get_lf_field_list f
  get resubmit_flag = get_resubmit_flag f
  get recirculate_flag = get_recirculate_flag f
  get ns_protocol = get_ns_protocol f
  get ns_address = get_ns_address f

  abbrev pub set : FieldName → P → ℕ → P
  set clone_mirror_session_id = set_clone_mirror_session_id f
  set clone_field_list = set_clone_field_list f
  set lf_field_list = set_lf_field_list f
  set resubmit_flag = set_resubmit_flag f
  set recirculate_flag = set_recirculate_flag f
  set ns_protocol = set_ns_protocol f
  set ns_address = set_ns_address f

  abbrev place : FieldName → ℕ → ℕ
  place n w = w / weight n % 2 ^ 16

  get_lem : (n : FieldName) (p : P) → get n p ≡ place n (get_register p (register_of n))
  unfolding get_clone_mirror_session_id get_clone_field_list get_lf_field_list get_resubmit_flag
      get_recirculate_flag get_ns_protocol get_ns_address
  get_lem clone_mirror_session_id p = read_bits_0 _ (get-lt p 1)
  get_lem clone_field_list p = read_bits_16 _ (get-lt p 1)
  get_lem lf_field_list p = read_bits_32 _ (get-lt p 1)
  get_lem resubmit_flag p = read_bits_48 _ (get-lt p 1)
  get_lem recirculate_flag p = read_bits_0 _ (get-lt p 2)
  get_lem ns_protocol p = read_bits_16 _ (get-lt p 2)
  get_lem ns_address p = read_bits_32 _ (get-lt p 2)

  -- The word that a setter leaves in its register.
  abbrev written : FieldName → ℕ → ℕ → ℕ
  written n w v = (w / (weight n * 2 ^ 16) * 2 ^ 16 + v % 2 ^ 16) * weight n + w % weight n

  set_lem :
      (n : FieldName) (p : P) (v : ℕ)
      → set n p v ≡ set_register p (register_of n) (written n (get_register p (register_of n)) v)
  unfolding set_clone_mirror_session_id set_clone_field_list set_lf_field_list set_resubmit_flag
      set_recirculate_flag set_ns_protocol set_ns_address
  set_lem clone_mirror_session_id p v = ap (set_register p 1) (write_bits_0 _ v (get-lt p 1))
  set_lem clone_field_list p v = ap (set_register p 1) (write_bits_16 _ v (get-lt p 1))
  set_lem lf_field_list p v = ap (set_register p 1) (write_bits_32 _ v (get-lt p 1))
  set_lem resubmit_flag p v = ap (set_register p 1) (write_bits_48 _ v (get-lt p 1))
  set_lem recirculate_flag p v = ap (set_register p 2) (write_bits_0 _ v (get-lt p 2))
  set_lem ns_protocol p v = ap (set_register p 2) (write_bits_16 _ v (get-lt p 2))
  set_lem ns_address p v = ap (set_register p 2) (write_bits_32 _ v (get-lt p 2))

  written-lt : (n : FieldName) (w v : ℕ) → w < 2 ^ 64 → written n w v < 2 ^ 64
  written-lt clone_mirror_session_id w v h = omega arith
  written-lt _ w v h = omega arith

  place-written_self : (n : FieldName) (w v : ℕ) → v < 2 ^ 16 → place n (written n w v) ≡ v
  place-written_self clone_mirror_session_id w v h = omega arith
  place-written_self _ w v h = omega arith

  place-written_ne :
      (n m : FieldName) (w v : ℕ)
      → n ≢ m
      → register_of n ≡ register_of m
      → place m (written n w v) ≡ place m w
  place-written_ne clone_mirror_session_id clone_mirror_session_id w v h e = absurd (h refl)
  place-written_ne clone_field_list clone_field_list w v h e = absurd (h refl)
  place-written_ne lf_field_list lf_field_list w v h e = absurd (h refl)
  place-written_ne resubmit_flag resubmit_flag w v h e = absurd (h refl)
  place-written_ne recirculate_flag recirculate_flag w v h e = absurd (h refl)
  place-written_ne ns_protocol ns_protocol w v h e = absurd (h refl)
  place-written_ne ns_address ns_address w v h e = absurd (h refl)
  place-written_ne _ _ w v h e = omega arith

  get_register-set :
      (n : FieldName) (p : P) (v : ℕ)
      → get_register (set n p v) (register_of n) ≡ written n (get_register p (register_of n)) v
  get_register-set n p v =
      rw (set_lem n p v) (get-set_self p _ _ (written-lt n _ v (get-lt p (register_of n))))

  -- A field reads back as the 16-bit number that was last written to it.
  pub get-set_field : (n : FieldName) (p : P) (v : ℕ) → v < 2 ^ 16 → get n (set n p v) ≡ v
  get-set_field n p v h =
      rw (get_lem n (set n p v), get_register-set n p v) (place-written_self n _ v h)

  -- Writing one field leaves each other field as it was, in the same register or not.
  pub get-set_other : (n m : FieldName) (p : P) (v : ℕ) → n ≢ m → get m (set n p v) ≡ get m p
  get-set_other n m p v h =
      rw (get_lem m (set n p v), get_lem m p)
        (elim (ℕ_discrete (register_of n) (register_of m)) [
          | yes same ↦ rw (← same, get_register-set n p v) (place-written_ne n m _ v h same)
          | no apart ↦ rw (set_lem n p v) (ap (place m) (get-set_ne p _ _ _ apart))
        ])

  get_register-clear_all :
      (p : P)
      → (get_register (clear_all f p) 0 ≡ get_register p 0)
        × (get_register (clear_all f p) 1 ≡ 0)
        × (get_register (clear_all f p) 2 ≡ 0)
  unfolding clear_all
  get_register-clear_all p = (
    get-set_ne (set_register p 1 0) 2 0 0 (omega arith) ∙ get-set_ne p 1 0 0 (omega arith),
    get-set_ne (set_register p 1 0) 2 1 0 (omega arith) ∙ get-set_self p 1 0 (omega arith),
    get-set_self (set_register p 1 0) 2 0 (omega arith),
  )

  get-clear_all : (n : FieldName) (p : P) → get n (clear_all f p) ≡ 0
  get-clear_all clone_mirror_session_id p =
      omega (arith, get_lem clone_mirror_session_id (clear_all f p), get_register-clear_all p)
  get-clear_all n p = omega (arith, get_lem n (clear_all f p), get_register-clear_all p)

  -- Clearing zeroes each of the seven fields, and keeps the packet length in register 0.
  pub clear_all_lem :
      (n : FieldName) (p : P)
      → (get n (clear_all f p) ≡ 0)
        × (get_register (clear_all f p) packet_length_reg_idx
            ≡ get_register p packet_length_reg_idx)
  clear_all_lem n p = (get-clear_all n p, (get_register-clear_all p).0)
