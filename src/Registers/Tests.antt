-- ===== src/Registers/Tests.antt =====
-- The register fields at concrete packets.
use p4simulator.Base.{ℕ, ◌%◌, ◌^◌, ◌<◌, ◌≡◌, ◌≢◌, refl, arith, update}
use p4simulator.Registers.{
  RegisterFile, clear_all, read_bits, write_bits, get_ns_protocol, set_ns_protocol,
}
use p4simulator.Registers.Fields.{
  ns_protocol, ns_address, get, set, get-set_field, get-set_other, clear_all_lem,
}

cells-lt : (p : ℕ → ℕ) (i : ℕ) → p i % 2 ^ 64 < 2 ^ 64
cells-lt p i = omega arith

cells-set_self : (p : ℕ → ℕ) (i v : ℕ) → v < 2 ^ 64 → update p i v i % 2 ^ 64 ≡ v
cells-set_self p i v h = ground arith

cells-set_ne : (p : ℕ → ℕ) (i j v : ℕ) → i ≢ j → update p i v j % 2 ^ 64 ≡ p j % 2 ^ 64
cells-set_ne p i j v h = ground arith

abbrev cells : RegisterFile (ℕ → ℕ)
cells = record {
  get_register = λ p i. p i % 2 ^ 64;
  set_register = update;
  get-lt = cells-lt;
  get-set_self = cells-set_self;
  get-set_ne = cells-set_ne;
}

abbrev blank : ℕ → ℕ
blank i = 0xaaaa_bbbb_cccc_dddd

get_test : get_ns_protocol cells blank ≡ 0xcccc
unfolding get_ns_protocol read_bits
get_test = refl

set_test : set_ns_protocol cells blank 0x0800 2 ≡ 0xaaaa_bbbb_0800_dddd
unfolding set_ns_protocol write_bits
set_test = refl

get-set_field_example : get cells ns_protocol (set cells ns_protocol blank 0x0806) ≡ 0x0806
get-set_field_example = get-set_field cells ns_protocol blank 0x0806 (omega arith)

get-set_other_example :
    get cells ns_address (set cells ns_protocol blank 0x0806) ≡ get cells ns_address blank
get-set_other_example = get-set_other cells ns_protocol ns_address blank 0x0806 (λ e. cc)

clear_all_lem_example :
    (get cells ns_address (clear_all cells blank) ≡ 0)
    × (cells.get_register (clear_all cells blank) 0 ≡ cells.get_register blank 0)
clear_all_lem_example = clear_all_lem cells ns_address blank
