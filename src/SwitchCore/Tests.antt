-- ===== src/SwitchCore/Tests.antt =====
-- The mirroring sessions and the address table at concrete calls.
use p4simulator.Base.{ℕ, ◌≡◌, refl, true, false, none, some, List, [], ◌∷◌, ◌==◌, ==_iff, get_elem?}
use p4simulator.Base.Int.{pos, negsuc}
use p4simulator.SwitchCore.Mirroring.{
  MirroringSessionConfig, Call, add, delete, none_at, run, get_session, add_session, delete_session,
  run-told, InRange, told,
}
use p4simulator.SwitchCore.Addresses.{
  AddressClass, AddressTable, get_address_index, index_all, empty, address_index_stable,
}

abbrev to_port : ℕ → MirroringSessionConfig
to_port p = record { egress_port = p; egress_port_valid = true; mgid = 0; mgid_valid = false }

abbrev calls : List Call
calls =
    add (pos 5) (to_port 1)
    ∷ add (pos 6) (to_port 2)
    ∷ delete (pos 5)
    ∷ add (negsuc 0) (to_port 3)
    ∷ []

sessions_test :
    (get_session (run none_at calls) (pos 6) ≡ some (to_port 2))
    × (get_session (run none_at calls) (pos 5) ≡ none)
unfolding run get_session add_session delete_session
sessions_test = (refl, refl)

run-told_example :
    (InRange (pos 6) → get_session (run none_at calls) (pos 6) ≡ told (pos 6) none calls)
    × (¬ InRange (pos 6) → get_session (run none_at calls) (pos 6) ≡ none)
run-told_example = run-told calls (pos 6)

abbrev numbered : AddressClass
numbered = record { Address = ℕ; same = ◌==◌; same_iff = ==_iff }

abbrev after_three : AddressTable numbered × ℕ
after_three = get_address_index numbered (index_all numbered (empty numbered) (7 ∷ 8 ∷ 7 ∷ [])) 8

address_index_stable_example :
    (get_elem? (index_all numbered after_three.0 (9 ∷ [])).destination_list after_three.1 ≡ some 8)
    × (get_address_index numbered (index_all numbered after_three.0 (9 ∷ [])) 8
        ≡ (index_all numbered after_three.0 (9 ∷ []), after_three.1))
address_index_stable_example = address_index_stable numbered (7 ∷ 8 ∷ 7 ∷ []) (9 ∷ []) 8
