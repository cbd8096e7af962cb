-- ===== src/Link/Rounds.antt =====
-- model/custom-p2p-net-device.cc, `RestoreHeaders`: what a round of its parsing loop does to the packet and the
-- protocol.
use p4simulator.Base.{
  ℕ, zero, suc, ◌≤◌, ◌<◌, ◌≡◌, ◌≢◌, refl, sym, ap, ◌∙◌, true, false, none, List, ◌∷◌, arith, inl,
  inr, ◌⊎◌, ℕ_discrete, ==-false,
}
use p4simulator.Link.{HeaderClass, Library, Device, p4_protocol_number}
use p4simulator.Link.Restore.{
  Parsed, check, remove_if, removed, check_if_ethernet_header, check_if_ipv4_header,
  check_if_arp_header, check_if_udp_header, check_if_tcp_header, check_if_custom_header,
  then_custom, parse_step, parse, without_ethernet, new_headers,
}

module _ (L : Library) where
  -- To remove a header that is there leaves fewer bytes.
  abbrev pub Shrinks : {H : Type 0} → HeaderClass L.Packet H → Type 0
  Shrinks {H} c =
      (p : L.Packet) (h : H)
      → (c.peek_header p h).0 ≢ 0
      → L.get_size (c.remove_header p (c.peek_header p h).1).0 < L.get_size p

  -- A step takes a header off, or leaves no more and is the last.
  abbrev pub Fewer : Parsed L → Parsed L × ℕ → Type 0
  Fewer s (t, protocol) =
      (L.get_size t.packet < L.get_size s.packet)
      ⊎ ((L.get_size t.packet ≤ L.get_size s.packet) × (protocol ≡ 0))

  pub check-Shrinks :
      {H : Type 0} (c : HeaderClass L.Packet H) (p : L.Packet) (h : H)
      → Shrinks c
      → ((L.get_size (check c p h).0 < L.get_size p) × ((check c p h).2 ≡ true))
        ⊎ (((check c p h).0 ≡ p) × ((check c p h).2 ≡ false))
  unfolding check remove_if removed
  check-Shrinks c p h shrinks = elim (ℕ_discrete (c.peek_header p h).0 0) [
    | yes e ↦ inr (rw e (refl, refl))
    | no ne ↦ inl (rw (==-false _ 0 ne) (shrinks p h ne, refl))
  ]

  -- The packet and the protocol after a number of rounds of the parsing loop.
  abbrev pub rounds : ℕ → Device L → Parsed L × ℕ → Parsed L × ℕ
  rounds zero d r = r
  rounds (suc k) d (s, protocol) = rounds k d (parse_step L d s protocol)

  -- The packet's next header is an IPv4 or a custom header that names protocol 1.
  abbrev pub NamesOne : Device L → Parsed L × ℕ → Type 0
  NamesOne d (s, protocol) =
      ((protocol ≡ 0x0800) × ((check_if_ipv4_header L s).1 ≡ 1))
      ⊎ ((protocol ≡ p4_protocol_number) × ((check_if_custom_header L d s).1 ≡ 1))

  -- The loop starts at protocol 1, or gets to a header that names it.
  abbrev pub GetsToOne : Device L → Parsed L × ℕ → Type 0
  GetsToOne d r = (r.1 ≡ 1) ⊎ ((k : ℕ) × NamesOne d (rounds k d r))

  -- Where the loop starts: behind the Ethernet header.
  abbrev pub loop_start : Device L → L.Packet → Parsed L × ℕ
  loop_start d p = without_ethernet L d (check_if_ethernet_header L (new_headers L p))

  pub step-other :
      (d : Device L) (s : Parsed L) (protocol : ℕ)
      → protocol ≢ 1
      → protocol ≢ 0x0800
      → protocol ≢ 0xDC
      → (parse_step L d s protocol).1 ≢ 1
  unfolding parse_step check_if_arp_header check_if_udp_header check_if_tcp_header then_custom
  step-other d s protocol ne_1 ne_ip ne_custom = ground arith

  pub step-NamesOne :
      (d : Device L) (s : Parsed L) (protocol : ℕ)
      → protocol ≢ 1
      → (parse_step L d s protocol).1 ≡ 1
      → NamesOne d (s, protocol)
  unfolding parse_step
  step-NamesOne d s protocol ne e = elim (ℕ_discrete protocol 0x0800) [
    | yes at ↦ inl (at, ap (λ m. (parse_step L d s m).1) (sym at) ∙ e)
    | no ne_ip ↦ elim (ℕ_discrete protocol 0xDC) [
      | yes at ↦ inr (at, ap (λ m. (parse_step L d s m).1) (sym at) ∙ e)
      | no ne_custom ↦ absurd (step-other d s protocol ne ne_ip ne_custom e)
    ]
  ]

  pub step-GetsToOne :
      (d : Device L) (s : Parsed L) (protocol : ℕ)
      → protocol ≢ 1
      → GetsToOne d (parse_step L d s protocol)
      → GetsToOne d (s, protocol)
  step-GetsToOne d s protocol ne (inl e) = inr (0, step-NamesOne d s protocol ne e)
  step-GetsToOne d s protocol ne (inr (k, h)) = inr (suc k, h)

  pub parse-endless :
      (n : ℕ) (d : Device L) (s : Parsed L) (stack : List ℕ) → parse L n d (s, 1) stack ≡ none
  unfolding parse parse_step
  parse-endless zero d s stack = refl
  parse-endless (suc n) d s stack = parse-endless n d s (1 ∷ stack)
