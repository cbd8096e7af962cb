-- ===== src/Link/Ending.antt =====
-- model/custom-p2p-net-device.cc, `RestoreHeaders`: its parsing loop ends, or never does.
use p4simulator.Base.{
  ℕ, zero, suc, ◌+◌, ◌*◌, ◌≤◌, ◌<◌, ◌≡◌, ◌≢◌, refl, sym, ap, subst, ◌∙◌, none, some, List, [], ◌∷◌,
  ◌==◌, ◌||◌, if◌then◌else◌, arith, Bool-cases, inl, inr, ◌⊎◌, ℕ_discrete, ==-false,
}
use p4simulator.CustomHeader.{CustomHeader}
use p4simulator.Link.{Library, Device, p4_protocol_number}
use p4simulator.Link.Restore.{
  Parsed, check_if_ethernet_header, check_if_ipv4_header, check_if_arp_header, check_if_udp_header,
  check_if_tcp_header, check_if_custom_header, then_custom, parse_step, parse, without_ethernet,
  new_headers, reverse, reversed, restore_headers,
}
use p4simulator.Link.Added.{parse-next, parse-done}
use p4simulator.Link.Rounds.{
  Shrinks, Fewer, check-Shrinks, GetsToOne, loop_start, step-GetsToOne, parse-endless,
}

module _ (L : Library) where
  module _ (ipv4_shrinks : Shrinks L L.ipv4) (arp_shrinks : Shrinks L L.arp)
      (udp_shrinks : Shrinks L L.udp) (tcp_shrinks : Shrinks L L.tcp)
      (custom_shrinks : Shrinks L L.custom) where
    ipv4-Fewer : (s : Parsed L) → Fewer L s (check_if_ipv4_header L s)
    unfolding check_if_ipv4_header
    ipv4-Fewer s = elim (check-Shrinks L L.ipv4 s.packet s.ip_hd ipv4_shrinks) [
      | inl (less, found) ↦ inl less
      | inr (same, not_found) ↦ inr (rw same (omega arith), rw not_found refl)
    ]

    custom-Fewer : (d : Device L) (s : Parsed L) → Fewer L s (check_if_custom_header L d s)
    unfolding check_if_custom_header
    custom-Fewer d s = elim (check-Shrinks L L.custom s.packet d.header custom_shrinks) [
      | inl (less, found) ↦ inl less
      | inr (same, not_found) ↦ inr (rw same (omega arith), rw not_found refl)
    ]

    arp-Fewer : (s : Parsed L) → Fewer L s (check_if_arp_header L s)
    unfolding check_if_arp_header
    arp-Fewer s = elim (check-Shrinks L L.arp s.packet s.arp_hd arp_shrinks) [
      | inl (less, found) ↦ inl less
      | inr (same, not_found) ↦ inr (rw same (omega arith), refl)
    ]

    udp-Fewer : (s : Parsed L) → Fewer L s (check_if_udp_header L s)
    unfolding check_if_udp_header
    udp-Fewer s = elim (check-Shrinks L L.udp s.packet s.udp_hd udp_shrinks) [
      | inl (less, found) ↦ inl less
      | inr (same, not_found) ↦ inr (rw same (omega arith), refl)
    ]

    tcp-Fewer : (s : Parsed L) → Fewer L s (check_if_tcp_header L s)
    unfolding check_if_tcp_header
    tcp-Fewer s = elim (check-Shrinks L L.tcp s.packet s.tcp_hd tcp_shrinks) [
      | inl (less, found) ↦ inl less
      | inr (same, not_found) ↦ inr (rw same (omega arith), refl)
    ]

    ethernet-Fewer :
        Shrinks L L.ethernet → (s : Parsed L) → Fewer L s (check_if_ethernet_header L s)
    unfolding check_if_ethernet_header
    ethernet-Fewer shrinks s = elim (check-Shrinks L L.ethernet s.packet s.eeh_hd shrinks) [
      | inl (less, found) ↦ inl less
      | inr (same, not_found) ↦ inr (rw same (omega arith), rw not_found refl)
    ]

    -- Behind a transport header the custom header may follow without a header taken off.
    abbrev weight : ℕ → ℕ
    weight protocol =
        if protocol == 0 then 0 else if (protocol == 0x11) || (protocol == 0x06) then 2 else 1

    abbrev measure : Parsed L × ℕ → ℕ
    measure (s, protocol) = 2 * L.get_size s.packet + weight protocol

    weight-bound : (protocol : ℕ) → weight protocol ≤ 2
    weight-bound protocol = ground arith

    Fewer-measure :
        (s : Parsed L) (r : Parsed L × ℕ) → Fewer L s r → measure r < suc (2 * L.get_size s.packet)
    Fewer-measure s (t, protocol) (inl less) = omega (arith, weight-bound protocol, less)
    Fewer-measure s (t, protocol) (inr (le, e)) = rw e (omega (arith, le))

    then_custom-measure :
        (h : CustomHeader) (s : Parsed L) (r : Parsed L × ℕ)
        → Fewer L s r
        → r.1 ≡ 0
        → measure (then_custom L h r) < suc (suc (2 * L.get_size s.packet))
    unfolding then_custom
    then_custom-measure h s (t, protocol) f e = elim f [
      | inl less ↦ ground (arith, e, less)
      | inr (le, z) ↦ ground (arith, e, le)
    ]

    abbrev Nears : Device L → Parsed L → ℕ → Type 0
    Nears d s protocol = measure (parse_step L d s protocol) < measure (s, protocol)

    udp-Nears : (d : Device L) (s : Parsed L) → Nears d s 0x11
    unfolding parse_step check_if_udp_header
    udp-Nears d s =
        omega (arith, then_custom-measure d.header s (check_if_udp_header L s) (udp-Fewer s) refl)

    tcp-Nears : (d : Device L) (s : Parsed L) → Nears d s 0x06
    unfolding parse_step check_if_tcp_header
    tcp-Nears d s =
        omega (arith, then_custom-measure d.header s (check_if_tcp_header L s) (tcp-Fewer s) refl)

    listed-Nears :
        (d : Device L) (s : Parsed L)
        → Nears d s 0x0800 × Nears d s 0x0806 × Nears d s 0x86DD × Nears d s p4_protocol_number
    unfolding parse_step
    listed-Nears d s = (
      omega (arith, Fewer-measure s (check_if_ipv4_header L s) (ipv4-Fewer s)),
      omega (arith, Fewer-measure s (check_if_arp_header L s) (arp-Fewer s)),
      omega arith,
      omega (arith, Fewer-measure s (check_if_custom_header L d s) (custom-Fewer d s)),
    )

    -- Every step but that of protocol 1 comes nearer to the end.
    step-Nears :
        (d : Device L) (s : Parsed L) (protocol : ℕ)
        → protocol ≢ 0
        → protocol ≢ 1
        → Nears d s protocol
    unfolding parse_step
    step-Nears d s protocol ne_0 ne_1 =
        let at = λ (k : ℕ) (e : protocol ≡ k) (h : Nears d s k). subst (Nears d s) (sym e) h in
        let (ip, arp, ip6, custom) = listed-Nears d s in
        elim (ℕ_discrete protocol 0x0800) [
          | yes e ↦ at 0x0800 e ip
          | no ne_2 ↦ elim (ℕ_discrete protocol 0x0806) [
            | yes e ↦ at 0x0806 e arp
            | no ne_3 ↦ elim (ℕ_discrete protocol 0x86DD) [
              | yes e ↦ at 0x86DD e ip6
              | no ne_4 ↦ elim (ℕ_discrete protocol 0x11) [
                | yes e ↦ at 0x11 e (udp-Nears d s)
                | no ne_5 ↦ elim (ℕ_discrete protocol 0x06) [
                  | yes e ↦ at 0x06 e (tcp-Nears d s)
                  | no ne_6 ↦ elim (ℕ_discrete protocol 0xDC) [
                    | yes e ↦ at 0xDC e custom
                    | no ne_7 ↦
                        rw
                          (
                            ==-false _ _ ne_0,
                            ==-false _ _ ne_1,
                            ==-false _ _ ne_2,
                            ==-false _ _ ne_3,
                            ==-false _ _ ne_4,
                            ==-false _ _ ne_5,
                            ==-false _ _ ne_6,
                            ==-false _ _ ne_7,
                          )
                          (omega arith)
                  ]
                ]
              ]
            ]
          ]
        ]

    abbrev Ends : ℕ → Device L → Parsed L × ℕ → List ℕ → Type 0
    Ends n d r stack =
        ((t : Parsed L × List ℕ) × (parse L n d r stack ≡ some t))
        ⊎ (GetsToOne L d r × ((fuel : ℕ) → parse L fuel d r stack ≡ none))

    parse-earlier :
        (d : Device L) (s : Parsed L) (protocol : ℕ) (stack : List ℕ)
        → protocol ≢ 0
        → ((fuel : ℕ) → parse L fuel d (parse_step L d s protocol) (protocol ∷ stack) ≡ none)
        → (fuel : ℕ) → parse L fuel d (s, protocol) stack ≡ none
    unfolding parse
    parse-earlier d s protocol stack ne h zero = rw (==-false protocol 0 ne) refl
    parse-earlier d s protocol stack ne h (suc fuel) = rw (==-false protocol 0 ne) (h fuel)

    weight-positive : (protocol : ℕ) → protocol ≢ 0 → 0 < weight protocol
    weight-positive protocol ne = ground arith

    -- One step, where what follows ends or never does.
    step-Ends :
        (n : ℕ) (d : Device L) (s : Parsed L) (protocol : ℕ) (stack : List ℕ)
        → protocol ≢ 0
        → protocol ≢ 1
        → Ends n d (parse_step L d s protocol) (protocol ∷ stack)
        → Ends (suc n) d (s, protocol) stack
    step-Ends n d s protocol stack ne ne_1 (inl (t, e)) =
        inl (t, parse-next L n d s protocol stack ne ∙ e)
    step-Ends n d s protocol stack ne ne_1 (inr (one, h)) =
        inr (step-GetsToOne L d s protocol ne_1 one, parse-earlier d s protocol stack ne h)

    done-Ends :
        (n : ℕ) (d : Device L) (s : Parsed L) (protocol : ℕ) (stack : List ℕ)
        → protocol ≡ 0
        → Ends n d (s, protocol) stack
    done-Ends n d s protocol stack e =
        inl ((s, stack), ap (λ m. parse L n d (s, m) stack) e ∙ parse-done L n d s stack)

    measure-Ends :
        (n : ℕ) (d : Device L) (r : Parsed L × ℕ) (stack : List ℕ)
        → measure r ≤ n
        → Ends n d r stack
    measure-Ends zero d (s, protocol) stack le = elim (ℕ_discrete protocol 0) [
      | yes e ↦ done-Ends zero d s protocol stack e
      | no ne ↦ absurd (omega (arith, le, weight-positive protocol ne))
    ]
    measure-Ends (suc n) d (s, protocol) stack le = elim (ℕ_discrete protocol 0) [
      | yes e ↦ done-Ends (suc n) d s protocol stack e
      | no ne_0 ↦ elim (ℕ_discrete protocol 1) [
        | yes e ↦ inr (
          inl e,
          λ fuel. ap (λ m. parse L fuel d (s, m) stack) e ∙ parse-endless L fuel d s stack,
        )
        | no ne_1 ↦ step-Ends n d s protocol stack ne_0 ne_1 (
            measure-Ends n d (parse_step L d s protocol) (protocol ∷ stack)
              (omega (arith, le, step-Nears d s protocol ne_0 ne_1)))
      ]
    ]

    reversed-Ends :
        (n : ℕ) (d : Device L) (p : L.Packet)
        → Ends n d (loop_start L d p) []
        → ((q : L.Packet) × (restore_headers L n d p ≡ some q))
          ⊎ (GetsToOne L d (loop_start L d p) × ((fuel : ℕ) → restore_headers L fuel d p ≡ none))
    unfolding restore_headers reversed
    reversed-Ends n d p (inl (t, e)) = inl (reverse L t.0 t.1, ap (reversed L) e)
    reversed-Ends n d p (inr (one, h)) = inr (one, λ fuel. ap (reversed L) (h fuel))

    Fewer-size :
        (s : Parsed L) (r : Parsed L × ℕ)
        → Fewer L s r
        → L.get_size r.0.packet ≤ L.get_size s.packet
    Fewer-size s r (inl less) = omega arith
    Fewer-size s r (inr (le, e)) = le

    start-size :
        (d : Device L) (s : Parsed L) (r : Parsed L × ℕ)
        → L.get_size r.0.packet ≤ L.get_size s.packet
        → L.get_size (without_ethernet L d r).0.packet ≤ L.get_size s.packet
    unfolding without_ethernet
    start-size d s (t, protocol) le = elim (Bool-cases (protocol == 0)) [
      | inl e ↦
          rw e (omega (arith, le, Fewer-size t (check_if_custom_header L d t) (custom-Fewer d t)))
      | inr e ↦ rw e le
    ]

    -- `RestoreHeaders` returns when its loop may run twice as often as the packet has bytes, and twice
    -- more; or the loop starts at protocol 1, which is the Ethernet type or, where there is none, what a
    -- custom header at the front names, or it gets to an IPv4 header of protocol 1 or to a custom header
    -- that names protocol 1, and then it never returns, however often the loop runs. The header classes
    -- are such that to read a header takes bytes off the packet.
    pub restore_headers-ends :
        Shrinks L L.ethernet
        → (n : ℕ) (d : Device L) (p : L.Packet) → 2 * L.get_size p + 2 ≤ n
        → ((q : L.Packet) × (restore_headers L n d p ≡ some q))
          ⊎ (GetsToOne L d (loop_start L d p) × ((fuel : ℕ) → restore_headers L fuel d p ≡ none))
    unfolding new_headers
    restore_headers-ends shrinks n d p h =
        let s : Parsed L = new_headers L p in
        let r : Parsed L × ℕ = check_if_ethernet_header L s in
        let start : Parsed L × ℕ = without_ethernet L d r in
        reversed-Ends n d p (
          measure-Ends n d start [] (
            omega (
              arith,
              h,
              weight-bound start.1,
              start-size d s r (Fewer-size s r (ethernet-Fewer shrinks s)),
            )))
