-- ===== src/SwitchCore/Addresses.antt =====
-- model/p4-switch-core.cc, `GetAddressIndex`: the destination addresses that stand behind the 16-bit
-- index in a packet's register. The address class is the network simulator's.
use p4simulator.Base.{
  ℕ, suc, ◌≡◌, ◌↔◌, refl, ap, ◌⊎◌, inl, inr, zero, Bool, true, Option, none, some, List, [], ◌∷◌,
  ◌++◌, if◌then◌else◌, length, Bool-cases, get_elem?, arith,
}

-- `ns3::Address` with the equality by which its map finds a key.
pub record AddressClass : Type 1 where
  pub Address : Type 0
  pub same : Address → Address → Bool
  pub same_iff : (a b : Address) → (same a b ≡ true) ↔ (a ≡ b)

module _ (c : AddressClass) where
  open c use {Address, same, same_iff}

  pub record AddressTable : Type 0 where
    pub address_map : List (Address × ℕ)
    pub destination_list : List Address

  unfoldable pub find : Address → List (Address × ℕ) → Option ℕ
  find a [] = none
  find a ((b, i) ∷ m) = if same b a then some i else find a m

  unfoldable pub empty : AddressTable
  empty = record { address_map = []; destination_list = [] }

  unfoldable pub index_by : AddressTable → Address → Option ℕ → AddressTable × ℕ
  index_by t a (some i) = (t, i)
  index_by t a none = (
    record {
      address_map = (a, length t.destination_list) ∷ t.address_map;
      destination_list = t.destination_list ++ a ∷ [];
    },
    length t.destination_list,
  )

  unfoldable pub get_address_index : AddressTable → Address → AddressTable × ℕ
  unfolding index_by find
  get_address_index t a = index_by t a (find a t.address_map)

  unfoldable pub index_all : AddressTable → List Address → AddressTable
  index_all t [] = t
  index_all t (a ∷ xs) = index_all (get_address_index t a).0 xs

  pub record Inv (t : AddressTable) : Type 0 where
    pub listed :
        (a : Address) (i : ℕ)
        → find a t.address_map ≡ some i
        → get_elem? t.destination_list i ≡ some a
    pub mapped :
        (a : Address) (i : ℕ)
        → get_elem? t.destination_list i ≡ some a
        → find a t.address_map ≡ some i

module _ {ℓ} {A : Type ℓ} where
  get_elem?-append_left :
      (xs ys : List A) (i : ℕ) (a : A) → get_elem? xs i ≡ some a → get_elem? (xs ++ ys) i ≡ some a
  get_elem?-append_left [] ys i a h = cc
  get_elem?-append_left (x ∷ xs) ys zero a h = h
  get_elem?-append_left (x ∷ xs) ys (suc i) a h = get_elem?-append_left xs ys i a h

  get_elem?-append_last : (xs : List A) (a : A) → get_elem? (xs ++ a ∷ []) (length xs) ≡ some a
  get_elem?-append_last [] a = refl
  get_elem?-append_last (x ∷ xs) a = get_elem?-append_last xs a

  -- The last place, or a place of before.
  get_elem?-append_one :
      (xs : List A) (b : A) (i : ℕ) (a : A)
      → get_elem? (xs ++ b ∷ []) i ≡ some a
      → (get_elem? xs i ≡ some a) ⊎ ((i ≡ length xs) × (b ≡ a))
  get_elem?-append_one [] b zero a h = inr (refl, ground arith)
  get_elem?-append_one [] b (suc i) a h = cc
  get_elem?-append_one (x ∷ xs) b zero a h = inl h
  get_elem?-append_one (x ∷ xs) b (suc i) a h = elim (get_elem?-append_one xs b i a h) [
    | inl e ↦ inl e
    | inr (e, f) ↦ inr (ap suc e, f)
  ]

module _ (c : AddressClass) where
  open c use {Address, same, same_iff}

  index_by-Inv :
      (t : AddressTable c) (a : Address) (o : Option ℕ)
      → find c a t.address_map ≡ o
      → Inv c t
      → Inv c (index_by c t a o).0
        × (find c a (index_by c t a o).0.address_map ≡ some (index_by c t a o).1)
  unfolding index_by find
  index_by-Inv t a (some i) e v = (v, e)
  index_by-Inv t a none e v = (
    record {
      listed = λ b i h. elim (Bool-cases (same a b)) [
        | inl hit ↦ listed_new b i hit h
        | inr miss ↦
            get_elem?-append_left t.destination_list (a ∷ []) i b (v.listed b i (rw miss at h))
      ];
      mapped = λ b i h. elim (get_elem?-append_one t.destination_list a i b h) [
        | inl old ↦ elim (Bool-cases (same a b)) [
          | inl hit ↦ absurd (new_key b i hit (v.mapped b i old))
          | inr miss ↦ rw miss (v.mapped b i old)
        ]
        | inr (place, key) ↦ rw ((same_iff a b).1 key, place)
      ];
    },
    rw ((same_iff a a).1 refl),
  )
    where
      new_key : (b : Address) (i : ℕ) → same a b ≡ true → find c b t.address_map ≡ some i → ⊥
      new_key b i hit old =
          let same_key : a ≡ b = (same_iff a b).0 hit in
          cc (ap (λ x. find c x t.address_map) same_key)

      listed_new :
          (b : Address) (i : ℕ)
          → same a b ≡ true
          → find c b ((a, length t.destination_list) ∷ t.address_map) ≡ some i
          → get_elem? (t.destination_list ++ a ∷ []) i ≡ some b
      listed_new b i hit h =
          let at : some (length t.destination_list) ≡ some i = rw hit at h in
          let place : length t.destination_list ≡ i = ground arith in
          rw (← place, ← (same_iff a b).0 hit) (get_elem?-append_last t.destination_list a)

  index-Inv :
      (t : AddressTable c) (a : Address)
      → Inv c t
      → Inv c (get_address_index c t a).0
        × (find c a (get_address_index c t a).0.address_map ≡ some (get_address_index c t a).1)
  unfolding get_address_index
  index-Inv t a v = index_by-Inv t a (find c a t.address_map) refl v

  -- No index is given away again.
  index_keeps :
      (t : AddressTable c) (a b : Address) (i : ℕ)
      → get_elem? t.destination_list i ≡ some b
      → get_elem? (get_address_index c t a).0.destination_list i ≡ some b
  unfolding get_address_index index_by
  index_keeps t a b i h = ground (arith, get_elem?-append_left t.destination_list (a ∷ []) i b)

  index_all-Inv : (t : AddressTable c) (xs : List Address) → Inv c t → Inv c (index_all c t xs)
  unfolding index_all
  index_all-Inv t [] v = v
  index_all-Inv t (x ∷ xs) v = index_all-Inv (get_address_index c t x).0 xs (index-Inv t x v).0

  index_all_keeps :
      (xs : List Address) (t : AddressTable c) (b : Address) (i : ℕ)
      → get_elem? t.destination_list i ≡ some b
      → get_elem? (index_all c t xs).destination_list i ≡ some b
  unfolding index_all
  index_all_keeps [] t b i h = h
  index_all_keeps (x ∷ xs) t b i h =
      index_all_keeps xs (get_address_index c t x).0 b i (index_keeps t x b i h)

  empty-Inv : Inv c (empty c)
  unfolding empty find
  empty-Inv = record { listed = λ a i h. cc; mapped = λ a i h. cc }

  index_known :
      (t : AddressTable c) (a : Address) (i : ℕ)
      → find c a t.address_map ≡ some i
      → get_address_index c t a ≡ (t, i)
  unfolding get_address_index index_by
  index_known t a i e = rw e

  -- After any addresses have been asked for, the index of an address stands for that address, and
  -- it still does after any more; and asking again gives the same index and changes nothing.
  pub address_index_stable :
      (before later : List Address) (a : Address)
      → let (t, i) = get_address_index c (index_all c (empty c) before) a in
        (get_elem? (index_all c t later).destination_list i ≡ some a)
        × (get_address_index c (index_all c t later) a ≡ (index_all c t later, i))
  address_index_stable before later a =
      (stays, index_known after a place (known.mapped a place stays))
    where
      start : Inv c (index_all c (empty c) before)
      start = index_all-Inv (empty c) before empty-Inv

      found : AddressTable c × ℕ
      found = get_address_index c (index_all c (empty c) before) a

      place : ℕ
      place = found.1

      after : AddressTable c
      after = index_all c found.0 later

      known : Inv c after
      known = index_all-Inv found.0 later (index-Inv _ a start).0

      stays : get_elem? after.destination_list place ≡ some a
      stays =
          index_all_keeps later found.0 a place
            ((index-Inv _ a start).0.listed a place (index-Inv _ a start).1)
