-- ===== src/Socket/Address.antt =====
-- `setLocalAddress`, `setRemoteAddress`, `getLocalAddress` and `getRemoteAddress`: the bytes of a
-- `sockaddr` are its length, its family, two bytes of a port, and the rest.
use mac_osx_network_sockets.Base.{
  ℕ, zero, suc, ◌+◌, ◌≤◌, ◌≡◌, refl, ap, ◌∙◌, Bool, true, false, not, ◌&&◌, ◌||◌, Option, none,
  some, List, [], ◌∷◌, ◌++◌, ltb, ◌==◌, if◌then◌else◌, arith, length, take, drop, take-append_self,
  Bool-cases, inl, inr,
}

-- `AF_INET` and `AF_INET6`
abbrev pub af_inet : ℕ
af_inet = 2

abbrev pub af_inet6 : ℕ
af_inet6 = 30

abbrev pub sa_len : List ℕ → ℕ
sa_len [] = 0
sa_len (n ∷ bytes) = n

abbrev pub sa_family_of : List ℕ → ℕ
sa_family_of [] = 0
sa_family_of (n ∷ []) = 0
sa_family_of (n ∷ family ∷ bytes) = family

-- `ntohs` of the port, on a processor that has the lowest byte first
abbrev pub ntohs_port : List ℕ → List ℕ
ntohs_port (n ∷ family ∷ high ∷ low ∷ bytes) = n ∷ family ∷ low ∷ high ∷ bytes
ntohs_port bytes = bytes

-- `bcopy` of `n` bytes onto others, where both have as many.
abbrev pub bcopy : ℕ → List ℕ → List ℕ → List ℕ
bcopy n from to = take n from ++ drop n to

abbrev pub zeros : ℕ → List ℕ
zeros zero = []
zeros (suc n) = 0 ∷ zeros n

-- The bytes of a `NkeSocketObjectAddress`, of which `sockaddr_in6` is the longest member.
abbrev pub address_size : ℕ
address_size = 28

-- The memory of a `NkeSocketObjectAddress`
pub record Room : Type 0 where
  pub bytes : List ℕ
  pub size : length bytes ≡ address_size

-- The memory of `localAddress` or `remoteAddress`. Nothing but `setLocalAddress` and
-- `setRemoteAddress` writes to it, so its length never goes beyond it.
pub record ObjectAddress : Type 0 where
  pub bytes : List ℕ
  pub size : length bytes ≡ address_size
  pub fits : sa_len bytes ≤ address_size

abbrev pub zeroed : Room
zeroed = record { bytes = zeros address_size; size = refl }

abbrev pub no_address : ObjectAddress
no_address = record { bytes = zeros address_size; size = refl; fits = omega arith }

-- Has the address, and the field, as many bytes as its length says?
abbrev pub has_room : List ℕ → Bool
has_room address =
    not (ltb (length address) (sa_len address)) && not (ltb address_size (sa_len address))

length-bcopy :
    (n : ℕ) (from to : List ℕ)
    → n ≤ length from
    → n ≤ length to
    → length (bcopy n from to) ≡ length to
length-bcopy zero from to h k = refl
length-bcopy (suc n) [] to h k = absurd (ground arith)
length-bcopy (suc n) (x ∷ from) [] h k = absurd (ground arith)
length-bcopy (suc n) (x ∷ from) (y ∷ to) h k =
    ap suc (length-bcopy n from to (ground arith) (ground arith))

length-ntohs_port : (bytes : List ℕ) → length (ntohs_port bytes) ≡ length bytes
length-ntohs_port [] = refl
length-ntohs_port (a ∷ []) = refl
length-ntohs_port (a ∷ b ∷ []) = refl
length-ntohs_port (a ∷ b ∷ c ∷ []) = refl
length-ntohs_port (a ∷ b ∷ c ∷ d ∷ bytes) = refl

sa_len-ntohs_port : (bytes : List ℕ) → sa_len (ntohs_port bytes) ≡ sa_len bytes
sa_len-ntohs_port [] = refl
sa_len-ntohs_port (a ∷ []) = refl
sa_len-ntohs_port (a ∷ b ∷ []) = refl
sa_len-ntohs_port (a ∷ b ∷ c ∷ []) = refl
sa_len-ntohs_port (a ∷ b ∷ c ∷ d ∷ bytes) = refl

-- The length of what has been copied is that of the address, or nothing has been copied.
sa_len-bcopy :
    (n : ℕ) (from to : List ℕ)
    → n ≤ length from
    → sa_len from ≤ address_size
    → sa_len to ≤ address_size
    → sa_len (bcopy n from to) ≤ address_size
sa_len-bcopy zero from to h f t = t
sa_len-bcopy (suc n) [] to h f t = absurd (ground arith)
sa_len-bcopy (suc n) (x ∷ from) to h f t = f

-- `bcopy` of the address and the change of its port.
copied : (address : List ℕ) → ObjectAddress → has_room address ≡ true → ObjectAddress
copied address field room = record {
  bytes = ntohs_port (bcopy (sa_len address) address field.bytes);
  size =
      length-ntohs_port (bcopy (sa_len address) address field.bytes)
      ∙ (length-bcopy (sa_len address) address field.bytes (ground arith)
            (ground (arith, field.size))
          ∙ field.size);
  fits =
      rw (sa_len-ntohs_port (bcopy (sa_len address) address field.bytes)) (
        sa_len-bcopy (sa_len address) address field.bytes (ground arith) (ground arith) field.fits);
}

copy_if :
    (address : List ℕ)
    → ObjectAddress
    → (room : Bool) → has_room address ≡ room
    → Option ObjectAddress
copy_if address field true room = some (copied address field room)
copy_if address field false room = none

-- `setLocalAddress` and `setRemoteAddress`, which differ in the field they write: the field's new
-- bytes. Another family changes nothing. It is `none` where `bcopy` reads beyond the address or
-- writes beyond the field, over the members that follow: what the object is then is not modelled.
pub set_address : List ℕ → ObjectAddress → Option ObjectAddress
unfolding copy_if
set_address address field =
    if (sa_family_of address == af_inet) || (sa_family_of address == af_inet6)
    then copy_if address field (has_room address) refl
    else some field

-- `isLocalAddressValid` and `isRemoteAddressValid`; the length is at the same place in both families.
pub is_address_valid : ObjectAddress → Bool
is_address_valid field = not (sa_len field.bytes == 0)

-- `getLocalAddress` and `getRemoteAddress`: what they leave in the memory of the argument.
pub get_address : ObjectAddress → Room → List ℕ
unfolding is_address_valid
get_address field out =
    if is_address_valid field
    then bcopy (sa_len field.bytes) field.bytes out.bytes
    else zeros address_size

copy_if_room :
    (address : List ℕ) (field : ObjectAddress) (room : Bool) (e : has_room address ≡ room)
    → room ≡ true
    → (e' : has_room address ≡ true) × (copy_if address field room e
        ≡ some (copied address field e'))
unfolding copy_if
copy_if_room address field true e h = (e, refl)
copy_if_room address field false e h = absurd (ground arith)

-- An address that has its bytes and fits into the field is set without a write beyond it.
pub set_address-defined :
    (address : List ℕ) (field : ObjectAddress)
    → has_room address ≡ true
    → (g : ObjectAddress) × (set_address address field ≡ some g)
unfolding set_address
set_address-defined address field room =
    elim (Bool-cases ((sa_family_of address == af_inet) || (sa_family_of address == af_inet6))) [
      | inl e ↦
          let (h, same) = copy_if_room address field (has_room address) refl room in
          rw e (copied address field h, same)
      | inr e ↦ rw e (field, refl)
    ]

take_all : (xs : List ℕ) → take (length xs) xs ≡ xs
take_all [] = refl
take_all (x ∷ xs) = ap (◌∷◌ x) (take_all xs)

-- The field after an address of either family, whose length is that of its bytes, has been set.
pub set_address-bytes :
    (n family high low : ℕ) (rest : List ℕ) (field : ObjectAddress)
    → ((family == af_inet) || (family == af_inet6)) ≡ true
    → n ≡ length rest + 4
    → n ≤ address_size
    → (g : ObjectAddress) × (set_address (n ∷ family ∷ high ∷ low ∷ rest) field ≡ some g)
      × (g.bytes ≡ n ∷ family ∷ low ∷ high ∷ (rest ++ drop n field.bytes))
unfolding set_address copied
set_address-bytes n family high low rest field known len fits =
    let address : List ℕ = n ∷ family ∷ high ∷ low ∷ rest in
    let (h, same) = copy_if_room address field (has_room address) refl (ground arith) in
    let len' : n ≡ suc (suc (suc (suc (length rest)))) = omega arith in
    rw known (copied address field h, same, rw (len', take_all rest) refl)

get_address-bytes :
    (n family high low : ℕ) (rest more : List ℕ) (g : ObjectAddress) (out : Room)
    → n ≡ length rest + 4
    → g.bytes ≡ n ∷ family ∷ high ∷ low ∷ (rest ++ more)
    → get_address g out ≡ n ∷ family ∷ high ∷ low ∷ (rest ++ drop n out.bytes)
unfolding get_address is_address_valid
get_address-bytes n family high low rest more g out len bytes =
    let len' : n ≡ suc (suc (suc (suc (length rest)))) = omega arith in
    rw (bytes, len', take-append_self rest more) (ground arith)

-- An address of either family, whose length is that of its bytes and at most 28, is set, whatever was
-- set before; when it is asked for, its bytes come back, with the port's two bytes swapped, and the
-- rest of the room is left alone.
pub get_address-set_address :
    (n family high low : ℕ) (rest : List ℕ) (field : ObjectAddress) (out : Room)
    → ((family == af_inet) || (family == af_inet6)) ≡ true
    → n ≡ length rest + 4
    → n ≤ address_size
    → (g : ObjectAddress) × (set_address (n ∷ family ∷ high ∷ low ∷ rest) field ≡ some g)
      × (get_address g out ≡ n ∷ family ∷ low ∷ high ∷ (rest ++ drop n out.bytes))
get_address-set_address n family high low rest field out known len fits =
    let (g, set, bytes) = set_address-bytes n family high low rest field known len fits in
    (g, set, get_address-bytes n family low high rest (drop n field.bytes) g out len bytes)

-- A field whose length is not zero is valid.
pub valid_bytes :
    (n : ℕ) (more : List ℕ) (g : ObjectAddress)
    → g.bytes ≡ (n + 4) ∷ more
    → is_address_valid g ≡ true
unfolding is_address_valid
valid_bytes n more g bytes = rw bytes (ground arith)
