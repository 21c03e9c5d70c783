-- ===== src/Command/Grammar.antt =====
-- The format of an announcement that main.rs documents, vni#prefix#destHop[#type][#from#to], as a
-- relation, and what main.rs reads.
use metalbond_rs.Command.Readers.{Text, AddrText, read_unsigned}
use metalbond_rs.Command.{
  CommandError, invalid_port, invalid_vni, invalid_prefix, invalid_hop, malformed_announcement,
  read_next_hop, ok_or, ◌>>=◌, u32_max, u16_max, next_hop_type_from_str, Announcement, hop_of,
  read_ports, read_parts,
}
use metalbond_rs.Types.{
  IpAddr, NextHopType, standard, nat, loadbalancer_target, hop_type_discrete, hop_type_eq,
}
use mathlib.Core.Bool.{decide}
use metalbond_rs.Common.{
  ℕ, ◌||◌, true, false, ==_false, Option, none, some, List, [], ◌∷◌, length, ltb, Result, ok, err,
  ◌≡◌, ◌≢◌, refl, sym, ap, subst, ◌∙◌, arith,
}

pub bind_ok :
    {A B : Type 0} (e : CommandError) (o : Option A) (f : A → Result CommandError B) (b : B)
    → (ok_or e o >>= f) ≡ ok b
    → (a : A) × (o ≡ some a) × (f a ≡ ok b)
bind_ok e none f b h = absurd (cc)
bind_ok e (some a) f b h = (a, refl, h)

pub ok_inj : {A : Type 0} (a b : A) → Path (Result CommandError A) (ok a) (ok b) → a ≡ b
ok_inj a b e = ap (λ r. elim r [ ok x ↦ x | err x ↦ a ]) e

ok_not_err : {A : Type 0} (a : A) (x : CommandError) → ok a ≢ err x
ok_not_err a x e = cc

pub result_ok :
    {A B : Type 0} (r : Result CommandError A) (f : A → Result CommandError B) (b : B)
    → (r >>= f) ≡ ok b
    → (x : A) × (r ≡ ok x) × (f x ≡ ok b)
result_ok (ok x) f b e = (x, refl, e)
result_ok (err y) f b e = absurd (cc)

seven_parts :
    (v p h t f l x : Text) (xs : List Text)
    → let n = length (v ∷ p ∷ h ∷ t ∷ f ∷ l ∷ x ∷ xs) in (ltb n 3 || ltb 6 n) ≡ true
seven_parts v p h t f l x xs = ground arith

-- The ports behind another type than NAT, and behind NAT.
read_ports_other :
    (parts : List Text) (hop_type : NextHopType)
    → ¬ (hop_type ≡ nat)
    → ltb 4 (length parts) ≡ false
    → read_ports parts hop_type ≡ ok (0, 0)
unfolding read_ports
read_ports_other parts hop_type other few = rw (==_false hop_type nat other, few) refl

read_ports_nat :
    (v p h t f l : Text) (from_port to_port : ℕ)
    → read_unsigned u16_max f ≡ some from_port
    → read_unsigned u16_max l ≡ some to_port
    → read_ports (v ∷ p ∷ h ∷ t ∷ f ∷ l ∷ []) nat ≡ ok (from_port, to_port)
unfolding read_ports hop_type_discrete decide
read_ports_nat v p h t f l from_port to_port from to = rw (from, read_ports) (rw (to) refl)

four_ports :
    (v p h t : Text) (hop_type : NextHopType) (ports : ℕ × ℕ)
    → read_ports (v ∷ p ∷ h ∷ t ∷ []) hop_type ≡ ok ports
    → ¬ (hop_type ≡ nat) × ((0, 0) ≡ ports)
unfolding read_ports hop_type_discrete decide
four_ports v p h t standard ports e = (λ q. cc, ok_inj (0, 0) ports e)
four_ports v p h t loadbalancer_target ports e = (λ q. cc, ok_inj (0, 0) ports e)
four_ports v p h t nat ports e = absurd (cc)

five_ports :
    (v p h t f : Text) (hop_type : NextHopType) (ports : ℕ × ℕ)
    → read_ports (v ∷ p ∷ h ∷ t ∷ f ∷ []) hop_type ≡ ok ports
    → ⊥
unfolding read_ports hop_type_discrete decide
five_ports v p h t f standard ports e = cc
five_ports v p h t f loadbalancer_target ports e = cc
five_ports v p h t f nat ports e = cc

six_ports :
    (v p h t f l : Text) (hop_type : NextHopType) (ports : ℕ × ℕ)
    → read_ports (v ∷ p ∷ h ∷ t ∷ f ∷ l ∷ []) hop_type ≡ ok ports
    → (hop_type ≡ nat)
      × (read_unsigned u16_max f ≡ some ports.0)
      × (read_unsigned u16_max l ≡ some ports.1)
unfolding read_ports hop_type_discrete decide
six_ports v p h t f l standard ports e = absurd (cc)
six_ports v p h t f l loadbalancer_target ports e = absurd (cc)
six_ports v p h t f l nat ports e =
    let (from_port, from, e1) = bind_ok invalid_port (read_unsigned u16_max f) _ ports e in
    let (to_port, to, e2) = bind_ok invalid_port (read_unsigned u16_max l) _ ports e1 in
    let same : (from_port, to_port) ≡ ports = ok_inj (from_port, to_port) ports e2 in
    (refl, from ∙ ap (λ q. some q.0) same, to ∙ ap (λ q. some q.1) same)

module _ {Net : Type 0} ⦃text : AddrText Net⦄ where
  -- The first three parts of an announcement, read.
  pub record Reads (v p h : Text) (vni : ℕ) (net : Net) (hop_ip : IpAddr) : Type 0 where
    pub vni_read : read_unsigned u32_max v ≡ some vni
    pub prefix_read : text.net_from_str p ≡ some net
    pub hop_read : text.addr_from_str h ≡ some hop_ip

  abbrev pub announcement : ℕ → Net → IpAddr → NextHopType → ℕ → ℕ → Announcement Net
  announcement vni net hop_ip hop_type from_port to_port = record {
    vni = vni;
    destination = record { prefix = net };
    next_hop = hop_of hop_ip hop_type from_port to_port;
  }

  -- The parts that the format allows, with what they say: the ports stand behind the type NAT and no
  -- other, and without a type it is the standard one.
  pub data IsAnnouncement : List Text → Announcement Net → Type 0 where
    plain :
        (v p h : Text) (vni : ℕ) (net : Net) (hop_ip : IpAddr)
        → Reads v p h vni net hop_ip
        → IsAnnouncement (v ∷ p ∷ h ∷ []) (announcement vni net hop_ip standard 0 0)
    typed :
        (v p h t : Text) (vni : ℕ) (net : Net) (hop_ip : IpAddr)
        → Reads v p h vni net hop_ip
        → ¬ (next_hop_type_from_str t ≡ nat)
        → IsAnnouncement
            (v ∷ p ∷ h ∷ t ∷ [])
            (announcement vni net hop_ip (next_hop_type_from_str t) 0 0)
    with_ports :
        (v p h t f l : Text) (vni : ℕ) (net : Net) (hop_ip : IpAddr) (from_port to_port : ℕ)
        → Reads v p h vni net hop_ip
        → next_hop_type_from_str t ≡ nat
        → read_unsigned u16_max f ≡ some from_port
        → read_unsigned u16_max l ≡ some to_port
        → IsAnnouncement
            (v ∷ p ∷ h ∷ t ∷ f ∷ l ∷ [])
            (announcement vni net hop_ip nat from_port to_port)

  -- What is left of a round once the first three parts are read, and only then.
  read_three :
      (v p h : Text) (parts : List Text) (a : Announcement Net)
      → (ok_or invalid_vni (read_unsigned u32_max v) >>= (λ vni.
          ok_or invalid_prefix (text.net_from_str p) >>= (λ net.
            ok_or invalid_hop (text.addr_from_str h)
            >>= (λ hop_ip. read_next_hop parts vni net hop_ip))))
        ≡ ok a
      → (vni : ℕ) × (net : Net) × (hop_ip : IpAddr) × Reads v p h vni net hop_ip
        × (read_next_hop parts vni net hop_ip ≡ ok a)
  read_three v p h parts a e =
      let (vni, vni_read, e1) =
        bind_ok invalid_vni (read_unsigned u32_max v)
          (λ vni. ok_or invalid_prefix (text.net_from_str p) >>= (λ net.
            ok_or invalid_hop (text.addr_from_str h)
            >>= (λ hop_ip. read_next_hop parts vni net hop_ip)))
          a e in
      let (net, prefix_read, e2) =
        bind_ok invalid_prefix (text.net_from_str p)
          (λ net.
            ok_or invalid_hop (text.addr_from_str h)
            >>= (λ hop_ip. read_next_hop parts vni net hop_ip))
          a e1 in
      let (hop_ip, hop_read, e3) =
        bind_ok invalid_hop (text.addr_from_str h) (λ hop_ip. read_next_hop parts vni net hop_ip) a
          e2 in
      (
        vni,
        net,
        hop_ip,
        record { vni_read = vni_read; prefix_read = prefix_read; hop_read = hop_read },
        e3,
      )

  pub read_parts_complete :
      (parts : List Text) (a : Announcement Net) → IsAnnouncement parts a → read_parts parts ≡ ok a
  unfolding read_parts read_next_hop read_ports hop_type_discrete decide
  read_parts_complete _ _ (plain v p h vni net hop_ip r) =
      rw (r.vni_read, read_parts) (rw (r.prefix_read) (rw (r.hop_read) refl))
  read_parts_complete _ _ (typed v p h t vni net hop_ip r other) =
      rw (r.vni_read, read_parts)
        (rw (r.prefix_read) (
          rw (r.hop_read) (
            rw (read_ports_other (v ∷ p ∷ h ∷ t ∷ []) (next_hop_type_from_str t) other refl) refl)))
  read_parts_complete _ _
        (with_ports v p h t f l vni net hop_ip from_port to_port r is_nat from to) =
      rw (r.vni_read, read_parts)
        (rw (r.prefix_read) (
          rw (r.hop_read) (rw (is_nat, read_ports_nat v p h t f l from_port to_port from to) refl)))

  -- The next hop's ports, which are read behind its type.
  ports_read :
      (parts : List Text) (hop_type : NextHopType) (vni : ℕ) (net : Net) (hop_ip : IpAddr)
      (a : Announcement Net)
      → (read_ports parts hop_type
          >>= (λ ports. ok (announcement vni net hop_ip hop_type ports.0 ports.1)))
        ≡ ok a
      → (ports : ℕ × ℕ) × (read_ports parts hop_type ≡ ok ports)
        × (announcement vni net hop_ip hop_type ports.0 ports.1 ≡ a)
  ports_read parts hop_type vni net hop_ip a e =
      let said : ℕ × ℕ → Announcement Net =
        λ ports. announcement vni net hop_ip hop_type ports.0 ports.1 in
      let (ports, r, f) = result_ok (read_ports parts hop_type) (λ ports. ok (said ports)) a e in
      (ports, r, ok_inj (said ports) a f)

  pub read_parts_sound :
      (parts : List Text) (a : Announcement Net) → read_parts parts ≡ ok a → IsAnnouncement parts a
  unfolding read_parts read_next_hop read_ports hop_type_discrete decide
  read_parts_sound [] a e = absurd (cc)
  read_parts_sound (v ∷ []) a e = absurd (cc)
  read_parts_sound (v ∷ p ∷ []) a e = absurd (cc)
  read_parts_sound (v ∷ p ∷ h ∷ []) a e =
      let (vni, net, hop_ip, r, e1) = read_three v p h (v ∷ p ∷ h ∷ []) a e in
      subst (IsAnnouncement (v ∷ p ∷ h ∷ []))
        (ok_inj (announcement vni net hop_ip standard 0 0) a e1) (plain v p h vni net hop_ip r)
  read_parts_sound (v ∷ p ∷ h ∷ t ∷ []) a e =
      let (vni, net, hop_ip, r, e1) = read_three v p h (v ∷ p ∷ h ∷ t ∷ []) a e in
      let (ports, e2, same) =
        ports_read (v ∷ p ∷ h ∷ t ∷ []) (next_hop_type_from_str t) vni net hop_ip a e1 in
      let (other, zeros) = four_ports v p h t (next_hop_type_from_str t) ports e2 in
      subst (IsAnnouncement (v ∷ p ∷ h ∷ t ∷ []))
        (ap (λ q. announcement vni net hop_ip (next_hop_type_from_str t) q.0 q.1) zeros ∙ same)
        (typed v p h t vni net hop_ip r other)
  read_parts_sound (v ∷ p ∷ h ∷ t ∷ f ∷ []) a e =
      let (vni, net, hop_ip, r, e1) = read_three v p h (v ∷ p ∷ h ∷ t ∷ f ∷ []) a e in
      let (ports, e2, same) =
        ports_read (v ∷ p ∷ h ∷ t ∷ f ∷ []) (next_hop_type_from_str t) vni net hop_ip a e1 in
      absurd (five_ports v p h t f (next_hop_type_from_str t) ports e2)
  read_parts_sound (v ∷ p ∷ h ∷ t ∷ f ∷ l ∷ []) a e =
      let (vni, net, hop_ip, r, e1) = read_three v p h (v ∷ p ∷ h ∷ t ∷ f ∷ l ∷ []) a e in
      let (ports, e2, same) =
        ports_read (v ∷ p ∷ h ∷ t ∷ f ∷ l ∷ []) (next_hop_type_from_str t) vni net hop_ip a e1 in
      let (is_nat, from, to) = six_ports v p h t f l (next_hop_type_from_str t) ports e2 in
      subst (IsAnnouncement (v ∷ p ∷ h ∷ t ∷ f ∷ l ∷ []))
        (ap (λ q. announcement vni net hop_ip q ports.0 ports.1) (sym is_nat) ∙ same)
        (with_ports v p h t f l vni net hop_ip ports.0 ports.1 r is_nat from to)
  read_parts_sound (v ∷ p ∷ h ∷ t ∷ f ∷ l ∷ x ∷ xs) a e = absurd (
      ok_not_err a malformed_announcement
        (sym e ∙ rw (seven_parts v p h t f l x xs, read_parts) refl))
