-- ===== src/Command/Announcing.antt =====
-- The announcements of a client's start in main.rs: what is read of a text in the documented format,
-- and the routes that are announced when all of them are read.
use metalbond_rs.Command.Readers.{Text, AddrText, split}
use metalbond_rs.Command.Grammar.{IsAnnouncement, read_parts_sound, read_parts_complete}
use metalbond_rs.Command.{
  Announcement, CommandError, SetUp, ready, invalid_argument, read_announcement, read_parts, Turns,
  announce_all, go_on,
}
use metalbond_rs.RouteTable.Updates.{same_route}
use metalbond_rs.Types.{Vni, Ipnet, Destination, NextHop}
use metalbond_rs.Wire.{Prost}
use metalbond_rs.State.Actions.{Done}
use metalbond_rs.State.{MetalBondState}
use metalbond_rs.RouteTable.{next_hop_exists}
use metalbond_rs.MetalBond.{
  Outcome, success, failure, blocked, Node, is_route_announced, announce_route,
}
use metalbond_rs.MetalBond.Operations.{is_route_announced-announce_route}
use metalbond_rs.Common.{
  ℕ, Bool, false, ◌||◌, none, List, [], ◌∷◌, ◌++◌, length, All, nat_beq, ok, err, Result-cases, ◌≡◌,
  ◌≢◌, refl, sym, ap, inl, inr, ◌∙◌, ◌↔◌, arith,
}

-- The parts with a separator between each two of them.
unfoldable pub join : ℕ → List Text → Text
join separator [] = []
join separator (part ∷ []) = part
join separator (part ∷ next ∷ parts) = part ++ separator ∷ join separator (next ∷ parts)

abbrev pub IsPart : ℕ → Text → Type 0
IsPart separator = All (λ c. nat_beq c separator ≡ false)

split_last :
    (separator : ℕ) (part : Text) → IsPart separator part → split separator part ≡ part ∷ []
unfolding split
split_last separator [] h = refl
split_last separator (c ∷ part) h = rw (h.0, split_last separator part h.1) refl

split_first :
    (separator : ℕ) (part s : Text)
    → IsPart separator part
    → split separator (part ++ separator ∷ s) ≡ part ∷ split separator s
unfolding split
split_first separator [] s h = ground arith
split_first separator (c ∷ part) s h = rw (h.0, split_first separator part s h.1) refl

split-join :
    (separator : ℕ) (part : Text) (parts : List Text)
    → All (IsPart separator) (part ∷ parts)
    → split separator (join separator (part ∷ parts)) ≡ part ∷ parts
unfolding join
split-join separator part [] h = split_last separator part h.0
split-join separator part (next ∷ parts) h =
    split_first separator part (join separator (next ∷ parts)) h.0
    ∙ ap (◌∷◌ part) (split-join separator next parts h.1)

module _ {Net : Type 0} ⦃text : AddrText Net⦄ where
  -- A text of parts without '#', joined by '#', is read as an announcement if and only if the parts are
  -- a VNI, a prefix and a next hop that their readers accept, then nothing, or a type other than NAT
  -- alone, or NAT with two ports; and then the announcement is what these parts say.
  pub read_announcement-join :
      (part : Text) (parts : List Text) (a : Announcement Net)
      → All (IsPart b'#') (part ∷ parts)
      → (read_announcement (join b'#' (part ∷ parts)) ≡ ok a) ↔ IsAnnouncement (part ∷ parts) a
  unfolding read_announcement
  read_announcement-join part parts a h =
      let whole = split-join b'#' part parts h in
      (
        λ e. read_parts_sound (part ∷ parts) a (ap read_parts (sym whole) ∙ e),
        λ g. ap read_parts whole ∙ read_parts_complete (part ∷ parts) a g,
      )

-- The fields of the shared state that this instance's own routes and subscriptions stand in.
abbrev pub IsSame : {Net : Type 0} → MetalBondState Net → MetalBondState Net → Type 0
IsSame mb mb' =
    (mb.is_server ≡ mb'.is_server)
    × (mb.my_announcements ≡ mb'.my_announcements)
    × (mb.my_subscriptions ≡ mb'.my_subscriptions)

-- What the distributor and the tasks of the connections do leaves them as they are.
abbrev pub IsAside : {Net : Type 0} → Turns Net → Type 0
IsAside {Net} others = (k : ℕ) (n : Node Net) → IsSame (others k n).mb n.mb

not_ready : (x : CommandError) → ready ≢ invalid_argument x
not_ready x e = cc

module _ {Net : Type 0} where
  pub go_on_ready :
      (p : Outcome Done × Node Net) (next : Node Net → SetUp × Node Net)
      → (go_on p next).0 ≡ ready
      → go_on p next ≡ next p.1
  go_on_ready (success _, n) next h = refl
  go_on_ready (failure e, n) next h = absurd (cc)
  go_on_ready (blocked, n) next h = absurd (cc)

module _ {Net : Type 0} ⦃i : Ipnet Net⦄ ⦃prost : Prost⦄ ⦃text : AddrText Net⦄ where
  -- Whether one of the texts announces a route.
  unfoldable pub announces : List Text → Vni → Destination Net → NextHop → Bool
  announces [] vni dest nh = false
  announces (ann_str ∷ rest) vni dest nh = elim (read_announcement {Net = Net} ann_str) [
    | ok a ↦
        same_route a.vni a.destination a.next_hop none vni dest nh none
        || announces rest vni dest nh
    | err e ↦ announces rest vni dest nh
  ]

  same_announced :
      (n m : Node Net) (vni : Vni) (dest : Destination Net) (nh : NextHop)
      → IsSame m.mb n.mb
      → is_route_announced vni dest nh m ≡ is_route_announced vni dest nh n
  unfolding is_route_announced
  same_announced n m vni dest nh h = ap (λ t. next_hop_exists t vni dest nh none) h.1

  -- When the loop over the announcements ends without an error, this instance announces the routes of
  -- before and exactly the routes that the texts say, whatever other tasks do meanwhile that leaves the
  -- instance's own routes as they are.
  pub is_route_announced-announce_all :
      (others : Turns Net) (texts : List Text) (n : Node Net) (vni : Vni) (dest : Destination Net)
      (nh : NextHop)
      → IsAside others
      → (announce_all others texts n).0 ≡ ready
      → is_route_announced vni dest nh (announce_all others texts n).1
        ≡ (announces texts vni dest nh || is_route_announced vni dest nh n)
  unfolding announce_all announces
  is_route_announced-announce_all others [] n vni dest nh aside done = refl
  is_route_announced-announce_all others (ann_str ∷ rest) n vni dest nh aside done =
      let m : Node Net = others (length rest) n in
      elim (Result-cases (read_announcement {Net = Net} ann_str)) [
        | inl (a, e) ↦
            let announced : Outcome Done × Node Net =
              announce_route a.vni a.destination a.next_hop m in
            let first : announce_all others (ann_str ∷ rest) n
                ≡ go_on announced (announce_all others rest) =
              rw (e, announce_all) refl in
            let on =
              go_on_ready announced (announce_all others rest) (ap (λ p. p.0) (sym first) ∙ done) in
            let whole : announce_all others (ann_str ∷ rest) n
                ≡ announce_all others rest announced.1 =
              first ∙ on in
            rw
              (
                whole,
                is_route_announced-announce_all others rest announced.1 vni dest nh aside
                    (ap (λ p. p.0) (sym whole) ∙ done),
              )
              (rw (is_route_announced-announce_route a.vni a.destination a.next_hop vni dest nh m) (
                rw (same_announced n m vni dest nh (aside (length rest) n), e, announces)
                  (ground arith)))
        | inr (x, e) ↦ absurd (not_ready x (sym done ∙ rw (e, announce_all) refl))
      ]
