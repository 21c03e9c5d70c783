-- ===== src/RouteTable/Refinement.antt =====
-- routetable.rs refines a set of routes: every sequence of operations gets the answers that the set
-- gives, from the empty table on, and the table stays tidy.
use metalbond_rs.Types.{
  Vni, Destination, NextHop, PeerKey, SocketAddr, Ipnet, next_hop_eq, peer_key_eq, destination_eq,
}
use metalbond_rs.RouteTable.{
  RouteTable, RouteResult, RouteError, ok, err, empty, add_next_hop, remove_next_hop,
  next_hop_exists, remove_routes_from_peer,
}
use metalbond_rs.RouteTable.Updates.{
  same_route, next_hop_exists-add_next_hop, next_hop_exists-remove_next_hop, add_next_hop-new,
  remove_next_hop-result,
}
use metalbond_rs.RouteTable.Departure.{next_hop_exists-remove_routes_from_peer}
use metalbond_rs.RouteTable.Tidy.{
  IsTidyTable, add_next_hop-IsTidyTable, remove_next_hop-IsTidyTable,
  remove_routes_from_peer-IsTidyTable,
}
use metalbond_rs.Common.{
  ℕ, Bool, true, false, not, ◌&&◌, ◌||◌, ◌==◌, some, List, [], ◌∷◌, if◌then◌else◌, nat_eq, ◌≡◌,
  refl, ap, ◌∙◌,
}

-- The operations of a table.
pub data Operation (Net : Type 0) : Type 0 where
  add remove exists : Vni → Destination Net → NextHop → PeerKey → Operation Net
  leave : SocketAddr → Operation Net

-- A set of routes.
abbrev pub Routes : Type 0 → Type 0
Routes Net = Vni → Destination Net → NextHop → PeerKey → Bool

abbrev pub succeeded : RouteResult → Bool
succeeded (ok n) = true
succeeded (err e) = false

succeeded_if : (b : Bool) (n : ℕ) (e : RouteError) → succeeded (if b then ok n else err e) ≡ b
succeeded_if true n e = refl
succeeded_if false n e = refl

module _ {Net : Type 0} ⦃i : Ipnet Net⦄ where
  -- An operation of the table with its answer: whether the route is new, whether the removal succeeded,
  -- and whether the route exists.
  unfoldable pub perform : Operation Net → RouteTable Net → RouteTable Net × Bool
  perform (Operation.add vni dest nh p) t = add_next_hop t vni dest nh p
  perform (Operation.remove vni dest nh p) t =
      let (t', result) = remove_next_hop t vni dest nh p in (t', succeeded result)
  perform (Operation.exists vni dest nh p) t = (t, next_hop_exists t vni dest nh p)
  perform (Operation.leave peer) t = ((remove_routes_from_peer t peer).0, true)

  -- The same operation of the set.
  unfoldable pub specify : Operation Net → Routes Net → Routes Net × Bool
  specify (Operation.add vni dest nh p) s = (
    λ vni' dest' nh' p'. same_route vni dest nh p vni' dest' nh' p' || s vni' dest' nh' p',
    not (s vni dest nh p),
  )
  specify (Operation.remove vni dest nh p) s = (
    λ vni' dest' nh' p'. not (same_route vni dest nh p vni' dest' nh' p') && s vni' dest' nh' p',
    s vni dest nh p,
  )
  specify (Operation.exists vni dest nh p) s = (s, s vni dest nh p)
  specify (Operation.leave peer) s =
      (λ vni' dest' nh' p'. not (some peer == p') && s vni' dest' nh' p', true)

  -- The answers of a sequence of operations.
  unfoldable pub answers : List (Operation Net) → RouteTable Net → List Bool
  answers [] t = []
  answers (op ∷ ops) t = (perform op t).1 ∷ answers ops (perform op t).0

  unfoldable pub specified : List (Operation Net) → Routes Net → List Bool
  specified [] s = []
  specified (op ∷ ops) s = (specify op s).1 ∷ specified ops (specify op s).0

  -- A tidy table stands for the set of the routes that exist in it.
  abbrev pub Represents : RouteTable Net → Routes Net → Type 0
  Represents t s =
      IsTidyTable t
      × ((vni : Vni) (dest : Destination Net) (nh : NextHop) (p : PeerKey)
          → next_hop_exists t vni dest nh p ≡ s vni dest nh p)

  perform-Represents :
      (op : Operation Net) (t : RouteTable Net) (s : Routes Net)
      → Represents t s
      → Represents (perform op t).0 (specify op s).0 × ((perform op t).1 ≡ (specify op s).1)
  unfolding perform specify
  perform-Represents (Operation.add vni dest nh p) t s (tidy, h) = (
    (
      add_next_hop-IsTidyTable t vni dest nh p tidy,
      λ vni' dest' nh' p'.
          next_hop_exists-add_next_hop t vni dest nh p vni' dest' nh' p'
          ∙ ap (λ b. same_route vni dest nh p vni' dest' nh' p' || b) (h vni' dest' nh' p'),
    ),
    add_next_hop-new t vni dest nh p ∙ ap not (h vni dest nh p),
  )
  perform-Represents (Operation.remove vni dest nh p) t s (tidy, h) = (
    (
      remove_next_hop-IsTidyTable t vni dest nh p tidy,
      λ vni' dest' nh' p'.
          next_hop_exists-remove_next_hop t vni dest nh p vni' dest' nh' p'
          ∙ ap (λ b. not (same_route vni dest nh p vni' dest' nh' p') && b) (h vni' dest' nh' p'),
    ),
    ap succeeded (remove_next_hop-result t vni dest nh p) ∙ succeeded_if _ _ _ ∙ h vni dest nh p,
  )
  perform-Represents (Operation.exists vni dest nh p) t s (tidy, h) = ((tidy, h), h vni dest nh p)
  perform-Represents (Operation.leave peer) t s (tidy, h) = (
    (
      remove_routes_from_peer-IsTidyTable t peer tidy,
      λ vni' dest' nh' p'.
          next_hop_exists-remove_routes_from_peer t peer vni' dest' nh' p' tidy
          ∙ ap (λ b. not (some peer == p') && b) (h vni' dest' nh' p'),
    ),
    refl,
  )

  answers-specified :
      (ops : List (Operation Net)) (t : RouteTable Net) (s : Routes Net)
      → Represents t s
      → answers ops t ≡ specified ops s
  unfolding answers specified
  answers-specified [] t s h = refl
  answers-specified (op ∷ ops) t s h =
      let (next, same) = perform-Represents op t s h in
      cc (same, answers-specified ops (perform op t).0 (specify op s).0 next)

  -- Whatever operations are performed on an empty table, additions, removals, departures of peers and
  -- lookups, their answers are those of a set of routes under the same operations: whether an addition
  -- was new, whether a removal succeeded, and whether a route exists.
  pub answers-empty :
      (ops : List (Operation Net)) → answers ops empty ≡ specified ops (λ _ _ _ _. false)
  unfolding next_hop_exists
  answers-empty ops =
      answers-specified ops empty (λ _ _ _ _. false) ((tt, tt), λ vni dest nh p. refl)
