-- ===== src/Examples/Installs.antt =====
-- A kernel for netlink.rs that keeps its routes as a stack, and a client of it.
use metalbond_rs.Examples.Kernels.{Message, message_eq, blank, tun_config}
use metalbond_rs.Examples.Fixtures.{prefixes, bytes, subnet, gateway}
use metalbond_rs.Netlink.Requests.{RtError, request_failed, Rtnetlink}
use metalbond_rs.Netlink.{
  NetlinkClient, add_route, remove_route, build_route_message, is_metalbond_route, output_interface,
}
use metalbond_rs.Netlink.Installing.{
  IsReversible, HasErrnoCodes, deletion_request, remove_route-add_route, remove_route_passes_errors,
  is_metalbond_route-build_route_message,
}
use metalbond_rs.MetalBond.Distributor.{distribute}
use metalbond_rs.MetalBond.Installs.{route_update, kernel_after, distribute-add-remove}
use metalbond_rs.Client.{perform}
use metalbond_rs.Types.{UpdateAction}
use metalbond_rs.Examples.Instances.{server as node}
use metalbond_rs.HashMap.{get}
use mathlib.Core.Bool.{decide}
use metalbond_rs.Common.{
  true, false, ◌==◌, ==_self, ℕ_discrete, some, none, List, [], ◌∷◌, Result, ok, err, ℤ, pos,
  negsuc, ◌≡◌, sym, ◌∙◌, Option, refl, arith, if◌then◌else◌, Bool-cases, inl, inr,
}

abbrev missing : Result RtError (Unit {0})
missing = err (RtError.netlink_error (some (negsuc 1)))

abbrev pop : Message → List Message → Result RtError (Unit {0}) × List Message
pop r [] = (missing, [])
pop r (top ∷ k) = if top == r then (ok tt, k) else (missing, top ∷ k)

abbrev stack : Rtnetlink (Unit {0}) (List Message)
stack = record {
  default_message = blank;
  link_index = λ name k. ok none;
  dump = λ v k. [];
  add = λ r k. (ok tt, r ∷ k);
  del = pop;
}

abbrev client : NetlinkClient (Unit {0}) (List Message)
client = record { handle = stack; config = tun_config; tun_index = 9 }

stack-IsReversible : IsReversible stack
stack-IsReversible r k added = rw (==_self r) refl

ok_not_err :
    {code : Option ℤ}
    → Path (Result RtError (Unit {0})) (ok tt) (err (RtError.netlink_error code))
    → ⊥
ok_not_err e = cc

stack-HasErrnoCodes : HasErrnoCodes stack
stack-HasErrnoCodes r [] code h = ground (arith, h)
stack-HasErrnoCodes r (top ∷ k) code h = elim (Bool-cases (top == r)) [
  | inl t ↦ absurd (ok_not_err (sym (granted t) ∙ h))
  | inr f ↦ ground (arith, sym (refused f) ∙ h)
]
  where
    granted : (top == r) ≡ true → (pop r (top ∷ k)).0 ≡ ok tt
    granted t = rw (t) refl

    refused : (top == r) ≡ false → (pop r (top ∷ k)).0 ≡ missing
    refused f = rw (f) refl

-- A client with the mapping 100#7 alone.
abbrev pub tun_client : NetlinkClient (Unit {0}) (List Message)
tun_client = record {
  handle = stack;
  config = record { vni_table_map = (100, pos 7) ∷ []; link_name = []; ipv4_only = true };
  tun_index = 9;
}

remove_route-add_route_example :
    remove_route client 100 subnet gateway (add_route client 100 subnet gateway []).1 ≡ (ok tt, [])
unfolding add_route get ℕ_discrete decide
remove_route-add_route_example =
    remove_route-add_route client 100 subnet gateway [] stack-IsReversible refl

distribute-add-remove_example :
    kernel_after client
      (distribute
        (route_update UpdateAction.remove 100 subnet gateway none)
        (distribute (route_update UpdateAction.add 100 subnet gateway none) node))
      []
    ≡ kernel_after client node []
unfolding add_route get ℕ_discrete decide perform
distribute-add-remove_example =
    distribute-add-remove client 100 subnet gateway none none node [] stack-IsReversible refl

remove_route_passes_errors_example :
    remove_route client 100 subnet gateway [] ≡ deletion_request client 100 subnet gateway []
remove_route_passes_errors_example =
    remove_route_passes_errors client 100 subnet gateway [] stack-HasErrnoCodes

-- The kernel's `ENOENT` for a route that is not there is an error.
test_missing :
    (remove_route client 100 subnet gateway []).0
    ≡ err (request_failed (RtError.netlink_error (some (negsuc 1))))
unfolding remove_route decide
test_missing = refl

is_metalbond_route-build_route_message_example :
    is_metalbond_route {Other = Unit {0}} 263 9
      (build_route_message client (pos 7) subnet gateway.target_address)
    ≡ true
unfolding output_interface
is_metalbond_route-build_route_message_example =
    is_metalbond_route-build_route_message client subnet gateway.target_address 263 7 9 refl
