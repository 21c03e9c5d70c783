-- ===== src/Command/Tables.antt =====
-- The mapping of VNIs to routing tables that main.rs reads for the client of netlink.rs.
use metalbond_rs.Command.Readers.{Text, split, read_unsigned, read_i32}
use metalbond_rs.Command.Grammar.{bind_ok, ok_inj, result_ok}
use metalbond_rs.Command.{
  CommandError, invalid_vni, invalid_table_id, u32_max, read_entry, read_mapping, vni_table_map,
}
use metalbond_rs.HashMap.{HashMap, get, insert}
use metalbond_rs.HashMap.Laws.{get-insert}
use metalbond_rs.Netlink.Requests.{NetlinkError, invalid_table, no_table}
use metalbond_rs.Netlink.{NetlinkClient, route_request}
use metalbond_rs.Types.{Vni, Ipnet, Destination, NextHop}
use metalbond_rs.Common.{
  Bool, true, false, Option, some, none, List, [], ◌∷◌, Result, ok, err, Option-cases, ℤ,
  is_positive, nat_eq, ◌≡◌, ◌≢◌, refl, sym, ap, subst, ◌∙◌, arith, inl, inr, if◌then◌else◌,
}

if_ok :
    {A : Type 0} (b : Bool) (a c : A) (x : CommandError)
    → (if b then ok a else err x) ≡ ok c
    → (b ≡ true) × (a ≡ c)
if_ok true a c x e = (refl, ok_inj a c e)
if_ok false a c x e = absurd (cc)

-- An entry that is read has a positive table.
read_entry-is_positive :
    (parts : List Text) (entry : Vni × ℤ) → read_entry parts ≡ ok entry → is_positive entry.1 ≡ true
unfolding read_entry
read_entry-is_positive [] entry e = absurd (cc)
read_entry-is_positive (v ∷ []) entry e = absurd (cc)
read_entry-is_positive (v ∷ t ∷ x ∷ xs) entry e = absurd (cc)
read_entry-is_positive (v ∷ t ∷ []) entry e =
    let (vni, v_read, e1) = bind_ok invalid_vni (read_unsigned u32_max v) _ entry e in
    let (table_id, t_read, e2) = bind_ok invalid_table_id (read_i32 t) _ entry e1 in
    let (positive, same) = if_ok (is_positive table_id) (vni, table_id) entry invalid_table_id e2 in
    ap (λ q. is_positive q.1) (sym same) ∙ positive

-- Every table of the map is positive.
abbrev pub IsPositiveMap : HashMap Vni ℤ → Type 0
IsPositiveMap tables =
    (vni : Vni) (table_id : ℤ) → get vni tables ≡ some table_id → is_positive table_id ≡ true

insert-IsPositiveMap :
    (tables : HashMap Vni ℤ) (vni : Vni) (table_id : ℤ)
    → IsPositiveMap tables
    → is_positive table_id ≡ true
    → IsPositiveMap (insert vni table_id tables)
insert-IsPositiveMap tables vni table_id h positive v t found =
    ground (arith, found, get-insert v vni table_id tables, h v t, positive)

-- Every mapping that the command line accepts keeps the tables positive.
vni_table_map-IsPositiveMap :
    (mappings : List Text) (tables result : HashMap Vni ℤ)
    → IsPositiveMap tables
    → vni_table_map mappings tables ≡ ok result
    → IsPositiveMap result
unfolding vni_table_map read_mapping
vni_table_map-IsPositiveMap [] tables result h e = subst IsPositiveMap (ok_inj tables result e) h
vni_table_map-IsPositiveMap (mapping ∷ mappings) tables result h e =
    let (entry, r, rest) =
      result_ok (read_mapping mapping)
        (λ entry. vni_table_map mappings (insert entry.0 entry.1 tables)) result e in
    vni_table_map-IsPositiveMap mappings (insert entry.0 entry.1 tables) result
      (insert-IsPositiveMap tables entry.0 entry.1 h
        (read_entry-is_positive (split b'#' mapping) entry r))
      rest

-- The two ends of a request whose table is unknown or positive.
unknown_table :
    {A : Type 0} (b : Bool) (vni : Vni)
    → ¬ (
        Path
          (Result NetlinkError (Option A))
          (if b then ok none else err (no_table vni))
          (err invalid_table))
unknown_table true vni e = cc
unknown_table false vni e = cc

positive_table :
    {A : Type 0} (b c : Bool) (m : A)
    → ¬ (
        Path
          (Result NetlinkError (Option A))
          (if b then ok none else if c then ok none else ok (some m))
          (err invalid_table))
positive_table true c m e = cc
positive_table false true m e = cc
positive_table false false m e = cc

none_mapped : IsPositiveMap []
unfolding get
none_mapped vni t found = absurd (cc)

module _ {Net Other K : Type 0} ⦃i : Ipnet Net⦄ where
  -- A client whose mapping of VNIs to tables comes from the command line never refuses to install or
  -- to remove a route because of its table: each accepted mapping has a positive one.
  pub route_request-vni_table_map :
      (client : NetlinkClient Other K) (mappings : List Text) (vni : Vni) (dest : Destination Net)
      (nexthop : NextHop)
      → vni_table_map mappings [] ≡ ok client.config.vni_table_map
      → route_request client vni dest nexthop ≢ err invalid_table
  unfolding route_request
  route_request-vni_table_map client mappings vni dest nexthop accepted refused =
      elim (Option-cases (get vni client.config.vni_table_map)) [
        | inl unknown ↦ unknown_table _ vni (rw (unknown, route_request) at refused)
        | inr (t, found) ↦
            let positive =
              vni_table_map-IsPositiveMap mappings [] _ none_mapped accepted vni t found in
            positive_table _ _ _ (rw (positive) at rw (found, route_request) at refused)
      ]
