-- ===== src/Config/Parse/Identity.antt =====
-- What becomes of the addresses of an entry's nodes: the nodes that come to the parser's list have
-- the addresses and the network interfaces that were assigned to them first.
pub mod Whole
use ics_trafficgen.Base.{
  ℕ, String, List, [], ◌∷◌, ◌++◌, map, Option, none, some, ◌>>=◌, ◌≡◌, refl, sym, ap, ◌∙◌, subst,
  Returns, Returns-then, append_assoc, append-nil,
}
use ics_trafficgen.Node.{Node}
use ics_trafficgen.Config.{PropTree, Parser}
use ics_trafficgen.Config.Addresses.{Pair, read_assign_dnp3_addresses, read_assign_ip_addresses}
use ics_trafficgen.Config.DataSpecs.{add_point}
use ics_trafficgen.Config.DataSpecs.Preserved.{IsKept}
use ics_trafficgen.Config.Parse.{
  node_named, push_node, finish_master, finish_outstation, read_settings, read_node,
}
use ics_trafficgen.Config.Parse.Settings.{
  IsSetting, Still, Still-AreSet, Still-Returns, read_settings-BothKeep,
}
use ics_trafficgen.Config.Parse.Finishing.{finish_master-Still, finish_outstation-Still}

-- A node's DNP3 address, IP address and network interface.
abbrev pub identity : {F : Type 0} → Node F → ℕ × List ℕ × List ℕ
identity n = (n.local_dnp3_addr, n.local_ip_address, n.vnic)

-- The node has the identity of the one that there was, if there was one.
abbrev IsAs : {F : Type 0} → Option (Node F) → Node F → Type 0
IsAs none n = Unit
IsAs (some n₀) n = identity n ≡ identity n₀

IsAs-IsSetting : {F : Type 0} (o : Option (Node F)) → IsSetting (IsAs o)
IsAs-IsSetting none = record {
  allowed = λ n s. s;
  ported = λ v n s. s;
  slept = λ v n s. s;
  filed = λ fs n s. s;
  keyed = λ k n s. s;
}
IsAs-IsSetting (some n₀) = record {
  allowed = λ n s. s;
  ported = λ v n s. s;
  slept = λ v n s. s;
  filed = λ fs n s. s;
  keyed = λ k n s. s;
}

module _ (pt : PropTree) where
  open pt use {Tree, Float, get_string}

  IsAs-IsKept : (o : Option (Node Float)) → IsKept pt (IsAs o)
  unfolding add_point
  IsAs-IsKept none = record {
    pushed = λ dp n b s. s;
    joined = λ source dp input n w s. s;
    buffered = λ b n s. s;
    polled = λ ps n s. s;
    bound = λ bs n s. s;
  }
  IsAs-IsKept (some n₀) = record {
    pushed = λ dp n b s. s;
    joined = λ source dp input n w s. s;
    buffered = λ b n s. s;
    polled = λ ps n s. s;
    bound = λ bs n s. s;
  }

  Still-self : (o : Option (Node Float)) → Still pt (IsAs o) o o
  Still-self none = tt
  Still-self (some n) = refl

  Still-then :
      (P : Node Float → Type 0) (a b c : Option (Node Float))
      → Still pt P a b
      → Still pt P b c
      → Still pt P a c
  Still-then P none none c s r = r
  Still-then P none (some b) c s r = absurd s
  Still-then P (some a) none c s r = absurd s
  Still-then P (some a) (some b) none s r = r
  Still-then P (some a) (some b) (some c) s r = r

  -- The node, if there is one.
  abbrev pub if_any : Option (Node Float) → List (Node Float)
  if_any none = []
  if_any (some n) = n ∷ []

  -- The nodes of a pair.
  abbrev pub nodes_of : Pair pt → List (Node Float)
  nodes_of pair = if_any pair.0 ++ if_any pair.1

  -- Nodes with the identities of the pair's have come to the parser's list, and nothing else has changed.
  abbrev pub Entered : Parser Float × Pair pt → Parser Float → Type 0
  Entered (p, pair) p' =
      (ns : List (Node Float)) × (p' ≡ record p { nodes = p.nodes ++ ns })
      × (map identity ns ≡ map identity (nodes_of pair))

  pushed :
      (p : Parser Float) (m o m' o' : Option (Node Float))
      → Still pt (IsAs m) m m'
      → Still pt (IsAs o) o o'
      → Entered (p, (m, o)) (push_node pt o' (push_node pt m' p))
  pushed p none none none none s r =
      ([], ap (λ ns. record p { nodes = ns }) (sym (append-nil p.nodes)), refl)
  pushed p none (some o) none (some o') s r = (o' ∷ [], refl, ap (λ i. i ∷ []) r)
  pushed p (some m) none (some m') none s r = (m' ∷ [], refl, ap (λ i. i ∷ []) s)
  pushed p (some m) (some o) (some m') (some o') s r = (
    m' ∷ o' ∷ [],
    ap (λ ns. record p { nodes = ns }) (append_assoc p.nodes (m' ∷ []) (o' ∷ [])),
    λ i. s i ∷ r i ∷ [],
  )
  pushed p none o (some m') o' s r = absurd s
  pushed p (some m) o none o' s r = absurd s
  pushed p m none m' (some o') s r = absurd r
  pushed p m (some o) m' none s r = absurd r

  -- The addresses that an entry's nodes are assigned, before anything else is read.
  unfoldable pub assigned : Tree → Parser Float → Parser Float × Pair pt
  assigned t p = read_assign_dnp3_addresses pt t (
      read_assign_ip_addresses pt t (
        p,
        (
          node_named pt (get_string t "Name.Master") "Master",
          node_named pt (get_string t "Name.Outstation") "Outstation",
        ),
      ))

  -- Reading an entry gives its nodes the identities that they are assigned.
  pub read_node-Entered :
      (t : Tree) (p : Parser Float) → Returns (Entered (assigned t p)) (read_node pt t p)
  unfolding read_node assigned
  read_node-Entered t p =
      let (q, pair) = assigned t p in
      let k =
        read_settings-BothKeep pt (Still pt (IsAs pair.0) pair.0) (Still pt (IsAs pair.1) pair.1)
          (Still-AreSet pt (IsAs pair.0) pair.0 (IsAs-IsSetting pair.0))
          (Still-AreSet pt (IsAs pair.1) pair.1 (IsAs-IsSetting pair.1)) t pair
          (Still-self pair.0, Still-self pair.1) in
      let set = read_settings pt t pair in
      Returns-then (Still pt (IsAs pair.0) set.0) (Entered (q, pair)) (finish_master pt t set.0) _
        (finish_master-Still pt (IsAs pair.0) (IsAs-IsKept pair.0) t set.0
          (Still-Returns pt (IsAs pair.0) pair.0 set.0 k.0))
        (λ m km.
          Returns-then (Still pt (IsAs pair.1) set.1) (Entered (q, pair))
            (finish_outstation pt t set.1) _
            (finish_outstation-Still pt (IsAs pair.1) (IsAs-IsKept pair.1) t set.1
              (Still-Returns pt (IsAs pair.1) pair.1 set.1 k.1))
            (λ o ko.
              pushed q pair.0 pair.1 m o (Still-then (IsAs pair.0) pair.0 set.0 m k.0 km)
                (Still-then (IsAs pair.1) pair.1 set.1 o k.1 ko)))
