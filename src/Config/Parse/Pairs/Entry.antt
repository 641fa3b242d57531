-- ===== src/Config/Parse/Pairs/Entry.antt =====
-- Reading one entry of "Nodes": the points, polls and buffers leave a pair as it is set to each other.
use ics_trafficgen.Base.{
  String, [], ◌∷◌, ◌++◌, Option, none, some, ◌>>=◌, ◌≡◌, refl, ap, ◌∙◌, subst, Returns,
  Returns-then, append_assoc,
}
use ics_trafficgen.Node.{Node, new_node}
use ics_trafficgen.Config.{PropTree, Parser}
use ics_trafficgen.Config.Addresses.{Pair, read_assign_dnp3_addresses, read_assign_ip_addresses}
use ics_trafficgen.Config.DataSpecs.Link.{SameLink, SameLink-IsKept}
use ics_trafficgen.Config.Parse.{
  finish_master, finish_outstation, read_settings, read_node, push_node,
}
use ics_trafficgen.Config.Parse.Settings.{Still}
use ics_trafficgen.Config.Parse.Finishing.{finish_master-Still, finish_outstation-Still}
use ics_trafficgen.Config.Parse.Pairs.{
  Matched, AreNamed, Agree, SameLink-refl, Agree-SameLink, Agree-Matched, Both, assign_ip,
  assign_dnp3, read_settings-Both,
}

module _ (pt : PropTree) where
  open pt use {Tree, Float, get_string}

  -- The optional node is there, and linked as `n`.
  abbrev Linked : Node Float → Option (Node Float) → Type 0
  Linked n = Still pt (SameLink n) (some n)

  -- The parser has got two more nodes, a master and an outstation with these names, the stacks of
  -- which are set to each other.
  abbrev pub HasPair : String × String → Parser Float → Parser Float → Type 0
  HasPair names p p' =
      (m o : Node Float) × (p'.nodes ≡ p.nodes ++ m ∷ o ∷ []) × AreNamed names m o × Matched m o

  pushed :
      (names : String × String) (p p₁ : Parser Float) (m o : Node Float)
      (m' o' : Option (Node Float))
      → p₁.nodes ≡ p.nodes
      → Agree names m o
      → Linked m m'
      → Linked o o'
      → HasPair names p (push_node pt o' (push_node pt m' p₁))
  pushed names p p₁ m o none o' e a s r = absurd s
  pushed names p p₁ m o (some m') none e a s r = absurd r
  pushed names p p₁ m o (some m') (some o') e a s r = (
    m',
    o',
    append_assoc p₁.nodes (m' ∷ []) (o' ∷ []) ∙ ap (λ ns. ns ++ m' ∷ o' ∷ []) e,
    (Agree-SameLink names m o m' o' s r a).4,
    Agree-Matched names m' o' (Agree-SameLink names m o m' o' s r a),
  )

  finish_pair :
      (names : String × String) (t : Tree) (p p₁ : Parser Float) (pair : Pair pt)
      → p₁.nodes ≡ p.nodes
      → Both pt names (Agree names) pair
      → Returns (HasPair names p) (
          finish_master pt t pair.0 >>= λ m.
          finish_outstation pt t pair.1 >>= λ o. some (push_node pt o (push_node pt m p₁)))
  finish_pair names t p p₁ (some m, some o) e a =
      Returns-then (Linked m) (HasPair names p) (finish_master pt t (some m)) _
        (finish_master-Still pt (SameLink m) (SameLink-IsKept pt m) t (some m) (SameLink-refl m))
        (λ m' s.
          Returns-then (Linked o) (HasPair names p) (finish_outstation pt t (some o)) _
            (finish_outstation-Still pt (SameLink o) (SameLink-IsKept pt o) t (some o)
              (SameLink-refl o))
            (λ o' r. pushed names p p₁ m o m' o' e a s r))
  finish_pair names t p p₁ (some m, none) e a = absurd a
  finish_pair names t p p₁ (none, o) e a = absurd a

  read_node-Returns :
      (t : Tree) (p : Parser Float) (master outstation : String)
      → get_string t "Name.Master" ≡ some master
      → get_string t "Name.Outstation" ≡ some outstation
      → Returns (HasPair (master, outstation) p) (read_node pt t p)
  unfolding read_node new_node
  read_node-Returns t p master outstation e f =
      let ip =
        assign_ip pt (master, outstation) t p (new_node master "Master")
          (new_node outstation "Outstation") (refl, (refl, refl)) in
      let (p₁, pair₁) =
        read_assign_ip_addresses pt t
          (p, (some (new_node master "Master"), some (new_node outstation "Outstation"))) in
      let d = assign_dnp3 pt (master, outstation) t p₁ pair₁ ip.1 in
      let (p₂, pair₂) = read_assign_dnp3_addresses pt t (p₁, pair₁) in
      rw (e, f)
        (finish_pair (master, outstation) t p p₂ (read_settings pt t pair₂) (d.0 ∙ ip.0)
          (read_settings-Both pt (master, outstation) t pair₂ d.1))

  -- Let an entry of "Nodes" name a master and an outstation. If it is read without an exception, a
  -- master and an outstation with these names come to the nodes, in this order. Each stack has the other's DNP3
  -- address as its remote one, the master connects to the outstation's IP address, and
  -- the master disables unsolicited responses at its start exactly if the outstation does not allow
  -- them, whatever addresses and settings the entry gives.
  pub read_node_lem :
      (t : Tree) (p p' : Parser Float) (master outstation : String)
      → get_string t "Name.Master" ≡ some master
      → get_string t "Name.Outstation" ≡ some outstation
      → read_node pt t p ≡ some p'
      → HasPair (master, outstation) p p'
  read_node_lem t p p' master outstation e f run =
      subst (Returns (HasPair (master, outstation) p)) run
        (read_node-Returns t p master outstation e f)
