-- ===== src/Config/Parse/Settings.antt =====
-- The readers of single settings keep what each of the two nodes has, if the settings do not matter to it.
use ics_trafficgen.Base.{String, List, ℕ, Option, none, some, Bool, true, false, ℤ, Returns}
use ics_trafficgen.Node.{Node, new_node}
use ics_trafficgen.Config.{PropTree}
use ics_trafficgen.Config.Addresses.{Pair, on_node}
use ics_trafficgen.Config.Readers.{
  if_given, allow_both, read_unsolicited, read_ip_ports, read_sleep_times, read_lua_file_names,
  read_lua_file_key_switch,
}
use ics_trafficgen.Config.DataSpecs.Sizes.{Covers}
use ics_trafficgen.Config.Parse.{read_settings}

-- The property outlives a change of each of the settings.
pub record IsSetting {F : Type 0} (P : Node F → Type 0) : Type 0 where
  pub allowed : (n : Node F) → P n → P (record n { allow_unsolicited = true })
  pub ported : (v : ℤ) (n : Node F) → P n → P (record n { port = v })
  pub slept : (v : ℤ) (n : Node F) → P n → P (record n { ms_to_sleep = v })
  pub filed : (fs : List (List ℕ)) (n : Node F) → P n → P (record n { lua_file_names = fs })
  pub keyed : (k : String) (n : Node F) → P n → P (record n { lua_key_switch = k })

pub Covers-IsSetting : {F : Type 0} → IsSetting (Covers {F = F})
Covers-IsSetting = record {
  allowed = λ n c. c;
  ported = λ v n c. c;
  slept = λ v n c. c;
  filed = λ fs n c. c;
  keyed = λ k n c. c;
}

module _ (pt : PropTree) where
  open pt use {Tree, Float, children, get_int, get_bool, get_string, get_float}

  pub new_node-Covers : (name role : String) → Covers (new_node {F = Float} name role)
  unfolding new_node
  new_node-Covers name role = record {
    points_within = tt;
    sources_within = tt;
    sources_sorted = tt;
  }

  pub on_node-Returns :
      (P : Node Float → Type 0) (f : Node Float → Node Float) (n : Option (Node Float))
      → ((n : Node Float) → P n → P (f n))
      → Returns P n
      → Returns P (on_node pt f n)
  on_node-Returns P f none h k = tt
  on_node-Returns P f (some n) h k = h n k

  -- What holds of the pointer to a node outlives a change of each of the settings.
  pub record AreSet (M : Option (Node Float) → Type 0) : Type 0 where
    allowed :
        (o : Option (Node Float))
        → M o
        → M (on_node pt (λ n. record n { allow_unsolicited = true }) o)
    ported : (v : ℤ) (o : Option (Node Float)) → M o → M (on_node pt (λ n. record n { port = v }) o)
    slept :
        (v : ℤ) (o : Option (Node Float))
        → M o
        → M (on_node pt (λ n. record n { ms_to_sleep = v }) o)
    filed :
        (fs : List (List ℕ)) (o : Option (Node Float))
        → M o
        → M (on_node pt (λ n. record n { lua_file_names = fs }) o)
    keyed :
        (k : String) (o : Option (Node Float))
        → M o
        → M (on_node pt (λ n. record n { lua_key_switch = k }) o)

  pub Returns-AreSet : (P : Node Float → Type 0) → IsSetting P → AreSet (Returns P)
  Returns-AreSet P p = record {
    allowed = λ o k. on_node-Returns P _ o p.allowed k;
    ported = λ v o k. on_node-Returns P _ o (p.ported v) k;
    slept = λ v o k. on_node-Returns P _ o (p.slept v) k;
    filed = λ fs o k. on_node-Returns P _ o (p.filed fs) k;
    keyed = λ key o k. on_node-Returns P _ o (p.keyed key) k;
  }

  -- There is a node exactly if there was one, and it has the property.
  abbrev pub Still : (Node Float → Type 0) → Option (Node Float) → Option (Node Float) → Type 0
  Still P none none = Unit
  Still P none (some n') = ⊥
  Still P (some n) none = ⊥
  Still P (some n) (some n') = P n'

  on_node-Still :
      (P : Node Float → Type 0) (f : Node Float → Node Float) (n₀ n : Option (Node Float))
      → ((n : Node Float) → P n → P (f n))
      → Still P n₀ n
      → Still P n₀ (on_node pt f n)
  on_node-Still P f none none h k = k
  on_node-Still P f none (some n) h k = k
  on_node-Still P f (some n₀) none h k = k
  on_node-Still P f (some n₀) (some n) h k = h n k

  pub Still-AreSet :
      (P : Node Float → Type 0) (n₀ : Option (Node Float)) → IsSetting P → AreSet (Still P n₀)
  Still-AreSet P n₀ p = record {
    allowed = λ o k. on_node-Still P _ n₀ o p.allowed k;
    ported = λ v o k. on_node-Still P _ n₀ o (p.ported v) k;
    slept = λ v o k. on_node-Still P _ n₀ o (p.slept v) k;
    filed = λ fs o k. on_node-Still P _ n₀ o (p.filed fs) k;
    keyed = λ key o k. on_node-Still P _ n₀ o (p.keyed key) k;
  }

  pub Still-Returns :
      (P : Node Float → Type 0) (n n' : Option (Node Float)) → Still P n n' → Returns P n'
  Still-Returns P none none f = tt
  Still-Returns P none (some n') f = absurd f
  Still-Returns P (some n) none f = absurd f
  Still-Returns P (some n) (some n') f = f

  -- The pointers to the master and to the outstation.
  abbrev pub BothKeep :
      (Option (Node Float) → Type 0) → (Option (Node Float) → Type 0) → Pair pt → Type 0
  BothKeep M N pair = M pair.0 × N pair.1

  if_given-kept :
      {A : Type 0} (M : Option (Node Float) → Type 0) (o : Option A)
      (f : A → Node Float → Node Float) (n : Option (Node Float))
      → ((a : A) → M n → M (on_node pt (f a) n))
      → M n
      → M (if_given o f n)
  if_given-kept M none f n h k = k
  if_given-kept M (some a) f none h k = k
  if_given-kept M (some a) f (some n) h k = h a k

module _ (pt : PropTree) (M N : Option (Node pt.Float) → Type 0) (m : AreSet pt M)
    (n : AreSet pt N) where
  open pt use {Tree, Float, children, get_int, get_bool, get_string, get_float}

  abbrev Keeping : (Tree → Pair pt → Pair pt) → Type 0
  Keeping reader =
      (t : Tree) (pair : Pair pt) → BothKeep pt M N pair → BothKeep pt M N (reader t pair)

  allow_both-BothKeep :
      (o : Option Bool) (pair : Pair pt)
      → BothKeep pt M N pair
      → BothKeep pt M N (allow_both pt o pair)
  allow_both-BothKeep none pair k = k
  allow_both-BothKeep (some false) pair k = k
  allow_both-BothKeep (some true) (master, outstation) k =
      (m.allowed master k.0, n.allowed outstation k.1)

  read_unsolicited-BothKeep : Keeping (read_unsolicited pt)
  unfolding read_unsolicited
  read_unsolicited-BothKeep t pair k = allow_both-BothKeep (get_bool t "Allow Unsolicited") pair k

  read_ip_ports-BothKeep : Keeping (read_ip_ports pt)
  unfolding read_ip_ports
  read_ip_ports-BothKeep t (master, outstation) k = (
    if_given-kept pt M _ _ master (λ v. m.ported v master) k.0,
    if_given-kept pt N _ _ outstation (λ v. n.ported v outstation) k.1,
  )

  read_sleep_times-BothKeep : Keeping (read_sleep_times pt)
  unfolding read_sleep_times
  read_sleep_times-BothKeep t (master, outstation) k = (
    if_given-kept pt M _ _ master (λ v. m.slept _ master) k.0,
    if_given-kept pt N _ _ outstation (λ v. n.slept _ outstation) k.1,
  )

  read_lua_file_names-BothKeep : Keeping (read_lua_file_names pt)
  unfolding read_lua_file_names
  read_lua_file_names-BothKeep t (master, outstation) k = (
    if_given-kept pt M _ _ master (λ ts. m.filed _ master) k.0,
    if_given-kept pt N _ _ outstation (λ ts. n.filed _ outstation) k.1,
  )

  read_lua_file_key_switch-BothKeep : Keeping (read_lua_file_key_switch pt)
  unfolding read_lua_file_key_switch
  read_lua_file_key_switch-BothKeep t (master, outstation) k = (
    if_given-kept pt M _ _ master (λ v. m.keyed v master) k.0,
    if_given-kept pt N _ _ outstation (λ v. n.keyed v outstation) k.1,
  )

  pub read_settings-BothKeep : Keeping (read_settings pt)
  unfolding read_settings
  read_settings-BothKeep t pair k = read_lua_file_key_switch-BothKeep t _ (
      read_lua_file_names-BothKeep t _ (
        read_sleep_times-BothKeep t _
          (read_unsolicited-BothKeep t _ (read_ip_ports-BothKeep t pair k))))
