-- ===== src/Soe/Arrays.antt =====
-- What the callbacks of `MappingSoeHandler` do to the input arrays.
use ics_trafficgen.Base.{
  ℕ, String, List, [], ◌∷◌, true, false, none, some, lookup, get_elem?, set, length, ◌==◌,
  if◌then◌else◌, str_eq, ◌≡◌, refl, ap, subst, ◌∙◌, inl, inr, length-set, Option-cases, Bool-cases,
  get_elem?-set_self, get_elem?-set_ne, lt_of_get_elem?, arith, eq_iff, ==_iff, eq_refl,
  lookup_or-insert,
}
use ics_trafficgen.Points.{Dnp3Point, Doubles}
use ics_trafficgen.Mapping.{Channel, source_values, is_flagged}
use ics_trafficgen.Mapping.Ready.{SameShape}
use ics_trafficgen.Soe.{Indexed, refresh, update_array, update_arrays, receive}

module _ {D V : Type 0} (ops : Doubles D) (conv : V → D) where
  -- The point at `i` after the events, from the point before them: those of other indexes pass it by.
  abbrev pub refresh_all : ℕ → List (Indexed V) → Dnp3Point D → Dnp3Point D
  refresh_all i [] d = d
  refresh_all i (e ∷ es) d = refresh_all i es (if e.index == i then refresh ops conv d e else d)

module _ {D V : Type 0} (ops : Doubles D) (conv : V → D) (src : String) where
  -- One event: the arrays of other sources stay, and its own changes at the index of the event.
  update_array_lem :
      (e : Indexed V) (ch : Channel D) (k : String)
      → source_values k (update_array ops conv src e ch) ≡ (
          if str_eq src k
          then (elim (get_elem? (source_values src ch) e.index) [
            | none ↦ source_values src ch
            | some d ↦ set (source_values src ch) e.index (refresh ops conv d e)
          ])
          else source_values k ch)
  unfolding update_array
  update_array_lem e ch k = elim (Option-cases (lookup src ch.values)) [
    | inl missing ↦ ground (arith, missing, eq_iff src k)
    | inr (ps, found) ↦ elim (Option-cases (get_elem? ps e.index)) [
      | inl outside ↦ ground (arith, found, outside, eq_iff src k)
      | inr (d, inside) ↦ ground (
        arith,
        found,
        inside,
        eq_iff src k,
        lookup_or-insert [] src k (set ps e.index (refresh ops conv d e)) ch.values,
      )
    ]
  ]

  update_array-at :
      (e : Indexed V) (ch : Channel D) (i : ℕ) (d : Dnp3Point D)
      → get_elem? (source_values src ch) i ≡ some d
      → get_elem? (source_values src (update_array ops conv src e ch)) i
        ≡ some (if e.index == i then refresh ops conv d e else d)
  update_array-at e ch i d h = elim (Bool-cases (e.index == i)) [
    | inl same ↦
        let j : e.index ≡ i = (==_iff e.index i).0 same in
        let vs = source_values src ch in
        let v = refresh ops conv d e in
        let g : get_elem? vs e.index ≡ some d = rw j h in
        rw (update_array_lem e ch src, eq_refl src, same, g)
          (subst (λ k. get_elem? (set vs e.index v) k ≡ some v) j
            (get_elem?-set_self vs e.index v (lt_of_get_elem? vs e.index g)))
    | inr other ↦
        rw (update_array_lem e ch src, eq_refl src, other)
          (elim (Option-cases (get_elem? (source_values src ch) e.index)) [
            | inl outside ↦ rw outside h
            | inr (c, inside) ↦ rw inside (
                get_elem?-set_ne (source_values src ch) _ (λ j. ground (arith, ==_iff e.index i))
                ∙ h)
          ])
  ]

  update_arrays-at :
      (es : List (Indexed V)) (ch : Channel D) (i : ℕ) (d : Dnp3Point D)
      → get_elem? (source_values src ch) i ≡ some d
      → get_elem? (source_values src (update_arrays ops conv src es ch)) i
        ≡ some (refresh_all ops conv i es d)
  unfolding update_arrays
  update_arrays-at [] ch i d h = h
  update_arrays-at (e ∷ es) ch i d h = update_arrays-at es _ i _ (update_array-at e ch i d h)

  -- No event changes the size of an array, the outputs, the flags, or the arrays of other sources.
  update_array-kept :
      (e : Indexed V) (ch : Channel D)
      → ((update_array ops conv src e ch).out ≡ ch.out)
        × ((update_array ops conv src e ch).flag ≡ ch.flag)
        × ((k : String)
            → length (source_values k (update_array ops conv src e ch))
              ≡ length (source_values k ch))
        × ((k : String)
            → str_eq src k ≡ false
            → source_values k (update_array ops conv src e ch) ≡ source_values k ch)
  update_array-kept e ch = (
    unfold update_array in ground arith,
    unfold update_array in ground arith,
    (λ k. rw (update_array_lem e ch k) (elim (Bool-cases (str_eq src k)) [
      | inl same ↦ rw same (elim (Option-cases (get_elem? (source_values src ch) e.index)) [
        | inl outside ↦ rw outside (ap (λ s. length (source_values s ch)) ((eq_iff src k).0 same))
        | inr (d, inside) ↦ rw inside (
            length-set (source_values src ch) _ _
            ∙ ap (λ s. length (source_values s ch)) ((eq_iff src k).0 same))
      ])
      | inr other ↦ rw other
    ])),
    (λ k ne. rw (update_array_lem e ch k, ne)),
  )

  update_arrays-kept :
      (es : List (Indexed V)) (ch : Channel D)
      → ((update_arrays ops conv src es ch).out ≡ ch.out)
        × ((update_arrays ops conv src es ch).flag ≡ ch.flag)
        × ((k : String)
            → length (source_values k (update_arrays ops conv src es ch))
              ≡ length (source_values k ch))
        × ((k : String)
            → str_eq src k ≡ false
            → source_values k (update_arrays ops conv src es ch) ≡ source_values k ch)
  unfolding update_arrays
  update_arrays-kept [] ch = (refl, refl, (λ k. refl), λ k ne. refl)
  update_arrays-kept (e ∷ es) ch =
      let (o, f, s, v) = update_array-kept e ch in
      let (o', f', s', v') = update_arrays-kept es (update_array ops conv src e ch) in
      (o' ∙ o, f' ∙ f, (λ k. s' k ∙ s k), λ k ne. v' k ne ∙ v k ne)

  -- A batch of measurements keeps the sizes of all arrays.
  pub receive-SameShape :
      (es : List (Indexed V)) (ch : Channel D) → SameShape ch (receive ops conv src es ch)
  unfolding receive
  receive-SameShape es ch =
      let (o, f, s, v) = update_arrays-kept es ch in record { out_size = rw o; in_size = s }

  pub receive_parts :
      (es : List (Indexed V)) (ch : Channel D)
      → ((i : ℕ) (d : Dnp3Point D)
          → get_elem? (source_values src ch) i ≡ some d
          → get_elem? (source_values src (receive ops conv src es ch)) i
            ≡ some (refresh_all ops conv i es d))
        × (is_flagged src (receive ops conv src es ch) ≡ true)
        × ((receive ops conv src es ch).out ≡ ch.out)
        × ((k : String)
            → str_eq src k ≡ false
            → (source_values k (receive ops conv src es ch) ≡ source_values k ch)
              × (is_flagged k (receive ops conv src es ch) ≡ is_flagged k ch))
  unfolding receive
  receive_parts es ch =
      let (o, f, s, v) = update_arrays-kept es ch in
      (
        update_arrays-at es ch,
        rw (
          lookup_or-insert false src src true (update_arrays ops conv src es ch).flag,
          eq_refl src,
        ),
        o,
        λ k ne. (
          v k ne,
          rw (lookup_or-insert false src k true (update_arrays ops conv src es ch).flag, ne, f),
        ),
      )

  -- After a batch a point of the source at `i` holds what the events of index `i` make of it in turn;
  -- the source is flagged; the outputs, and the arrays and flags of any other source `k`, stay.
  pub receive_lem :
      (es : List (Indexed V)) (ch : Channel D) (i : ℕ) (d : Dnp3Point D) (k : String)
      → get_elem? (source_values src ch) i ≡ some d
      → str_eq src k ≡ false
      → (get_elem? (source_values src (receive ops conv src es ch)) i
          ≡ some (refresh_all ops conv i es d))
        × (is_flagged src (receive ops conv src es ch) ≡ true)
        × ((receive ops conv src es ch).out ≡ ch.out)
        × (source_values k (receive ops conv src es ch) ≡ source_values k ch)
        × (is_flagged k (receive ops conv src es ch) ≡ is_flagged k ch)
  receive_lem es ch i d k h ne =
      let (at_index, flagged, outputs, others) = receive_parts es ch in
      (at_index i d h, flagged, outputs, (others k ne).0, (others k ne).1)
