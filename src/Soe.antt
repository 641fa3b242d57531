-- ===== src/Soe.antt =====
-- MappingSoeHandler.h and MappingSoeHandler.cpp: measurements that a master receives are put into
-- the input arrays of the outstations that it is bound to. The outstations are shared objects: a
-- handler refers to them by their places in one list.
pub mod Arrays
pub mod Delivery
pub mod Arrival
pub mod OutOfReach
pub mod Destinations
pub mod Printing
use ics_trafficgen.Base.{
  ℕ, String, List, [], ◌∷◌, Bool, true, ◌&&◌, Option, none, some, lookup, insert, get_elem?, set,
  length, ltb, ◌==◌, if◌then◌else◌,
}
use ics_trafficgen.Points.{Dnp3Point, Doubles}
use ics_trafficgen.Mapping.{Channel, MappingOutstation, source_values}

-- `opendnp3::Indexed<T>`, for the three types that are mapped: value, time and index.
pub record Indexed (V : Type 0) : Type 0 where
  pub value : V
  pub time : ℕ
  pub index : ℕ

-- The three overloads of `Process` that have a mapped type.
pub data Collection (D : Type 0) : Type 0 where
  binaries : List (Indexed Bool) → Collection D
  analogs : List (Indexed D) → Collection D
  counters : List (Indexed ℕ) → Collection D

pub record MappingSoeHandler : Type 0 where
  pub src_name : String
  pub destination_list : List ℕ

module _ {D V : Type 0} (ops : Doubles D) (conv : V → D) where
  -- the value that the array holds after the event, at the place of the event
  abbrev pub refresh : Dnp3Point D → Indexed V → Dnp3Point D
  refresh d e =
      if ops.eq d.value (conv e.value) && e.time == 0
      then d
      else record { value = conv e.value; timestamp = e.time }

module _ {D V : Type 0} (ops : Doubles D) (conv : V → D) (src : String) where
  -- the lambda `updateXArray`
  unfoldable pub update_array : Indexed V → Channel D → Channel D
  update_array e ch = elim (lookup src ch.values) [
    | none ↦ ch
    | some ps ↦ elim (get_elem? ps e.index) [
      | none ↦ ch
      | some d ↦ record ch { values = insert src (set ps e.index (refresh ops conv d e)) ch.values }
    ]
  ]

  unfoldable pub update_arrays : List (Indexed V) → Channel D → Channel D
  update_arrays [] ch = ch
  update_arrays (e ∷ es) ch = update_arrays es (update_array e ch)

  -- under the lock of one destination: `ForeachItem`, then the flag
  unfoldable pub receive : List (Indexed V) → Channel D → Channel D
  receive es ch = let c = update_arrays es ch in record c { flag = insert src true c.flag }

module _ {D : Type 0} (ops : Doubles D) where
  unfoldable pub process_at : String → Collection D → MappingOutstation D → MappingOutstation D
  process_at src (binaries es) m = record m { binary = receive ops ops.of_bool src es m.binary }
  process_at src (analogs es) m = record m { analog = receive ops (λ v. v) src es m.analog }
  process_at src (counters es) m = record m { counter = receive ops ops.of_uint32 src es m.counter }

  -- the loop over `DestinationList`
  unfoldable pub process_all :
      String → Collection D → List ℕ → List (MappingOutstation D) → List (MappingOutstation D)
  process_all src c [] ms = ms
  process_all src c (r ∷ rs) ms =
      process_all src c rs
        (elim (get_elem? ms r) [ none ↦ ms | some m ↦ set ms r (process_at src c m) ])

  -- `Process`
  unfoldable pub process :
      MappingSoeHandler → Collection D → List (MappingOutstation D) → List (MappingOutstation D)
  process h c ms = process_all h.src_name c h.destination_list ms
