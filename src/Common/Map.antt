-- ===== src/Common/Map.antt =====
-- A `HashMap` or `DashMap` that is only read and written by key, as a function.
use mathlib.Core.Bool.{Bool, true, false}
use mathlib.Core.Option.{Option, none, some}
use virthub.Common.Tests.{Eq, if◌then◌else◌}

abbrev pub Map : Type 0 → Type 0 → Type 0
Map K V = K → Option V

abbrev pub empty : {K V : Type 0} → Map K V
empty k = none

abbrev pub contains_key : {K V : Type 0} → Map K V → K → Bool
contains_key m k = elim (m k) [ none ↦ false | some _ ↦ true ]

module _ {K V : Type 0} ⦃e : Eq K⦄ where
  abbrev pub insert : Map K V → K → V → Map K V
  insert m k v j = if e.beq j k then some v else m j

  abbrev pub remove : Map K V → K → Map K V
  remove m k j = if e.beq j k then none else m j
