-- ===== src/Prelude/Maps.antt =====
-- Go's map[string]V as a list of entries with distinct keys, whose order is not used.
use mathlib.Core.Path.{◌≡◌}
use mathlib.Core.Option.{Option, none, some}
use mathlib.Core.List.{List, [], ◌∷◌}
use native.Mathlib.Omega.{arith}
use text.Mathlib.TextEquality.{eq_iff}
use gosso.Prelude.Tests.{if◌then◌else◌}
use gosso.Prelude.Texts.{String, ◌==◌}

module _ {ℓ} {V : Type ℓ} where
  unfoldable pub lookup : String → List (String × V) → Option V
  lookup key [] = none
  lookup key (entry ∷ rest) =
      let later = lookup key rest in if key == entry.0 then some entry.1 else later

  unfoldable pub delete : String → List (String × V) → List (String × V)
  delete key [] = []
  delete key (entry ∷ rest) =
      let kept = delete key rest in if key == entry.0 then kept else entry ∷ kept

  -- A new entry stands in front, and the old one of the key goes.
  unfoldable pub insert : String → V → List (String × V) → List (String × V)
  insert key value entries = (key, value) ∷ delete key entries

  pub lookup-delete :
      (gone key : String) (entries : List (String × V))
      → lookup key (delete gone entries) ≡ (if gone == key then none else lookup key entries)
  unfolding lookup delete
  lookup-delete gone key [] = ground arith
  lookup-delete gone key (entry ∷ rest) =
      ground (
        arith,
        eq_iff gone key,
        eq_iff gone entry.0,
        eq_iff key entry.0,
        lookup-delete gone key rest,
      )

  pub lookup-insert :
      (put key : String) (value : V) (entries : List (String × V))
      → lookup key (insert put value entries)
        ≡ (if put == key then some value else lookup key entries)
  unfolding lookup insert
  lookup-insert put key value entries =
      ground (arith, eq_iff put key, eq_iff key put, lookup-delete put key entries)
