-- ===== src/Base/Map.antt =====
-- A Go map with string keys, as an association list.
use mathlib.Core.Path.{◌≡◌, refl, sym}
use mathlib.Core.Logic.{inl, inr}
use mathlib.Core.Option.{Option, none, some}
use mathlib.Core.List.{List, [], ◌∷◌}
use Prim.Native.String.{String}
use native.Mathlib.Omega.{arith}
use text.Mathlib.Text.{◌==◌}
use text.Mathlib.TextEquality.{eq_iff}
use orbit_api_gateway.Base.Logic.{if◌then◌else◌, Bool-cases}

abbrev pub Map {ℓ} : Type ℓ → Type ℓ
Map V = List (String × V)

module _ {ℓ} {V : Type ℓ} where
  -- `m[k]`, with the comma-ok form's flag as the option.
  unfoldable pub lookup : String → Map V → Option V
  lookup key [] = none
  lookup key ((name, value) ∷ entries) = if name == key then some value else lookup key entries

  -- `m[k] = v`
  unfoldable pub insert : String → V → Map V → Map V
  insert key new [] = (key, new) ∷ []
  insert key new ((name, value) ∷ entries) =
      if name == key then (key, new) ∷ entries else (name, value) ∷ insert key new entries

  -- `delete(m, k)`
  unfoldable pub erase : String → Map V → Map V
  erase key [] = []
  erase key ((name, value) ∷ entries) =
      let rest = erase key entries in if name == key then rest else (name, value) ∷ rest

  -- What is read after a write: the written value under its key, the old one under any other.
  pub lookup-insert :
      (key wanted : String) (new : V) (entries : Map V)
      → lookup wanted (insert key new entries)
        ≡ (if key == wanted then some new else lookup wanted entries)
  unfolding lookup insert
  lookup-insert key wanted new [] = refl
  lookup-insert key wanted new ((name, value) ∷ entries) =
      let below = lookup-insert key wanted new entries in
      ground (arith, below, eq_iff name wanted, eq_iff name key, eq_iff key wanted)

  -- What is read after a deletion.
  pub lookup-erase :
      (key wanted : String) (entries : Map V)
      → lookup wanted (erase key entries) ≡ (if key == wanted then none else lookup wanted entries)
  unfolding lookup erase
  lookup-erase key wanted [] = ground arith
  lookup-erase key wanted ((name, value) ∷ entries) =
      let below = lookup-erase key wanted entries in
      ground (arith, below, eq_iff name wanted, eq_iff name key, eq_iff key wanted)

-- Every entry that can be read has the property.
abbrev pub Holds {ℓ κ} : {V : Type ℓ} → (String → V → Type κ) → Map V → Type (ℓ ⊔ κ)
Holds Q entries = (key : String) (value : _) → lookup key entries ≡ some value → Q key value

module _ {ℓ κ} {V : Type ℓ} (Q : String → V → Type κ) (key : String) (entries : Map V) where
  pub insert-Holds : (new : V) → Q key new → Holds Q entries → Holds Q (insert key new entries)
  insert-Holds new here old wanted value e =
      let found = rw lookup-insert at e in
      elim (Bool-cases (key == wanted)) [
        | inl same ↦
            let v : new ≡ value = cc (rw same at found) in
            let k : key ≡ wanted = ground (arith, eq_iff key wanted) in rw (sym v, sym k) here
        | inr other ↦ old wanted value (rw other at found)
      ]

  pub erase-Holds : Holds Q entries → Holds Q (erase key entries)
  erase-Holds old wanted value e =
      let found = rw lookup-erase at e in
      elim (Bool-cases (key == wanted)) [
        | inl same ↦ absurd (cc (rw same at found))
        | inr other ↦ old wanted value (rw other at found)
      ]
