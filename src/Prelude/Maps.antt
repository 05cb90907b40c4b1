-- ===== src/Prelude/Maps.antt =====
-- JavaScript's `Map` and plain objects used as dictionaries, whose entries are only read by key:
-- a lookup function, with an update that overwrites and one that deletes.
use Prim.Native.Nat.{ℕ}
use mathlib.Core.Option.{Option, none, some}
use mathlib.Core.Path.{◌≡◌}
use mathlib.Core.Logic.{◌⊎◌, inl, inr}
use native.Mathlib.Omega.{arith}
use Prim.Native.String.{String}
use text.Mathlib.Text.{◌==◌ as str_eq}
use text.Mathlib.TextEquality.{eq_iff}
use snowflake_connector_node.Prelude.Tests.{◌==◌, if◌then◌else◌, Bool-cases}

abbrev pub NatMap {ℓ} : Type ℓ → Type ℓ
NatMap V = ℕ → Option V

module _ {ℓ} {V : Type ℓ} where
  abbrev pub map_empty : NatMap V
  map_empty k = none

  -- map.set(k, v)
  abbrev pub map_set : ℕ → V → NatMap V → NatMap V
  map_set k v m j = if k == j then some v else m j

  -- map.delete(k)
  abbrev pub map_delete : ℕ → NatMap V → NatMap V
  map_delete k m j = if k == j then none else m j

abbrev pub TextMap {ℓ} : Type ℓ → Type ℓ
TextMap V = String → Option V

module _ {ℓ} {V : Type ℓ} where
  abbrev pub text_set : String → V → TextMap V → TextMap V
  text_set k v m j = if str_eq k j then some v else m j

  abbrev pub text_delete : String → TextMap V → TextMap V
  text_delete k m j = if str_eq k j then none else m j

  -- What a key has after an entry was set: the new value under its own key, or what it had.
  pub text_set-cases :
      (k : String) (v : V) (m : TextMap V) (j : String) {w : V}
      → text_set k v m j ≡ some w
      → ((k ≡ j) × (v ≡ w)) ⊎ (m j ≡ some w)
  text_set-cases k v m j {w} h = elim (Bool-cases (str_eq k j)) [
    | inl e ↦ inl ((eq_iff k j).0 e, grind (arith, h, e))
    | inr e ↦ inr (grind (arith, h, e))
  ]

  pub text_delete-cases :
      (k : String) (m : TextMap V) (j : String) {w : V} → text_delete k m j ≡ some w → m j ≡ some w
  text_delete-cases k m j {w} h = elim (Bool-cases (str_eq k j)) [
    | inl e ↦ grind (arith, h, e)
    | inr e ↦ grind (arith, h, e)
  ]
