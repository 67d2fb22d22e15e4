-- ===== src/Base/Assoc.antt =====
-- Go's maps with string keys, as association lists. The order of the entries stands for the
-- order in which a `range` loop visits them.
use openlinker_agent_node.Base.Tests.{if◌then◌else◌}
use openlinker_agent_node.Base.Lists.{length}
use Prim.Native.Nat.{◌+◌, ◌≤◌}
use Prim.Native.String.{String}
use mathlib.Core.Path.{◌≡◌, refl}
use mathlib.Core.Option.{Option, none, some}
use mathlib.Core.List.{List, [], ◌∷◌}
use native.Mathlib.Omega.{arith}
use text.Mathlib.Text.{◌==◌}
use text.Mathlib.TextEquality.{eq_iff}

module _ {ℓ} {V : Type ℓ} where
  unfoldable pub lookup : String → List (String × V) → Option V
  lookup key [] = none
  lookup key ((name, here) ∷ rest) = if name == key then some here else lookup key rest

  -- m[k] = v: in place, or as a new entry
  unfoldable pub put : String → V → List (String × V) → List (String × V)
  put key new [] = (key, new) ∷ []
  put key new ((name, here) ∷ rest) =
      if name == key then (name, new) ∷ rest else (name, here) ∷ put key new rest

  -- delete(m, k)
  unfoldable pub delete : String → List (String × V) → List (String × V)
  delete key [] = []
  delete key ((name, here) ∷ rest) =
      let others = delete key rest in if name == key then others else (name, here) ∷ others

  pub lookup-put :
      (key other : String) (new : V) (entries : List (String × V))
      → lookup other (put key new entries)
        ≡ (if key == other then some new else lookup other entries)
  unfolding lookup put
  lookup-put key other new [] = refl
  lookup-put key other new ((name, here) ∷ rest) =
      ground
        (arith, lookup-put key other new rest, eq_iff name other, eq_iff name key, eq_iff key other)

  pub lookup-delete :
      (key other : String) (entries : List (String × V))
      → lookup other (delete key entries) ≡ (if key == other then none else lookup other entries)
  unfolding lookup delete
  lookup-delete key other [] = ground arith
  lookup-delete key other ((name, here) ∷ rest) =
      ground
        (arith, lookup-delete key other rest, eq_iff name other, eq_iff name key, eq_iff key other)

  pub length-put_new :
      (k : String) (v : V) (m : List (String × V))
      → lookup k m ≡ none
      → length (put k v m) ≡ length m + 1
  unfolding lookup put
  length-put_new k v [] h = omega arith
  length-put_new k v ((i, w) ∷ m) h = ground (arith, length-put_new k v m)

  pub length-put_old :
      (k : String) (v u : V) (m : List (String × V))
      → lookup k m ≡ some u
      → length (put k v m) ≡ length m
  unfolding lookup put
  length-put_old k v u [] h = cc
  length-put_old k v u ((i, w) ∷ m) h = ground (arith, length-put_old k v u m)

  pub length-delete-le : (k : String) (m : List (String × V)) → length (delete k m) ≤ length m
  unfolding delete
  length-delete-le k [] = omega arith
  length-delete-le k ((i, w) ∷ m) = ground (arith, length-delete-le k m)
