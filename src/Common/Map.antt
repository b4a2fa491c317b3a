-- ===== src/Common/Map.antt =====
-- A JavaScript `Map` with text keys: an association list in insertion order.
use Prim.Native.String.{String}
use mathlib.Core.Path.{◌≡◌, sym, subst, ap₂, ◌∙◌}
use mathlib.Core.Logic.{◌≢◌, inl, inr}
use mathlib.Core.Option.{Option, none, some}
use mathlib.Core.List.{List, [], ◌∷◌, map}
use solana_payment_ops.Common.Tests.{if◌then◌else◌, Bool-cases}
use solana_payment_ops.Common.Texts.{◌===◌, ===_iff}
use solana_payment_ops.Common.Predicates.{All, All-mono, All-zip, Pairwise}

abbrev pub Map {ℓ} : Type ℓ → Type ℓ
Map V = List (String × V)

module _ {ℓ} {V : Type ℓ} where
  -- `m.get(k)`
  abbrev pub lookup : String → Map V → Option V
  lookup k [] = none
  lookup k ((j, v) ∷ m) = if j === k then some v else lookup k m

  -- `m.set(k, v)`
  abbrev pub insert : String → V → Map V → Map V
  insert k v [] = (k, v) ∷ []
  insert k v ((j, w) ∷ m) = if j === k then (k, v) ∷ m else (j, w) ∷ insert k v m

  -- `[...m.values()]`
  abbrev pub values : Map V → List V
  values m = map (λ e. e.1) m

  abbrev pub HasDistinctKeys : Map V → Type 0
  HasDistinctKeys = Pairwise (λ e f. e.0 ≢ f.0)

module _ {ℓ κ} {V : Type ℓ} (P : String × V → Type κ) where
  pub insert-All : (k : String) (v : V) (m : Map V) → P (k, v) → All P m → All P (insert k v m)
  insert-All k v [] p h = (p, tt)
  insert-All k v ((j, w) ∷ m) p h = elim (Bool-cases (j === k)) [
    | inl same ↦ rw same (p, h.1)
    | inr other ↦ rw other (h.0, insert-All k v m p h.1)
  ]

  -- What every entry under another key has, and the new one, every entry has.
  pub insert-All_except :
      (k : String) (v : V) (m : Map V)
      → HasDistinctKeys m
      → P (k, v)
      → All (λ e. e.0 ≢ k → P e) m
      → All P (insert k v m)
  insert-All_except k v [] d p h = (p, tt)
  insert-All_except k v ((j, w) ∷ m) d p h = elim (Bool-cases (j === k)) [
    | inl same ↦ rw same (
      p,
      All-mono _ (λ e q. q.1 (λ at. q.0 ((===_iff j k).0 same ∙ sym at))) m
          (All-zip (λ e. j ≢ e.0) (λ e. e.0 ≢ k → P e) m d.0 h.1),
    )
    | inr other ↦
        rw other
          (h.0 (λ e. cc (sym ((===_iff j k).1 e) ∙ other)), insert-All_except k v m d.1 p h.1)
  ]

pub insert-HasDistinctKeys {ℓ} :
    {V : Type ℓ} (k : String) (v : V) (m : Map V)
    → HasDistinctKeys m
    → HasDistinctKeys (insert k v m)
insert-HasDistinctKeys k v [] h = (tt, tt)
insert-HasDistinctKeys k v ((j, w) ∷ m) h = elim (Bool-cases (j === k)) [
  | inl same ↦ rw same (All-mono _ (λ f ne e. ne ((===_iff j k).0 same ∙ e)) m h.0, h.1)
  | inr other ↦ rw other (
    insert-All (λ f. j ≢ f.0) k v m (λ e. cc (sym ((===_iff j k).1 e) ∙ other)) h.0,
    insert-HasDistinctKeys k v m h.1,
  )
]

module _ {ℓ} {V : Type ℓ} where
  -- What every entry has, the entry that is looked up has.
  pub lookup-All {κ} :
      (P : String × V → Type κ) (k : String) (m : Map V) {v : V}
      → All P m
      → lookup k m ≡ some v
      → P (k, v)
  lookup-All P k [] h e = cc e
  lookup-All P k ((j, w) ∷ m) h e = elim (Bool-cases (j === k)) [
    | inl same ↦
        let found : some w ≡ some _ = rw same at e in
        subst P (ap₂ (λ a b. (a, b)) ((===_iff j k).0 same) (cc found)) h.0
    | inr other ↦ lookup-All P k m h.1 (rw other at e)
  ]

  pub lookup-none : (k : String) (m : Map V) → lookup k m ≡ none → All (λ e. e.0 ≢ k) m
  lookup-none k [] e = tt
  lookup-none k ((j, w) ∷ m) e = elim (Bool-cases (j === k)) [
    | inl same ↦ let found : some w ≡ none = rw same at e in cc found
    | inr other ↦ (λ q. cc (sym ((===_iff j k).1 q) ∙ other), lookup-none k m (rw other at e))
  ]
