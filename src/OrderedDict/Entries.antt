-- ===== src/OrderedDict/Entries.antt =====
-- Properties of the entries of a dictionary, kept by every operation.
use mathlib.Core.Path.{subst₂}
use matf_master_vpn.Prelude.{
  ℕ, ◌≡◌, refl, ap, none, some, [], ◌∷◌, ◌++◌, length, ltb, Bool-cases, Option-cases, inl, inr,
}
use matf_master_vpn.Prelude.Equality.{Eq}
use matf_master_vpn.OrderedDict.{
  OrderedDict, get, remove, entry, move_to_end, put, pop_oldest, put_bounded,
}

-- Every entry satisfies `P`; it computes to a tuple.
abbrev pub Entries {ℓ κ ι} : {K : Type ℓ} {V : Type κ} → (K → V → Type ι) → OrderedDict K V → Type ι
Entries P [] = Unit
Entries P ((k, v) ∷ d) = P k v × Entries P d

module _ {ℓ κ ι} {K : Type ℓ} {V : Type κ} ⦃e : Eq K⦄ (P : K → V → Type ι) where
  pub Entries-get : (k : K) (v : V) (d : OrderedDict K V) → Entries P d → get k d ≡ some v → P k v
  unfolding get
  Entries-get k v [] h found = cc
  Entries-get k v ((j, w) ∷ d) h found = elim (Bool-cases (e.beq j k)) [
    | inl same ↦
        let value : some w ≡ some v = rw same at found in
        let equal : w ≡ v = cc value in subst₂ P ((e.beq_iff j k).0 same) equal h.0
    | inr other ↦ Entries-get k v d h.1 (rw other at found)
  ]

  Entries-append : (d f : OrderedDict K V) → Entries P d → Entries P f → Entries P (d ++ f)
  Entries-append [] f h g = g
  Entries-append ((k, v) ∷ d) f h g = (h.0, Entries-append d f h.1 g)

  pub Entries-remove : (k : K) (d : OrderedDict K V) → Entries P d → Entries P (remove k d)
  unfolding remove
  Entries-remove k [] h = tt
  Entries-remove k ((j, v) ∷ d) h = elim (Bool-cases (e.beq j k)) [
    | inl same ↦ rw same (Entries-remove k d h.1)
    | inr other ↦ rw other (h.0, Entries-remove k d h.1)
  ]

  pub Entries-move_to_end :
      (k : K) (d : OrderedDict K V) → Entries P d → Entries P (move_to_end k d)
  unfolding move_to_end
  Entries-move_to_end k d h =
      Entries-append (remove k d) (entry k (get k d)) (Entries-remove k d h)
        (elim (Option-cases (get k d)) [
          | inl missing ↦ rw missing tt
          | inr (v, found) ↦ rw found (Entries-get k v d h found, tt)
        ])

  Entries-put : (k : K) (v : V) (d : OrderedDict K V) → P k v → Entries P d → Entries P (put k v d)
  unfolding put
  Entries-put k v [] p h = (p, tt)
  Entries-put k v ((j, w) ∷ d) p h = elim (Bool-cases (e.beq j k)) [
    | inl same ↦ rw same (rw ((e.beq_iff j k).0 same) p, h.1)
    | inr other ↦ rw other (h.0, Entries-put k v d p h.1)
  ]

  Entries-pop_oldest : (d : OrderedDict K V) → Entries P d → Entries P (pop_oldest d)
  unfolding pop_oldest
  Entries-pop_oldest [] h = tt
  Entries-pop_oldest ((k, v) ∷ d) h = h.1

  pub Entries-put_bounded :
      (capacity : ℕ) (k : K) (v : V) (d : OrderedDict K V)
      → P k v
      → Entries P d
      → Entries P (put_bounded capacity k v d)
  unfolding put_bounded
  Entries-put_bounded capacity k v d p h = elim (Bool-cases (ltb capacity (length (put k v d)))) [
    | inl full ↦ rw full (Entries-pop_oldest (put k v d) (Entries-put k v d p h))
    | inr room ↦ rw room (Entries-put k v d p h)
  ]

module _ {ℓ κ} {K : Type ℓ} {V : Type κ} ⦃e : Eq K⦄ where
  pub put-absent :
      (k : K) (v : V) (d : OrderedDict K V) → get k d ≡ none → put k v d ≡ d ++ ((k, v) ∷ [])
  unfolding get put
  put-absent k v [] h = refl
  put-absent k v ((j, w) ∷ d) h = elim (Bool-cases (e.beq j k)) [
    | inl same ↦ let clash : some w ≡ none = rw same at h in absurd (cc clash)
    | inr other ↦ rw other (ap (◌∷◌ (j, w)) (put-absent k v d (rw other at h)))
  ]
