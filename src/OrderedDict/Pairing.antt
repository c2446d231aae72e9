-- ===== src/OrderedDict/Pairing.antt =====
-- Two dictionaries that hold the same values under two keys of each.
use matf_master_vpn.Prelude.{◌≡◌, refl, sym, ap, ◌∙◌, true, false, none, some, Bool-cases, inl, inr}
use matf_master_vpn.Prelude.Equality.{Eq}
use matf_master_vpn.OrderedDict.{OrderedDict, get, remove, put, get-put, get-remove}

module _ {ℓ κ ι} {K : Type ℓ} {J : Type κ} {V : Type ι} ⦃e : Eq K⦄ ⦃i : Eq J⦄ where
  -- What the first dictionary holds stands under its own key, and the second holds it too.
  abbrev pub Paired : OrderedDict K V → OrderedDict J V → (V → K) → (V → J) → Type (ℓ ⊔ ι)
  Paired s t f g = (k : K) (v : V) → get k s ≡ some v → (f v ≡ k) × (get (g v) t ≡ some v)

  pub Paired-put :
      (s : OrderedDict K V) (t : OrderedDict J V) (f : V → K) (g : V → J) (v : V)
      → Paired s t f g
      → get (g v) t ≡ none
      → Paired (put (f v) v s) (put (g v) v t) f g
  Paired-put s t f g v paired absent k w found = elim (Bool-cases (e.beq (f v) k)) [
    | inl same ↦
        let is : some v ≡ some w = rw (get-put (f v) k v s, same) at found in
        let equal : v ≡ w = cc is in
        let mine : i.beq (g v) (g v) ≡ true = (i.beq_iff (g v) (g v)).1 refl in
        rw (← equal) ((e.beq_iff (f v) k).0 same, rw (get-put (g v) (g v) v t, mine) refl)
    | inr other ↦
        let old = paired k w (rw (get-put (f v) k v s, other) at found) in
        (
          old.0,
          elim (Bool-cases (i.beq (g v) (g w))) [
            | inl taken ↦
                let equal : g v ≡ g w = (i.beq_iff (g v) (g w)).0 taken in
                let clash : none ≡ some w = sym absent ∙ ap (λ j. get j t) equal ∙ old.1 in
                absurd (cc clash)
            | inr free ↦ rw (get-put (g v) (g w) v t, free) old.1
          ],
        )
  ]

  pub Paired-remove :
      (s : OrderedDict K V) (t : OrderedDict J V) (f : V → K) (g : V → J) (v : V)
      → Paired s t f g
      → get (f v) s ≡ some v
      → Paired (remove (f v) s) (remove (g v) t) f g
  Paired-remove s t f g v paired linked k w found = elim (Bool-cases (e.beq (f v) k)) [
    | inl same ↦
        let clash : none ≡ some w = rw (get-remove (f v) k s, same) at found in absurd (cc clash)
    | inr other ↦
        let old = paired k w (rw (get-remove (f v) k s, other) at found) in
        (
          old.0,
          elim (Bool-cases (i.beq (g v) (g w))) [
            | inl taken ↦
                let equal : g v ≡ g w = (i.beq_iff (g v) (g w)).0 taken in
                let mine : some v ≡ some w =
                  sym (paired (f v) v linked).1 ∙ ap (λ j. get j t) equal ∙ old.1 in
                let one : v ≡ w = cc mine in
                let hit : e.beq (f v) k ≡ true = (e.beq_iff (f v) k).1 (ap f one ∙ old.0) in
                let clash : true ≡ false = sym hit ∙ other in absurd (cc clash)
            | inr free ↦ rw (get-remove (g v) (g w) t, free) old.1
          ],
        )
  ]
