-- ===== src/OrderedDict/Recent.antt =====
-- How near to its end a dictionary holds a key: the entries that would leave it after those before.
use matf_master_vpn.Prelude.{
  ℕ, suc, ◌≤◌, ◌<◌, ◌≡◌, ◌⊎◌, refl, sym, ap, ◌∙◌, true, false, none, some, inl, inr, [], ◌∷◌, ◌++◌,
  length, length-append, ltb, arith, Bool-cases,
}
use matf_master_vpn.Prelude.Equality.{Eq}
use matf_master_vpn.OrderedDict.{
  OrderedDict, get, remove, entry, move_to_end, pop_oldest, put_bounded, get-remove, length-remove,
}
use matf_master_vpn.OrderedDict.Entries.{put-absent}

module _ {K V : Type 0} ⦃e : Eq K⦄ where
  -- The key has this value, and at most `n` entries are after it.
  abbrev pub Recent : K → V → ℕ → OrderedDict K V → Type 0
  Recent k v n [] = ⊥
  Recent k v n ((j, w) ∷ d) =
      ((j ≡ k) × (w ≡ v) × (length d ≤ n)) ⊎ ((e.beq j k ≡ false) × Recent k v n d)

  pub get-Recent : (k : K) (v : V) (n : ℕ) (d : OrderedDict K V) → Recent k v n d → get k d ≡ some v
  unfolding get
  get-Recent k v n [] r = absurd r
  get-Recent k v n ((j, w) ∷ d) (inl (same, is, few)) = rw ((e.beq_iff j k).1 same) (ap some is)
  get-Recent k v n ((j, w) ∷ d) (inr (other, r)) = rw other (get-Recent k v n d r)

  pub Recent-more :
      (k : K) (v : V) (m n : ℕ) (d : OrderedDict K V) → m ≤ n → Recent k v m d → Recent k v n d
  Recent-more k v m n [] h r = r
  Recent-more k v m n ((j, w) ∷ d) h (inl (same, is, few)) = inl (same, is, omega arith)
  Recent-more k v m n ((j, w) ∷ d) h (inr (other, r)) = inr (other, Recent-more k v m n d h r)

  Recent-append :
      (k : K) (v : V) (n : ℕ) (d : OrderedDict K V) (x : K × V)
      → Recent k v n d
      → Recent k v (suc n) (d ++ (x ∷ []))
  Recent-append k v n [] x r = absurd r
  Recent-append k v n ((j, w) ∷ d) x (inl (same, is, few)) =
      inl (same, is, omega (arith, length-append d (x ∷ [])))
  Recent-append k v n ((j, w) ∷ d) x (inr (other, r)) = inr (other, Recent-append k v n d x r)

  Recent-remove :
      (k j : K) (v : V) (n : ℕ) (d : OrderedDict K V)
      → e.beq j k ≡ false
      → Recent k v n d
      → Recent k v n (remove j d)
  unfolding remove
  Recent-remove k j v n [] h r = r
  Recent-remove k j v n ((i, w) ∷ d) h r = elim (Bool-cases (e.beq i j)) [
    | inl gone ↦ elim r [
      | inl (same, is, few) ↦
          let clash : true ≡ false =
            sym ((e.beq_iff j k).1 (sym ((e.beq_iff i j).0 gone) ∙ same)) ∙ h in
          absurd (cc clash)
      | inr (other, rest) ↦ rw gone (Recent-remove k j v n d h rest)
    ]
    | inr stays ↦ elim r [
      | inl (same, is, few) ↦ rw stays (inl (same, is, omega (arith, length-remove j d)))
      | inr (other, rest) ↦ rw stays (inr (other, Recent-remove k j v n d h rest))
    ]
  ]

  -- The oldest entry is not this one, if more entries than `n` come after it.
  Recent-pop :
      (k : K) (v : V) (n : ℕ) (d : OrderedDict K V)
      → suc n < length d
      → Recent k v n d
      → Recent k v n (pop_oldest d)
  unfolding pop_oldest
  Recent-pop k v n [] h r = r
  Recent-pop k v n ((j, w) ∷ d) h (inl (same, is, few)) = absurd (omega arith)
  Recent-pop k v n ((j, w) ∷ d) h (inr (other, r)) = r

  Recent-last :
      (k : K) (v : V) (d : OrderedDict K V) → get k d ≡ none → Recent k v 0 (d ++ ((k, v) ∷ []))
  unfolding get
  Recent-last k v [] h = inl (refl, refl, omega arith)
  Recent-last k v ((j, w) ∷ d) h = elim (Bool-cases (e.beq j k)) [
    | inl same ↦ let clash : some w ≡ none = rw same at h in absurd (cc clash)
    | inr other ↦ inr (other, Recent-last k v d (rw other at h))
  ]

  -- A new entry is the newest.
  pub Recent-put_bounded :
      (capacity : ℕ) (k : K) (v : V) (d : OrderedDict K V)
      → get k d ≡ none
      → Recent k v 0 (put_bounded (suc capacity) k v d)
  unfolding put_bounded
  Recent-put_bounded capacity k v d absent =
      rw (put-absent k v d absent)
        (elim (Bool-cases (ltb (suc capacity) (length (d ++ ((k, v) ∷ []))))) [
          | inr room ↦ rw room (Recent-last k v d absent)
          | inl full ↦
              rw full
                (Recent-pop k v 0 (d ++ ((k, v) ∷ [])) (ground arith) (Recent-last k v d absent))
        ])

  -- Another new entry makes room by an older one.
  pub Recent-put_other :
      (capacity : ℕ) (k j : K) (v w : V) (n : ℕ) (d : OrderedDict K V)
      → suc n < capacity
      → get j d ≡ none
      → Recent k v n d
      → Recent k v (suc n) (put_bounded capacity j w d)
  unfolding put_bounded
  Recent-put_other capacity k j v w n d few absent r =
      let longer = d ++ ((j, w) ∷ []) in
      let later = Recent-append k v n d (j, w) r in
      rw (put-absent j w d absent) (elim (Bool-cases (ltb capacity (length longer))) [
        | inr room ↦ rw room later
        | inl full ↦ rw full (Recent-pop k v (suc n) longer (ground arith) later)
      ])

  -- The entry that was moved is the newest.
  pub Recent-move_to_end :
      (k : K) (v : V) (d : OrderedDict K V) → get k d ≡ some v → Recent k v 0 (move_to_end k d)
  unfolding move_to_end entry
  Recent-move_to_end k v d found =
      let gone : get k (remove k d) ≡ none = rw (get-remove k k d, (e.beq_iff k k).1 refl) refl in
      rw found (Recent-last k v (remove k d) gone)

  Recent-move_other :
      (k j : K) (v w : V) (n : ℕ) (d : OrderedDict K V)
      → e.beq j k ≡ false
      → get j d ≡ some w
      → Recent k v n d
      → Recent k v (suc n) (move_to_end j d)
  unfolding move_to_end entry
  Recent-move_other k j v w n d other found r =
      rw found (Recent-append k v n (remove j d) (j, w) (Recent-remove k j v n d other r))

  -- An entry that is moved goes after this one, or is this one.
  pub Recent-moved :
      (k j : K) (v w : V) (n : ℕ) (d : OrderedDict K V)
      → get j d ≡ some w
      → Recent k v n d
      → Recent k v (suc n) (move_to_end j d)
  Recent-moved k j v w n d found r = elim (Bool-cases (e.beq j k)) [
    | inr other ↦ Recent-move_other k j v w n d other found r
    | inl same ↦
        let newest = Recent-move_to_end k v d (get-Recent k v n d r) in
        rw ((e.beq_iff j k).0 same)
          (Recent-more k v 0 (suc n) (move_to_end k d) (omega arith) newest)
  ]
