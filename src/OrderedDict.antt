-- ===== src/OrderedDict.antt =====
-- Python's `OrderedDict`, oldest entry first, for the caches of crypto.py and multi_server.py; and
-- its `dict`, whose order the program never reads.
pub mod Entries
pub mod Recent
pub mod Pairing
use matf_master_vpn.Prelude.{
  ℕ, suc, ◌+◌, ◌-◌, ◌≤◌, ◌≡◌, refl, ap, Bool, true, false, Option, none, some, List, [], ◌∷◌, ◌++◌,
  length, length-append, ltb, if◌then◌else◌, arith, Bool-cases, Option-cases, inl, inr,
}
use matf_master_vpn.Prelude.Equality.{Eq}

abbrev pub OrderedDict {ℓ κ} : Type ℓ → Type κ → Type (ℓ ⊔ κ)
OrderedDict K V = List (K × V)

module _ {ℓ κ} {K : Type ℓ} {V : Type κ} ⦃e : Eq K⦄ where
  -- d.get(k)
  unfoldable pub get : K → OrderedDict K V → Option V
  get k [] = none
  get k ((j, v) ∷ d) = if e.beq j k then some v else get k d

  -- d.pop(k, None)
  unfoldable pub remove : K → OrderedDict K V → OrderedDict K V
  remove k [] = []
  remove k ((j, v) ∷ d) = let rest = remove k d in if e.beq j k then rest else (j, v) ∷ rest

  unfoldable pub entry : K → Option V → OrderedDict K V
  entry k none = []
  entry k (some v) = (k, v) ∷ []

  -- d.move_to_end(k), for a key that is there
  unfoldable pub move_to_end : K → OrderedDict K V → OrderedDict K V
  unfolding entry
  move_to_end k d = remove k d ++ entry k (get k d)

  -- d[k] = v: a new key goes to the end, a key that is there stays in its place
  unfoldable pub put : K → V → OrderedDict K V → OrderedDict K V
  put k v [] = (k, v) ∷ []
  put k v ((j, w) ∷ d) = if e.beq j k then (j, v) ∷ d else (j, w) ∷ put k v d

  -- d.popitem(last=False)
  unfoldable pub pop_oldest : OrderedDict K V → OrderedDict K V
  pop_oldest [] = []
  pop_oldest (x ∷ d) = d

  -- Insert into a cache that holds at most `capacity` entries, dropping the oldest if it is full.
  unfoldable pub put_bounded : ℕ → K → V → OrderedDict K V → OrderedDict K V
  put_bounded capacity k v d =
      let larger = put k v d in if ltb capacity (length larger) then pop_oldest larger else larger

  length-put : (k : K) (v : V) (d : OrderedDict K V) → length (put k v d) ≤ suc (length d)
  unfolding put
  length-put k v [] = omega arith
  length-put k v ((j, w) ∷ d) = ground (arith, length-put k v d)

  length-pop_oldest : (d : OrderedDict K V) → length (pop_oldest d) ≡ length d - 1
  unfolding pop_oldest
  length-pop_oldest [] = omega arith
  length-pop_oldest (x ∷ d) = omega arith

  pub length-put_bounded :
      (capacity : ℕ) (k : K) (v : V) (d : OrderedDict K V)
      → length d ≤ capacity
      → length (put_bounded capacity k v d) ≤ capacity
  unfolding put_bounded
  length-put_bounded capacity k v d fits =
      ground (arith, length-put k v d, length-pop_oldest (put k v d))

  pub length-remove : (k : K) (d : OrderedDict K V) → length (remove k d) ≤ length d
  unfolding remove
  length-remove k [] = omega arith
  length-remove k ((j, v) ∷ d) = ground (arith, length-remove k d)

  length-remove_found :
      (k : K) (d : OrderedDict K V) (v : V)
      → get k d ≡ some v
      → suc (length (remove k d)) ≤ length d
  unfolding get remove
  length-remove_found k [] v h = cc
  length-remove_found k ((j, w) ∷ d) v h =
      ground (arith, length-remove_found k d v, length-remove k d)

  pub length-move_to_end : (k : K) (d : OrderedDict K V) → length (move_to_end k d) ≤ length d
  unfolding move_to_end
  length-move_to_end k d = elim (Option-cases (get k d)) [
    | inl missing ↦ rw missing (omega (arith, length-append (remove k d) [], length-remove k d))
    | inr (v, found) ↦
        rw found
          (omega (arith, length-append (remove k d) ((k, v) ∷ []), length-remove_found k d v found))
  ]

  pub get-remove :
      (k j : K) (d : OrderedDict K V) → get j (remove k d) ≡ (if e.beq k j then none else get j d)
  unfolding get remove
  get-remove k j [] = ground arith
  get-remove k j ((i, v) ∷ d) =
      ground (arith, get-remove k j d, e.beq_iff i k, e.beq_iff i j, e.beq_iff k j)

  pub get-put :
      (k j : K) (v : V) (d : OrderedDict K V)
      → get j (put k v d) ≡ (if e.beq k j then some v else get j d)
  unfolding get put
  get-put k j v [] = refl
  get-put k j v ((i, w) ∷ d) =
      ground (arith, get-put k j v d, e.beq_iff i k, e.beq_iff i j, e.beq_iff k j)
