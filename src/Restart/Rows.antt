-- ===== src/Restart/Rows.antt =====
-- What updating the rows of a table keeps.
use mathlib.Core.Bool.{true≢false}
use mathlib.Core.List.{Memᴰ}
use mathlib.Core.List.Memᴰ
use cherry_on_top.Base.{
  ap, Bool, filter, str_eq_refl, ◌≡◌, sym, ◌∙◌, ◌⊎◌, String, true, false, List, [], ◌∷◌, str_eq,
  Bool-cases, inl, inr, All, All-of_mem, All-map,
}
use cherry_on_top.Restart.{NodeRow, update_rows}

module _ {S : Type 0} (P Q : NodeRow S → Type 0) (f : NodeRow S → NodeRow S) (id : String) where
  pub All-update_rows :
      ((q : NodeRow S) → P q → str_eq q.id id ≡ true → Q (f q))
      → ((q : NodeRow S) → P q → str_eq q.id id ≡ false → Q q)
      → (rows : List (NodeRow S)) → All P rows
      → All Q (update_rows f id rows)
  All-update_rows hit miss [] h = tt
  All-update_rows hit miss (r ∷ rs) (p, h) = elim (Bool-cases (str_eq r.id id)) [
    | inl same ↦ rw same (hit r p same, All-update_rows hit miss rs h)
    | inr other ↦ rw other (miss r p other, All-update_rows hit miss rs h)
  ]

-- every row is done with, or waits in the list
abbrev pub Pending : {S : Type 0} → (NodeRow S → Type 0) → List (NodeRow S) → NodeRow S → Type 0
Pending P rest q = P q ⊎ Memᴰ q rest

pub All-Pending_self :
    {S : Type 0} (P : NodeRow S → Type 0) (rows : List (NodeRow S)) → All (Pending P rows) rows
All-Pending_self P rows = All-of_mem (Pending P rows) rows (λ q m. inr m)

pub All-Pending_nil :
    {S : Type 0} (P : NodeRow S → Type 0) (rows : List (NodeRow S))
    → All (Pending P []) rows
    → All P rows
All-Pending_nil P rows h =
    All-map (Pending P []) P (λ q p. elim p [ inl done ↦ done | inr m ↦ absurd (Memᴰ.not-nil m) ])
      rows h

-- a row with another id than the next one was done with, or waits still
pub Pending-miss :
    {S : Type 0} (P : NodeRow S → Type 0) (n : NodeRow S) (rest : List (NodeRow S)) (q : NodeRow S)
    → Pending P (n ∷ rest) q
    → str_eq q.id n.id ≡ false
    → Pending P rest q
Pending-miss P n rest q (inl done) other = inl done
Pending-miss {S} P n rest q (inr (Memᴰ.head e)) other =
    absurd
      (true≢false (sym (ap (λ (r : NodeRow S). str_eq r.id n.id) e ∙ str_eq_refl n.id) ∙ other))
Pending-miss P n rest q (inr (Memᴰ.tail m)) other = inr m

-- a row that needs nothing is done with when its turn comes
pub Pending-skip :
    {S : Type 0} (P : NodeRow S → Type 0) (n : NodeRow S) (rest : List (NodeRow S)) (q : NodeRow S)
    → P n
    → Pending P (n ∷ rest) q
    → Pending P rest q
Pending-skip P n rest q p (inl done) = inl done
Pending-skip P n rest q p (inr (Memᴰ.head e)) = inl (rw e p)
Pending-skip P n rest q p (inr (Memᴰ.tail m)) = inr m

pub Memᴰ-filter :
    {S : Type 0} (test : NodeRow S → Bool) (q : NodeRow S) (rows : List (NodeRow S))
    → Memᴰ q rows
    → test q ≡ true
    → Memᴰ q (filter test rows)
Memᴰ-filter test q [] m t = m
Memᴰ-filter {S} test q (r ∷ rs) (Memᴰ.head e) t = rw (sym (ap test e) ∙ t) (Memᴰ.head e)
Memᴰ-filter test q (r ∷ rs) (Memᴰ.tail m) t = elim (Bool-cases (test r)) [
  | inl kept ↦ rw kept (Memᴰ.tail (Memᴰ-filter test q rs m t))
  | inr dropped ↦ rw dropped (Memᴰ-filter test q rs m t)
]
