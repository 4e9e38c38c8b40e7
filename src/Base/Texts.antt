-- ===== src/Base/Texts.antt =====
-- Identifiers are texts. A JavaScript `Set` of them is a list without repetitions, in the order
-- of insertion, and `sort` orders texts by `compare` (JavaScript's order, for texts whose
-- characters are one UTF-16 unit each).
use Prim.Native.Nat.{ℕ, suc, ◌+◌, ◌<◌}
use Prim.Native.String.{String, compare}
use mathlib.Core.Path.{◌≡◌, refl, ap}
use mathlib.Core.Bool.{Bool, true, false, not, ◌&&◌, ◌||◌, false≢true}
use mathlib.Core.Logic.{inl, inr, ◌↔◌}
use mathlib.Core.List.{List, [], ◌∷◌, ◌++◌}
use native.Mathlib.Omega.{arith}
use text.Mathlib.Text.{◌==◌, is_le}
use text.Mathlib.TextEquality.{eq_iff}
use text.Mathlib.TextPositions.{eq_refl}
use cherry_on_top.Base.Tests.{if◌then◌else◌, Bool-cases}
use cherry_on_top.Base.Lists.{filter}

abbrev pub str_eq : String → String → Bool
str_eq s t = s == t

-- `s < t`
abbrev pub str_lt : String → String → Bool
str_lt s t = not (is_le (compare t s))

pub str_eq-eq : (s t : String) → str_eq s t ≡ true → s ≡ t
str_eq-eq s t h = (eq_iff s t).0 h

pub str_eq_refl : (s : String) → str_eq s s ≡ true
str_eq_refl s = eq_refl s

-- `xs.includes(x)`, and `has` of a set
abbrev pub includes : List String → String → Bool
includes [] x = false
includes (y ∷ ys) x = (y == x) || includes ys x

-- how often `x` stands in the list
abbrev pub occurrences : String → List String → ℕ
occurrences x [] = 0
occurrences x (y ∷ ys) = let rest = occurrences x ys in if y == x then suc rest else rest

-- `set.add(x)`
abbrev pub add : List String → String → List String
add xs x = if includes xs x then xs else xs ++ x ∷ []

-- `new Set(xs)`, from the elements already seen
abbrev pub unique_from : List String → List String → List String
unique_from seen [] = seen
unique_from seen (x ∷ xs) = unique_from (add seen x) xs

abbrev pub unique : List String → List String
unique xs = unique_from [] xs

abbrev pub insert_sorted : String → List String → List String
insert_sorted x [] = x ∷ []
insert_sorted x (y ∷ ys) =
    let rest = insert_sorted x ys in if is_le (compare x y) then x ∷ y ∷ ys else y ∷ rest

-- `xs.sort()`
abbrev pub sort : List String → List String
sort [] = []
sort (x ∷ xs) = insert_sorted x (sort xs)

pub includes-append :
    (xs ys : List String) (a : String) → includes (xs ++ ys) a ≡ (includes xs a || includes ys a)
includes-append [] ys a = refl
includes-append (x ∷ xs) ys a = ground (arith, includes-append xs ys a)

pub includes-add :
    (xs : List String) (x a : String) → includes (add xs x) a ≡ (includes xs a || (x == a))
includes-add xs x a = ground (arith, includes-append xs (x ∷ []) a, eq_iff x a)

pub includes-unique_from :
    (seen xs : List String) (a : String)
    → includes (unique_from seen xs) a ≡ (includes seen a || includes xs a)
includes-unique_from seen [] a = ground arith
includes-unique_from seen (x ∷ xs) a =
    ground (arith, includes-unique_from (add seen x) xs a, includes-add seen x a)

pub includes-unique : (xs : List String) (a : String) → includes (unique xs) a ≡ includes xs a
includes-unique xs a = includes-unique_from [] xs a

pub includes-insert_sorted :
    (x : String) (xs : List String) (a : String)
    → includes (insert_sorted x xs) a ≡ ((x == a) || includes xs a)
includes-insert_sorted x [] a = refl
includes-insert_sorted x (y ∷ ys) a = ground (arith, includes-insert_sorted x ys a)

pub includes-sort : (xs : List String) (a : String) → includes (sort xs) a ≡ includes xs a
includes-sort [] a = refl
includes-sort (x ∷ xs) a = ground (arith, includes-sort xs a, includes-insert_sorted x (sort xs) a)

pub includes-filter :
    (p : String → Bool) (xs : List String) (a : String)
    → includes (filter p xs) a ≡ (includes xs a && p a)
includes-filter p [] a = refl
includes-filter p (x ∷ xs) a = ground (arith, includes-filter p xs a, eq_iff x a)

-- `` `${s}${t}` ``
abbrev pub str_append : String → String → String
str_append s t = Prim.Native.String.◌++◌ s t

-- `xs.join(sep)`
abbrev pub join : String → List String → String
join sep [] = ""
join sep (x ∷ []) = x
join sep (x ∷ y ∷ ys) = str_append x (str_append sep (join sep (y ∷ ys)))

pub filter-eq-nil :
    (p : String → Bool) (xs : List String)
    → ((x : String) → includes xs x ≡ true → p x ≡ false)
    → filter p xs ≡ []
filter-eq-nil p [] h = refl
filter-eq-nil p (x ∷ xs) h =
    rw (h x (ground (arith, eq_refl x))) (filter-eq-nil p xs (λ y m. h y (ground arith)))

pub none_of_filter-eq-nil :
    (p : String → Bool) (xs : List String)
    → filter p xs ≡ []
    → (x : String) → includes xs x ≡ true
    → p x ≡ false
none_of_filter-eq-nil p [] e x m = absurd (false≢true m)
none_of_filter-eq-nil p (y ∷ ys) e x m = elim (Bool-cases (p y)) [
  | inl kept ↦ cc (rw kept at e)
  | inr dropped ↦ ground (arith, none_of_filter-eq-nil p ys (rw dropped at e) x, eq_iff y x)
]

filter-eq-self_of :
    (p : String → Bool) (xs : List String)
    → ((x : String) → includes xs x ≡ true → p x ≡ true)
    → filter p xs ≡ xs
filter-eq-self_of p [] h = refl
filter-eq-self_of p (x ∷ xs) h =
    rw (h x (ground (arith, eq_refl x)))
      (ap (λ ys. x ∷ ys) (filter-eq-self_of p xs (λ y m. h y (ground arith))))

-- Keeping the elements that two tests find in the list itself keeps the list.
pub filter-includes_self : (xs : List String) → filter (λ x. includes xs x && includes xs x) xs ≡ xs
filter-includes_self xs = filter-eq-self_of _ xs (λ x m. ground arith)

pub occurrences-append :
    (x : String) (ys zs : List String)
    → occurrences x (ys ++ zs) ≡ occurrences x ys + occurrences x zs
occurrences-append x [] zs = omega arith
occurrences-append x (y ∷ ys) zs = ground (arith, occurrences-append x ys zs)

pub includes_iff-occurrences :
    (x : String) (ys : List String) → (includes ys x ≡ true) ↔ (0 < occurrences x ys)
includes_iff-occurrences x [] = ground arith
includes_iff-occurrences x (y ∷ ys) = ground (arith, includes_iff-occurrences x ys)

pub occurrences-insert_sorted :
    (x y : String) (ys : List String) → occurrences x (insert_sorted y ys) ≡ occurrences x (y ∷ ys)
occurrences-insert_sorted x y [] = refl
occurrences-insert_sorted x y (z ∷ zs) = ground (arith, occurrences-insert_sorted x y zs)

pub occurrences-sort : (x : String) (ys : List String) → occurrences x (sort ys) ≡ occurrences x ys
occurrences-sort x [] = refl
occurrences-sort x (y ∷ ys) =
    ground (arith, occurrences-sort x ys, occurrences-insert_sorted x y (sort ys))
