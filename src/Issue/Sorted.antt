-- ===== src/Issue/Sorted.antt =====
-- issue/service.go: the order of `GetChildren`.
use mathlib.Core.List.{Perm, perm_middle, append-nil}
use mathlib.Core.List.Perm
use spec_powers.Prelude.{
  ◌≡◌, true, false, List, [], ◌∷◌, ◌++◌, All, All-imp, arith, Bool-cases, inl, inr,
}
use spec_powers.Domain.{Issue}
use spec_powers.Issue.Children.{goes_before, sink_row, sort_rows, first_to_last, sort_children}

-- `x` comes after `y`, or neither goes before the other.
NotBefore : Issue → Issue → Type 0
NotBefore x y = goes_before x y ≡ false

NotBefore-trans : (x y z : Issue) → NotBefore x y → NotBefore y z → NotBefore x z
unfolding NotBefore
NotBefore-trans x y z h k = ground arith

NotBefore-asym : (x y : Issue) → goes_before x y ≡ true → NotBefore y x
unfolding NotBefore
NotBefore-asym x y h = ground arith

-- In order, the last row first.
Falling : List Issue → Type 0
Falling [] = Unit
Falling (x ∷ xs) = All (λ y. NotBefore x y) xs × Falling xs

-- In order, the first row first.
unfoldable pub Rising : List Issue → Type 0
unfolding NotBefore
Rising [] = Unit
Rising (x ∷ xs) = All (λ y. NotBefore y x) xs × Rising xs

sink_row-All :
    (P : Issue → Type 0) (k : Issue) (xs : List Issue) → P k → All P xs → All P (sink_row k xs)
unfolding sink_row
sink_row-All P k [] h hs = (h, tt)
sink_row-All P k (x ∷ xs) h (hx, hs) = elim (Bool-cases (goes_before k x)) [
  | inl e ↦ rw e (hx, sink_row-All P k xs h hs)
  | inr e ↦ rw e (h, (hx, hs))
]

sink_row-Falling : (k : Issue) (xs : List Issue) → Falling xs → Falling (sink_row k xs)
unfolding sink_row Falling NotBefore
sink_row-Falling k [] h = (tt, tt)
sink_row-Falling k (x ∷ xs) (h, hs) = elim (Bool-cases (goes_before k x)) [
  | inl e ↦
      rw e
        (sink_row-All (λ y. NotBefore x y) k xs (NotBefore-asym k x e) h, sink_row-Falling k xs hs)
  | inr e ↦ rw e ((e, All-imp xs (λ y hy. NotBefore-trans k x y e hy) h), (h, hs))
]

sink_row-perm : (k : Issue) (xs : List Issue) → Perm (sink_row k xs) (k ∷ xs)
unfolding sink_row
sink_row-perm k [] = Perm.refl (k ∷ [])
sink_row-perm k (x ∷ xs) = elim (Bool-cases (goes_before k x)) [
  | inl e ↦ rw e (Perm.trans (Perm.cons x (sink_row-perm k xs)) (Perm.swap k x xs))
  | inr e ↦ rw e (Perm.refl (k ∷ x ∷ xs))
]

sort_rows-Falling : (xs kids : List Issue) → Falling xs → Falling (sort_rows xs kids)
unfolding sort_rows
sort_rows-Falling xs [] h = h
sort_rows-Falling xs (k ∷ kids) h = sort_rows-Falling (sink_row k xs) kids (sink_row-Falling k xs h)

sort_rows-perm : (xs kids : List Issue) → Perm (sort_rows xs kids) (xs ++ kids)
unfolding sort_rows
sort_rows-perm xs [] = rw append-nil (Perm.refl xs)
sort_rows-perm xs (k ∷ kids) = Perm.trans (sort_rows-perm (sink_row k xs) kids) (
    Perm.trans (Perm.append (sink_row-perm k xs) (Perm.refl kids))
      (Perm.symm (perm_middle xs kids)))

first_to_last-perm : (xs out : List Issue) → Perm (first_to_last xs out) (xs ++ out)
unfolding first_to_last
first_to_last-perm [] out = Perm.refl out
first_to_last-perm (x ∷ xs) out = Perm.trans (first_to_last-perm xs (x ∷ out)) (perm_middle xs out)

first_to_last-Rising :
    (xs out : List Issue)
    → Falling xs
    → Rising out
    → All (λ y. All (λ x. NotBefore y x) xs) out
    → Rising (first_to_last xs out)
unfolding first_to_last Falling Rising
first_to_last-Rising [] out f r h = r
first_to_last-Rising (x ∷ xs) out (fx, f) r h =
    first_to_last-Rising xs (x ∷ out) f (All-imp out (λ y hy. hy.0) h, r)
      (fx, All-imp out (λ y hy. hy.1) h)

-- GetChildren orders the rows by stage and position: the result has the rows that the store listed,
-- each as often, and no row comes before an earlier one.
pub sort_children-sorts :
    (kids : List Issue) → Rising (sort_children kids) × Perm (sort_children kids) kids
unfolding sort_children Falling Rising
sort_children-sorts kids = (
  first_to_last-Rising (sort_rows [] kids) [] (sort_rows-Falling [] kids tt) tt tt,
  Perm.trans (first_to_last-perm (sort_rows [] kids) []) (rw append-nil (sort_rows-perm [] kids)),
)
