-- ===== src/Registrar/Order.antt =====
-- The order of Go strings and of group resources, and stable sorting by it.
use krop_controller.Base.{
  Text, ◌==◌, text_eq, if◌then◌else◌, ltb, ◌≡◌, refl, Bool, true, false, List, [], ◌∷◌, arith, inl,
  inr, Bool-cases,
}
use krop_controller.Api.Object.{Gr, gr_eq}

-- `a < b` on strings: bytewise.
abbrev pub text_less : Text → Text → Bool
text_less [] [] = false
text_less [] (y ∷ ys) = true
text_less (x ∷ xs) [] = false
text_less (x ∷ xs) (y ∷ ys) =
    let rest = text_less xs ys in if ltb x y then true else if ltb y x then false else rest

-- By group, then by resource.
unfoldable pub gr_less : Gr → Gr → Bool
gr_less a b =
    if a.group == b.group then text_less a.resource b.resource else text_less a.group b.group

module _ {A : Type 0} (key : A → Gr) where
  -- Before the first item that does not come before it: equal items keep their order.
  unfoldable pub insert_sorted : A → List A → List A
  insert_sorted c [] = c ∷ []
  insert_sorted c (x ∷ xs) =
      let rest = insert_sorted c xs in if gr_less (key x) (key c) then x ∷ rest else c ∷ x ∷ xs

  unfoldable pub sort_stable : List A → List A
  sort_stable [] = []
  sort_stable (c ∷ cs) = insert_sorted c (sort_stable cs)

text_less_irrefl : (x : Text) → text_less x x ≡ false
text_less_irrefl [] = refl
text_less_irrefl (x ∷ xs) = ground (arith, text_less_irrefl xs)

text_less_asym : (x y : Text) → text_less x y ≡ true → text_less y x ≡ false
text_less_asym [] [] h = ground arith
text_less_asym [] (y ∷ ys) h = refl
text_less_asym (x ∷ xs) [] h = ground arith
text_less_asym (x ∷ xs) (y ∷ ys) h = ground (arith, text_less_asym xs ys)

text_less_total : (x y : Text) → text_less x y ≡ false → text_less y x ≡ false → x ≡ y
text_less_total [] [] h k = refl
text_less_total [] (y ∷ ys) h k = ground arith
text_less_total (x ∷ xs) [] h k = ground arith
text_less_total (x ∷ xs) (y ∷ ys) h k = ground (arith, text_less_total xs ys)

text_less_trans :
    (x y z : Text) → text_less x y ≡ true → text_less y z ≡ true → text_less x z ≡ true
text_less_trans [] [] z h k = ground arith
text_less_trans [] (y ∷ ys) [] h k = ground arith
text_less_trans [] (y ∷ ys) (z ∷ zs) h k = refl
text_less_trans (x ∷ xs) [] z h k = ground arith
text_less_trans (x ∷ xs) (y ∷ ys) [] h k = ground arith
text_less_trans (x ∷ xs) (y ∷ ys) (z ∷ zs) h k = ground (arith, text_less_trans xs ys zs)

pub gr_less_irrefl : (a : Gr) → gr_less a a ≡ false
unfolding gr_less
gr_less_irrefl a = ground (arith, text_less_irrefl a.resource)

pub gr_less_asym : (a b : Gr) → gr_less a b ≡ true → gr_less b a ≡ false
unfolding gr_less
gr_less_asym a b h =
    ground (arith, text_less_asym a.resource b.resource, text_less_asym a.group b.group)

pub gr_less_trans : (a b c : Gr) → gr_less a b ≡ true → gr_less b c ≡ true → gr_less a c ≡ true
unfolding gr_less
gr_less_trans a b c h k = ground (
  arith,
  text_less_trans a.resource b.resource c.resource,
  text_less_trans a.group b.group c.group,
  text_less_asym a.group b.group,
)

pub gr_less_total : (a b : Gr) → gr_less a b ≡ false → gr_less b a ≡ false → a ≡ b
unfolding gr_less
gr_less_total a b h k =
    ground (arith, text_less_total a.resource b.resource, text_less_total a.group b.group)

module _ {A : Type 0} (key : A → Gr) where
  -- No item comes before the one in front of it.
  abbrev pub IsSorted : List A → Type 0
  IsSorted [] = Unit
  IsSorted (x ∷ []) = Unit
  IsSorted (x ∷ y ∷ ys) = (gr_less (key y) (key x) ≡ false) × IsSorted (y ∷ ys)

  insert_sorted-IsSorted : (c : A) (xs : List A) → IsSorted xs → IsSorted (insert_sorted key c xs)
  unfolding insert_sorted
  insert_sorted-IsSorted c [] h = tt
  insert_sorted-IsSorted c (x ∷ []) h = elim (Bool-cases (gr_less (key x) (key c))) [
    | inl before ↦ rw before (gr_less_asym (key x) (key c) before, tt)
    | inr behind ↦ rw behind (behind, tt)
  ]
  insert_sorted-IsSorted c (x ∷ y ∷ ys) h = elim (Bool-cases (gr_less (key x) (key c))) [
    | inl before ↦
        let rest = insert_sorted-IsSorted c (y ∷ ys) h.1 in
        elim (Bool-cases (gr_less (key y) (key c))) [
          | inl next ↦ rw (before, next) (h.0, rw next at rest)
          | inr last ↦ rw (before, last) (gr_less_asym (key x) (key c) before, rw last at rest)
        ]
    | inr behind ↦ rw behind (behind, h)
  ]

  pub sort_stable-IsSorted : (cs : List A) → IsSorted (sort_stable key cs)
  unfolding sort_stable
  sort_stable-IsSorted [] = tt
  sort_stable-IsSorted (c ∷ cs) = insert_sorted-IsSorted c _ (sort_stable-IsSorted cs)
