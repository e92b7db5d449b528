-- ===== src/Config/Order.antt =====
-- sort.Strings on distinct strings.
use blueripple_passkey.Prelude.{
  ◌≡◌, ◌↔◌, ◌⊎◌, refl, true, false, List, [], ◌∷◌, Bytes, All, arith, bytes_eq,
}
use blueripple_passkey.Config.{bytes_less, insert_sorted, sort_strings}

bytes_less_trans :
    (x y z : Bytes) → bytes_less x y ≡ true → bytes_less y z ≡ true → bytes_less x z ≡ true
unfolding bytes_less
bytes_less_trans [] [] z h k = cc
bytes_less_trans [] (b ∷ y) [] h k = cc
bytes_less_trans [] (b ∷ y) (c ∷ z) h k = refl
bytes_less_trans (a ∷ x) [] z h k = cc
bytes_less_trans (a ∷ x) (b ∷ y) [] h k = cc
bytes_less_trans (a ∷ x) (b ∷ y) (c ∷ z) h k = ground (arith, bytes_less_trans x y z)

-- Of two different strings one is less.
bytes_less_total :
    (x y : Bytes) → bytes_less x y ≡ false → bytes_eq x y ≡ false → bytes_less y x ≡ true
unfolding bytes_less bytes_eq
bytes_less_total [] [] h k = cc
bytes_less_total [] (b ∷ y) h k = cc
bytes_less_total (a ∷ x) [] h k = refl
bytes_less_total (a ∷ x) (b ∷ y) h k = ground (arith, bytes_less_total x y)

-- Each string is less than all that follow it, so that none stands twice.
abbrev pub Ascending : List Bytes → Type 0
Ascending [] = Unit
Ascending (x ∷ xs) = All (λ y. bytes_less x y ≡ true) xs × Ascending xs

abbrev pub NotIn : Bytes → List Bytes → Type 0
NotIn b [] = Unit
NotIn b (x ∷ xs) = (bytes_eq x b ≡ false) × NotIn b xs

-- No string stands twice.
abbrev pub Apart : List Bytes → Type 0
Apart [] = Unit
Apart (x ∷ xs) = NotIn x xs × Apart xs

abbrev pub IsIn : Bytes → List Bytes → Type 0
IsIn b [] = ⊥
IsIn b (x ∷ xs) = (x ≡ b) ⊎ IsIn b xs

below-All :
    (b x : Bytes) (xs : List Bytes)
    → bytes_less b x ≡ true
    → All (λ y. bytes_less x y ≡ true) xs
    → All (λ y. bytes_less b y ≡ true) xs
below-All b x [] h k = tt
below-All b x (y ∷ xs) h k = (bytes_less_trans b x y h k.0, below-All b x xs h k.1)

insert_sorted-All :
    (a b : Bytes) (xs : List Bytes)
    → bytes_less a b ≡ true
    → All (λ y. bytes_less a y ≡ true) xs
    → All (λ y. bytes_less a y ≡ true) (insert_sorted b xs)
unfolding insert_sorted
insert_sorted-All a b [] h k = (h, tt)
insert_sorted-All a b (x ∷ xs) h k = ground (arith, insert_sorted-All a b xs)

insert_sorted-Ascending :
    (b : Bytes) (xs : List Bytes) → Ascending xs → NotIn b xs → Ascending (insert_sorted b xs)
unfolding insert_sorted
insert_sorted-Ascending b [] h k = (tt, tt)
insert_sorted-Ascending b (x ∷ xs) h k = ground (
  arith,
  insert_sorted-All x b xs,
  insert_sorted-Ascending b xs,
  bytes_less_total x b,
  below-All b x xs,
)

insert_sorted-NotIn :
    (a b : Bytes) (xs : List Bytes)
    → bytes_eq b a ≡ false
    → NotIn a xs
    → NotIn a (insert_sorted b xs)
unfolding insert_sorted
insert_sorted-NotIn a b [] h k = (h, tt)
insert_sorted-NotIn a b (x ∷ xs) h k = ground (arith, insert_sorted-NotIn a b xs)

sort_strings-NotIn : (b : Bytes) (bs : List Bytes) → NotIn b bs → NotIn b (sort_strings bs)
unfolding sort_strings
sort_strings-NotIn b [] h = tt
sort_strings-NotIn b (x ∷ bs) h =
    insert_sorted-NotIn b x (sort_strings bs) h.0 (sort_strings-NotIn b bs h.1)

pub sort_strings-Ascending : (bs : List Bytes) → Apart bs → Ascending (sort_strings bs)
unfolding sort_strings
sort_strings-Ascending [] h = tt
sort_strings-Ascending (b ∷ bs) h =
    insert_sorted-Ascending b (sort_strings bs) (sort_strings-Ascending bs h.1)
      (sort_strings-NotIn b bs h.0)

insert_sorted-IsIn : (a b : Bytes) (xs : List Bytes) → IsIn a (insert_sorted b xs) ↔ IsIn a (b ∷ xs)
unfolding insert_sorted
insert_sorted-IsIn a b [] = ground arith
insert_sorted-IsIn a b (x ∷ xs) = ground (arith, insert_sorted-IsIn a b xs)

pub sort_strings-IsIn : (a : Bytes) (bs : List Bytes) → IsIn a (sort_strings bs) ↔ IsIn a bs
unfolding sort_strings
sort_strings-IsIn a [] = ground arith
sort_strings-IsIn a (b ∷ bs) =
    ground (arith, insert_sorted-IsIn a b (sort_strings bs), sort_strings-IsIn a bs)
